-- ===== src/Wire/Schema.antt =====
-- The classes of python/src/libjadx/_generated/models, which one template generates: a class is given by
-- its attributes in order, with their JSON keys and with what `from_dict` and `to_dict` do with each.
pub mod Written
pub mod Kinds
pub mod RoundTrip
pub mod Required
pub mod Enums
pub mod Symbols
pub mod ControlFlow
pub mod Source
pub mod References
pub mod Search
pub mod Edits
pub mod Service
pub mod Errors
pub mod Jobs
use libjadx.Base.{
  String, Bool, true, false, ◌&&◌, Option, none, some, List, [], ◌∷◌, str_eq, member, if◌then◌else◌,
}
use libjadx.Wire.Json.{
  Json, null, str, arr, obj, Items, nil, item, Members, end, get, put, remove, equals_ℕ,
}
use libjadx.Wire.Json
use libjadx.Wire.Codec.{Uuid, DateTime, Codec}
use libjadx.Wire.Job.{as_dict, of_text, ◌>>=◌}

-- What is done with one value: it is kept, or made a UUID, a time, a member of an enumeration with these
-- values or a list of them, an instance or a list of instances of a class, or compared with a literal.
-- `nullable` is the generated `_parse_…`: `None` is kept, and what cannot be read too.
mutual
  pub data Kind : Type 0 where
    plain uuid datetime false_literal : Kind
    enum enums : List String → Kind
    literal : String → Kind
    model models : Schema → Kind
    nullable : Kind → Kind

  -- The attributes; a class keeps the properties that it does not know, or it does not.
  pub data Schema : Type 0 where
    closed with_additional : Schema
    required optional : String → Kind → Schema → Schema

-- `required key kind $ …` for the attributes in order.
infixr 3 ◌$◌
abbrev pub ◌$◌ : (Schema → Schema) → Schema → Schema
add $ s = add s

mutual
  pub data Value : Type 0 where
    raw : Json → Value
    a_uuid : Uuid → Value
    a_datetime : DateTime → Value
    a_member : String → Value
    members : List String → Value
    instance_of : Object → Value
    instances : Objects → Value

  -- An instance: its attributes by their JSON keys, `UNSET` ones included.
  pub data Object : Type 0 where
    no_more : Object
    additional : Members → Object
    attribute : String → Value → Object → Object
    left_out : String → Object → Object

  pub data Objects : Type 0 where
    no_object : Objects
    object : Object → Objects → Objects

-- What `for x in value` goes over; `none` where it raises. A text that is not empty goes over texts,
-- which no class reads.
abbrev pub key_items : Members → Items
key_items end = nil
key_items (Json.member k v m) = item (str k) (key_items m)

abbrev pub iterated : Json → Option Items
iterated (arr xs) = some xs
iterated (obj m) = some (key_items m)
iterated (str s) = if str_eq s "" then some nil else none
iterated _ = none

-- The test of `_parse_…` before it tries: `isinstance(data, …)`.
abbrev pub is_typed : Kind → Json → Bool
is_typed uuid (str s) = true
is_typed datetime (str s) = true
is_typed (enum vs) (str s) = true
is_typed (enums vs) (arr xs) = true
is_typed (model s) (obj m) = true
is_typed (models s) (arr xs) = true
is_typed _ _ = false

abbrev is_text : String → Json → Bool
is_text s (str t) = str_eq t s
is_text s _ = false

-- The value, or what was there if it cannot be read.
abbrev pub or_raw : Json → Option Value → Value
or_raw j none = raw j
or_raw j (some v) = v

abbrev nulled : Json → Option Value → Option Value
nulled null v = some (raw null)
nulled j v = some (or_raw j v)

abbrev pub as_instance : Option Object → Option Value
as_instance none = none
as_instance (some o) = some (instance_of o)

abbrev pub as_instances : Option Objects → Option Value
as_instances none = none
as_instances (some os) = some (instances os)

abbrev pub with_attribute : String → Option Value → Option Object → Option Object
with_attribute key none _ = none
with_attribute key (some v) none = none
with_attribute key (some v) (some o) = some (attribute key v o)

abbrev pub without : String → Option Object → Option Object
without key none = none
without key (some o) = some (left_out key o)

-- `UNSET` where the key is missing.
abbrev pub if_given : Option Json → (Json → Option Object) → Option Object → Option Object
if_given none given unset = unset
if_given (some j) given unset = given j

abbrev pub with_object : Option Object → Option Objects → Option Objects
with_object none _ = none
with_object (some o) none = none
with_object (some o) (some os) = some (object o os)

abbrev member_of_enum : List String → String → Option Value
member_of_enum vs s = if member s vs then some (a_member s) else none

abbrev with_text : Option String → Option (List String) → Option (List String)
with_text none _ = none
with_text (some s) none = none
with_text (some s) (some ss) = some (s ∷ ss)

abbrev text_of_enum : List String → String → Option String
text_of_enum vs s = if member s vs then some s else none

-- Every item of a list, as a member of an enumeration.
abbrev pub each_member : List String → Items → Option (List String)
each_member vs nil = some []
each_member vs (item j js) = with_text (of_text (text_of_enum vs) j) (each_member vs js)

abbrev as_members : Option (List String) → Option Value
as_members none = none
as_members (some ss) = some (members ss)

abbrev pub texts : List String → Items
texts [] = nil
texts (s ∷ ss) = item (str s) (texts ss)

abbrev uuid_value : Option Uuid → Option Value
uuid_value none = none
uuid_value (some u) = some (a_uuid u)

abbrev datetime_value : Option DateTime → Option Value
datetime_value none = none
datetime_value (some d) = some (a_datetime d)

-- Every item of a list, read by `one`.
abbrev pub each : (Json → Option Object) → Items → Option Objects
each one nil = some no_object
each one (item j js) = with_object (one j) (each one js)

module _ (codec : Codec) where
  unfoldable mutual
    pub read_value : Kind → Json → Option Value
    read_value plain j = some (raw j)
    read_value uuid j = uuid_value (of_text codec.uuid_of j)
    read_value datetime j = datetime_value (of_text codec.datetime_of j)
    read_value false_literal j = if equals_ℕ j 0 then some (raw j) else none
    read_value (enum vs) j = of_text (member_of_enum vs) j
    read_value (enums vs) j = as_members (iterated j >>= each_member vs)
    read_value (literal s) j = if is_text s j then some (raw j) else none
    read_value (model s) j = as_instance (as_dict j >>= read_object s)
    read_value (models s) j = as_instances (iterated j >>= each (λ x. as_dict x >>= read_object s))
    read_value (nullable k) j =
        let tried = read_value k j in nulled j (if is_typed k j then tried else none)

    -- `from_dict`, over what is left of the dict.
    pub read_object : Schema → Members → Option Object
    read_object closed d = some no_more
    read_object with_additional d = some (additional d)
    read_object (required key k s) d =
        get key d >>= λ j. with_attribute key (read_value k j) (read_object s (remove key d))
    read_object (optional key k s) d =
        if_given (get key d)
          (λ j. with_attribute key (read_value k j) (read_object s (remove key d)))
          (without key (read_object s d))

-- The properties that the class does not know.
abbrev pub additional_of : Object → Members
additional_of no_more = end
additional_of (additional m) = m
additional_of (attribute key v o) = additional_of o
additional_of (left_out key o) = additional_of o

unfoldable mutual
  pub write_value : Value → Json
  write_value (raw j) = j
  write_value (a_uuid u) = str u.canonical
  write_value (a_datetime d) = str d.iso
  write_value (a_member s) = str s
  write_value (members ss) = arr (texts ss)
  write_value (instance_of o) = obj (write_onto o (additional_of o))
  write_value (instances os) = arr (write_all os)

  -- `to_dict`: the attributes are written onto the additional properties.
  pub write_onto : Object → Members → Members
  write_onto no_more m = m
  write_onto (additional _) m = m
  write_onto (attribute key v o) m = write_onto o (put key (write_value v) m)
  write_onto (left_out key o) m = write_onto o m

  pub write_all : Objects → Items
  write_all no_object = nil
  write_all (object o os) = item (obj (write_onto o (additional_of o))) (write_all os)

abbrev pub write_object : Object → Members
write_object o = write_onto o (additional_of o)
