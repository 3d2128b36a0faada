-- ===== src/Wire/Schema/RoundTrip.antt =====
-- `from_dict` behind `to_dict` for every class of python/src/libjadx/_generated/models that a schema gives.
use libjadx.Base.{String, true, false, some, List, member, ◌≡◌, refl}
use libjadx.Wire.Json.{Json, null, str, Members, equals_ℕ}
use libjadx.Wire.Codec.{Uuid, DateTime, Codec}
use libjadx.Wire.Job.{as_dict, ◌>>=◌}
use libjadx.Wire.Schema.{
  enums, members, Kind, plain, uuid, datetime, enum, literal, model, models, nullable, Schema,
  closed, with_additional, required, optional, Value, raw, a_uuid, a_datetime, a_member,
  instance_of, instances, Object, no_more, additional, attribute, left_out, Objects, no_object,
  object, is_typed, each, false_literal, read_value, read_object, write_value, write_onto,
  write_all, write_object,
}
use libjadx.Wire.Schema.Written.{IsNew, get-written, remove-written, get_left_out}
use libjadx.Wire.Schema.Kinds.{
  all_members, nullable_typed, nullable_raw, read_enum, read_enums, read_uuid, read_datetime,
  read_literal, read_false, read_model, read_models, each_more,
}

-- An instance that fits its class: each attribute has a value of its kind under a key of its own, a
-- literal has its value, where `False` is equal to 0, and a nullable one is null, of its kind, or a value that its kind cannot read.
-- The texts of UUIDs and times are ones that the codec reads back.
mutual
  pub data FitsKind (codec : Codec) : Kind → Value → Type 0 where
    fits_plain : {j : Json} → FitsKind codec plain (raw j)
    fits_uuid : {u : Uuid} → codec.uuid_of u.canonical ≡ some u → FitsKind codec uuid (a_uuid u)
    fits_datetime :
        {d : DateTime} → codec.datetime_of d.iso ≡ some d → FitsKind codec datetime (a_datetime d)
    fits_enum :
        {vs : List String} {s : String} → member s vs ≡ true → FitsKind codec (enum vs) (a_member s)
    fits_enums :
        {vs : List String} {ss : List String}
        → all_members vs ss ≡ true
        → FitsKind codec (enums vs) (members ss)
    fits_false : {j : Json} → equals_ℕ j 0 ≡ true → FitsKind codec false_literal (raw j)
    fits_literal : {s : String} → FitsKind codec (literal s) (raw (str s))
    fits_model :
        {s : Schema} {o : Object} → Fits codec s o → FitsKind codec (model s) (instance_of o)
    fits_models :
        {s : Schema} {os : Objects} → FitAll codec s os → FitsKind codec (models s) (instances os)
    fits_null : {k : Kind} → FitsKind codec (nullable k) (raw null)
    fits_nullable :
        {k : Kind} {v : Value}
        → is_typed k (write_value v) ≡ true
        → FitsKind codec k v
        → FitsKind codec (nullable k) v
    fits_raw : {k : Kind} {j : Json} → is_typed k j ≡ false → FitsKind codec (nullable k) (raw j)

  pub data Fits (codec : Codec) : Schema → Object → Type 0 where
    fits_closed : Fits codec closed no_more
    fits_additional : {m : Members} → Fits codec with_additional (additional m)
    fits_required :
        {key : String} {k : Kind} {s : Schema} {v : Value} {o : Object}
        → FitsKind codec k v
        → IsNew key o
        → Fits codec s o
        → Fits codec (required key k s) (attribute key v o)
    fits_given :
        {key : String} {k : Kind} {s : Schema} {v : Value} {o : Object}
        → FitsKind codec k v
        → IsNew key o
        → Fits codec s o
        → Fits codec (optional key k s) (attribute key v o)
    fits_unset :
        {key : String} {k : Kind} {s : Schema} {o : Object}
        → IsNew key o
        → Fits codec s o
        → Fits codec (optional key k s) (left_out key o)

  pub data FitAll (codec : Codec) : Schema → Objects → Type 0 where
    fit_none : {s : Schema} → FitAll codec s no_object
    fit_object :
        {s : Schema} {o : Object} {os : Objects}
        → Fits codec s o
        → FitAll codec s os
        → FitAll codec s (object o os)

module _ (codec : Codec) where
  read_required :
      (key : String) (k : Kind) (s : Schema) (v : Value) (o : Object)
      → IsNew key o
      → read_value codec k (write_value v) ≡ some v
      → read_object codec s (write_object o) ≡ some o
      → read_object codec (required key k s) (write_object (attribute key v o))
        ≡ some (attribute key v o)
  unfolding read_object write_onto
  read_required key k s v o n h r =
      rw (read_object, get-written key v o n, h, remove-written key v o n, r) refl

  read_given :
      (key : String) (k : Kind) (s : Schema) (v : Value) (o : Object)
      → IsNew key o
      → read_value codec k (write_value v) ≡ some v
      → read_object codec s (write_object o) ≡ some o
      → read_object codec (optional key k s) (write_object (attribute key v o))
        ≡ some (attribute key v o)
  unfolding read_object write_onto
  read_given key k s v o n h r =
      rw (read_object, get-written key v o n, h, remove-written key v o n, r) refl

  read_unset :
      (key : String) (k : Kind) (s : Schema) (o : Object)
      → IsNew key o
      → read_object codec s (write_object o) ≡ some o
      → read_object codec (optional key k s) (write_object (left_out key o)) ≡ some (left_out key o)
  unfolding read_object write_onto
  read_unset key k s o n r = rw (read_object, get_left_out key (raw null) o n, r) refl

  mutual
    unfolding read_value read_object write_value write_onto write_all

    value_back :
        {k : Kind} {v : Value} → FitsKind codec k v → read_value codec k (write_value v) ≡ some v
    value_back fits_plain = refl
    value_back (fits_uuid {u} e) = read_uuid codec u e
    value_back (fits_datetime {d} e) = read_datetime codec d e
    value_back (fits_enum {vs} {s} e) = read_enum codec vs s e
    value_back (fits_enums {vs} {ss} e) = read_enums codec vs ss e
    value_back (fits_false {j} e) = read_false codec j e
    value_back (fits_literal {s}) = read_literal codec s
    value_back (fits_model {s} {o} f) = read_model codec s o (object_back f)
    value_back (fits_models {s} {os} f) = read_models codec s os (objects_back f)
    value_back fits_null = refl
    value_back (fits_nullable {k} {v} t f) =
        nullable_typed codec k (write_value v) v t (value_back f)
    value_back (fits_raw {k} {j} t) = nullable_raw codec k j t

    object_back :
        {s : Schema} {o : Object} → Fits codec s o → read_object codec s (write_object o) ≡ some o
    object_back fits_closed = refl
    object_back fits_additional = refl
    object_back (fits_required {key} {k} {s} {v} {o} f n r) =
        read_required key k s v o n (value_back f) (object_back r)
    object_back (fits_given {key} {k} {s} {v} {o} f n r) =
        read_given key k s v o n (value_back f) (object_back r)
    object_back (fits_unset {key} {k} {s} {o} n r) = read_unset key k s o n (object_back r)

    objects_back :
        {s : Schema} {os : Objects}
        → FitAll codec s os
        → each (λ x. as_dict x >>= read_object codec s) (write_all os) ≡ some os
    objects_back fit_none = refl
    objects_back (fit_object {s} {o} {os} f r) =
        each_more codec s o os (object_back f) (objects_back r)

  -- An instance that fits its class is read back from its own dict: every attribute with its value,
  -- nested instances, `UNSET` and null ones included, and the additional properties.
  pub read_object-write_object :
      {s : Schema} {o : Object} → Fits codec s o → read_object codec s (write_object o) ≡ some o
  read_object-write_object f = object_back f
