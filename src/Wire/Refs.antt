-- ===== src/Wire/Refs.antt =====
-- models/symbol_ref.py and method_symbol_ref.py. What `from_dict` does not check is a JSON value.
-- No key is popped twice, so a popped key is read with `get`.
use libjadx.Base.{
  refl, String, Bool, false, Option, none, some, ◌≡◌, ◌↔◌, str_eq, if◌then◌else◌, arith,
}
use libjadx.Wire.Json.{Json, null, str, Members, end, Omittable, unset, given, get, put, put_given}
use libjadx.Wire.Enums.{SymbolRefKind, class, field, method, kind_value, kinds, member_of}
use libjadx.Wire.Job.{of_text, ◌>>=◌}

pub record SymbolRef : Type 0 where
  pub kind : SymbolRefKind
  pub original_class_descriptor : Json
  pub input_identity : Omittable Json
  pub original_name : Omittable Json
  pub original_descriptor : Omittable Json

unfoldable pub ref_to_dict : SymbolRef → Members
ref_to_dict r = put_given "originalDescriptor" r.original_descriptor (
    put_given "originalName" r.original_name (
      put_given "inputIdentity" r.input_identity (
        put "originalClassDescriptor" r.original_class_descriptor
          (put "kind" (str (kind_value r.kind)) end))))

-- d.pop(k, UNSET)
abbrev pub omittable : Option Json → Omittable Json
omittable none = unset
omittable (some v) = given v

abbrev read_kind : Json → Option SymbolRefKind
read_kind v = of_text (member_of kind_value kinds) v

unfoldable pub ref_from_dict : Members → Option SymbolRef
ref_from_dict d = do
  raw_kind ← get "kind" d
  kind ← read_kind raw_kind
  descriptor ← get "originalClassDescriptor" d
  some (record {
    kind = kind;
    original_class_descriptor = descriptor;
    input_identity = omittable (get "inputIdentity" d);
    original_name = omittable (get "originalName" d);
    original_descriptor = omittable (get "originalDescriptor" d);
  })

-- The reference of a method; its kind is the literal "METHOD".
pub record MethodSymbolRef : Type 0 where
  pub original_class_descriptor : Json
  pub original_name : Json
  pub original_descriptor : Json
  pub input_identity : Omittable Json

unfoldable pub method_to_dict : MethodSymbolRef → Members
method_to_dict r = put_given "inputIdentity" r.input_identity (
    put "originalDescriptor" r.original_descriptor (
      put "originalName" r.original_name (
        put "originalClassDescriptor" r.original_class_descriptor (put "kind" (str "METHOD") end))))

-- kind = cast(Literal["METHOD"], d.pop("kind")); if kind != "METHOD": raise ValueError
abbrev is_method : Json → Bool
is_method (str s) = str_eq s "METHOD"
is_method _ = false

unfoldable pub method_from_dict : Members → Option MethodSymbolRef
method_from_dict d = do
  kind ← get "kind" d
  descriptor ← get "originalClassDescriptor" d
  name ← get "originalName" d
  member ← get "originalDescriptor" d
  if is_method kind
      then some (record {
        original_class_descriptor = descriptor;
        original_name = name;
        original_descriptor = member;
        input_identity = omittable (get "inputIdentity" d);
      })
      else none

-- `SymbolRef.class_`, `.method` and `.field` of python/src/libjadx/symbols.py; `None` is null.
abbrev or_null : Option String → Json
or_null none = null
or_null (some s) = str s

unfoldable pub class_ref : String → Option String → SymbolRef
class_ref descriptor input_identity = record {
  kind = class;
  original_class_descriptor = str descriptor;
  input_identity = given (or_null input_identity);
  original_name = given null;
  original_descriptor = given null;
}

unfoldable pub method_ref : String → String → String → Option String → SymbolRef
method_ref owner name descriptor input_identity = record {
  kind = method;
  original_class_descriptor = str owner;
  input_identity = given (or_null input_identity);
  original_name = given (str name);
  original_descriptor = given (str descriptor);
}

unfoldable pub field_ref : String → String → String → Option String → SymbolRef
field_ref owner name descriptor input_identity = record {
  kind = field;
  original_class_descriptor = str owner;
  input_identity = given (or_null input_identity);
  original_name = given (str name);
  original_descriptor = given (str descriptor);
}

abbrev with_fields :
    SymbolRefKind → Json → Omittable Json → Omittable Json → Omittable Json → SymbolRef
with_fields kind descriptor identity name member = record {
  kind = kind;
  original_class_descriptor = descriptor;
  input_identity = identity;
  original_name = name;
  original_descriptor = member;
}

round_trip :
    (kind : SymbolRefKind) (descriptor : Json) (identity name member : Omittable Json)
    → ref_from_dict (ref_to_dict (with_fields kind descriptor identity name member))
      ≡ some (with_fields kind descriptor identity name member)
unfolding ref_from_dict ref_to_dict get put member_of
round_trip class d i n m = ground arith
round_trip field d i n m = ground arith
round_trip method d i n m = ground arith

-- A reference read from its own dict is the reference: no attribute is lost or made up, `UNSET` and
-- null included.
pub ref_from_dict-ref_to_dict : (r : SymbolRef) → ref_from_dict (ref_to_dict r) ≡ some r
ref_from_dict-ref_to_dict r =
    round_trip r.kind r.original_class_descriptor r.input_identity r.original_name
      r.original_descriptor

abbrev Restates : MethodSymbolRef → SymbolRef → Type 0
Restates m r =
    (r.kind ≡ method)
    × (m.original_class_descriptor ≡ r.original_class_descriptor)
    × (r.original_name ≡ given m.original_name)
    × (r.original_descriptor ≡ given m.original_descriptor)
    × (m.input_identity ≡ r.input_identity)

Restates-iff :
    (kind : SymbolRefKind) (descriptor : Json) (identity name member : Omittable Json)
    (m : MethodSymbolRef)
    → (method_from_dict (ref_to_dict (with_fields kind descriptor identity name member)) ≡ some m)
      ↔ Restates m (with_fields kind descriptor identity name member)
unfolding method_from_dict ref_to_dict get put
Restates-iff class d i n k m = ground arith
Restates-iff field d i n k m = ground arith
Restates-iff method d i n k m = ground arith

-- The dict of a reference reads as a method reference exactly when the kind is METHOD and the name
-- and the descriptor are not `UNSET`; the method reference then has the same attributes.
pub method_from_dict-ref_to_dict :
    (r : SymbolRef) (m : MethodSymbolRef)
    → (method_from_dict (ref_to_dict r) ≡ some m) ↔ (
        (r.kind ≡ method)
        × (m.original_class_descriptor ≡ r.original_class_descriptor)
        × (r.original_name ≡ given m.original_name)
        × (r.original_descriptor ≡ given m.original_descriptor)
        × (m.input_identity ≡ r.input_identity))
method_from_dict-ref_to_dict r m =
    Restates-iff r.kind r.original_class_descriptor r.input_identity r.original_name
      r.original_descriptor m

method_round_trip :
    (descriptor name member : Json) (identity : Omittable Json)
    → method_from_dict (
        method_to_dict (record {
          original_class_descriptor = descriptor;
          original_name = name;
          original_descriptor = member;
          input_identity = identity;
        }))
      ≡ some (record {
        original_class_descriptor = descriptor;
        original_name = name;
        original_descriptor = member;
        input_identity = identity;
      })
unfolding method_from_dict method_to_dict get put
method_round_trip d n m unset = refl
method_round_trip d n m (given i) = refl

-- A method reference read from its own dict is the reference.
pub method_from_dict-method_to_dict :
    (m : MethodSymbolRef) → method_from_dict (method_to_dict m) ≡ some m
method_from_dict-method_to_dict m =
    method_round_trip m.original_class_descriptor m.original_name m.original_descriptor
      m.input_identity
