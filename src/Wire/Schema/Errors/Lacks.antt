-- ===== src/Wire/Schema/Errors/Lacks.antt =====
-- The instances of classes of python/src/libjadx/_generated/models that keep properties under other keys
-- than those of attributes.
use libjadx.Base.{
  String, Bool, true, false, not, ◌&&◌, Option, none, some, List, [], ◌∷◌, member, ◌≡◌, refl, arith,
  eq_iff,
}
use libjadx.Wire.Json.{Json, Members, get, Omittable, unset, given}
use libjadx.Wire.Codec.{Codec}
use libjadx.Wire.Schema.{
  Kind, Schema, with_additional, required, optional, Value, Object, additional, attribute, left_out,
  additional_of,
}
use libjadx.Wire.Schema.Written.{has_key, IsNew}
use libjadx.Wire.Schema.RoundTrip.{
  FitsKind, Fits, fits_additional, fits_required, fits_given, fits_unset,
}
use libjadx.Wire.Schema.Errors.Objects.{field}

abbrev is_none : Option Json → Bool
is_none none = true
is_none (some j) = false

-- Whether an instance has none of these keys, as attributes or as additional properties.
abbrev pub lacks : List String → Object → Bool
lacks [] o = true
lacks (k ∷ ks) o = (not (has_key k o) && is_none (get k (additional_of o))) && lacks ks o

is_none_iff : (j : Option Json) → is_none j ≡ true → j ≡ none
is_none_iff none h = refl
is_none_iff (some j) h = absurd (cc)

new_of : (k : String) (ks : List String) (o : Object) → lacks (k ∷ ks) o ≡ true → IsNew k o
new_of k ks o h = record {
  no_attribute = ground arith;
  unknown = is_none_iff (get k (additional_of o)) (ground arith);
}

lacks_rest :
    (k : String) (ks : List String) (o : Object) → lacks (k ∷ ks) o ≡ true → lacks ks o ≡ true
lacks_rest k ks o h = ground arith

lacks-attribute :
    (k : String) (v : Value) (ks : List String) (o : Object)
    → member k ks ≡ false
    → lacks ks o ≡ true
    → lacks ks (attribute k v o) ≡ true
lacks-attribute k v [] o h l = refl
lacks-attribute k v (j ∷ js) o h l =
    let r : lacks js (attribute k v o) ≡ true =
      lacks-attribute k v js o (ground arith) (lacks_rest j js o l) in
    ground (arith, eq_iff j k, eq_iff k j)

lacks-left_out :
    (k : String) (ks : List String) (o : Object)
    → member k ks ≡ false
    → lacks ks o ≡ true
    → lacks ks (left_out k o) ≡ true
lacks-left_out k [] o h l = refl
lacks-left_out k (j ∷ js) o h l =
    let r : lacks js (left_out k o) ≡ true =
      lacks-left_out k js o (ground arith) (lacks_rest j js o l) in
    ground (arith, eq_iff j k, eq_iff k j)

module _ (codec : Codec) where
  -- An instance that fits a class and lacks some keys.
  pub record Keeps (ks : List String) (s : Schema) (o : Object) : Type 0 where
    pub fits : Fits codec s o
    pub lacking : lacks ks o ≡ true

  -- A value fits if it is there.
  abbrev pub FitsField : Kind → Omittable Value → Type 0
  FitsField k v = (w : Value) → v ≡ given w → FitsKind codec k w

  pub keeps_required :
      {key : String} {ks : List String} {k : Kind} {s : Schema} {v : Value} {o : Object}
      → FitsKind codec k v
      → member key ks ≡ false
      → Keeps (key ∷ ks) s o
      → Keeps ks (required key k s) (attribute key v o)
  keeps_required {key} {ks} {k} {s} {v} {o} f h r = record {
    fits = fits_required f (new_of key ks o r.lacking) r.fits;
    lacking = lacks-attribute key v ks o h (lacks_rest key ks o r.lacking);
  }

  pub keeps_optional :
      {ks : List String} {k : Kind} {s : Schema} {o : Object} (key : String) (v : Omittable Value)
      → FitsField k v
      → member key ks ≡ false
      → Keeps (key ∷ ks) s o
      → Keeps ks (optional key k s) (field key v o)
  keeps_optional {ks} {k} {s} {o} key unset f h r = record {
    fits = fits_unset (new_of key ks o r.lacking) r.fits;
    lacking = lacks-left_out key ks o h (lacks_rest key ks o r.lacking);
  }
  keeps_optional {ks} {k} {s} {o} key (given v) f h r = record {
    fits = fits_given (f v refl) (new_of key ks o r.lacking) r.fits;
    lacking = lacks-attribute key v ks o h (lacks_rest key ks o r.lacking);
  }

  pub keeps_additional :
      (ks : List String) (m : Members)
      → lacks ks (additional m) ≡ true
      → Keeps ks with_additional (additional m)
  keeps_additional ks m h = record { fits = fits_additional; lacking = h }
