-- ===== src/Wire/Schema/Required.antt =====
-- `from_dict` of the classes of python/src/libjadx/_generated/models over a dict that lacks a key.
use libjadx.Base.{
  String, Bool, true, false, ◌||◌, Option, none, some, str_eq, ◌≡◌, refl, ◌∙◌, ap, arith, eq_iff,
  Bool-cases, inl, inr,
}
use libjadx.Wire.Json.{Json, Members, end, get, remove}
use libjadx.Wire.Json
use libjadx.Wire.Codec.{Codec}
use libjadx.Wire.Job.{◌>>=◌}
use libjadx.Wire.Schema.{
  Kind, Schema, closed, with_additional, required, optional, Value, Object, with_attribute, without,
  if_given, read_value, read_object,
}

-- Whether a class requires a key.
abbrev pub is_required : String → Schema → Bool
is_required key closed = false
is_required key with_additional = false
is_required key (required k _ s) = str_eq k key || is_required key s
is_required key (optional k _ s) = is_required key s

get-remove : (key k : String) (d : Members) → get key d ≡ none → get key (remove k d) ≡ none
unfolding get remove
get-remove key k end h = refl
get-remove key k (Json.member i v d) h =
    ground (arith, eq_iff i k, eq_iff i key, get-remove key k d)

with_attribute-none : (key : String) (v : Option Value) → with_attribute key v none ≡ none
with_attribute-none key none = refl
with_attribute-none key (some v) = refl

module _ (codec : Codec) (key : String) where
  given_none :
      (k : String) (kind : Kind) (given : Option Json) (rest : Option Object)
      → rest ≡ none
      → (given >>= λ j. with_attribute k (read_value codec kind j) rest) ≡ none
  given_none k kind none rest h = refl
  given_none k kind (some j) rest h =
      ap (with_attribute k (read_value codec kind j)) h
      ∙ with_attribute-none k (read_value codec kind j)

  unset_none :
      (k : String) (kind : Kind) (given : Option Json) (rest unset : Option Object)
      → rest ≡ none
      → unset ≡ none
      → if_given given (λ j. with_attribute k (read_value codec kind j) rest) (without k unset)
        ≡ none
  unset_none k kind none rest unset h u = ap (without k) u
  unset_none k kind (some j) rest unset h u =
      ap (with_attribute k (read_value codec kind j)) h
      ∙ with_attribute-none k (read_value codec kind j)

  -- A class refuses every dict that lacks a key that it requires, whatever else the dict holds.
  pub read_object_missing :
      (s : Schema) (d : Members)
      → is_required key s ≡ true
      → get key d ≡ none
      → read_object codec s d ≡ none
  unfolding read_object
  read_object_missing closed d h m = absurd (cc)
  read_object_missing with_additional d h m = absurd (cc)
  read_object_missing (required k kind s) d h m = elim (Bool-cases (str_eq k key)) [
    | inl same ↦ let e : get k d ≡ none = ground (arith, eq_iff k key) in rw e refl
    | inr other ↦
        given_none k kind (get k d) (read_object codec s (remove k d))
          (read_object_missing s (remove k d) (rw other at h) (get-remove key k d m))
  ]
  read_object_missing (optional k kind s) d h m =
      unset_none k kind (get k d) (read_object codec s (remove k d)) (read_object codec s d)
        (read_object_missing s (remove k d) h (get-remove key k d m)) (read_object_missing s d h m)
