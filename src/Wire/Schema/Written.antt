-- ===== src/Wire/Schema/Written.antt =====
-- The dict that `to_dict` of a class of python/src/libjadx/_generated/models writes, at a key and without it.
use libjadx.Base.{
  String, Bool, false, ◌||◌, none, some, str_eq, ◌≡◌, refl, ◌∙◌, ap, arith, eq_iff, eq_refl,
  Bool-cases, inl, inr,
}
use libjadx.Wire.Json.{
  Json, null, str, arr, obj, Items, nil, item, Members, end, get, put, remove, get-put,
}
use libjadx.Wire.Json
use libjadx.Wire.Schema.{
  Value, Object, no_more, additional, attribute, left_out, additional_of, write_value, write_onto,
}

-- Whether a key is one of an instance's attributes.
abbrev pub has_key : String → Object → Bool
has_key key no_more = false
has_key key (additional m) = false
has_key key (attribute j v o) = str_eq j key || has_key key o
has_key key (left_out j o) = str_eq j key || has_key key o

-- A key that is new for the rest of an instance.
pub record IsNew (key : String) (o : Object) : Type 0 where
  pub no_attribute : has_key key o ≡ false
  pub unknown : get key (additional_of o) ≡ none

get-write_onto :
    (key : String) (o : Object) (m : Members)
    → has_key key o ≡ false
    → get key (write_onto o m) ≡ get key m
unfolding write_onto
get-write_onto key no_more m h = refl
get-write_onto key (additional _) m h = refl
get-write_onto key (attribute j v o) m h = elim (Bool-cases (str_eq j key)) [
  | inl same ↦ absurd (cc)
  | inr other ↦
      get-write_onto key o (put j (write_value v) m) (rw other at h)
      ∙ (get-put j key (write_value v) m ∙ rw other refl)
]
get-write_onto key (left_out j o) m h = elim (Bool-cases (str_eq j key)) [
  | inl same ↦ absurd (cc)
  | inr other ↦ get-write_onto key o m (rw other at h)
]

remove-put_other :
    (k j : String) (v : Json) (m : Members)
    → str_eq j k ≡ false
    → remove k (put j v m) ≡ put j v (remove k m)
unfolding remove put
remove-put_other k j v end h = rw h refl
remove-put_other k j v (Json.member i w m) h =
    ground (arith, eq_iff i j, eq_iff i k, eq_iff j k, remove-put_other k j v m h)

remove-put_new : (k : String) (v : Json) (m : Members) → get k m ≡ none → remove k (put k v m) ≡ m
unfolding remove put get
remove-put_new k v end h = rw (eq_refl k) refl
remove-put_new k v (Json.member i w m) h = elim (Bool-cases (str_eq i k)) [
  | inl same ↦ absurd (let q : some w ≡ none = rw same at h in cc)
  | inr other ↦
      rw (other, other) (ap (λ n. Json.member i w n) (remove-put_new k v m (rw other at h)))
]

remove-write_onto :
    (key : String) (o : Object) (m : Members)
    → has_key key o ≡ false
    → remove key (write_onto o m) ≡ write_onto o (remove key m)
unfolding write_onto
remove-write_onto key no_more m h = refl
remove-write_onto key (additional _) m h = refl
remove-write_onto key (attribute j v o) m h = elim (Bool-cases (str_eq j key)) [
  | inl same ↦ absurd (cc)
  | inr other ↦
      remove-write_onto key o (put j (write_value v) m) (rw other at h)
      ∙ ap (write_onto o) (remove-put_other key j (write_value v) m other)
]
remove-write_onto key (left_out j o) m h = elim (Bool-cases (str_eq j key)) [
  | inl same ↦ absurd (cc)
  | inr other ↦ remove-write_onto key o m (rw other at h)
]

-- The dict of an instance with one more attribute, at its key and without it.
module _ (key : String) (v : Value) (o : Object) (new : IsNew key o) where
  pub get-written :
      get key (write_onto o (put key (write_value v) (additional_of o))) ≡ some (write_value v)
  get-written =
      get-write_onto key o (put key (write_value v) (additional_of o)) new.no_attribute
      ∙ (get-put key key (write_value v) (additional_of o) ∙ rw (eq_refl key) refl)

  pub remove-written :
      remove key (write_onto o (put key (write_value v) (additional_of o)))
      ≡ write_onto o (additional_of o)
  remove-written =
      remove-write_onto key o (put key (write_value v) (additional_of o)) new.no_attribute
      ∙ ap (write_onto o) (remove-put_new key (write_value v) (additional_of o) new.unknown)

  pub get_left_out : get key (write_onto o (additional_of o)) ≡ none
  get_left_out = get-write_onto key o (additional_of o) new.no_attribute ∙ new.unknown
