-- ===== src/Wire/Schema/Errors/Depth.antt =====
-- How deep the causes of an error in python/src/libjadx/_generated/models/api_error.py are read.
use libjadx.Base.{
  ℕ, zero, suc, ◌≤◌, String, Option, ◌≡◌, refl, ◌∙◌, ap, arith, inl, inr, Option-cases,
}
use libjadx.Wire.Json.{Json, Items, nil, item, Members, get, remove}
use libjadx.Wire.Codec.{Codec}
use libjadx.Wire.Job.{as_dict, ◌>>=◌}
use libjadx.Wire.Schema.{
  Kind, models, Schema, required, optional, iterated, each, with_object, as_instances, Object,
  with_attribute, read_value, read_object,
}
use libjadx.Wire.Schema.Errors.{api_error_schema, with_causes}
use libjadx.Wire.Schema.Errors.Size.{
  size, size_items, size_members, size-get, size-remove, size-iterated, size-as_dict,
}

module _ (codec : Codec) where
  -- Two classes, or what is done with a value, that do not differ for what is no larger than n.
  abbrev Agree : ℕ → Schema → Schema → Type 0
  Agree n s t = (d : Members) → size_members d ≤ n → read_object codec s d ≡ read_object codec t d

  abbrev KindsAgree : ℕ → Kind → Kind → Type 0
  KindsAgree n k l = (j : Json) → size j ≤ n → read_value codec k j ≡ read_value codec l j

  required-Agree :
      (n : ℕ) (key : String) (k : Kind) (s t : Schema)
      → Agree n s t
      → Agree n (required key k s) (required key k t)
  unfolding read_object
  required-Agree n key k s t a d h =
      let e : read_object codec s (remove key d) ≡ read_object codec t (remove key d) =
        a (remove key d) (let r = size-remove key d in omega arith) in
      ap (λ o. get key d >>= λ j. with_attribute key (read_value codec k j) o) e

  optional-Agree :
      (n : ℕ) (key : String) (k l : Kind) (s t : Schema)
      → KindsAgree n k l
      → Agree n s t
      → Agree n (optional key k s) (optional key l t)
  unfolding read_object
  optional-Agree n key k l s t b a d h = elim (Option-cases (get key d)) [
    | inl missing ↦ rw (missing, a d h) refl
    | inr (j, is) ↦
        let e : read_value codec k j ≡ read_value codec l j =
          b j (let r : size j ≤ size_members d = size-get key d j is in omega arith) in
        let r : read_object codec s (remove key d) ≡ read_object codec t (remove key d) =
          a (remove key d) (let q = size-remove key d in omega arith) in
        rw (is, e, r) refl
  ]

  each-Agree :
      (n : ℕ) (f g : Json → Option Object) (xs : Items)
      → ((x : Json) → size x ≤ n → f x ≡ g x)
      → size_items xs ≤ n
      → each f xs ≡ each g xs
  unfolding size_items
  each-Agree n f g nil same h = refl
  each-Agree n f g (item x xs) same h =
      let e : f x ≡ g x = same x (omega arith) in
      let r : each f xs ≡ each g xs = each-Agree n f g xs same (omega arith) in
      ap (λ o. with_object o (each f xs)) e ∙ ap (with_object (g x)) r

  -- An item of a list is a dict of less than its size, or none.
  item-Agree :
      (n : ℕ) (s t : Schema)
      → Agree n s t
      → (x : Json) → size x ≤ suc n
      → (as_dict x >>= read_object codec s) ≡ (as_dict x >>= read_object codec t)
  item-Agree n s t a x h = elim (Option-cases (as_dict x)) [
    | inl refused ↦ rw refused refl
    | inr (m, is) ↦
        rw is (a m (let r : suc (size_members m) ≤ size x = size-as_dict x m is in omega arith))
  ]

  models-Agree : (n : ℕ) (s t : Schema) → Agree n s t → KindsAgree (suc n) (models s) (models t)
  unfolding read_value
  models-Agree n s t a j h = elim (Option-cases (iterated j)) [
    | inl refused ↦ rw refused refl
    | inr (xs, is) ↦
        let e : each (λ x. as_dict x >>= read_object codec s) xs
            ≡ each (λ x. as_dict x >>= read_object codec t) xs =
          each-Agree (suc n) _ _ xs (item-Agree n s t a)
            (let r : size_items xs ≤ size j = size-iterated j xs is in omega arith) in
        rw is (ap as_instances e)
  ]

  flat-Agree :
      (s t : Schema) (x : Json)
      → size x ≤ 0
      → (as_dict x >>= read_object codec s) ≡ (as_dict x >>= read_object codec t)
  flat-Agree s t x h = elim (Option-cases (as_dict x)) [
    | inl refused ↦ rw refused refl
    | inr (m, is) ↦
        absurd (let r : suc (size_members m) ≤ size x = size-as_dict x m is in omega arith)
  ]

  models_flat : (s t : Schema) → KindsAgree 0 (models s) (models t)
  unfolding read_value
  models_flat s t j h = elim (Option-cases (iterated j)) [
    | inl refused ↦ rw refused refl
    | inr (xs, is) ↦
        let e : each (λ x. as_dict x >>= read_object codec s) xs
            ≡ each (λ x. as_dict x >>= read_object codec t) xs =
          each-Agree 0 _ _ xs (flat-Agree s t)
            (let r : size_items xs ≤ size j = size-iterated j xs is in omega arith) in
        rw is (ap as_instances e)
  ]

  causes-Agree :
      (n : ℕ) (s t : Schema)
      → KindsAgree n (models s) (models t)
      → Agree n (with_causes s) (with_causes t)
  causes-Agree n s t b = required-Agree n _ _ _ _ (
      required-Agree n _ _ _ _ (
        optional-Agree n _ _ _ _ _ (λ j h. refl)
          (optional-Agree n _ _ _ _ _ (λ j h. refl)
            (optional-Agree n _ _ _ _ _ (λ j h. refl)
              (optional-Agree n _ _ _ _ _ b (λ d h. refl))))))

  errors-Agree : (n j k : ℕ) → n ≤ j → n ≤ k → Agree n (api_error_schema j) (api_error_schema k)
  errors-Agree zero zero zero h i = causes-Agree 0 _ _ (models_flat _ _)
  errors-Agree zero zero (suc k) h i = causes-Agree 0 _ _ (models_flat _ _)
  errors-Agree zero (suc j) zero h i = causes-Agree 0 _ _ (models_flat _ _)
  errors-Agree zero (suc j) (suc k) h i = causes-Agree 0 _ _ (models_flat _ _)
  errors-Agree (suc n) zero k h i = absurd (omega arith)
  errors-Agree (suc n) (suc j) zero h i = absurd (omega arith)
  errors-Agree (suc n) (suc j) (suc k) h i =
      causes-Agree (suc n) _ _ (models-Agree n _ _ (errors-Agree n j k (omega arith) (omega arith)))

  -- Any two depths that are no less than the lists and dicts in the dict of an error read it the same,
  -- or refuse it both: such a depth is enough for its causes and their causes.
  pub api_error_enough :
      (j k : ℕ) (d : Members)
      → size_members d ≤ j
      → size_members d ≤ k
      → read_object codec (api_error_schema j) d ≡ read_object codec (api_error_schema k) d
  api_error_enough j k d h i = errors-Agree (size_members d) j k h i d (omega arith)
