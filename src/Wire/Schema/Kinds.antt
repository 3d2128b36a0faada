-- ===== src/Wire/Schema/Kinds.antt =====
-- The values that `to_dict` of the classes of python/src/libjadx/_generated/models writes, read back.
use libjadx.Base.{
  String, Bool, true, false, [], ◌∷◌, ◌&&◌, some, List, member, ◌≡◌, refl, eq_refl, Bool-cases, inl,
  inr,
}
use libjadx.Wire.Json.{Json, null, str, arr, obj, equals_ℕ}
use libjadx.Wire.Codec.{Uuid, DateTime, Codec}
use libjadx.Wire.Job.{as_dict, ◌>>=◌}
use libjadx.Wire.Schema.{
  enums, members, each_member, texts, Kind, plain, uuid, datetime, enum, literal, model, models,
  nullable, Schema, Value, raw, a_uuid, a_datetime, a_member, instance_of, instances, Object,
  Objects, object, is_typed, each, false_literal, read_value, read_object, write_value, write_all,
  write_object,
}

abbrev pub all_members : List String → List String → Bool
all_members vs [] = true
all_members vs (s ∷ ss) = member s vs && all_members vs ss

module _ (codec : Codec) where
  null_untyped : (k : Kind) → is_typed k null ≡ false
  null_untyped plain = refl
  null_untyped uuid = refl
  null_untyped datetime = refl
  null_untyped false_literal = refl
  null_untyped (enum vs) = refl
  null_untyped (enums vs) = refl
  null_untyped (literal t) = refl
  null_untyped (model s) = refl
  null_untyped (models s) = refl
  null_untyped (nullable k) = refl

  pub nullable_typed :
      (k : Kind) (j : Json) (v : Value)
      → is_typed k j ≡ true
      → read_value codec k j ≡ some v
      → read_value codec (nullable k) j ≡ some v
  unfolding read_value
  nullable_typed k null v t e = absurd (cc (null_untyped k, t))
  nullable_typed k (Json.bool b) v t e = rw (t, e) refl
  nullable_typed k (Json.int n) v t e = rw (t, e) refl
  nullable_typed k (Json.real m n) v t e = rw (t, e) refl
  nullable_typed k (str x) v t e = rw (t, e) refl
  nullable_typed k (arr xs) v t e = rw (t, e) refl
  nullable_typed k (obj m) v t e = rw (t, e) refl

  pub nullable_raw :
      (k : Kind) (j : Json) → is_typed k j ≡ false → read_value codec (nullable k) j ≡ some (raw j)
  unfolding read_value
  nullable_raw k null t = refl
  nullable_raw k (Json.bool b) t = rw t refl
  nullable_raw k (Json.int n) t = rw t refl
  nullable_raw k (Json.real m n) t = rw t refl
  nullable_raw k (str x) t = rw t refl
  nullable_raw k (arr xs) t = rw t refl
  nullable_raw k (obj m) t = rw t refl

  pub read_enum :
      (vs : List String) (t : String)
      → member t vs ≡ true
      → read_value codec (enum vs) (str t) ≡ some (a_member t)
  unfolding read_value
  read_enum vs t h = rw h refl

  each_member-texts :
      (vs ss : List String) → all_members vs ss ≡ true → each_member vs (texts ss) ≡ some ss
  each_member-texts vs [] h = refl
  each_member-texts vs (s ∷ ss) h = elim (Bool-cases (member s vs)) [
    | inl is ↦
        let e : each_member vs (texts ss) ≡ some ss = each_member-texts vs ss (rw is at h) in
        rw (is, e) refl
    | inr is_not ↦ absurd (let q : false ≡ true = rw is_not at h in cc)
  ]

  pub read_enums :
      (vs ss : List String)
      → all_members vs ss ≡ true
      → read_value codec (enums vs) (write_value (members ss)) ≡ some (members ss)
  unfolding read_value write_value
  read_enums vs ss h = rw (each_member-texts vs ss h) refl

  pub read_uuid :
      (u : Uuid)
      → codec.uuid_of u.canonical ≡ some u
      → read_value codec uuid (str u.canonical) ≡ some (a_uuid u)
  unfolding read_value
  read_uuid u h = rw h refl

  pub read_datetime :
      (d : DateTime)
      → codec.datetime_of d.iso ≡ some d
      → read_value codec datetime (str d.iso) ≡ some (a_datetime d)
  unfolding read_value
  read_datetime d h = rw h refl

  pub read_false :
      (j : Json) → equals_ℕ j 0 ≡ true → read_value codec false_literal j ≡ some (raw j)
  unfolding read_value
  read_false j h = rw h refl

  pub read_literal : (t : String) → read_value codec (literal t) (str t) ≡ some (raw (str t))
  unfolding read_value
  read_literal t = rw (eq_refl t) refl

  pub read_model :
      (s : Schema) (o : Object)
      → read_object codec s (write_object o) ≡ some o
      → read_value codec (model s) (write_value (instance_of o)) ≡ some (instance_of o)
  unfolding read_value write_value as_dict
  read_model s o h = rw h refl

  pub read_models :
      (s : Schema) (os : Objects)
      → each (λ x. as_dict x >>= read_object codec s) (write_all os) ≡ some os
      → read_value codec (models s) (write_value (instances os)) ≡ some (instances os)
  unfolding read_value write_value
  read_models s os h = rw h refl

  pub each_more :
      (s : Schema) (o : Object) (os : Objects)
      → read_object codec s (write_object o) ≡ some o
      → each (λ x. as_dict x >>= read_object codec s) (write_all os) ≡ some os
      → each (λ x. as_dict x >>= read_object codec s) (write_all (object o os)) ≡ some (object o os)
  unfolding write_all as_dict
  each_more s o os h k = rw (h, k) refl
