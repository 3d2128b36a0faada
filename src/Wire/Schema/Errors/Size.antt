-- ===== src/Wire/Schema/Errors/Size.antt =====
-- The lists and dicts in a JSON value, and in what `from_dict` in python/src/libjadx/_generated/models takes
-- from it.
use libjadx.Base.{
  ℕ, suc, ◌+◌, ◌≤◌, String, none, some, str_eq, ◌≡◌, refl, sym, arith, Bool-cases, inl, inr,
  Option-cases,
}
use libjadx.Wire.Json.{Json, null, str, arr, obj, Items, nil, item, Members, end, get, put, remove}
use libjadx.Wire.Json
use libjadx.Wire.Job.{as_dict, put_pair, put_pairs}
use libjadx.Wire.Schema.{iterated, key_items}

-- The lists and dicts in a value.
unfoldable mutual
  pub size : Json → ℕ
  size (arr xs) = suc (size_items xs)
  size (obj m) = suc (size_members m)
  size _ = 0

  pub size_items : Items → ℕ
  size_items nil = 0
  size_items (item j js) = size j + size_items js

  pub size_members : Members → ℕ
  size_members end = 0
  size_members (Json.member k v m) = size v + size_members m

pub size-get :
    (key : String) (d : Members) (j : Json) → get key d ≡ some j → size j ≤ size_members d
unfolding get size_members
size-get key end j h = absurd (cc)
size-get key (Json.member k v m) j h = elim (Bool-cases (str_eq k key)) [
  | inl same ↦
      let q : some v ≡ some j = rw same at h in
      let e : v ≡ j = ground arith in rw (sym e) (omega arith)
  | inr other ↦ let r : size j ≤ size_members m = size-get key m j (rw other at h) in omega arith
]

pub size-remove : (key : String) (d : Members) → size_members (remove key d) ≤ size_members d
unfolding remove size_members
size-remove key end = omega arith
size-remove key (Json.member k v m) = elim (Bool-cases (str_eq k key)) [
  | inl same ↦ rw same (omega arith)
  | inr other ↦ let r = size-remove key m in rw other (omega arith)
]

size-put :
    (key : String) (v : Json) (d : Members) → size_members (put key v d) ≤ size v + size_members d
unfolding put size_members
size-put key v end = omega arith
size-put key v (Json.member k w m) = elim (Bool-cases (str_eq k key)) [
  | inl same ↦ rw same (omega arith)
  | inr other ↦ let r = size-put key v m in rw other (omega arith)
]

size-key_items : (m : Members) → size_items (key_items m) ≡ 0
unfolding size size_items
size-key_items end = refl
size-key_items (Json.member k v m) = let r = size-key_items m in omega arith

pub size-iterated : (j : Json) (xs : Items) → iterated j ≡ some xs → size_items xs ≤ size j
unfolding size size_items
size-iterated null xs h = absurd (cc)
size-iterated (Json.bool b) xs h = absurd (cc)
size-iterated (Json.int n) xs h = absurd (cc)
size-iterated (Json.real m n) xs h = absurd (cc)
size-iterated (str s) xs h = elim (Bool-cases (str_eq s "")) [
  | inl empty ↦
      let q : some nil ≡ some xs = rw empty at h in
      let e : nil ≡ xs = ground arith in rw (sym e) (omega arith)
  | inr other ↦ absurd (let q : none ≡ some xs = rw other at h in cc)
]
size-iterated (arr ys) xs h = let e : ys ≡ xs = ground arith in rw (sym e) (omega arith)
size-iterated (obj m) xs h =
    let e : key_items m ≡ xs = ground arith in rw (sym e, size-key_items m) (omega arith)

size-put_pair :
    (p : Json) (d m : Members)
    → put_pair p (some d) ≡ some m
    → size_members m ≤ size p + size_members d
unfolding size size_items
size-put_pair (arr (item (str k) (item v nil))) d m h =
    let e : put k v d ≡ m = ground arith in
    let r : size_members (put k v d) ≤ size v + size_members d = size-put k v d in
    rw (sym e) (omega arith)
size-put_pair (arr (item (str k) (item v (item w ys)))) d m h = absurd (cc)
size-put_pair (arr (item (str k) nil)) d m h = absurd (cc)
size-put_pair (arr (item null ys)) d m h = absurd (cc)
size-put_pair (arr (item (Json.bool b) ys)) d m h = absurd (cc)
size-put_pair (arr (item (Json.int n) ys)) d m h = absurd (cc)
size-put_pair (arr (item (Json.real a b) ys)) d m h = absurd (cc)
size-put_pair (arr (item (arr xs) ys)) d m h = absurd (cc)
size-put_pair (arr (item (obj o) ys)) d m h = absurd (cc)
size-put_pair (arr nil) d m h = absurd (cc)
size-put_pair null d m h = absurd (cc)
size-put_pair (Json.bool b) d m h = absurd (cc)
size-put_pair (Json.int n) d m h = absurd (cc)
size-put_pair (Json.real a b) d m h = absurd (cc)
size-put_pair (str s) d m h = absurd (cc)
size-put_pair (obj o) d m h = absurd (cc)

size-put_pairs :
    (ps : Items) (d m : Members)
    → put_pairs ps d ≡ some m
    → size_members m ≤ size_items ps + size_members d
unfolding size_items
size-put_pairs nil d m h = let e : d ≡ m = ground arith in rw (sym e) (omega arith)
size-put_pairs (item p ps) d m h = elim (Option-cases (put_pair p (some d))) [
  | inl refused ↦ absurd (let q : none ≡ some m = rw refused at h in cc)
  | inr (o, is) ↦
      let r : size_members m ≤ size_items ps + size_members o =
        size-put_pairs ps o m (rw is at h) in
      let q : size_members o ≤ size p + size_members d = size-put_pair p d o is in omega arith
]

pub size-as_dict : (x : Json) (m : Members) → as_dict x ≡ some m → suc (size_members m) ≤ size x
unfolding as_dict size
size-as_dict (obj d) m h = let e : d ≡ m = ground arith in rw (sym e) (omega arith)
size-as_dict (arr ps) m h = let r = size-put_pairs ps end m h in omega arith
size-as_dict null m h = absurd (cc)
size-as_dict (Json.bool b) m h = absurd (cc)
size-as_dict (Json.int n) m h = absurd (cc)
size-as_dict (Json.real a b) m h = absurd (cc)
size-as_dict (str s) m h = absurd (cc)
