-- ===== src/Wire/Json.antt =====
-- JSON values as `json.loads` gives them, `dict` as an association list in insertion order, and
-- `Unset` of python/src/libjadx/_generated/types.py.
use libjadx.Base.{
  ℕ, String, Bool, true, false, Option, none, some, ◌==◌, str_eq, if◌then◌else◌, ℤ, pos, negsuc,
  ◌≡◌, refl, arith, eq_iff, ◌*◌,
}
use Prim.Native.Nat.{◌^◌}

-- `real m e` is the number m / 10 ^ e; what binary floating point rounds is not modelled.
mutual
  pub data Json : Type 0 where
    null : Json
    bool : Bool → Json
    int : ℤ → Json
    real : ℤ → ℕ → Json
    str : String → Json
    arr : Items → Json
    obj : Members → Json

  pub data Items : Type 0 where
    nil : Items
    item : Json → Items → Items

  pub data Members : Type 0 where
    end : Members
    member : String → Json → Members → Members

-- An attribute that may be left out: `UNSET`, or a value.
pub data Omittable {ℓ} (A : Type ℓ) : Type ℓ where
  unset : Omittable A
  given : A → Omittable A

-- d.get(k)
unfoldable pub get : String → Members → Option Json
get k end = none
get k (member j v m) = if str_eq j k then some v else get k m

-- d.get(k, default)
abbrev pub get_default : String → Json → Members → Json
get_default k d m = elim (get k m) [ none ↦ d | some v ↦ v ]

-- d[k] = v
unfoldable pub put : String → Json → Members → Members
put k v end = member k v end
put k v (member j w m) = if str_eq j k then member j v m else member j w (put k v m)

-- if v is not UNSET: d[k] = v
abbrev pub put_given : String → Omittable Json → Members → Members
put_given k unset m = m
put_given k (given v) m = put k v m

-- what is left of d after d.pop(k)
unfoldable pub remove : String → Members → Members
remove k end = end
remove k (member j v m) = if str_eq j k then m else member j v (remove k m)

-- `v == n` for a natural number n: True is 1, and 3.0 is 3.
unfoldable pub equals_ℕ : Json → ℕ → Bool
equals_ℕ (bool true) n = n == 1
equals_ℕ (bool false) n = n == 0
equals_ℕ (int (pos m)) n = m == n
equals_ℕ (int (negsuc m)) n = false
equals_ℕ (real (pos m) e) n = m == n * 10 ^ e
equals_ℕ (real (negsuc m) e) n = false
equals_ℕ _ n = false

-- A write shows at its key, and at no other.
pub get-put :
    (k j : String) (v : Json) (m : Members)
    → get j (put k v m) ≡ (if str_eq k j then some v else get j m)
unfolding get put
get-put k j v end = refl
get-put k j v (member i w m) = ground (arith, eq_iff k j, eq_iff i k, eq_iff i j, get-put k j v m)
