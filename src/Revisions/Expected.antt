-- ===== src/Revisions/Expected.antt =====
-- `RevisionCache.expected` of _common.py, and `_expected` and `_required` of project.py: the
-- preconditions that go with a request. `UNSET` is an omitted argument, `None` a given `none`; a
-- session is the text that `str` gives.
use libjadx.Base.{
  ℕ, String, Bool, true, false, Option, none, some, ◌≡◌, ◌≢◌, ◌⊎◌, arith, if◌then◌else◌, ◌↔◌,
}
use libjadx.Wire.Json.{Omittable, unset, given}
use libjadx.Wire.Codec.{Codec, Uuid}
use libjadx.Errors.{value_error, Result, ok, raise, ◌>>=◌, or_raise}
use libjadx.Revisions.{RevisionCache}

-- The optional keyword arguments of the methods of `Project`.
pub record Preconditions : Type 0 where
  pub expected_session_id : Omittable (Option String)
  pub expected_logical_revision : Omittable (Option ℕ)

abbrev pub no_preconditions : Preconditions
no_preconditions = record { expected_session_id = unset; expected_logical_revision = unset }

-- `x if isinstance(arg, Unset) else arg`
abbrev pub unless_given {ℓ} : {A : Type ℓ} → Omittable A → A → A
unless_given unset x = x
unless_given (given a) x = a

abbrev pub Expected : Type 0
Expected = Omittable Uuid × Omittable ℕ

unfoldable pub pair_up : Codec → Bool → Option String → Option ℕ → Result Expected
pair_up codec required (some s) (some r) =
    or_raise (codec.uuid_of s) (value_error "badly formed hexadecimal UUID string") >>= λ u.
    ok (given u, given r)
pair_up codec required none none =
    if required
    then raise (value_error "Observe project.snapshot() or supply session/revision explicitly")
    else ok (unset, unset)
pair_up codec required _ _ =
    raise (value_error "Session and logical revision must be provided together")

unfoldable pub expected : Codec → Preconditions → Bool → RevisionCache → Result Expected
unfolding pair_up
expected codec options required c =
    pair_up codec required (unless_given options.expected_session_id c.session_id)
      (unless_given options.expected_logical_revision c.logical_revision)

-- `_required`, whose `assert` is the last clause.
abbrev both_given : Expected → Result (Uuid × ℕ)
both_given (given u, given r) = ok (u, r)
both_given _ = raise (value_error "AssertionError")

unfoldable pub required : Codec → Preconditions → RevisionCache → Result (Uuid × ℕ)
unfolding expected
required codec options c = expected codec options true c >>= both_given

module _ (codec : Codec) where
  pair_up-paired :
      (needs : Bool) (s : Option String) (n : Option ℕ) {u : Omittable Uuid} {r : Omittable ℕ}
      → pair_up codec needs s n ≡ ok (u, r)
      → ((u ≡ unset) ↔ (r ≡ unset)) × ((needs ≡ false) ⊎ (u ≢ unset))
  unfolding pair_up
  pair_up-paired true (some s) (some n) h = ground arith
  pair_up-paired false (some s) (some n) h = ground arith
  pair_up-paired true none none h = ground arith
  pair_up-paired false none none h = ground arith
  pair_up-paired needs (some s) none h = cc
  pair_up-paired needs none (some n) h = cc

  both_given_iff :
      (x : Result Expected) (u : Uuid) (r : ℕ)
      → ((x >>= both_given) ≡ ok (u, r)) ↔ (x ≡ ok (given u, given r))
  both_given_iff (raise e) u r = ground arith
  both_given_iff (ok (a, b)) u r = ground arith

  -- What `expected` gives is a whole pair or nothing: the session is left out exactly when the revision
  -- is, and neither is if the caller requires them.
  pub expected_paired :
      (options : Preconditions) (needs : Bool) (c : RevisionCache) {u : Omittable Uuid}
      {r : Omittable ℕ}
      → expected codec options needs c ≡ ok (u, r)
      → ((u ≡ unset) ↔ (r ≡ unset)) × ((needs ≡ false) ⊎ (u ≢ unset))
  unfolding expected
  expected_paired options needs c h =
      pair_up-paired needs (unless_given options.expected_session_id c.session_id)
        (unless_given options.expected_logical_revision c.logical_revision) h

  -- `_required` raises or gives what `expected` gives: its assertion cannot fail.
  pub required-expected :
      (options : Preconditions) (c : RevisionCache) (u : Uuid) (r : ℕ)
      → (required codec options c ≡ ok (u, r))
        ↔ (expected codec options true c ≡ ok (given u, given r))
  unfolding required
  required-expected options c u r = both_given_iff (expected codec options true c) u r
