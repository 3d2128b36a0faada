-- ===== src/Revisions/Defaults.antt =====
-- `RevisionCache.expected` of _common.py without explicit preconditions, in the terms of the history of
-- responses that the cache has observed.
use libjadx.Base.{
  ℕ, max, String, Bool, some, List, [], ◌∷◌, str_eq, get_or, ◌≡◌, refl, ap, ◌∙◌, sym, Bool-cases,
  Option-cases, inl, inr, if◌then◌else◌,
}
use libjadx.Wire.Json.{unset, given}
use libjadx.Wire.Codec.{Codec}
use libjadx.Errors.{value_error, Result, ok, raise, ◌>>=◌, or_raise}
use libjadx.Revisions.{Observable, empty, observe_all}
use libjadx.Revisions.Session.{IsValid, observe_all-IsValid}
use libjadx.Revisions.Expected.{Expected, no_preconditions, pair_up, expected}
use libjadx.Revisions.History.{
  Fact, sessions, highest, of_session, cache_of, view, note_all, view-note_all, empty-IsValid,
}

-- The largest logical revision of a session.
abbrev pub largest : String → List Fact → ℕ
largest s [] = 0
largest s (f ∷ h) =
    let rest = largest s h in if str_eq s f.session then max rest f.logical else rest

largest_lem :
    (s : String) (h : List Fact)
    → get_or (highest (of_session (λ f. some f.logical) s h)) 0 ≡ largest s h
unfolding highest of_session
largest_lem s [] = refl
largest_lem s (f ∷ h) = elim (Bool-cases (str_eq s f.session)) [
  | inl same ↦ rw (same, largest_lem s h) refl
  | inr other ↦ rw other (largest_lem s h)
]

module _ (codec : Codec) where
  -- What a history, by its sessions, gives as preconditions.
  abbrev pub defaults : Bool → List String → List Fact → Result Expected
  defaults needs [] h =
      if needs
      then raise (value_error "Observe project.snapshot() or supply session/revision explicitly")
      else ok (unset, unset)
  defaults needs (s ∷ old) h =
      or_raise (codec.uuid_of s) (value_error "badly formed hexadecimal UUID string") >>= λ u.
      ok (given u, given (largest s h))

  expected-cache_of :
      (needs : Bool) (seen : List String) (h : List Fact)
      → IsValid (cache_of seen h)
      → expected codec no_preconditions needs (cache_of seen h) ≡ defaults needs seen h
  unfolding expected pair_up
  expected-cache_of needs [] h v = refl
  expected-cache_of needs (s ∷ old) h v =
      elim (Option-cases (highest (of_session (λ f. some f.logical) s h))) [
        | inl unknown ↦ absurd (v.together s refl unknown)
        | inr (n, known) ↦
            let e : n ≡ largest s h = sym (ap (λ o. get_or o 0) known) ∙ largest_lem s h in
            rw (known, e) refl
      ]

  -- Without explicit preconditions, whatever responses a new cache has observed: the session that
  -- appeared last of all is paired with the largest logical revision ever observed of it, if it is a UUID,
  -- and `ValueError` is raised if it is none; if no response named a session, nothing is given, or
  -- `ValueError` is raised where a pair is required.
  pub expected-observe_all :
      (needs : Bool) (rs : List Observable)
      → expected codec no_preconditions needs (observe_all rs empty)
        ≡ defaults needs (sessions (note_all rs [])) (note_all rs [])
  unfolding view
  expected-observe_all needs rs =
      let e : observe_all rs empty ≡ view (note_all rs []) = view-note_all rs in
      let v : IsValid (view (note_all rs [])) =
        rw (sym e) (observe_all-IsValid rs empty empty-IsValid) in
      ap (expected codec no_preconditions needs) e
      ∙ expected-cache_of needs (sessions (note_all rs [])) (note_all rs []) v
