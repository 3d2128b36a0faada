-- ===== src/Async/Pool/Calls.antt =====
-- The methods of the asynchronous SDK as coroutines over a shared client: the preconditions that their
-- requests carry, and what they keep of the client.
use libjadx.Base.{
  ℕ, Bool, true, false, none, some, List, ◌≡◌, ◌≢◌, ◌↔◌, ◌⊎◌, inl, inr, refl, sym, ◌∙◌,
}
use libjadx.Wire.Json.{Omittable, unset, given}
use libjadx.Wire.Codec.{Uuid}
use libjadx.Wire.Requests.{EditOperation}
use libjadx.Errors.{Result, ok, raise}
use libjadx.Revisions.Expected.{Preconditions, Expected, expected, required, expected_paired}
use libjadx.Client.{Request, System, Client, Expects}
use libjadx.Project.{needs_pair}
use libjadx.Project.Paired.{pair_of, edits_of}
use libjadx.Async.{Async, async_invoke}
use libjadx.Async.Project.{async_first, async_expected, async_required, async_apply_edits}
use libjadx.Async.Pool.Keeps.{Keeps, at_end, IsKept, async_invoke-Keeps}

-- A request carries a whole pair of preconditions or none of the two, and has one if an edit in it
-- renames a parameter or propagates.
pub record IsWhole (request : Request) : Type 0 where
  pub whole :
      (s : Omittable Uuid) (r : Omittable ℕ)
      → pair_of request ≡ some (s, r)
      → (s ≡ unset) ↔ (r ≡ unset)
  pub there :
      (s : Omittable Uuid) (r : Omittable ℕ)
      → pair_of request ≡ some (s, r)
      → needs_pair (edits_of request) ≡ true
      → s ≢ unset

pub unpaired-IsWhole : (request : Request) → pair_of request ≡ none → IsWhole request
unpaired-IsWhole request none_there = record {
  whole = λ s r e. absurd (cc);
  there = λ s r e n. absurd (cc);
}

pub paired-IsWhole :
    (request : Request) (p : Expected)
    → pair_of request ≡ some p
    → (p.0 ≡ unset) ↔ (p.1 ≡ unset)
    → (needs_pair (edits_of request) ≡ false) ⊎ (p.0 ≢ unset)
    → IsWhole request
paired-IsWhole request (s', r') e w n = record {
  whole = λ s r e'. let q : (s' ≡ s) = cc in let q' : (r' ≡ r) = cc in rw (sym q, sym q') w;
  there = λ s r e' needs.
      let q : (s' ≡ s) = cc in elim n [ inl free ↦ absurd cc | inr has ↦ λ u. has (q ∙ u) ];
}

module _ (sys : System) {P : Client → Client → Type 0} (kept : IsKept P IsWhole) where
  pub async_first-Keeps :
      {b : Client} {A B : Type 0} (r : Result A) (k : A → Async B) (c : Client)
      → P b c
      → ((a : A) → r ≡ ok a → Keeps P b (k a c))
      → Keeps P b (async_first r k c)
  async_first-Keeps (raise e) k c p h = at_end p
  async_first-Keeps (ok a) k c p h = h a refl

  pub plain-Keeps :
      {b : Client} {A : Type 0} (expects : Expects A) (request : Request) (c : Client)
      → pair_of request ≡ none
      → P b c
      → Keeps P b (async_invoke sys expects request c)
  plain-Keeps expects request c e p =
      async_invoke-Keeps sys kept expects request c (unpaired-IsWhole request e) p

  pub expected-Keeps :
      {b : Client} {A : Type 0} (expects : Expects A) (request : Expected → Request) (needs : Bool)
      (options : Preconditions) (c : Client)
      → ((p : Expected) → pair_of (request p) ≡ some p)
      → ((p : Expected) → needs_pair (edits_of (request p)) ≡ needs)
      → P b c
      → Keeps P b (async_expected sys needs options (λ p. async_invoke sys expects (request p)) c)
  expected-Keeps expects request needs options c carries same p =
      async_first-Keeps (expected sys.codec options needs c.revisions)
        (λ q. async_invoke sys expects (request q)) c p
        (λ q good.
          let (w, there) = expected_paired sys.codec options needs c.revisions good in
          async_invoke-Keeps sys kept expects (request q) c
            (paired-IsWhole (request q) q (carries q) w (rw (same q) there)) p)

  pub required-Keeps :
      {b : Client} {A : Type 0} (expects : Expects A) (request : Uuid × ℕ → Request)
      (options : Preconditions) (c : Client)
      → ((p : Uuid × ℕ) → pair_of (request p) ≡ some (given p.0, given p.1))
      → P b c
      → Keeps P b (async_required sys options (λ p. async_invoke sys expects (request p)) c)
  required-Keeps expects request options c carries p =
      async_first-Keeps (required sys.codec options c.revisions)
        (λ q. async_invoke sys expects (request q)) c p
        (λ q good.
          async_invoke-Keeps sys kept expects (request q) c
            (paired-IsWhole (request q) (given q.0, given q.1) (carries q) (λ h. cc, λ h. cc)
              (inr (λ h. cc)))
            p)

  pub async_apply_edits-Keeps :
      {b : Client} (items : List EditOperation) (options : Preconditions) (c : Client)
      → P b c
      → Keeps P b (async_apply_edits sys items options c)
  unfolding async_apply_edits
  async_apply_edits-Keeps items options c =
      expected-Keeps _ _ (needs_pair items) options c (λ p. refl) (λ p. refl)
