-- ===== src/Pages/Walks.antt =====
-- The loop of the page iterators as a relation: how one iteration went.
use libjadx.Base.{
  ℕ, zero, suc, ◌+◌, String, true, false, Option, none, some, List, [], ◌∷◌, member, if◌then◌else◌,
  ◌≡◌, ◌⊎◌, inl, inr, refl, sym, ◌∙◌, arith, Bool-cases, Option-cases, if_true, if_false,
}
use libjadx.Errors.{Exception, Result, ok, raise}
use libjadx.Client.{Request, Expects, System, Client, invoke}
use libjadx.Pages.{Walked, is_reached, yield_first, fetched, walk, walk_all}

yield_first_inv :
    {Page : Type 0} (page : Page) (w : Option (Walked Page)) {ys : List Page}
    {x : Result (Unit {0})} {d : Client}
    → yield_first page w ≡ some (ys, x, d)
    → (rest : List Page) × (w ≡ some (rest, x, d)) × (ys ≡ page ∷ rest)
yield_first_inv page none h = cc
yield_first_inv page (some (rest, x, d)) h = (rest, ground arith, cc)

pub invoked :
    {A : Type 0} (r : Result A × Client)
    → ((e : Exception) × (d : Client) × (r ≡ (raise e, d)))
      ⊎ ((a : A) × (d : Client) × (r ≡ (ok a, d)))
invoked (raise e, d) = inl (e, d, refl)
invoked (ok a, d) = inr (a, d, refl)

module _ (sys : System) {Page : Type 0} (expects : Expects Page) (request : String → Request)
    (next_of : Page → Option String) (repeated : Exception) (limit : Option ℕ) where
  pub data Walks
      : List String → ℕ → Page → Client → List Page → Result (Unit {0}) → Client → Type 0 where
    last :
        {seen : List String} {pages : ℕ} {page : Page} {c : Client}
        → next_of page ≡ none
        → Walks seen pages page c (page ∷ []) (ok tt) c
    enough :
        {seen : List String} {pages : ℕ} {page : Page} {c : Client} {cursor : String}
        → next_of page ≡ some cursor
        → is_reached limit (pages + 1) ≡ true
        → Walks seen pages page c (page ∷ []) (ok tt) c
    repeats :
        {seen : List String} {pages : ℕ} {page : Page} {c : Client} {cursor : String}
        → next_of page ≡ some cursor
        → is_reached limit (pages + 1) ≡ false
        → member cursor seen ≡ true
        → Walks seen pages page c (page ∷ []) (raise repeated) c
    fails :
        {seen : List String} {pages : ℕ} {page : Page} {c d : Client} {cursor : String}
        {e : Exception}
        → next_of page ≡ some cursor
        → is_reached limit (pages + 1) ≡ false
        → member cursor seen ≡ false
        → invoke sys expects (request cursor) c ≡ (raise e, d)
        → Walks seen pages page c (page ∷ []) (raise e) d
    follows :
        {seen : List String} {pages : ℕ} {page : Page} {c d s : Client} {cursor : String}
        {next : Page} {ys : List Page} {x : Result (Unit {0})}
        → next_of page ≡ some cursor
        → is_reached limit (pages + 1) ≡ false
        → member cursor seen ≡ false
        → invoke sys expects (request cursor) c ≡ (ok next, d)
        → Walks (cursor ∷ seen) (pages + 1) next d ys x s
        → Walks seen pages page c (page ∷ ys) x s

  abbrev go : ℕ → List String → ℕ → Page → Client → Option (Walked Page)
  go n seen pages page c = walk sys expects request next_of repeated limit n seen pages page c

  pub walk_last :
      (n : ℕ) (seen : List String) (pages : ℕ) (page : Page) (c : Client)
      → next_of page ≡ none
      → go (suc n) seen pages page c ≡ some (page ∷ [], ok tt, c)
  unfolding walk
  walk_last n seen pages page c h = rw (h, walk)

  pub walk_next :
      (n : ℕ) (seen : List String) (pages : ℕ) (page : Page) (c : Client) (cursor : String)
      → next_of page ≡ some cursor
      → go (suc n) seen pages page c ≡ (
          if is_reached limit (pages + 1)
          then some (page ∷ [], ok tt, c)
          else if member cursor seen
          then some (page ∷ [], raise repeated, c)
          else fetched sys expects request next_of repeated limit
              (λ p d. go n (cursor ∷ seen) (pages + 1) p d)
              page
              (invoke sys expects (request cursor) c))
  unfolding walk
  walk_next n seen pages page c cursor h = rw (h, walk)

  ends_as :
      {seen : List String} {pages : ℕ} {page : Page} {c : Client} {ys zs : List Page}
      {x y : Result (Unit {0})} {d e : Client}
      → Walks seen pages page c ys x d
      → ◌≡◌ {A = Option (Walked Page)} (some (ys, x, d)) (some (zs, y, e))
      → Walks seen pages page c zs y e
  ends_as {ys = ys} {zs = zs} {x = x} {y = y} {d = d} {e = e} w h =
      let a : zs ≡ ys = cc in let b : y ≡ x = cc in let k : e ≡ d = cc in rw (a, b, k) w

  -- An iteration that ends, whatever the fuel, is a derivation.
  pub walk-Walks :
      (n : ℕ) (seen : List String) (pages : ℕ) (page : Page) (c : Client) {ys : List Page}
      {x : Result (Unit {0})} {d : Client}
      → go n seen pages page c ≡ some (ys, x, d)
      → Walks seen pages page c ys x d
  unfolding walk
  walk-Walks zero seen pages page c h = cc
  walk-Walks (suc n) seen pages page c {ys} {x} {d} h = elim (Option-cases (next_of page)) [
    | inl done ↦ ends_as (last done) (sym (walk_last n seen pages page c done) ∙ h)
    | inr (cursor, on) ↦ elim (Bool-cases (is_reached limit (pages + 1))) [
      | inl r ↦
          ends_as (enough on r)
            (sym (walk_next n seen pages page c cursor on ∙ if_true _ _ _ r) ∙ h)
      | inr r ↦ elim (Bool-cases (member cursor seen)) [
        | inl m ↦
            ends_as (repeats on r m) (
              sym (walk_next n seen pages page c cursor on ∙ if_false _ _ _ r ∙ if_true _ _ _ m)
              ∙ h)
        | inr m ↦
            let step =
              sym (walk_next n seen pages page c cursor on ∙ if_false _ _ _ r ∙ if_false _ _ _ m)
              ∙ h in
            elim (invoked (invoke sys expects (request cursor) c)) [
              | inl (e, c', failed) ↦ ends_as (fails on r m failed) (rw failed at step)
              | inr (next, c', got) ↦
                  let (rest, later, same) =
                    yield_first_inv page (go n (cursor ∷ seen) (pages + 1) next c')
                      (rw got at step) in
                  rw same
                    (follows on r m got (walk-Walks n (cursor ∷ seen) (pages + 1) next c' later))
            ]
      ]
    ]
  ]

  -- An iteration from its first request.
  pub walk_all_inv :
      (n : ℕ) (first : Request) (c : Client) {ys : List Page} {x : Result (Unit {0})} {d : Client}
      → walk_all sys expects request next_of repeated limit n first c ≡ some (ys, x, d)
      → ((e : Exception) × (invoke sys expects first c ≡ (raise e, d)) × (ys ≡ []) × (x ≡ raise e))
        ⊎ ((page : Page) × (c' : Client) × (invoke sys expects first c ≡ (ok page, c'))
            × Walks [] 0 page c' ys x d)
  unfolding walk_all
  walk_all_inv n first c {ys} {x} {d} h = elim (invoked (invoke sys expects first c)) [
    | inl (e, c', failed) ↦
        let r = rw (failed, walk_all) at h in
        let same : d ≡ c' = cc r in inl (e, rw same failed, cc r, cc r)
    | inr (page, c', got) ↦ inr (page, c', got, walk-Walks n [] 0 page c' (rw (got, walk_all) at h))
  ]
