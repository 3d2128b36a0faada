-- ===== src/Pages/Bounds.antt =====
-- `max_pages` of `class_pages` in project.py.
use libjadx.Base.{
  ℕ, zero, suc, ◌+◌, ◌≤◌, ◌<◌, String, Option, none, some, List, [], ◌∷◌, length, member, ◌≡◌, ◌≢◌,
  ◌⊎◌, inl, inr, refl, sym, ◌∙◌, arith, pos, Bool-cases, Option-cases, if_true, if_false,
}
use libjadx.Wire.Json.{unset, given}
use libjadx.Wire.Pages.{ClassPage}
use libjadx.Errors.{Exception, Result, raise, value_error}
use libjadx.Client.{Request, Expects, System, Client, invoke}
use libjadx.Pages.{
  Walked, is_reached, walk, walk_all, yield_first, ClassQuery, class_pages, class_request,
  as_class_page, next_class_cursor, class_cursor_error, name_domains,
}
use libjadx.Pages.Walks.{
  Walks, last, enough, repeats, fails, follows, invoked, walk_all_inv, walk_last, walk_next,
}

yield_first_some :
    {Page : Type 0} (page : Page) (w : Option (Walked Page)) → w ≢ none → yield_first page w ≢ none
yield_first_some page none h = λ e. h refl
yield_first_some page (some (ys, x, d)) h = λ e. cc

module _ (sys : System) {Page : Type 0} (expects : Expects Page) (request : String → Request)
    (next_of : Page → Option String) (repeated : Exception) where
  bounded :
      {m : ℕ} {seen : List String} {pages : ℕ} {page : Page} {c : Client} {ys : List Page}
      {x : Result (Unit {0})} {d : Client}
      → Walks sys expects request next_of repeated (some m) seen pages page c ys x d
      → pages < m
      → pages + length ys ≤ m
  bounded (last h) o = omega (arith, o)
  bounded (enough h k) o = omega (arith, o)
  bounded (repeats h k r) o = omega (arith, o)
  bounded (fails h k r e) o = omega (arith, o)
  bounded {m} (follows {pages} h k r e w) o =
      let below : pages + 1 < m = ground (arith, k) in omega (arith, bounded w below)

  walk_ends :
      (n m : ℕ) (seen : List String) (pages : ℕ) (page : Page) (c : Client)
      → pages < m
      → m ≤ pages + n
      → walk sys expects request next_of repeated (some m) n seen pages page c ≢ none
  unfolding walk
  walk_ends zero m seen pages page c o f = absurd (omega arith)
  walk_ends (suc n) m seen pages page c o f = elim (Option-cases (next_of page)) [
    | inl done ↦
        rw (walk_last sys expects request next_of repeated (some m) n seen pages page c done)
          (λ e. cc)
    | inr (cursor, on) ↦
        rw (walk_next sys expects request next_of repeated (some m) n seen pages page c cursor on)
          (elim (Bool-cases (is_reached (some m) (pages + 1))) [
            | inl r ↦ rw (if_true _ _ _ r) (λ e. cc)
            | inr r ↦ rw (if_false _ _ _ r) (elim (Bool-cases (member cursor seen)) [
              | inl k ↦ rw (if_true _ _ _ k) (λ e. cc)
              | inr k ↦
                  rw (if_false _ _ _ k) (elim (invoked (invoke sys expects (request cursor) c)) [
                    | inl (e, d, failed) ↦ rw failed (λ e. cc)
                    | inr (next, d, got) ↦ rw got (
                        yield_first_some page _ (
                          walk_ends n m (cursor ∷ seen) (pages + 1) next d (ground arith)
                            (omega arith)))
                  ])
            ])
          ])
  ]

module _ (sys : System) where
  abbrev walked : ℕ → Option ℕ → ClassQuery → Client → Option (Walked ClassPage)
  walked fuel limit q c =
      walk_all sys as_class_page (λ cursor. class_request q (given cursor)) next_class_cursor
        class_cursor_error limit fuel (class_request q unset) c

  abbrev refused : String → Client → Option (Walked ClassPage)
  refused text c = some ([], raise (value_error text), c)

  -- With a positive limit, what `class_pages` does depends on the name domain only.
  class_pages_is :
      (fuel m : ℕ) (q : ClassQuery) (c : Client)
      → q.max_pages ≡ some (pos m)
      → 0 < m
      → (class_pages sys fuel q c ≡ walked fuel (some m) q c)
        ⊎ (class_pages sys fuel q c ≡ refused "not a valid ListClassesNameDomain" c)
  unfolding class_pages
  class_pages_is fuel zero q c h o = absurd (omega arith)
  class_pages_is fuel (suc m) q c h o =
      rw h (elim (Bool-cases (member q.name_domain name_domains)) [
        | inl t ↦ inl (if_true _ _ _ t)
        | inr f ↦ inr (if_false _ _ _ f)
      ])

  received_some :
      (fuel m : ℕ) (q : ClassQuery) (c : Client)
      → 0 < m
      → m ≤ fuel
      → walked fuel (some m) q c ≢ none
  unfolding walk_all
  received_some fuel m q c o f =
      elim (invoked (invoke sys as_class_page (class_request q unset) c)) [
        | inl (e, d, failed) ↦ rw (failed, walk_all) (λ h. cc)
        | inr (page, d, got) ↦
            rw (got, walk_all)
              (walk_ends sys as_class_page (λ cursor. class_request q (given cursor))
                next_class_cursor class_cursor_error fuel m [] 0 page d o (omega arith))
      ]

  -- With a positive `max_pages`, `class_pages` ends whenever its fuel is no less than that.
  pub class_pages_ends :
      (fuel m : ℕ) (q : ClassQuery) (c : Client)
      → q.max_pages ≡ some (pos m)
      → 0 < m
      → m ≤ fuel
      → class_pages sys fuel q c ≢ none
  class_pages_ends fuel m q c h o f = elim (class_pages_is fuel m q c h o) [
    | inl w ↦ rw w (received_some fuel m q c o f)
    | inr r ↦ rw r (λ e. cc)
  ]

  -- With a positive `max_pages`, `class_pages` yields at most that many pages.
  pub class_pages_bounded :
      (fuel m : ℕ) (q : ClassQuery) (c : Client) {ys : List ClassPage} {x : Result (Unit {0})}
      {d : Client}
      → q.max_pages ≡ some (pos m)
      → 0 < m
      → class_pages sys fuel q c ≡ some (ys, x, d)
      → length ys ≤ m
  class_pages_bounded fuel m q c {ys} h o k = elim (class_pages_is fuel m q c h o) [
    | inl w ↦
        elim (walk_all_inv sys as_class_page (λ cursor. class_request q (given cursor))
          next_class_cursor class_cursor_error (some m) fuel (class_request q unset) c
          (sym w ∙ k)) [
            | inl (e, _, empty, _) ↦ rw empty (omega arith)
            | inr (page, c', _, ws) ↦ omega (
              arith,
              bounded sys as_class_page (λ cursor. class_request q (given cursor)) next_class_cursor
                  class_cursor_error ws o,
            )
          ]
    | inr r ↦ let empty : ys ≡ [] = cc (sym r ∙ k) in rw empty (omega arith)
  ]
