-- ===== src/Pages/Whole.antt =====
-- The requests and the pages of `reference_pages` of project.py and of `SearchCursor` of search.py.
use libjadx.Base.{
  ℕ, String, Bool, true, false, Option, none, some, List, [], ◌∷◌, ◌++◌, map, ◌≡◌, ◌⊎◌, inl, inr,
  refl, sym, ap, ◌∙◌, arith, Bool-cases, if_true, if_false,
}
use mathlib.Core.List.{append_assoc}
use libjadx.Wire.Json.{Json}
use libjadx.Wire.Pages.{ReferencePage, SearchPage}
use libjadx.Wire.Requests.{ReferenceQuery}
use libjadx.Errors.{Exception, Result, ok, raise, value_error, invalid_dict}
use libjadx.Client.{Request, query_references, Expects, System, Client}
use libjadx.Pages.{
  Walked, walk_all, is_clonable, reference_pages, at_cursor, as_reference_page,
  next_reference_cursor, reference_cursor_error, SearchCursor, search_pages, iterate, iterated,
  last_page, search_at, as_search_page, next_search_cursor, search_cursor_error,
}
use libjadx.Pages.Walks.{Walks, last, enough, repeats, fails, follows, walk-Walks, walk_all_inv}
use libjadx.Pages.Asks.{AsksOnce, asks_once, asks_nothing, Distinct, sends}

-- The requests are the first one, and then one for each of some distinct cursors.
pub record FirstThenOnce (first : Request) (request : String → Request) (before after : Client)
    : Type 0 where
  pub cursors : List String
  pub distinct : Distinct cursors
  pub sent : after.sent ≡ before.sent ++ first ∷ map request cursors

-- The iteration yielded pages of which the last says that none follows.
pub record EndsWithLast {Page : Type 0} (next_of : Page → Option String) (ys : List Page)
    : Type 0 where
  pub before : List Page
  pub final : Page
  pub yielded : ys ≡ before ++ final ∷ []
  pub none_follows : next_of final ≡ none

module _ (sys : System) {Page : Type 0} (expects : Expects Page) (request : String → Request)
    (next_of : Page → Option String) (repeated : Exception) where
  -- Without a limit an iteration that ends normally has reached a last page.
  ends_with_last :
      {seen : List String} {pages : ℕ} {page : Page} {c : Client} {ys : List Page}
      {x : Result (Unit {0})} {d : Client}
      → Walks sys expects request next_of repeated none seen pages page c ys x d
      → x ≡ ok tt
      → EndsWithLast next_of ys
  ends_with_last (last {page = page} h) e = record {
    before = [];
    final = page;
    yielded = refl;
    none_follows = h;
  }
  ends_with_last (enough h k) e = cc k
  ends_with_last (repeats h k m) e = cc e
  ends_with_last (fails h k m i) e = cc e
  ends_with_last (follows {page = page} h k m i w) e =
      let r = ends_with_last w e in
      record {
        before = page ∷ r.before;
        final = r.final;
        yielded = ap (λ l. page ∷ l) r.yielded;
        none_follows = r.none_follows;
      }

  all_once :
      (limit : Option ℕ) (n : ℕ) (first : Request) (c : Client) {ys : List Page}
      {x : Result (Unit {0})} {d : Client}
      → c.closed ≡ false
      → walk_all sys expects request next_of repeated limit n first c ≡ some (ys, x, d)
      → FirstThenOnce first request c d
  all_once limit n first c {d = d} o h =
      elim (walk_all_inv sys expects request next_of repeated limit n first c h) [
        | inl (e, failed, _, _) ↦ record {
          cursors = [];
          distinct = tt;
          sent = (sends sys expects request next_of repeated limit first c o failed).0;
        }
        | inr (page, c', got, w) ↦
            let (sent, still) = sends sys expects request next_of repeated limit first c o got in
            let r = asks_once sys expects request next_of repeated limit w still in
            record {
              cursors = r.cursors;
              distinct = r.distinct;
              sent =
                  r.sent
                  ∙ ap (λ l. l ++ map request r.cursors) sent
                  ∙ append_assoc c.sent (first ∷ []) (map request r.cursors);
            }
      ]

  all_last :
      (n : ℕ) (first : Request) (c : Client) {ys : List Page} {x : Result (Unit {0})} {d : Client}
      → walk_all sys expects request next_of repeated none n first c ≡ some (ys, x, d)
      → x ≡ ok tt
      → EndsWithLast next_of ys
  all_last n first c h e =
      elim (walk_all_inv sys expects request next_of repeated none n first c h) [
        | inl (f, _, _, bad) ↦ cc (sym bad ∙ e)
        | inr (page, c', got, w) ↦ ends_with_last w e
      ]

raised_at_once :
    (e : Exception) (c : Client) (ys : List ReferencePage) (x : Result (Unit {0})) (d : Client)
    → ◌≡◌ {A = Option (Walked ReferencePage)} (some ([], raise e, c)) (some (ys, x, d))
    → (ys ≡ []) × (x ≡ raise e) × (d ≡ c)
raised_at_once e c ys x d h = (ground arith, ground arith, ground arith)

module _ (sys : System) where
  -- An open client's iteration over reference pages asks for the query, and then for it at cursors
  -- that are all distinct; only if the query cannot be cloned does it yield nothing, raise and send nothing.
  pub reference_pages_once :
      (fuel : ℕ) (query : ReferenceQuery) (c : Client) {ys : List ReferencePage}
      {x : Result (Unit {0})} {d : Client}
      → c.closed ≡ false
      → reference_pages sys fuel query c ≡ some (ys, x, d)
      → ((is_clonable query ≡ false) × (ys ≡ []) × (x ≡ raise invalid_dict) × (d ≡ c))
        ⊎ ((is_clonable query ≡ true)
            × FirstThenOnce
                (query_references query)
                (λ cursor. query_references (at_cursor sys query cursor))
                c
                d)
  unfolding reference_pages
  reference_pages_once fuel query c {ys = ys} {x = x} {d = d} o h =
      elim (Bool-cases (is_clonable query)) [
        | inl fine ↦ inr (
          fine,
          all_once sys as_reference_page (λ cursor. query_references (at_cursor sys query cursor))
              next_reference_cursor reference_cursor_error none fuel (query_references query) c o
              (rw fine at h),
        )
        | inr bad ↦
            let (none_yielded, raised, still) =
              raised_at_once invalid_dict c ys x d (rw bad at h) in
            inl (bad, none_yielded, raised, still)
      ]

  -- An iteration over reference pages that ends normally has yielded a last page, one that is marked
  -- complete or has no next cursor.
  pub reference_pages_whole :
      (fuel : ℕ) (query : ReferenceQuery) (c : Client) {ys : List ReferencePage} {d : Client}
      → reference_pages sys fuel query c ≡ some (ys, ok tt, d)
      → EndsWithLast next_reference_cursor ys
  unfolding reference_pages
  reference_pages_whole fuel query c h = elim (Bool-cases (is_clonable query)) [
    | inl fine ↦
        all_last sys as_reference_page (λ cursor. query_references (at_cursor sys query cursor))
          next_reference_cursor reference_cursor_error fuel (query_references query) c
          (rw fine at h) refl
    | inr bad ↦ absurd (let q = rw bad at h in cc)
  ]

  iterated_inv :
      (cursor : SearchCursor) (w : Option (Walked SearchPage)) {hits : List Json}
      {x : Result (Unit {0})} {after : SearchCursor} {d : Client}
      → iterated sys cursor w ≡ some (hits, x, after, d)
      → (ys : List SearchPage) × (w ≡ some (ys, x, d))
        × (after.started ≡ true)
        × (after.query ≡ cursor.query)
  iterated_inv cursor none h = cc
  iterated_inv cursor (some (ys, x, d)) {after = after} h =
      let a : record cursor { raw = last_page sys cursor.raw ys; started = true } ≡ after = cc in
      (ys, ground arith, sym (ap (λ k. k.started) a), sym (ap (λ k. k.query) a))

  -- On an open client, iterating a search cursor asks for the pages at some distinct cursors and for
  -- nothing else.
  pub iterate_once :
      (fuel : ℕ) (cursor : SearchCursor) (c : Client) {hits : List Json} {x : Result (Unit {0})}
      {after : SearchCursor} {d : Client}
      → c.closed ≡ false
      → iterate sys fuel cursor c ≡ some (hits, x, after, d)
      → AsksOnce (search_at cursor.query) [] c d
  unfolding iterate search_pages
  iterate_once fuel cursor c {d = d} o h =
      let (ys, w, _, _) = iterated_inv cursor (search_pages sys fuel cursor c) h in
      elim (Bool-cases cursor.started) [
        | inl t ↦
            let same : d ≡ c = cc (sym (if_true _ _ _ t) ∙ w) in
            rw same (asks_nothing (search_at cursor.query) [] c)
        | inr f ↦
            asks_once sys as_search_page (search_at cursor.query) next_search_cursor
              search_cursor_error none
              (walk-Walks sys as_search_page (search_at cursor.query) next_search_cursor
                search_cursor_error none fuel [] 0 cursor.raw c (sym (if_false _ _ _ f) ∙ w))
              o
      ]

  abbrev again_with :
      SearchCursor → Client → Bool → Option (List Json × Result (Unit {0}) × SearchCursor × Client)
  again_with after later b = some (
    [],
    raise (value_error "Search cursor is a single-use iterator"),
    record after { started = b },
    later,
  )

  -- A search cursor is used once: when it has been iterated, iterating it again raises at once, whatever
  -- the client then is; nothing is sent and the cursor stays as it is.
  pub iterate_again :
      (fuel more : ℕ) (cursor : SearchCursor) (c later : Client) {hits : List Json}
      {x : Result (Unit {0})} {after : SearchCursor} {d : Client}
      → iterate sys fuel cursor c ≡ some (hits, x, after, d)
      → iterate sys more after later
        ≡ some ([], raise (value_error "Search cursor is a single-use iterator"), after, later)
  unfolding iterate search_pages
  iterate_again fuel more cursor c later {after = after} h =
      let (ys, w, started, _) = iterated_inv cursor (search_pages sys fuel cursor c) h in
      ap (iterated sys after) (if_true _ _ _ started) ∙ ap (again_with after later) (sym started)
