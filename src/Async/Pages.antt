-- ===== src/Async/Pages.antt =====
-- The asynchronous iterators: `AsyncProject.class_pages`, `classes` and `reference_pages` of project.py,
-- and `AsyncSearchCursor` of search.py. An asynchronous generator is given, as the synchronous one is, by
-- the list of what it yields to a caller that takes it all.
pub mod Same
use libjadx.Base.{
  ℕ, zero, suc, ◌+◌, String, Bool, true, false, Option, none, some, List, [], ◌∷◌, member,
  if◌then◌else◌, ◌≡◌, refl, Bool-cases, Option-cases, inl, inr, ◌∙◌,
}
use libjadx.Wire.Json.{Json, unset, given}
use libjadx.Wire.Pages.{ClassInfo, ClassPage, ReferencePage, SearchPage}
use libjadx.Wire.Requests.{ReferenceQuery}
use libjadx.Errors.{Exception, value_error, invalid_dict, Result, ok, raise}
use libjadx.Client.{Request, query_references, Expects, System, Client, invoke}
use libjadx.Client.Poll.{natural?}
use libjadx.Pages.{
  Walked, walk, walk_all, fetched, received, yield_first, is_reached, is_below_one, name_domains,
  ClassQuery, class_request, next_class_cursor, next_reference_cursor, next_search_cursor,
  class_cursor_error, reference_cursor_error, search_cursor_error, as_class_page, as_reference_page,
  as_search_page, at_cursor, search_at, SearchCursor, items_of, hits_of, last_page, class_pages,
  classes, is_clonable, reference_pages, search_pages, iterate, each_item, iterated,
}
use libjadx.Async.{
  Step, returned, and_then, async_invoke, run_alone, run_alone-async_invoke, run_alone-and_then,
  continued,
}

-- What an iteration yielded and how it ended, if the fuel was enough.
abbrev pub Collected : Type 0 → Type 0
Collected Page = Option (List Page × Result (Unit {0}))

abbrev pub prepend : {Page : Type 0} → Page → Collected Page → Collected Page
prepend page none = none
prepend page (some (pages, end)) = some (page ∷ pages, end)

abbrev pub prepending : {Page : Type 0} → Page → Collected Page → Client → Step (Collected Page)
prepending page x c = returned (prepend page x) c

abbrev pub rejoined : {Page : Type 0} → Collected Page × Client → Option (Walked Page)
rejoined (none, c) = none
rejoined (some (pages, end), c) = some (pages, end, c)

module _ (sys : System) {Page : Type 0} (expects : Expects Page) (request : String → Request)
    (next_of : Page → Option String) (repeated : Exception) (limit : Option ℕ) where
  abbrev pub next_page :
      (Page → Client → Step (Collected Page)) → Page → Result Page → Client → Step (Collected Page)
  next_page more page (raise e) c = returned (some (page ∷ [], raise e)) c
  next_page more page (ok next) c = and_then (more next c) (prepending page)

  -- The loop that the three share, from a page that was received.
  unfoldable pub async_walk : ℕ → List String → ℕ → Page → Client → Step (Collected Page)
  async_walk zero seen pages page c = returned none c
  async_walk (suc n) seen pages page c = elim (next_of page) [
    | none ↦ returned (some (page ∷ [], ok tt)) c
    | some cursor ↦
        let rest =
          and_then (async_invoke sys expects (request cursor) c)
            (next_page (async_walk n (cursor ∷ seen) (pages + 1)) page) in
        if is_reached limit (pages + 1)
        then returned (some (page ∷ [], ok tt)) c
        else if member cursor seen
        then returned (some (page ∷ [], raise repeated)) c
        else rest
  ]

  abbrev pub first_page : ℕ → Result Page → Client → Step (Collected Page)
  first_page fuel (raise e) c = returned (some ([], raise e)) c
  first_page fuel (ok page) c = async_walk fuel [] 0 page c

  unfoldable pub async_walk_all : ℕ → Request → Client → Step (Collected Page)
  async_walk_all fuel first c = and_then (async_invoke sys expects first c) (first_page fuel)

-- Behind the iteration over the pages.
abbrev pub gathered :
    {Page Item : Type 0} → (List Page → List Item) → Collected Page → Collected Item
gathered items none = none
gathered items (some (pages, end)) = some (items pages, end)

module _ (sys : System) where
  -- `AsyncProject.class_pages`
  unfoldable pub async_class_pages : ℕ → ClassQuery → Client → Step (Collected ClassPage)
  unfolding class_request
  async_class_pages fuel q c =
      if is_below_one q.max_pages
      then returned (some ([], raise (value_error "max_pages must be positive"))) c
      else if member q.name_domain name_domains
      then async_walk_all sys as_class_page (λ cursor. class_request q (given cursor))
          next_class_cursor class_cursor_error (natural? q.max_pages) fuel (class_request q unset) c
      else returned (some ([], raise (value_error "not a valid ListClassesNameDomain"))) c

  -- `AsyncProject.classes`
  unfoldable pub async_classes : ℕ → ClassQuery → Client → Step (Collected ClassInfo)
  unfolding async_class_pages
  async_classes fuel q c =
      and_then (async_class_pages fuel q c) (λ x c'. returned (gathered (items_of sys) x) c')

  -- `AsyncProject.reference_pages`
  unfoldable pub async_reference_pages :
      ℕ → ReferenceQuery → Client → Step (Collected ReferencePage)
  async_reference_pages fuel query c =
      if is_clonable query
      then async_walk_all sys as_reference_page
          (λ cursor. query_references (at_cursor sys query cursor)) next_reference_cursor
          reference_cursor_error none fuel (query_references query) c
      else returned (some ([], raise invalid_dict)) c

  -- The pages of `AsyncSearchCursor.__aiter__`.
  unfoldable pub async_search_pages : ℕ → SearchCursor → Client → Step (Collected SearchPage)
  async_search_pages fuel cursor c =
      if cursor.started
      then returned (some ([], raise (value_error "Search cursor is a single-use iterator"))) c
      else async_walk sys as_search_page (search_at cursor.query) next_search_cursor
          search_cursor_error none fuel [] 0 cursor.raw c

  -- The hits, how it ended, and the cursor behind the iteration.
  abbrev pub async_iterated :
      SearchCursor → Collected SearchPage → Option (List Json × Result (Unit {0}) × SearchCursor)
  async_iterated cursor none = none
  async_iterated cursor (some (pages, end)) = some (
    hits_of sys pages,
    end,
    record cursor { raw = last_page sys cursor.raw pages; started = true },
  )

  -- `AsyncSearchCursor.__aiter__`, taken to its end.
  unfoldable pub async_iterate :
      ℕ → SearchCursor → Client → Step (Option (List Json × Result (Unit {0}) × SearchCursor))
  unfolding async_search_pages
  async_iterate fuel cursor c =
      and_then (async_search_pages fuel cursor c) (λ x c'. returned (async_iterated cursor x) c')
