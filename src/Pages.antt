-- ===== src/Pages.antt =====
-- The iterators over pages: `class_pages`, `classes` and `reference_pages` of project.py, and
-- `SearchCursor` of search.py. A generator is given by the list of what it yields to a caller that
-- takes it all and by how it ends. The three have one loop: yield the page, stop at the last, refuse
-- a cursor that was seen, ask for the next page.
pub mod Asks
pub mod Bounds
pub mod Whole
pub mod Walks
use libjadx.Base.{
  ℕ, zero, suc, ◌+◌, String, Bool, true, false, ◌&&◌, Option, none, some, List, [], ◌∷◌, ◌++◌, map,
  leb, str_eq, member, if◌then◌else◌, ℤ, pos, negsuc,
}
use libjadx.Wire.Json.{Json, Omittable, unset, given}
use libjadx.Wire.Pages.{ClassInfo, ClassPage, ReferencePage, SearchCoverage, SearchPage}
use libjadx.Wire.Requests.{ReferenceQuery, SearchRequest, ListClasses}
use libjadx.Wire.Schema.References.{
  reference_query_direction_values, reference_query_view_values, reference_relation_values,
}
use libjadx.Errors.{
  Exception, invalid_dict, value_error, unexpected_response_error, Result, ok, raise,
}
use libjadx.Client.{
  Payload, Request, list_classes, query_references, search, Expects, System, Client, invoke,
}
use libjadx.Client
use libjadx.Client.Poll.{natural?, is_negative}

-- What an iteration over pages did: what it yielded, how it ended, and the client behind it.
abbrev pub Walked : Type 0 → Type 0
Walked Page = List Page × Result (Unit {0}) × Client

-- `max_pages is not None and pages >= max_pages`
abbrev pub is_reached : Option ℕ → ℕ → Bool
is_reached none pages = false
is_reached (some m) pages = leb m pages

abbrev pub yield_first : {Page : Type 0} → Page → Option (Walked Page) → Option (Walked Page)
yield_first page none = none
yield_first page (some (pages, end, c)) = some (page ∷ pages, end, c)

module _ (sys : System) {Page : Type 0} (expects : Expects Page) (request : String → Request)
    (next_of : Page → Option String) (repeated : Exception) (limit : Option ℕ) where
  -- Behind the exchange for the next page.
  abbrev pub fetched :
      (Page → Client → Option (Walked Page)) → Page → Result Page × Client → Option (Walked Page)
  fetched more page (raise e, c) = some (page ∷ [], raise e, c)
  fetched more page (ok next, c) = yield_first page (more next c)

  -- From a page that was received; `pages` were yielded before it. Fuel for the pages.
  unfoldable pub walk : ℕ → List String → ℕ → Page → Client → Option (Walked Page)
  walk zero seen pages page c = none
  walk (suc n) seen pages page c = elim (next_of page) [
    | none ↦ some (page ∷ [], ok tt, c)
    | some cursor ↦
        let rest =
          fetched (walk n (cursor ∷ seen) (pages + 1)) page
            (invoke sys expects (request cursor) c) in
        if is_reached limit (pages + 1)
        then some (page ∷ [], ok tt, c)
        else if member cursor seen
        then some (page ∷ [], raise repeated, c)
        else rest
  ]

  -- From the first request.
  abbrev pub received : ℕ → Result Page × Client → Option (Walked Page)
  received fuel (raise e, c) = some ([], raise e, c)
  received fuel (ok page, c) = walk fuel [] 0 page c

  unfoldable pub walk_all : ℕ → Request → Client → Option (Walked Page)
  walk_all fuel first c = received fuel (invoke sys expects first c)

-- `isinstance(parsed, ClassPage)` and its kin
unfoldable pub as_class_page : Expects ClassPage
as_class_page (Client.class_page p) = some p
as_class_page _ = none

unfoldable pub as_reference_page : Expects ReferencePage
as_reference_page (Client.reference_page p) = some p
as_reference_page _ = none

unfoldable pub as_search_page : Expects SearchPage
as_search_page (Client.search_page p) = some p
as_search_page _ = none

-- The values of `ListClassesNameDomain`.
abbrev pub name_domains : List String
name_domains = "alias" ∷ "original" ∷ []

-- The keyword arguments of `class_pages`.
pub record ClassQuery : Type 0 where
  pub package_prefix : Omittable String
  pub name_contains : Omittable String
  pub name_domain : String
  pub include_inner : Bool
  pub page_size : ℕ
  pub max_pages : Option ℤ

unfoldable pub class_request : ClassQuery → Omittable String → Request
class_request q cursor = list_classes (record {
  page_size = q.page_size;
  cursor = cursor;
  package_prefix = q.package_prefix;
  name_contains = q.name_contains;
  name_domain = q.name_domain;
  include_inner = q.include_inner;
})

-- `page.complete or page.next_cursor is None`
unfoldable pub next_class_cursor : ClassPage → Option String
next_class_cursor page = if page.complete then none else page.next_cursor

unfoldable pub next_reference_cursor : ReferencePage → Option String
next_reference_cursor page = if page.page_complete then none else page.next_cursor

unfoldable pub next_search_cursor : SearchPage → Option String
next_search_cursor page = if page.page_complete then none else page.next_cursor

-- `max_pages is not None and max_pages < 1`
abbrev pub is_below_one : Option ℤ → Bool
is_below_one (some (pos zero)) = true
is_below_one max_pages = is_negative max_pages

abbrev pub class_cursor_error : Exception
class_cursor_error = unexpected_response_error "Server repeated a class cursor"

abbrev pub reference_cursor_error : Exception
reference_cursor_error = unexpected_response_error "Server repeated a reference cursor"

abbrev pub search_cursor_error : Exception
search_cursor_error = unexpected_response_error "Server repeated a search cursor"

-- Whether `ReferenceQuery.from_dict(query.to_dict())` does not raise: the texts of the enumerations are
-- read again. A text that is none of the values stands for an attribute that is no member. The reference
-- and the UUID read back from what they write, and the other attributes are kept as they are.
abbrev all_of : List String → List String → Bool
all_of vs [] = true
all_of vs (x ∷ xs) = member x vs && all_of vs xs

abbrev unless_omitted {ℓ} : {A : Type ℓ} → (A → Bool) → Omittable A → Bool
unless_omitted test unset = true
unless_omitted test (given a) = test a

unfoldable pub is_clonable : ReferenceQuery → Bool
is_clonable query =
    member query.direction reference_query_direction_values
    && unless_omitted (λ v. member v reference_query_view_values) query.view
    && unless_omitted (all_of reference_relation_values) query.relations

module _ (sys : System) where
  -- `Project.class_pages`
  unfoldable pub class_pages : ℕ → ClassQuery → Client → Option (Walked ClassPage)
  unfolding class_request
  class_pages fuel q c =
      if is_below_one q.max_pages
      then some ([], raise (value_error "max_pages must be positive"), c)
      else if member q.name_domain name_domains
      then walk_all sys as_class_page (λ cursor. class_request q (given cursor)) next_class_cursor
          class_cursor_error (natural? q.max_pages) fuel (class_request q unset) c
      else some ([], raise (value_error "not a valid ListClassesNameDomain"), c)

  -- `Project.classes`: the items of the pages, each the raw record of a `JavaClass`.
  abbrev pub items_of : List ClassPage → List ClassInfo
  items_of [] = []
  items_of (p ∷ ps) = p.items ++ items_of ps

  abbrev pub each_item : Option (Walked ClassPage) → Option (Walked ClassInfo)
  each_item none = none
  each_item (some (pages, end, c)) = some (items_of pages, end, c)

  unfoldable pub classes : ℕ → ClassQuery → Client → Option (Walked ClassInfo)
  unfolding class_pages
  classes fuel q c = each_item (class_pages fuel q c)

  abbrev pub at_cursor : ReferenceQuery → String → ReferenceQuery
  at_cursor query cursor = record query { cursor = given (some cursor) }

  -- `Project.reference_pages`. What is cloned is the query itself, a value here.
  unfoldable pub reference_pages : ℕ → ReferenceQuery → Client → Option (Walked ReferencePage)
  reference_pages fuel query c =
      if is_clonable query
      then walk_all sys as_reference_page (λ cursor. query_references (at_cursor query cursor))
          next_reference_cursor reference_cursor_error none fuel (query_references query) c
      else some ([], raise invalid_dict, c)

-- `_Cursor` and `SearchCursor`; `_seen` is empty until the iteration starts.
pub record SearchCursor : Type 0 where
  pub query : SearchRequest
  pub raw : SearchPage
  pub started : Bool

abbrev is_complete : List SearchCoverage → Bool
is_complete [] = true
is_complete (v ∷ vs) = str_eq v.state "COMPLETE" && is_complete vs

-- The property `complete`.
unfoldable pub complete : SearchCursor → Bool
complete cursor = is_complete cursor.raw.coverage

abbrev pub search_at : SearchRequest → String → Request
search_at query cursor = search (record query { cursor = given (some cursor) })

module _ (sys : System) where
  -- The iteration over the pages; its hits are those of the pages, in order. Behind it the cursor has
  -- started, and its raw page is the last one.
  unfoldable pub search_pages : ℕ → SearchCursor → Client → Option (Walked SearchPage)
  search_pages fuel cursor c =
      if cursor.started
      then some ([], raise (value_error "Search cursor is a single-use iterator"), c)
      else walk sys as_search_page (search_at cursor.query) next_search_cursor search_cursor_error
          none fuel [] 0 cursor.raw c

  abbrev pub hits_of : List SearchPage → List Json
  hits_of [] = []
  hits_of (p ∷ ps) = p.hits ++ hits_of ps

  abbrev pub last_page : SearchPage → List SearchPage → SearchPage
  last_page p [] = p
  last_page p (q ∷ qs) = last_page q qs

  abbrev pub iterated :
      SearchCursor
      → Option (Walked SearchPage)
      → Option (List Json × Result (Unit {0}) × SearchCursor × Client)
  iterated cursor none = none
  iterated cursor (some (pages, end, c)) =
      some
        (hits_of pages, end, record cursor { raw = last_page cursor.raw pages; started = true }, c)

  -- `SearchCursor.__iter__`, taken to its end.
  unfoldable pub iterate :
      ℕ → SearchCursor → Client → Option (List Json × Result (Unit {0}) × SearchCursor × Client)
  unfolding search_pages
  iterate fuel cursor c = iterated cursor (search_pages fuel cursor c)
