-- ===== src/Tests/Iterators.antt =====
-- The page iterators.
use libjadx.Base.{
  ℕ, zero, suc, ◌≤◌, String, true, false, Option, none, some, [], ◌∷◌, length, ◌≡◌, ◌≢◌, ◌⊎◌, refl,
  arith, pos,
}
use libjadx.Wire.Json.{null, str, unset, given}
use libjadx.Wire.Pages.{ClassPage, ReferencePage, SearchPage}
use libjadx.Wire.Requests.{ReferenceQuery, SearchRequest}
use libjadx.Wire.Codec.{Uuid}
use libjadx.Errors.{Result, ok, raise, invalid_dict}
use libjadx.Revisions.{observe, advance}
use libjadx.Client.{
  Client, System, Payload, Request, class_page, reference_page, search_page, query_references,
  invoke, settle, unwrap, accept, observable,
}
use libjadx.Pages.{
  ClassQuery, classes, complete, class_pages, class_request, as_class_page, next_class_cursor, walk,
  walk_all, is_clonable, reference_pages, at_cursor, as_reference_page, next_reference_cursor,
  SearchCursor, iterate, search_pages, as_search_page, next_search_cursor, search_at,
  search_cursor_error,
}
use libjadx.Client
use libjadx.Pages.Asks.{AsksOnce}
use libjadx.Pages.Bounds.{class_pages_ends, class_pages_bounded}
use libjadx.Pages.Whole.{
  FirstThenOnce, EndsWithLast, reference_pages_once, reference_pages_whole, iterate_once,
}
use libjadx.Samples.{system, client, method_reference}

abbrev session : Uuid
session = record { canonical = "00000000-0000-4000-8000-00000000000a" }

abbrev classes_at : Option String → ClassPage
classes_at next = record {
  session_id = session;
  logical_revision = 7;
  snapshot_id = "snapshot";
  scope = "ORIGINAL";
  source_coverage = "COMPLETE";
  items = [];
  next_cursor = next;
  complete = false;
}

-- A service that names the same next cursor on every page.
abbrev endless : System
endless = system (class_page (classes_at (some "next")))

abbrev pub class_query : ClassQuery
class_query = record {
  package_prefix = unset;
  name_contains = unset;
  name_domain = "original";
  include_inner = true;
  page_size = 50;
  max_pages = some (pos 2);
}

class_pages_ends_example : class_pages endless 2 class_query client ≢ none
class_pages_ends_example =
    class_pages_ends endless 2 2 class_query client refl (omega arith) (omega arith)

abbrev after_classes : Client
after_classes = record client {
  sent = class_request class_query unset ∷ class_request class_query (given "next") ∷ [];
}

two_pages :
    class_pages endless 2 class_query client
    ≡ some (classes_at (some "next") ∷ classes_at (some "next") ∷ [], ok tt, after_classes)
unfolding class_pages walk_all walk invoke settle unwrap accept as_class_page observable observe
    advance next_class_cursor class_request
two_pages = refl

class_pages_bounded_example : length (classes_at (some "next") ∷ classes_at (some "next") ∷ []) ≤ 2
class_pages_bounded_example =
    class_pages_bounded endless 2 2 class_query client refl (omega arith) two_pages

abbrev references_at : Option String → ReferencePage
references_at next = record {
  outcome = "RESOLVED";
  queried_ref = method_reference;
  direction = "INCOMING";
  candidates = [];
  session_id = session;
  logical_revision = 7;
  snapshot_id = none;
  scope = "LOADED";
  coverage = "COMPLETE";
  edges = [];
  next_cursor = next;
  page_complete = false;
  capabilities = null;
  diagnostics = [];
  instruction_scan = unset;
}

abbrev pub query : ReferenceQuery
query = record {
  ref = method_reference;
  direction = "INCOMING";
  view = unset;
  relations = unset;
  page_size = given 50;
  cursor = unset;
  include_source_sites = unset;
  strict = unset;
  expected_session_id = unset;
  expected_logical_revision = unset;
}

-- A service with two pages: the first answer has a next cursor, later ones have none.
abbrev answer : ℕ → Payload
answer zero = reference_page (references_at (some "next"))
answer (suc n) = reference_page (references_at none)

abbrev two : System
two = record (system (answer 1)) {
  exchange = λ n _. Client.response (record { status_code = 200; headers = []; parsed = answer n });
}

abbrev after_references : Client
after_references = record client {
  sent = query_references query ∷ query_references (at_cursor two query "next") ∷ [];
}

reference_pages_run :
    reference_pages two 5 query client
    ≡ some (references_at (some "next") ∷ references_at none ∷ [], ok tt, after_references)
unfolding is_clonable reference_pages walk_all walk invoke settle unwrap accept as_reference_page
    observable observe advance next_reference_cursor
reference_pages_run = refl

reference_pages_once_example :
    ((is_clonable query ≡ false)
      × (references_at (some "next") ∷ references_at none ∷ [] ≡ [])
      × (◌≡◌ {A = Result (Unit {0})} (ok tt) (raise invalid_dict))
      × (after_references ≡ client))
    ⊎ ((is_clonable query ≡ true)
        × FirstThenOnce
            (query_references query)
            (λ cursor. query_references (at_cursor two query cursor))
            client
            after_references)
reference_pages_once_example = reference_pages_once two 5 query client refl reference_pages_run

reference_pages_whole_example :
    EndsWithLast next_reference_cursor (references_at (some "next") ∷ references_at none ∷ [])
reference_pages_whole_example = reference_pages_whole two 5 query client reference_pages_run

abbrev hits_at : Option String → SearchPage
hits_at next = record {
  session_id = "00000000-0000-4000-8000-00000000000a";
  logical_revision = 7;
  settings_fingerprint = "f";
  index_snapshot_id = "i";
  index_generation = 1;
  result_snapshot_id = "r";
  coverage = [];
  hits = str "hit" ∷ [];
  next_cursor = next;
  page_complete = false;
  diagnostics = [];
}

abbrev search_query : SearchRequest
search_query = record {
  query = "main";
  domains = unset;
  match_mode = unset;
  case_sensitive = unset;
  page_size = unset;
  cursor = unset;
  strict = unset;
  require_complete = unset;
  expected_session_id = unset;
  expected_logical_revision = unset;
}

-- A search whose second page repeats its own cursor.
abbrev pub first_hits : SearchCursor
first_hits = record { query = search_query; raw = hits_at (some "next"); started = false }

abbrev repeating : System
repeating = system (search_page (hits_at (some "next")))

abbrev after_search : Client
after_search = record client { sent = search_at search_query "next" ∷ [] }

abbrev used : SearchCursor
used = record first_hits { started = true }

repeated_search :
    iterate repeating 5 first_hits client
    ≡ some (str "hit" ∷ str "hit" ∷ [], raise search_cursor_error, used, after_search)
unfolding iterate search_pages walk invoke settle unwrap accept as_search_page observable observe
    advance next_search_cursor
repeated_search = refl

iterate_once_example : AsksOnce (search_at search_query) [] client after_search
iterate_once_example = iterate_once repeating 5 first_hits client refl repeated_search

-- The classes of two pages, and a search without coverage is complete.
classes_run : classes endless 2 class_query client ≡ some ([], ok tt, after_classes)
unfolding classes class_pages walk_all walk invoke settle unwrap accept as_class_page observable
    observe advance next_class_cursor class_request
classes_run = refl

complete_run : complete first_hits ≡ true
unfolding complete
complete_run = refl
