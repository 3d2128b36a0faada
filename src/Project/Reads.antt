-- ===== src/Project/Reads.antt =====
-- The methods of `Project` that read: resolution, sources, control flow, references and search. The
-- texts that an enumeration of the request side accepts are listed here.
use libjadx.Base.{
  ℕ, String, Bool, false, Option, none, some, List, [], ◌∷◌, str_eq, member, if◌then◌else◌,
}
use libjadx.Wire.Json.{Omittable, unset, given}
use libjadx.Wire.Enums.{SymbolRefKind, class, field, method}
use libjadx.Wire.Job.{Job}
use libjadx.Wire.Pages.{SymbolInfo, ReferencePage, SearchIndexStatus, SymbolResolution}
use libjadx.Wire.Refs.{SymbolRef}
use libjadx.Wire.Requests.{SearchRequest, SearchBuildRequest}
use libjadx.Errors.{value_error, unexpected_response_error, Result, ok, raise}
use libjadx.Revisions.{Observable}
use libjadx.Revisions.Expected.{Preconditions}
use libjadx.Client.{
  Model, fixed_project, project_settings, mapping_export_receipt, mapping_import_receipt,
  edit_batch_result, decompile_result, control_flow_result, liveness, capabilities,
  shutdown_accepted, Payload, instance_of, Request, System, Client, Exec, Expects, invoke,
}
use libjadx.Client
use libjadx.Pages.{SearchCursor, as_reference_page}
use libjadx.Project.{as_model, first, as_method, is_method_kind, with_expected}

-- `isinstance(parsed, object)`
abbrev pub as_object : Expects Payload
as_object p = some p

unfoldable pub as_resolution : Expects SymbolResolution
as_resolution (Client.symbol_resolution r) = some r
as_resolution _ = none

-- A step that may raise, behind the call of the client.
abbrev pub then_check : {A B : Type 0} → (A → Result B) → Result A × Client → Result B × Client
then_check k (raise e, c) = (raise e, c)
then_check k (ok a, c) = (k a, c)

-- The constructor call of an enumeration.
abbrev pub enum : List String → String → Result String
enum values value =
    if member value values then ok value else raise (value_error "not a valid value")

abbrev pub enum? : List String → Omittable String → Result (Omittable String)
enum? values unset = ok unset
enum? values (given v) = elim (enum values v) [ raise e ↦ raise e | ok w ↦ ok (given w) ]

abbrev cons_checked : Result String → Result (List String) → Result (List String)
cons_checked (raise e) _ = raise e
cons_checked (ok v) (raise e) = raise e
cons_checked (ok v) (ok vs) = ok (v ∷ vs)

abbrev enums : List String → List String → Result (List String)
enums values [] = ok []
enums values (v ∷ vs) = cons_checked (enum values v) (enums values vs)

-- `UNSET if xs is None else [E(x) for x in xs]`
abbrev pub enums? : List String → Option (List String) → Result (Omittable (List String))
enums? values none = ok unset
enums? values (some vs) = elim (enums values vs) [ raise e ↦ raise e | ok ws ↦ ok (given ws) ]

abbrev pub decompilation_modes : List String
decompilation_modes = "AUTO" ∷ "FALLBACK" ∷ "RESTRUCTURE" ∷ "SIMPLE" ∷ []

abbrev pub query_directions : List String
query_directions = "INCOMING" ∷ "OUTGOING" ∷ []

abbrev pub query_views : List String
query_views = "INSTRUCTIONS" ∷ "PAIRS" ∷ []

abbrev pub reference_relations : List String
reference_relations =
    "CALL" ∷ "CLASS_DEPENDENCY" ∷ "FIELD_READ" ∷ "FIELD_USE" ∷ "FIELD_WRITE" ∷ "UNRESOLVED_CALL"
    ∷ []

abbrev pub search_domains : List String
search_domains = "CLASS_NAME" ∷ "MEMBER_NAME" ∷ "SOURCE_TEXT" ∷ "STRING_LITERAL" ∷ []

abbrev pub match_modes : List String
match_modes = "CONTAINS" ∷ "EXACT" ∷ "REGEX" ∷ []

-- What `resolve_object` returns.
pub data Resolved : Type 0 where
  java_class java_method java_field : SymbolInfo → Resolved
  unresolved : SymbolResolution → Resolved

abbrev bind_symbol : SymbolRefKind → SymbolInfo → Resolved
bind_symbol class s = java_class s
bind_symbol method s = java_method s
bind_symbol field s = java_field s

abbrev symbol_of : Omittable (Option SymbolInfo) → Option SymbolInfo
symbol_of unset = none
symbol_of (given x) = x

unfoldable pub bind_resolution : SymbolRefKind → SymbolResolution → Resolved
bind_resolution kind r = elim (symbol_of r.symbol) [
  | none ↦ unresolved r
  | some s ↦ if str_eq r.outcome "RESOLVED" then bind_symbol kind s else unresolved r
]

-- What `search` and `build_search_index` return.
pub data Searched : Type 0 where
  search_cursor : SearchCursor → Searched
  search_job : Job → Searched

pub data Built : Type 0 where
  index_status : SearchIndexStatus → Built
  build_job : Job → Built

abbrev pub searched : SearchRequest → Payload → Result Searched
searched request (Client.job j) = ok (search_job j)
searched request (Client.search_page p) =
    ok (search_cursor (record { query = request; raw = p; started = false }))
searched request _ = raise (unexpected_response_error "Expected SearchPage or Job")

abbrev pub built : Payload → Result Built
built (Client.job j) = ok (build_job j)
built (Client.search_index_status s) = ok (index_status s)
built _ = raise (unexpected_response_error "Expected SearchIndexStatus or Job")

abbrev pub or_default : Option SearchBuildRequest → SearchBuildRequest
or_default (some r) = r
or_default none = record { domains = unset; force = given false }

module _ (sys : System) where
  unfoldable pub resolve : SymbolRef → Exec SymbolResolution
  resolve ref = invoke sys as_resolution (Client.resolve_symbol ref)

  unfoldable pub resolve_object : SymbolRef → Exec Resolved
  unfolding resolve bind_resolution
  resolve_object ref c = then_check (λ r. ok (bind_resolution ref.kind r)) (resolve ref c)

  unfoldable pub decompile :
      SymbolRef → String → Bool → Omittable String → Bool → Bool → Exec Observable
  decompile ref representation strict decompilation_mode include_annotations
        include_raw_debug_lines =
      first (enum? decompilation_modes decompilation_mode) (λ mode.
        invoke sys (as_model decompile_result) (
          Client.decompile_java (record {
            ref = ref;
            representation = given representation;
            decompilation_mode = mode;
            include_annotations = given include_annotations;
            include_raw_debug_lines = given include_raw_debug_lines;
            strict = given strict;
            expected_session_id = unset;
            expected_logical_revision = unset;
            expected_source_snapshot_id = unset;
          })))

  unfoldable pub control_flow : SymbolRef → Bool → Preconditions → Exec Observable
  unfolding as_method
  control_flow ref strict options c =
      if is_method_kind ref.kind
      then with_expected sys false options
          (λ pair. first (as_method ref) (λ m. invoke sys (as_model control_flow_result) (
            Client.get_control_flow_facts (record {
              ref = m;
              strict = given strict;
              expected_session_id = pair.0;
              expected_logical_revision = pair.1;
            }))))
          c
      else (raise (value_error "control_flow requires an original METHOD"), c)

  unfoldable pub references :
      SymbolRef
      → String
      → String
      → Option (List String)
      → ℕ
      → Option String
      → Bool
      → Bool
      → Exec ReferencePage
  references ref direction view relations page_size cursor include_source_sites strict =
      first (enum query_directions direction) (λ d. first (enum query_views view) (λ v.
        first (enums? reference_relations relations) (λ rs. invoke sys as_reference_page (
          Client.query_references (record {
            ref = ref;
            direction = d;
            view = given v;
            relations = rs;
            page_size = given page_size;
            cursor = given cursor;
            include_source_sites = given include_source_sites;
            strict = given strict;
            expected_session_id = unset;
            expected_logical_revision = unset;
          })))))

  abbrev search_with : SearchRequest → Exec Searched
  search_with request c =
      then_check (searched request) (invoke sys as_object (Client.search request) c)

  unfoldable pub search :
      String → Option (List String) → String → Bool → ℕ → Bool → Bool → Exec Searched
  search query domains match_mode case_sensitive page_size strict require_complete =
      first (enums? search_domains domains) (λ ds. first (enum match_modes match_mode) (λ m.
        search_with (record {
          query = query;
          domains = ds;
          match_mode = given m;
          case_sensitive = given case_sensitive;
          page_size = given page_size;
          cursor = unset;
          strict = given strict;
          require_complete = given require_complete;
          expected_session_id = unset;
          expected_logical_revision = unset;
        })))

  unfoldable pub build_search_index : Option SearchBuildRequest → Exec Built
  build_search_index request c =
      then_check built (invoke sys as_object (Client.build_search_index (or_default request)) c)
