-- ===== src/Async/Reads.antt =====
-- `AsyncProject` of python/src/libjadx/project.py, the methods that read, and the
-- asynchronous handles of symbols.py.
use libjadx.Base.{ℕ, String, Bool, true, false, Option, none, List, if◌then◌else◌}
use libjadx.Wire.Json.{Omittable, unset, given}
use libjadx.Wire.Pages.{ReferencePage, SymbolResolution}
use libjadx.Wire.Refs.{SymbolRef}
use libjadx.Wire.Requests.{SearchRequest, SearchBuildRequest}
use libjadx.Errors.{value_error, Result, ok, raise}
use libjadx.Revisions.{Observable}
use libjadx.Revisions.Expected.{Preconditions}
use libjadx.Client.{
  fixed_project, project_settings, mapping_export_receipt, mapping_import_receipt,
  edit_batch_result, decompile_result, control_flow_result, System, Client,
}
use libjadx.Client
use libjadx.Pages.{as_reference_page}
use libjadx.Project.{as_model, is_method_kind, as_method}
use libjadx.Project.Reads.{
  as_object, as_resolution, enum, enum?, enums?, decompilation_modes, query_directions, query_views,
  reference_relations, search_domains, match_modes, Resolved, bind_resolution, Searched, searched,
  Built, built, or_default,
}
use libjadx.Symbols.{RawSymbol, reference}
use libjadx.Async.Project.{async_first, async_expected, async_rename}
use libjadx.Async.{Step, returned, Async, and_then, async_invoke}

-- A step that may raise, behind the response.
abbrev pub async_check : {A B : Type 0} → (A → Result B) → Result A → Client → Step (Result B)
async_check k (raise e) c = returned (raise e) c
async_check k (ok a) c = returned (k a) c

module _ (sys : System) where
  unfoldable pub async_resolve : SymbolRef → Async SymbolResolution
  async_resolve ref = async_invoke sys as_resolution (Client.resolve_symbol ref)

  unfoldable pub async_resolve_object : SymbolRef → Async Resolved
  unfolding async_resolve bind_resolution
  async_resolve_object ref c =
      and_then (async_resolve ref c) (async_check (λ r. ok (bind_resolution ref.kind r)))

  unfoldable pub async_decompile :
      SymbolRef → String → Bool → Omittable String → Bool → Bool → Async Observable
  async_decompile ref representation strict decompilation_mode include_annotations
        include_raw_debug_lines =
      async_first (enum? decompilation_modes decompilation_mode) (λ mode.
        async_invoke sys (as_model decompile_result) (
          Client.decompile_java (record {
            ref = ref;
            representation = given representation;
            decompilation_mode = mode;
            include_annotations = given include_annotations;
            include_raw_debug_lines = given include_raw_debug_lines;
            strict = given strict;
            expected_session_id = unset;
            expected_logical_revision = unset;
            expected_source_snapshot_id = unset;
          })))

  unfoldable pub async_control_flow : SymbolRef → Bool → Preconditions → Async Observable
  unfolding as_method
  async_control_flow ref strict options c =
      if is_method_kind ref.kind
      then async_expected sys false options
          (λ pair. async_first (as_method ref) (λ m.
            async_invoke sys (as_model control_flow_result) (
              Client.get_control_flow_facts (record {
                ref = m;
                strict = given strict;
                expected_session_id = pair.0;
                expected_logical_revision = pair.1;
              }))))
          c
      else returned (raise (value_error "control_flow requires an original METHOD")) c

  unfoldable pub async_references :
      SymbolRef
      → String
      → String
      → Option (List String)
      → ℕ
      → Option String
      → Bool
      → Bool
      → Async ReferencePage
  async_references ref direction view relations page_size cursor include_source_sites strict =
      async_first (enum query_directions direction) (λ d. async_first (enum query_views view) (λ v.
        async_first (enums? reference_relations relations) (λ rs.
          async_invoke sys as_reference_page (
            Client.query_references (record {
              ref = ref;
              direction = d;
              view = given v;
              relations = rs;
              page_size = given page_size;
              cursor = given cursor;
              include_source_sites = given include_source_sites;
              strict = given strict;
              expected_session_id = unset;
              expected_logical_revision = unset;
            })))))

  abbrev async_search_with : SearchRequest → Async Searched
  async_search_with request c =
      and_then (async_invoke sys as_object (Client.search request) c)
        (async_check (searched request))

  unfoldable pub async_search :
      String → Option (List String) → String → Bool → ℕ → Bool → Bool → Async Searched
  async_search query domains match_mode case_sensitive page_size strict require_complete =
      async_first (enums? search_domains domains) (λ ds.
        async_first (enum match_modes match_mode) (λ m. async_search_with (record {
          query = query;
          domains = ds;
          match_mode = given m;
          case_sensitive = given case_sensitive;
          page_size = given page_size;
          cursor = unset;
          strict = given strict;
          require_complete = given require_complete;
          expected_session_id = unset;
          expected_logical_revision = unset;
        })))

  unfoldable pub async_build_search_index : Option SearchBuildRequest → Async Built
  async_build_search_index request c =
      and_then (async_invoke sys as_object (Client.build_search_index (or_default request)) c)
        (async_check built)

  -- `_AsyncBoundSymbol.rename`
  unfoldable pub async_rename_symbol : RawSymbol → String → Bool → Preconditions → Async Observable
  unfolding reference async_rename
  async_rename_symbol s new_name propagate_related options =
      async_rename sys (reference s) new_name propagate_related options

  -- `_AsyncBoundSymbol.references`
  unfoldable pub async_symbol_references :
      RawSymbol → String → String → Bool → Bool → Async ReferencePage
  unfolding reference async_references
  async_symbol_references s direction view strict include_source_sites =
      async_references (reference s) direction view none 50 none include_source_sites strict

  -- `AsyncJavaClass.decompile` and `AsyncJavaMethod.decompile`
  unfoldable pub async_decompile_symbol : RawSymbol → Bool → Async Observable
  unfolding reference async_decompile
  async_decompile_symbol s strict = async_decompile (reference s) "JAVA" strict unset true false

  -- `AsyncJavaMethod.control_flow`
  unfoldable pub async_symbol_control_flow : RawSymbol → Bool → Preconditions → Async Observable
  unfolding reference async_control_flow
  async_symbol_control_flow s strict options = async_control_flow (reference s) strict options
