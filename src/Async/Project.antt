-- ===== src/Async/Project.antt =====
-- `AsyncProject` of python/src/libjadx/project.py, the methods that change the project
-- and those that ask for its state, each with its one request.
use libjadx.Base.{ℕ, String, Bool, false, not, ◌&&◌, Option, List, [], ◌∷◌, if◌then◌else◌}
use libjadx.Wire.Json.{given}
use libjadx.Wire.Codec.{Uuid}
use libjadx.Wire.Refs.{SymbolRef}
use libjadx.Wire.Requests.{EditOperation, SearchRequest, SearchBuildRequest}
use libjadx.Wire.Requests
use libjadx.Errors.{value_error, Result, ok, raise}
use libjadx.Revisions.{Observable}
use libjadx.Revisions.Expected.{Preconditions, Expected, expected, required}
use libjadx.Client.{
  fixed_project, project_settings, mapping_export_receipt, mapping_import_receipt,
  edit_batch_result, decompile_result, control_flow_result, System, Client,
}
use libjadx.Client
use libjadx.Project.{as_model, needs_pair, is_method_kind, as_method, omit_none}
use libjadx.Async.{returned, Async, async_invoke}

-- A step that may raise before the client is used.
abbrev pub async_first : {A B : Type 0} → Result A → (A → Async B) → Async B
async_first (raise e) k c = returned (raise e) c
async_first (ok a) k c = k a c

module _ (sys : System) where
  -- `self._expected(options, …)` and `self._required(options)`
  abbrev pub async_expected : {B : Type 0} → Bool → Preconditions → (Expected → Async B) → Async B
  async_expected needs options k c = async_first (expected sys.codec options needs c.revisions) k c

  abbrev pub async_required : {B : Type 0} → Preconditions → (Uuid × ℕ → Async B) → Async B
  async_required options k c = async_first (required sys.codec options c.revisions) k c

  unfoldable pub async_snapshot : Async Observable
  async_snapshot = async_invoke sys (as_model fixed_project) Client.get_project

  unfoldable pub async_settings : Async Observable
  async_settings = async_invoke sys (as_model project_settings) Client.get_project_settings

  unfoldable pub async_pending_edits : Async Observable
  async_pending_edits = async_invoke sys (as_model Client.pending_edits) Client.export_pending_edits

  unfoldable pub async_save : Option String → Preconditions → Async Observable
  async_save target_path options = async_expected false options (λ pair.
      async_invoke sys (as_model fixed_project) (
        Client.save_project (record {
          target_path = omit_none target_path;
          expected_logical_revision = pair.1;
          expected_session_id = pair.0;
        })))

  unfoldable pub async_reload : Bool → Preconditions → Async Observable
  async_reload discard_unsaved options = async_required options (λ pair.
      async_invoke sys (as_model fixed_project) (
        Client.reload_project (record {
          discard_unsaved = discard_unsaved;
          expected_session_id = pair.0;
          expected_logical_revision = pair.1;
        })))

  unfoldable pub async_update_settings : Option String → Preconditions → Async Observable
  async_update_settings mappings_path options = async_required options (λ pair.
      async_invoke sys (as_model project_settings) (
        Client.update_project_settings (record {
          mappings_path = mappings_path;
          expected_logical_revision = pair.1;
          expected_session_id = pair.0;
        })))

  unfoldable pub async_export_mappings : String → Preconditions → Async Observable
  async_export_mappings target_path options = async_required options (λ pair.
      async_invoke sys (as_model mapping_export_receipt) (
        Client.export_mappings (record {
          target_path = target_path;
          format_ = "TINY_V2";
          expected_session_id = pair.0;
          expected_logical_revision = pair.1;
        })))

  unfoldable pub async_import_mappings : String → Preconditions → Async Observable
  async_import_mappings source_path options = async_required options (λ pair.
      async_invoke sys (as_model mapping_import_receipt) (
        Client.import_mappings (record {
          source_path = source_path;
          format_ = "TINY_V2";
          mode = "MERGE_FAIL_ON_CONFLICT";
          expected_session_id = pair.0;
          expected_logical_revision = pair.1;
        })))

  unfoldable pub async_apply_edits : List EditOperation → Preconditions → Async Observable
  async_apply_edits items options = async_expected (needs_pair items) options (λ pair.
      async_invoke sys (as_model edit_batch_result) (
        Client.apply_edit_batch (record {
          items = items;
          expected_session_id = pair.0;
          expected_logical_revision = pair.1;
        })))

  unfoldable pub async_rename : SymbolRef → String → Bool → Preconditions → Async Observable
  unfolding async_apply_edits
  async_rename ref new_name propagate_related options c =
      if propagate_related && not (is_method_kind ref.kind)
      then returned (raise (value_error "Related propagation requires an original method ref")) c
      else async_apply_edits (Requests.rename ref new_name (given propagate_related) ∷ []) options c

  unfoldable pub async_set_comment : SymbolRef → String → Preconditions → Async Observable
  unfolding async_apply_edits
  async_set_comment ref text options =
      async_apply_edits (Requests.set_comment ref text "LINE" ∷ []) options

  unfoldable pub async_rename_parameter :
      SymbolRef → ℕ → String → String → Preconditions → Async Observable
  unfolding async_apply_edits as_method
  async_rename_parameter ref parameter_index new_name source_snapshot_id options c =
      if is_method_kind ref.kind
      then async_first (as_method ref)
          (λ m.
            async_apply_edits
              (Requests.rename_parameter m parameter_index source_snapshot_id new_name ∷ [])
              options)
          c
      else returned (raise (value_error "Parameter rename requires a method ref")) c
