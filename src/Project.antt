-- ===== src/Project.antt =====
-- python/src/libjadx/project.py: the methods of `Project`, over the client's `_invoke`. Keyword
-- arguments are given with their values; a `_Symbol` target is given by its reference. Of a response
-- class that the SDK only passes on, the result is what `observe` reads of it.
pub mod Paired
pub mod Edits
pub mod Reads
use libjadx.Base.{
  ℕ, String, Bool, true, false, not, ◌&&◌, ◌||◌, Option, none, some, List, [], ◌∷◌, ◌==◌, str_eq,
  member, if◌then◌else◌,
}
use libjadx.Wire.Json.{Json, Omittable, unset, given}
use libjadx.Wire.Codec.{Codec, Uuid}
use libjadx.Wire.Enums.{SymbolRefKind, class, field, method}
use libjadx.Wire.Job.{Job}
use libjadx.Wire.Pages.{SymbolInfo, ReferencePage, SearchPage, SearchIndexStatus, SymbolResolution}
use libjadx.Wire.Refs.{SymbolRef, MethodSymbolRef, ref_to_dict, method_from_dict}
use libjadx.Wire.Requests.{EditOperation, ReferenceQuery, SearchRequest, SearchBuildRequest}
use libjadx.Wire.Requests
use libjadx.Errors.{
  Exception, value_error, unexpected_response_error, invalid_dict, Result, ok, raise, or_raise,
}
use libjadx.Revisions.{Observable}
use libjadx.Revisions.Expected.{Preconditions, Expected, expected, required}
use libjadx.Client.{
  Model, fixed_project, project_settings, mapping_export_receipt, mapping_import_receipt,
  edit_batch_result, decompile_result, control_flow_result, liveness, capabilities,
  shutdown_accepted, Payload, instance_of, Request, System, Client, Exec, Expects, invoke,
}
use libjadx.Client
use libjadx.Pages.{SearchCursor, as_reference_page}

abbrev model_index : Model → ℕ
model_index liveness = 0
model_index capabilities = 1
model_index shutdown_accepted = 2
model_index fixed_project = 3
model_index project_settings = 4
model_index Client.pending_edits = 5
model_index mapping_export_receipt = 6
model_index mapping_import_receipt = 7
model_index edit_batch_result = 8
model_index decompile_result = 9
model_index control_flow_result = 10

-- `isinstance(parsed, …)` for a class of which only the attributes matter
unfoldable pub as_model : Model → Expects Observable
as_model m (instance_of k attributes) =
    if model_index m == model_index k then some attributes else none
as_model m _ = none

-- A step that may raise before the client is used.
abbrev pub first : {A B : Type 0} → Result A → (A → Exec B) → Exec B
first (raise e) k c = (raise e, c)
first (ok a) k c = k a c

-- `isinstance(item, RenameParameterOperation) or isinstance(item, RenameOperation) and
-- item.propagate_related is True`
abbrev pub is_guarded : EditOperation → Bool
is_guarded (Requests.rename_parameter m i s n) = true
is_guarded (Requests.rename t n (given true)) = true
is_guarded _ = false

-- `any(…)`
abbrev pub needs_pair : List EditOperation → Bool
needs_pair [] = false
needs_pair (x ∷ xs) = is_guarded x || needs_pair xs

abbrev pub is_method_kind : SymbolRefKind → Bool
is_method_kind method = true
is_method_kind _ = false

-- `MethodSymbolRef.from_dict(ref.to_dict())`
unfoldable pub as_method : SymbolRef → Result MethodSymbolRef
as_method ref = or_raise (method_from_dict (ref_to_dict ref)) invalid_dict

abbrev pub omit_none : Option String → Omittable String
omit_none none = unset
omit_none (some s) = given s

module _ (sys : System) where
  -- `self._expected(options, …)` and `self._required(options)`
  abbrev pub with_expected : {B : Type 0} → Bool → Preconditions → (Expected → Exec B) → Exec B
  with_expected needs options k c = first (expected sys.codec options needs c.revisions) k c

  abbrev pub with_required : {B : Type 0} → Preconditions → (Uuid × ℕ → Exec B) → Exec B
  with_required options k c = first (required sys.codec options c.revisions) k c

  unfoldable pub snapshot : Exec Observable
  snapshot = invoke sys (as_model fixed_project) Client.get_project

  unfoldable pub settings : Exec Observable
  settings = invoke sys (as_model project_settings) Client.get_project_settings

  unfoldable pub pending_edits : Exec Observable
  pending_edits = invoke sys (as_model Client.pending_edits) Client.export_pending_edits

  unfoldable pub save : Option String → Preconditions → Exec Observable
  save target_path options = with_expected false options (λ pair.
      invoke sys (as_model fixed_project) (
        Client.save_project (record {
          target_path = omit_none target_path;
          expected_logical_revision = pair.1;
          expected_session_id = pair.0;
        })))

  unfoldable pub reload : Bool → Preconditions → Exec Observable
  reload discard_unsaved options = with_required options (λ pair.
      invoke sys (as_model fixed_project) (
        Client.reload_project (record {
          discard_unsaved = discard_unsaved;
          expected_session_id = pair.0;
          expected_logical_revision = pair.1;
        })))

  unfoldable pub update_settings : Option String → Preconditions → Exec Observable
  update_settings mappings_path options = with_required options (λ pair.
      invoke sys (as_model project_settings) (
        Client.update_project_settings (record {
          mappings_path = mappings_path;
          expected_logical_revision = pair.1;
          expected_session_id = pair.0;
        })))

  unfoldable pub export_mappings : String → Preconditions → Exec Observable
  export_mappings target_path options = with_required options (λ pair.
      invoke sys (as_model mapping_export_receipt) (
        Client.export_mappings (record {
          target_path = target_path;
          format_ = "TINY_V2";
          expected_session_id = pair.0;
          expected_logical_revision = pair.1;
        })))

  unfoldable pub import_mappings : String → Preconditions → Exec Observable
  import_mappings source_path options = with_required options (λ pair.
      invoke sys (as_model mapping_import_receipt) (
        Client.import_mappings (record {
          source_path = source_path;
          format_ = "TINY_V2";
          mode = "MERGE_FAIL_ON_CONFLICT";
          expected_session_id = pair.0;
          expected_logical_revision = pair.1;
        })))

  unfoldable pub apply_edits : List EditOperation → Preconditions → Exec Observable
  apply_edits items options = with_expected (needs_pair items) options (λ pair.
      invoke sys (as_model edit_batch_result) (
        Client.apply_edit_batch (record {
          items = items;
          expected_session_id = pair.0;
          expected_logical_revision = pair.1;
        })))

  unfoldable pub rename : SymbolRef → String → Bool → Preconditions → Exec Observable
  unfolding apply_edits
  rename ref new_name propagate_related options c =
      if propagate_related && not (is_method_kind ref.kind)
      then (raise (value_error "Related propagation requires an original method ref"), c)
      else apply_edits (Requests.rename ref new_name (given propagate_related) ∷ []) options c

  unfoldable pub set_comment : SymbolRef → String → Preconditions → Exec Observable
  unfolding apply_edits
  set_comment ref text options = apply_edits (Requests.set_comment ref text "LINE" ∷ []) options

  unfoldable pub rename_parameter :
      SymbolRef → ℕ → String → String → Preconditions → Exec Observable
  unfolding apply_edits as_method
  rename_parameter ref parameter_index new_name source_snapshot_id options c =
      if is_method_kind ref.kind
      then first (as_method ref)
          (λ m.
            apply_edits
              (Requests.rename_parameter m parameter_index source_snapshot_id new_name ∷ [])
              options)
          c
      else (raise (value_error "Parameter rename requires a method ref"), c)
