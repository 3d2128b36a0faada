-- ===== src/Transport/Projects.antt =====
-- The operations of python/src/libjadx/_generated/api/project: `_get_kwargs`, `_parse_response` and
-- `sync_detailed` of each.
use libjadx.Base.{Option, none, some, [], ◌∷◌}
use libjadx.Wire.Requests.{
  EditBatchRequest, MappingExportRequest, MappingImportRequest, ReloadProjectRequest,
  SaveProjectRequest, UpdateProjectSettingsRequest,
}
use libjadx.Wire.Bodies.{
  edit_batch_dict, mapping_export_dict, mapping_import_dict, reload_project_dict, save_project_dict,
  project_settings_dict,
}
use libjadx.Client.{Payload, Exchange}
use libjadx.Transport.{
  Kwargs, with_body, without_body, FromDict, HttpResponse, Sender, by_status, received,
  edit_batch_result, error_envelope, fixed_project, mapping_export_receipt, mapping_import_receipt,
  pending_edits, project_settings,
}

unfoldable pub apply_edit_batch_kwargs : EditBatchRequest → Kwargs
apply_edit_batch_kwargs body = with_body "post" "/edits/batch" (edit_batch_dict body)

unfoldable pub parse_apply_edit_batch : FromDict → HttpResponse → Option Payload
parse_apply_edit_batch from_dict =
    by_status from_dict
      ((200, edit_batch_result)
        ∷ (400, error_envelope)
        ∷ (403, error_envelope)
        ∷ (404, error_envelope)
        ∷ (409, error_envelope)
        ∷ (415, error_envelope)
        ∷ (422, error_envelope)
        ∷ (429, error_envelope)
        ∷ (500, error_envelope)
        ∷ (503, error_envelope)
        ∷ [])
      none

unfoldable pub apply_edit_batch_detailed : Sender → FromDict → EditBatchRequest → Exchange
apply_edit_batch_detailed send from_dict body =
    received (parse_apply_edit_batch from_dict) (send (apply_edit_batch_kwargs body))

unfoldable pub export_mappings_kwargs : MappingExportRequest → Kwargs
export_mappings_kwargs body = with_body "post" "/project/mappings/export" (mapping_export_dict body)

unfoldable pub parse_export_mappings : FromDict → HttpResponse → Option Payload
parse_export_mappings from_dict =
    by_status from_dict
      ((200, mapping_export_receipt)
        ∷ (400, error_envelope)
        ∷ (403, error_envelope)
        ∷ (409, error_envelope)
        ∷ (415, error_envelope)
        ∷ (422, error_envelope)
        ∷ (429, error_envelope)
        ∷ (500, error_envelope)
        ∷ (503, error_envelope)
        ∷ [])
      none

unfoldable pub export_mappings_detailed : Sender → FromDict → MappingExportRequest → Exchange
export_mappings_detailed send from_dict body =
    received (parse_export_mappings from_dict) (send (export_mappings_kwargs body))

unfoldable pub export_pending_edits_kwargs : Kwargs
export_pending_edits_kwargs = without_body "post" "/project/pending-edits/export"

unfoldable pub parse_export_pending_edits : FromDict → HttpResponse → Option Payload
parse_export_pending_edits from_dict =
    by_status from_dict ((200, pending_edits) ∷ []) (some error_envelope)

unfoldable pub export_pending_edits_detailed : Sender → FromDict → Exchange
export_pending_edits_detailed send from_dict =
    received (parse_export_pending_edits from_dict) (send (export_pending_edits_kwargs))

unfoldable pub get_project_kwargs : Kwargs
get_project_kwargs = without_body "get" "/project"

unfoldable pub parse_get_project : FromDict → HttpResponse → Option Payload
parse_get_project from_dict = by_status from_dict ((200, fixed_project) ∷ []) (some error_envelope)

unfoldable pub get_project_detailed : Sender → FromDict → Exchange
get_project_detailed send from_dict =
    received (parse_get_project from_dict) (send (get_project_kwargs))

unfoldable pub get_project_settings_kwargs : Kwargs
get_project_settings_kwargs = without_body "get" "/project/settings"

unfoldable pub parse_get_project_settings : FromDict → HttpResponse → Option Payload
parse_get_project_settings from_dict =
    by_status from_dict ((200, project_settings) ∷ []) (some error_envelope)

unfoldable pub get_project_settings_detailed : Sender → FromDict → Exchange
get_project_settings_detailed send from_dict =
    received (parse_get_project_settings from_dict) (send (get_project_settings_kwargs))

unfoldable pub import_mappings_kwargs : MappingImportRequest → Kwargs
import_mappings_kwargs body = with_body "post" "/project/mappings/import" (mapping_import_dict body)

unfoldable pub parse_import_mappings : FromDict → HttpResponse → Option Payload
parse_import_mappings from_dict =
    by_status from_dict
      ((200, mapping_import_receipt)
        ∷ (400, error_envelope)
        ∷ (403, error_envelope)
        ∷ (404, error_envelope)
        ∷ (409, error_envelope)
        ∷ (415, error_envelope)
        ∷ (422, error_envelope)
        ∷ (429, error_envelope)
        ∷ (500, error_envelope)
        ∷ (503, error_envelope)
        ∷ [])
      none

unfoldable pub import_mappings_detailed : Sender → FromDict → MappingImportRequest → Exchange
import_mappings_detailed send from_dict body =
    received (parse_import_mappings from_dict) (send (import_mappings_kwargs body))

unfoldable pub reload_project_kwargs : ReloadProjectRequest → Kwargs
reload_project_kwargs body = with_body "post" "/project/reload" (reload_project_dict body)

unfoldable pub parse_reload_project : FromDict → HttpResponse → Option Payload
parse_reload_project from_dict =
    by_status from_dict ((200, fixed_project) ∷ []) (some error_envelope)

unfoldable pub reload_project_detailed : Sender → FromDict → ReloadProjectRequest → Exchange
reload_project_detailed send from_dict body =
    received (parse_reload_project from_dict) (send (reload_project_kwargs body))

unfoldable pub save_project_kwargs : SaveProjectRequest → Kwargs
save_project_kwargs body = with_body "post" "/project/save" (save_project_dict body)

unfoldable pub parse_save_project : FromDict → HttpResponse → Option Payload
parse_save_project from_dict = by_status from_dict ((200, fixed_project) ∷ []) (some error_envelope)

unfoldable pub save_project_detailed : Sender → FromDict → SaveProjectRequest → Exchange
save_project_detailed send from_dict body =
    received (parse_save_project from_dict) (send (save_project_kwargs body))

unfoldable pub update_project_settings_kwargs : UpdateProjectSettingsRequest → Kwargs
update_project_settings_kwargs body =
    with_body "patch" "/project/settings" (project_settings_dict body)

unfoldable pub parse_update_project_settings : FromDict → HttpResponse → Option Payload
parse_update_project_settings from_dict =
    by_status from_dict ((200, project_settings) ∷ []) (some error_envelope)

unfoldable pub update_project_settings_detailed :
    Sender → FromDict → UpdateProjectSettingsRequest → Exchange
update_project_settings_detailed send from_dict body =
    received (parse_update_project_settings from_dict) (send (update_project_settings_kwargs body))
