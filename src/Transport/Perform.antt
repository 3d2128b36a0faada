-- ===== src/Transport/Perform.antt =====
-- `operation.sync_detailed(client=…, **kwargs)` as `Client._invoke` calls it, and a service behind httpx.
-- The result classes of each operation, as openapi/openapi.yaml declares them.
use libjadx.Base.{ℕ, Option, List, [], ◌∷◌}
use libjadx.Wire.Codec.{Codec}
use libjadx.Client.{Payload, Request, Exchange, System}
use libjadx.Client
use libjadx.Transport.{Kwargs, Class, FromDict, HttpResponse, Outcome, Sender}
use libjadx.Transport
use libjadx.Transport.Analysis.{
  build_search_index_kwargs, parse_build_search_index, build_search_index_detailed,
  decompile_java_kwargs, parse_decompile_java, decompile_java_detailed,
  get_control_flow_facts_kwargs, parse_get_control_flow_facts, get_control_flow_facts_detailed,
  search_kwargs, parse_search, search_detailed,
}
use libjadx.Transport.Projects.{
  apply_edit_batch_kwargs, parse_apply_edit_batch, apply_edit_batch_detailed,
  export_mappings_kwargs, parse_export_mappings, export_mappings_detailed,
  export_pending_edits_kwargs, parse_export_pending_edits, export_pending_edits_detailed,
  get_project_kwargs, parse_get_project, get_project_detailed, get_project_settings_kwargs,
  parse_get_project_settings, get_project_settings_detailed, import_mappings_kwargs,
  parse_import_mappings, import_mappings_detailed, reload_project_kwargs, parse_reload_project,
  reload_project_detailed, save_project_kwargs, parse_save_project, save_project_detailed,
  update_project_settings_kwargs, parse_update_project_settings, update_project_settings_detailed,
}
use libjadx.Transport.Services.{
  cancel_job_kwargs, parse_cancel_job, cancel_job_detailed, get_capabilities_kwargs,
  parse_get_capabilities, get_capabilities_detailed, get_job_kwargs, parse_get_job,
  get_job_detailed, get_liveness_kwargs, parse_get_liveness, get_liveness_detailed,
  get_status_kwargs, parse_get_status, get_status_detailed, shutdown_service_kwargs,
  parse_shutdown_service, shutdown_service_detailed,
}
use libjadx.Transport.Classes.{
  list_classes_kwargs, parse_list_classes, list_classes_detailed, query_references_kwargs,
  parse_query_references, query_references_detailed, resolve_symbol_kwargs, parse_resolve_symbol,
  resolve_symbol_detailed,
}

unfoldable pub perform : Sender → FromDict → Request → Exchange
perform send from_dict (Client.build_search_index body) =
    build_search_index_detailed send from_dict body
perform send from_dict (Client.decompile_java body) = decompile_java_detailed send from_dict body
perform send from_dict (Client.get_control_flow_facts body) =
    get_control_flow_facts_detailed send from_dict body
perform send from_dict (Client.search body) = search_detailed send from_dict body
perform send from_dict (Client.apply_edit_batch body) =
    apply_edit_batch_detailed send from_dict body
perform send from_dict (Client.export_mappings body) = export_mappings_detailed send from_dict body
perform send from_dict Client.export_pending_edits = export_pending_edits_detailed send from_dict
perform send from_dict Client.get_project = get_project_detailed send from_dict
perform send from_dict Client.get_project_settings = get_project_settings_detailed send from_dict
perform send from_dict (Client.import_mappings body) = import_mappings_detailed send from_dict body
perform send from_dict (Client.reload_project body) = reload_project_detailed send from_dict body
perform send from_dict (Client.save_project body) = save_project_detailed send from_dict body
perform send from_dict (Client.update_project_settings body) =
    update_project_settings_detailed send from_dict body
perform send from_dict (Client.cancel_job body) = cancel_job_detailed send from_dict body
perform send from_dict Client.get_capabilities = get_capabilities_detailed send from_dict
perform send from_dict (Client.get_job body) = get_job_detailed send from_dict body
perform send from_dict Client.get_liveness = get_liveness_detailed send from_dict
perform send from_dict Client.get_status = get_status_detailed send from_dict
perform send from_dict (Client.shutdown_service body) =
    shutdown_service_detailed send from_dict body
perform send from_dict (Client.list_classes body) = list_classes_detailed send from_dict body
perform send from_dict (Client.query_references body) =
    query_references_detailed send from_dict body
perform send from_dict (Client.resolve_symbol body) = resolve_symbol_detailed send from_dict body

-- The keyword arguments that stand for a request.
unfoldable pub kwargs_of : Request → Kwargs
kwargs_of (Client.build_search_index body) = build_search_index_kwargs body
kwargs_of (Client.decompile_java body) = decompile_java_kwargs body
kwargs_of (Client.get_control_flow_facts body) = get_control_flow_facts_kwargs body
kwargs_of (Client.search body) = search_kwargs body
kwargs_of (Client.apply_edit_batch body) = apply_edit_batch_kwargs body
kwargs_of (Client.export_mappings body) = export_mappings_kwargs body
kwargs_of Client.export_pending_edits = export_pending_edits_kwargs
kwargs_of Client.get_project = get_project_kwargs
kwargs_of Client.get_project_settings = get_project_settings_kwargs
kwargs_of (Client.import_mappings body) = import_mappings_kwargs body
kwargs_of (Client.reload_project body) = reload_project_kwargs body
kwargs_of (Client.save_project body) = save_project_kwargs body
kwargs_of (Client.update_project_settings body) = update_project_settings_kwargs body
kwargs_of (Client.cancel_job body) = cancel_job_kwargs body
kwargs_of Client.get_capabilities = get_capabilities_kwargs
kwargs_of (Client.get_job body) = get_job_kwargs body
kwargs_of Client.get_liveness = get_liveness_kwargs
kwargs_of Client.get_status = get_status_kwargs
kwargs_of (Client.shutdown_service body) = shutdown_service_kwargs body
kwargs_of (Client.list_classes body) = list_classes_kwargs body
kwargs_of (Client.query_references body) = query_references_kwargs body
kwargs_of (Client.resolve_symbol body) = resolve_symbol_kwargs body

unfoldable pub parse_of : Request → FromDict → HttpResponse → Option Payload
parse_of (Client.build_search_index _) = parse_build_search_index
parse_of (Client.decompile_java _) = parse_decompile_java
parse_of (Client.get_control_flow_facts _) = parse_get_control_flow_facts
parse_of (Client.search _) = parse_search
parse_of (Client.apply_edit_batch _) = parse_apply_edit_batch
parse_of (Client.export_mappings _) = parse_export_mappings
parse_of Client.export_pending_edits = parse_export_pending_edits
parse_of Client.get_project = parse_get_project
parse_of Client.get_project_settings = parse_get_project_settings
parse_of (Client.import_mappings _) = parse_import_mappings
parse_of (Client.reload_project _) = parse_reload_project
parse_of (Client.save_project _) = parse_save_project
parse_of (Client.update_project_settings _) = parse_update_project_settings
parse_of (Client.cancel_job _) = parse_cancel_job
parse_of Client.get_capabilities = parse_get_capabilities
parse_of (Client.get_job _) = parse_get_job
parse_of Client.get_liveness = parse_get_liveness
parse_of Client.get_status = parse_get_status
parse_of (Client.shutdown_service _) = parse_shutdown_service
parse_of (Client.list_classes _) = parse_list_classes
parse_of (Client.query_references _) = parse_query_references
parse_of (Client.resolve_symbol _) = parse_resolve_symbol

-- A service that httpx reaches: what it does with the n-th request depends on its arguments.
abbrev pub over_http : Codec → FromDict → (ℕ → Sender) → (ℕ → ℕ → ℕ) → System
over_http codec from_dict http clock = record {
  codec = codec;
  exchange = λ n request. perform (http n) from_dict request;
  monotonic = clock;
}

-- The responses that are no errors: their status and their class.
abbrev pub successes : Request → List (ℕ × Class)
successes (Client.build_search_index _) =
    (200, Transport.search_index_status) ∷ (202, Transport.job) ∷ []
successes (Client.decompile_java _) = (200, Transport.decompile_result) ∷ []
successes (Client.get_control_flow_facts _) = (200, Transport.control_flow_result) ∷ []
successes (Client.search _) = (200, Transport.search_page) ∷ (202, Transport.job) ∷ []
successes (Client.apply_edit_batch _) = (200, Transport.edit_batch_result) ∷ []
successes (Client.export_mappings _) = (200, Transport.mapping_export_receipt) ∷ []
successes Client.export_pending_edits = (200, Transport.pending_edits) ∷ []
successes Client.get_project = (200, Transport.fixed_project) ∷ []
successes Client.get_project_settings = (200, Transport.project_settings) ∷ []
successes (Client.import_mappings _) = (200, Transport.mapping_import_receipt) ∷ []
successes (Client.reload_project _) = (200, Transport.fixed_project) ∷ []
successes (Client.save_project _) = (200, Transport.fixed_project) ∷ []
successes (Client.update_project_settings _) = (200, Transport.project_settings) ∷ []
successes (Client.cancel_job _) = (200, Transport.job) ∷ []
successes Client.get_capabilities = (200, Transport.capabilities) ∷ []
successes (Client.get_job _) = (200, Transport.job) ∷ []
successes Client.get_liveness = (200, Transport.liveness) ∷ []
successes Client.get_status = (200, Transport.service_status) ∷ []
successes (Client.shutdown_service _) = (202, Transport.shutdown_accepted) ∷ []
successes (Client.list_classes _) = (200, Transport.class_page) ∷ []
successes (Client.query_references _) = (200, Transport.reference_page) ∷ []
successes (Client.resolve_symbol _) = (200, Transport.symbol_resolution) ∷ []
