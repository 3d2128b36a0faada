-- ===== src/Transport/Tables.antt =====
-- The statuses and classes of the responses of python/src/libjadx/_generated/api, as tables.
use libjadx.Base.{
  ℕ, Option, none, some, List, [], ◌∷◌, ◌++◌, map, ◌==◌, if◌then◌else◌, ◌≡◌, ◌⊎◌, inl, inr, refl,
}
use libjadx.Wire.Json.{Json}
use libjadx.Client.{Payload, absent, Request, Response, Exchange, response}
use libjadx.Client
use libjadx.Transport.{
  Kwargs, Class, FromDict, HttpResponse, Outcome, responded, timed_out, failed, Sender, by_status,
  decoded, build_response, received, is_http_status, with_payload, returned, error_envelope,
}
use libjadx.Transport
use libjadx.Transport.Analysis.{
  parse_build_search_index, build_search_index_detailed, parse_decompile_java,
  decompile_java_detailed, parse_get_control_flow_facts, get_control_flow_facts_detailed,
  parse_search, search_detailed,
}
use libjadx.Transport.Projects.{
  parse_apply_edit_batch, apply_edit_batch_detailed, parse_export_mappings,
  export_mappings_detailed, parse_export_pending_edits, export_pending_edits_detailed,
  parse_get_project, get_project_detailed, parse_get_project_settings,
  get_project_settings_detailed, parse_import_mappings, import_mappings_detailed,
  parse_reload_project, reload_project_detailed, parse_save_project, save_project_detailed,
  parse_update_project_settings, update_project_settings_detailed,
}
use libjadx.Transport.Services.{
  parse_cancel_job, cancel_job_detailed, parse_get_capabilities, get_capabilities_detailed,
  parse_get_job, get_job_detailed, parse_get_liveness, get_liveness_detailed, parse_get_status,
  get_status_detailed, parse_shutdown_service, shutdown_service_detailed,
}
use libjadx.Transport.Classes.{
  parse_list_classes, list_classes_detailed, parse_query_references, query_references_detailed,
  parse_resolve_symbol, resolve_symbol_detailed,
}
use libjadx.Transport.Perform.{perform, kwargs_of, parse_of, successes}

-- The class that a payload is an instance of.
abbrev pub payload_class : Payload → Option Class
payload_class absent = none
payload_class (Client.error_envelope _) = some error_envelope
payload_class (Client.job _) = some Transport.job
payload_class (Client.class_page _) = some Transport.class_page
payload_class (Client.reference_page _) = some Transport.reference_page
payload_class (Client.search_page _) = some Transport.search_page
payload_class (Client.search_index_status _) = some Transport.search_index_status
payload_class (Client.symbol_resolution _) = some Transport.symbol_resolution
payload_class (Client.service_status _) = some Transport.service_status
payload_class (Client.instance_of Client.liveness _) = some Transport.liveness
payload_class (Client.instance_of Client.capabilities _) = some Transport.capabilities
payload_class (Client.instance_of Client.shutdown_accepted _) = some Transport.shutdown_accepted
payload_class (Client.instance_of Client.fixed_project _) = some Transport.fixed_project
payload_class (Client.instance_of Client.project_settings _) = some Transport.project_settings
payload_class (Client.instance_of Client.pending_edits _) = some Transport.pending_edits
payload_class (Client.instance_of Client.mapping_export_receipt _) =
    some Transport.mapping_export_receipt
payload_class (Client.instance_of Client.mapping_import_receipt _) =
    some Transport.mapping_import_receipt
payload_class (Client.instance_of Client.edit_batch_result _) = some Transport.edit_batch_result
payload_class (Client.instance_of Client.decompile_result _) = some Transport.decompile_result
payload_class (Client.instance_of Client.control_flow_result _) = some Transport.control_flow_result

-- `K.from_dict` gives instances of `K`.
abbrev pub GivesInstances : FromDict → Type 0
GivesInstances from_dict =
    (k : Class) (json : Json) (p : Payload) → from_dict k json ≡ some p → payload_class p ≡ some k

-- The class that a table has for a status.
abbrev pub find_class : ℕ → List (ℕ × Class) → Option Class
find_class status [] = none
find_class status ((s, k) ∷ table) = if status == s then some k else find_class status table

-- The documented statuses with an error body, and whether every other status has one too.
abbrev pub error_statuses : Request → List ℕ
error_statuses (Client.build_search_index _) = 400 ∷ 403 ∷ 409 ∷ 415 ∷ 422 ∷ 429 ∷ 500 ∷ 503 ∷ []
error_statuses (Client.decompile_java _) = 400 ∷ 403 ∷ 409 ∷ 415 ∷ 422 ∷ 429 ∷ 500 ∷ 503 ∷ []
error_statuses (Client.get_control_flow_facts _) = 400 ∷ 409 ∷ 415 ∷ 429 ∷ 500 ∷ 503 ∷ []
error_statuses (Client.search _) = 400 ∷ 403 ∷ 409 ∷ 415 ∷ 422 ∷ 429 ∷ 500 ∷ 503 ∷ []
error_statuses (Client.apply_edit_batch _) =
    400 ∷ 403 ∷ 404 ∷ 409 ∷ 415 ∷ 422 ∷ 429 ∷ 500 ∷ 503 ∷ []
error_statuses (Client.export_mappings _) = 400 ∷ 403 ∷ 409 ∷ 415 ∷ 422 ∷ 429 ∷ 500 ∷ 503 ∷ []
error_statuses Client.export_pending_edits = []
error_statuses Client.get_project = []
error_statuses Client.get_project_settings = []
error_statuses (Client.import_mappings _) = 400 ∷ 403 ∷ 404 ∷ 409 ∷ 415 ∷ 422 ∷ 429 ∷ 500 ∷ 503 ∷ []
error_statuses (Client.reload_project _) = []
error_statuses (Client.save_project _) = []
error_statuses (Client.update_project_settings _) = []
error_statuses (Client.cancel_job _) = 400 ∷ 403 ∷ 404 ∷ []
error_statuses Client.get_capabilities = []
error_statuses (Client.get_job _) = 400 ∷ 404 ∷ []
error_statuses Client.get_liveness = []
error_statuses Client.get_status = []
error_statuses (Client.shutdown_service _) = 400 ∷ 403 ∷ 409 ∷ 500 ∷ 503 ∷ []
error_statuses (Client.list_classes _) = 400 ∷ 409 ∷ 429 ∷ 500 ∷ 503 ∷ []
error_statuses (Client.query_references _) = 400 ∷ 409 ∷ 415 ∷ 429 ∷ 500 ∷ 503 ∷ []
error_statuses (Client.resolve_symbol _) = 400 ∷ 409 ∷ 415 ∷ 429 ∷ 500 ∷ 503 ∷ []

abbrev pub default_class : Request → Option Class
default_class Client.export_pending_edits = some error_envelope
default_class Client.get_project = some error_envelope
default_class Client.get_project_settings = some error_envelope
default_class (Client.reload_project _) = some error_envelope
default_class (Client.save_project _) = some error_envelope
default_class (Client.update_project_settings _) = some error_envelope
default_class Client.get_capabilities = some error_envelope
default_class Client.get_liveness = some error_envelope
default_class Client.get_status = some error_envelope
default_class _ = none

abbrev pub as_errors : List ℕ → List (ℕ × Class)
as_errors ss = map (λ s. (s, error_envelope)) ss

-- Every operation tests the statuses of its successes first, then those of its errors.
pub parse_of-table :
    (r : Request) (from_dict : FromDict) (x : HttpResponse)
    → parse_of r from_dict x
      ≡ by_status from_dict (successes r ++ as_errors (error_statuses r)) (default_class r) x
unfolding parse_of parse_build_search_index parse_decompile_java parse_get_control_flow_facts
    parse_search parse_apply_edit_batch parse_export_mappings parse_export_pending_edits
    parse_get_project parse_get_project_settings parse_import_mappings parse_reload_project
    parse_save_project parse_update_project_settings parse_cancel_job parse_get_capabilities
    parse_get_job parse_get_liveness parse_get_status parse_shutdown_service parse_list_classes
    parse_query_references parse_resolve_symbol
parse_of-table (Client.build_search_index _) from_dict x = refl
parse_of-table (Client.decompile_java _) from_dict x = refl
parse_of-table (Client.get_control_flow_facts _) from_dict x = refl
parse_of-table (Client.search _) from_dict x = refl
parse_of-table (Client.apply_edit_batch _) from_dict x = refl
parse_of-table (Client.export_mappings _) from_dict x = refl
parse_of-table Client.export_pending_edits from_dict x = refl
parse_of-table Client.get_project from_dict x = refl
parse_of-table Client.get_project_settings from_dict x = refl
parse_of-table (Client.import_mappings _) from_dict x = refl
parse_of-table (Client.reload_project _) from_dict x = refl
parse_of-table (Client.save_project _) from_dict x = refl
parse_of-table (Client.update_project_settings _) from_dict x = refl
parse_of-table (Client.cancel_job _) from_dict x = refl
parse_of-table Client.get_capabilities from_dict x = refl
parse_of-table (Client.get_job _) from_dict x = refl
parse_of-table Client.get_liveness from_dict x = refl
parse_of-table Client.get_status from_dict x = refl
parse_of-table (Client.shutdown_service _) from_dict x = refl
parse_of-table (Client.list_classes _) from_dict x = refl
parse_of-table (Client.query_references _) from_dict x = refl
parse_of-table (Client.resolve_symbol _) from_dict x = refl

pub perform-received :
    (send : Sender) (from_dict : FromDict) (r : Request)
    → perform send from_dict r ≡ received (parse_of r from_dict) (send (kwargs_of r))
unfolding perform parse_of kwargs_of build_search_index_detailed decompile_java_detailed
    get_control_flow_facts_detailed search_detailed apply_edit_batch_detailed
    export_mappings_detailed export_pending_edits_detailed get_project_detailed
    get_project_settings_detailed import_mappings_detailed reload_project_detailed
    save_project_detailed update_project_settings_detailed cancel_job_detailed
    get_capabilities_detailed get_job_detailed get_liveness_detailed get_status_detailed
    shutdown_service_detailed list_classes_detailed query_references_detailed
    resolve_symbol_detailed
perform-received send from_dict (Client.build_search_index _) = refl
perform-received send from_dict (Client.decompile_java _) = refl
perform-received send from_dict (Client.get_control_flow_facts _) = refl
perform-received send from_dict (Client.search _) = refl
perform-received send from_dict (Client.apply_edit_batch _) = refl
perform-received send from_dict (Client.export_mappings _) = refl
perform-received send from_dict Client.export_pending_edits = refl
perform-received send from_dict Client.get_project = refl
perform-received send from_dict Client.get_project_settings = refl
perform-received send from_dict (Client.import_mappings _) = refl
perform-received send from_dict (Client.reload_project _) = refl
perform-received send from_dict (Client.save_project _) = refl
perform-received send from_dict (Client.update_project_settings _) = refl
perform-received send from_dict (Client.cancel_job _) = refl
perform-received send from_dict Client.get_capabilities = refl
perform-received send from_dict (Client.get_job _) = refl
perform-received send from_dict Client.get_liveness = refl
perform-received send from_dict Client.get_status = refl
perform-received send from_dict (Client.shutdown_service _) = refl
perform-received send from_dict (Client.list_classes _) = refl
perform-received send from_dict (Client.query_references _) = refl
perform-received send from_dict (Client.resolve_symbol _) = refl

pub default-cases :
    (r : Request) → (default_class r ≡ none) ⊎ (default_class r ≡ some error_envelope)
default-cases (Client.build_search_index _) = inl refl
default-cases (Client.decompile_java _) = inl refl
default-cases (Client.get_control_flow_facts _) = inl refl
default-cases (Client.search _) = inl refl
default-cases (Client.apply_edit_batch _) = inl refl
default-cases (Client.export_mappings _) = inl refl
default-cases Client.export_pending_edits = inr refl
default-cases Client.get_project = inr refl
default-cases Client.get_project_settings = inr refl
default-cases (Client.import_mappings _) = inl refl
default-cases (Client.reload_project _) = inr refl
default-cases (Client.save_project _) = inr refl
default-cases (Client.update_project_settings _) = inr refl
default-cases (Client.cancel_job _) = inl refl
default-cases Client.get_capabilities = inr refl
default-cases (Client.get_job _) = inl refl
default-cases Client.get_liveness = inr refl
default-cases Client.get_status = inr refl
default-cases (Client.shutdown_service _) = inl refl
default-cases (Client.list_classes _) = inl refl
default-cases (Client.query_references _) = inl refl
default-cases (Client.resolve_symbol _) = inl refl
