-- ===== src/Wire/Schema/Service.antt =====
-- The classes of python/src/libjadx/_generated/models for the service and the project.
use libjadx.Base.{String, List, [], ◌∷◌}
use libjadx.Wire.Schema.{
  plain, uuid, enum, literal, model, models, nullable, Schema, closed, with_additional, required,
  optional, ◌$◌,
}

abbrev capability_precision_type_1_values : List String
capability_precision_type_1_values = "APPROXIMATE" ∷ "EXACT" ∷ "UNAVAILABLE" ∷ "UNKNOWN" ∷ []

abbrev capability_status_values : List String
capability_status_values = "PARTIAL" ∷ "SUPPORTED" ∷ "UNKNOWN" ∷ "UNSUPPORTED" ∷ []

abbrev coverage_status_values : List String
coverage_status_values = "COMPLETE" ∷ "PARTIAL" ∷ []

abbrev project_settings_decompilation_mode_values : List String
project_settings_decompilation_mode_values = "AUTO" ∷ "FALLBACK" ∷ "RESTRUCTURE" ∷ "SIMPLE" ∷ []

abbrev result_provenance_completeness_values : List String
result_provenance_completeness_values = "COMPLETE" ∷ "PARTIAL" ∷ []

abbrev revision_set_persisted_identity_state_values : List String
revision_set_persisted_identity_state_values = "FAILED" ∷ "PENDING" ∷ "READY" ∷ []

abbrev shutdown_accepted_policy_values : List String
shutdown_accepted_policy_values = "discard" ∷ "refuse_if_dirty" ∷ "save" ∷ []

abbrev shutdown_busy_details_jobs_item_state_values : List String
shutdown_busy_details_jobs_item_state_values = "CANCELLING" ∷ "QUEUED" ∷ "RUNNING" ∷ []

abbrev shutdown_request_policy_values : List String
shutdown_request_policy_values = "discard" ∷ "refuse_if_dirty" ∷ "save" ∷ []

abbrev capability_schema : Schema
capability_schema =
    required "name" plain
    $ required "status" (enum capability_status_values)
    $ required "evidence" plain
    $ required "persistence" plain
    $ optional "precision" (nullable (enum capability_precision_type_1_values))
    $ with_additional

abbrev capabilities_schema : Schema
capabilities_schema =
    required "serverVersion" plain
    $ required "jadxVersion" plain
    $ required "capabilities" (models capability_schema)
    $ with_additional

abbrev coverage_schema : Schema
coverage_schema =
    required "status" (enum coverage_status_values)
    $ required "indexed" plain
    $ required "total" plain
    $ with_additional

abbrev revision_set_schema : Schema
revision_set_schema =
    required "sessionId" plain
    $ required "logicalRevision" plain
    $ required "indexRevision" plain
    $ required "persistedIdentity" plain
    $ required "persistedIdentityState" (enum revision_set_persisted_identity_state_values)
    $ with_additional

abbrev fixed_project_schema : Schema
fixed_project_schema =
    required "inputs" plain
    $ required "dirty" plain
    $ required "revisions" (model revision_set_schema)
    $ optional "projectPath" plain
    $ with_additional

abbrev liveness_schema : Schema
liveness_schema = required "status" (literal "ALIVE") $ with_additional

abbrev project_settings_schema : Schema
project_settings_schema =
    required "mappingsPath" plain
    $ required "decompilationMode" (enum project_settings_decompilation_mode_values)
    $ required "revisions" (model revision_set_schema)
    $ with_additional

abbrev reload_project_request_schema : Schema
reload_project_request_schema =
    required "discardUnsaved" plain
    $ required "expectedSessionId" uuid
    $ required "expectedLogicalRevision" plain
    $ with_additional

abbrev result_provenance_schema : Schema
result_provenance_schema =
    required "completeness" (enum result_provenance_completeness_values)
    $ required "revisions" (model revision_set_schema)
    $ required "diagnostics" plain
    $ with_additional

abbrev save_project_request_schema : Schema
save_project_request_schema =
    optional "targetPath" plain
    $ optional "expectedLogicalRevision" plain
    $ optional "expectedSessionId" uuid
    $ with_additional

abbrev shutdown_accepted_schema : Schema
shutdown_accepted_schema =
    required "state" (literal "SHUTTING_DOWN")
    $ required "policy" (enum shutdown_accepted_policy_values)
    $ closed

abbrev shutdown_busy_details_operations_item_schema : Schema
shutdown_busy_details_operations_item_schema =
    required "id" uuid $ required "category" plain $ required "key" plain $ with_additional

abbrev shutdown_busy_details_jobs_item_schema : Schema
shutdown_busy_details_jobs_item_schema =
    required "jobId" uuid
    $ required "state" (enum shutdown_busy_details_jobs_item_state_values)
    $ required "type" plain
    $ with_additional

abbrev shutdown_busy_details_schema : Schema
shutdown_busy_details_schema =
    required "activeOperationCount" plain
    $ required "operations" (models shutdown_busy_details_operations_item_schema)
    $ required "activeJobCount" plain
    $ required "jobs" (models shutdown_busy_details_jobs_item_schema)
    $ with_additional

abbrev shutdown_request_schema : Schema
shutdown_request_schema = optional "policy" (enum shutdown_request_policy_values) $ closed

abbrev update_project_settings_request_schema : Schema
update_project_settings_request_schema =
    required "mappingsPath" plain
    $ required "expectedLogicalRevision" plain
    $ required "expectedSessionId" uuid
    $ with_additional
