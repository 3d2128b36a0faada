-- ===== src/Wire/Schema/Edits.antt =====
-- The classes of python/src/libjadx/_generated/models for edits and mappings.
use libjadx.Base.{String, List, [], ◌∷◌}
use libjadx.Wire.Schema.{
  plain, uuid, false_literal, enum, literal, model, models, Schema, closed, with_additional,
  required, optional, ◌$◌,
}
use libjadx.Wire.Schema.Symbols.{method_symbol_ref_schema, symbol_ref_schema}

abbrev edit_batch_result_outcome_values : List String
edit_batch_result_outcome_values = "APPLIED" ∷ "NO_CHANGE" ∷ "PARTIAL" ∷ []

abbrev edit_item_kind_values : List String
edit_item_kind_values = "COMMENT" ∷ "RENAME_CLASS" ∷ "RENAME_FIELD" ∷ "RENAME_METHOD" ∷ []

abbrev edit_item_result_kind_values : List String
edit_item_result_kind_values = "RENAME" ∷ "RENAME_PARAMETER" ∷ "SET_COMMENT" ∷ []

abbrev edit_item_result_status_values : List String
edit_item_result_status_values = "APPLIED" ∷ "FAILED" ∷ "SKIPPED" ∷ []

abbrev item_result_status_values : List String
item_result_status_values = "APPLIED" ∷ "FAILED" ∷ "SKIPPED" ∷ []

abbrev mapping_import_receipt_outcome_values : List String
mapping_import_receipt_outcome_values = "APPLIED" ∷ "NO_CHANGE" ∷ []

abbrev edit_item_result_schema : Schema
edit_item_result_schema =
    required "index" plain
    $ required "status" (enum edit_item_result_status_values)
    $ required "kind" (enum edit_item_result_kind_values)
    $ required "target" (model symbol_ref_schema)
    $ required "affectedRefs" (models symbol_ref_schema)
    $ required "message" plain
    $ optional "parameterIndex" plain
    $ optional "sourceSnapshotId" plain
    $ closed

abbrev pub edit_batch_result_schema : Schema
edit_batch_result_schema =
    required "outcome" (enum edit_batch_result_outcome_values)
    $ required "sessionId" plain
    $ required "logicalRevisionBefore" plain
    $ required "logicalRevisionAfter" plain
    $ required "indexRevisionAfter" plain
    $ required "dirty" plain
    $ required "saved" false_literal
    $ required "items" (models edit_item_result_schema)
    $ required "diagnostics" plain
    $ closed

abbrev edit_item_target_schema : Schema
edit_item_target_schema = with_additional

abbrev edit_item_schema : Schema
edit_item_schema =
    required "kind" (enum edit_item_kind_values)
    $ required "target" (model edit_item_target_schema)
    $ required "value" plain
    $ with_additional

abbrev item_result_schema : Schema
item_result_schema =
    required "index" plain
    $ required "status" (enum item_result_status_values)
    $ optional "message" plain
    $ with_additional

abbrev mapping_export_counts_schema : Schema
mapping_export_counts_schema =
    required "classes" plain
    $ required "methods" plain
    $ required "fields" plain
    $ required "comments" plain
    $ closed

abbrev mapping_export_receipt_omissions_item_schema : Schema
mapping_export_receipt_omissions_item_schema = with_additional

abbrev mapping_export_receipt_schema : Schema
mapping_export_receipt_schema =
    required "format" (literal "TINY_V2")
    $ required "targetPath" plain
    $ required "sessionId" uuid
    $ required "logicalRevision" plain
    $ required "source" (literal "CURRENT_IN_MEMORY_WITH_ATTACHED_MAPPINGS")
    $ required "completeness" (literal "VERIFIED_DECLARATIONS")
    $ required "exported" (model mapping_export_counts_schema)
    $ required "bytes" plain
    $ required "sha256" plain
    $ required "omissions" (models mapping_export_receipt_omissions_item_schema)
    $ required "projectMutated" plain
    $ closed

abbrev mapping_export_request_schema : Schema
mapping_export_request_schema =
    required "targetPath" plain
    $ required "format" (literal "TINY_V2")
    $ required "expectedSessionId" uuid
    $ required "expectedLogicalRevision" plain
    $ closed

abbrev mapping_import_edit_counts_schema : Schema
mapping_import_edit_counts_schema = required "aliases" plain $ required "comments" plain $ closed

abbrev mapping_import_receipt_omissions_item_schema : Schema
mapping_import_receipt_omissions_item_schema = with_additional

abbrev mapping_import_receipt_schema : Schema
mapping_import_receipt_schema =
    required "format" (literal "TINY_V2")
    $ required "mode" (literal "MERGE_FAIL_ON_CONFLICT")
    $ required "sourcePath" plain
    $ required "sha256" plain
    $ required "bytes" plain
    $ required "parsed" (model mapping_export_counts_schema)
    $ required "applied" (model mapping_import_edit_counts_schema)
    $ required "unchanged" (model mapping_import_edit_counts_schema)
    $ required "sessionId" uuid
    $ required "beforeLogicalRevision" plain
    $ required "afterLogicalRevision" plain
    $ required "beforeIndexRevision" plain
    $ required "afterIndexRevision" plain
    $ required "dirty" plain
    $ required "saved" plain
    $ required "mappingAttached" plain
    $ required "outcome" (enum mapping_import_receipt_outcome_values)
    $ required "omissions" (models mapping_import_receipt_omissions_item_schema)
    $ closed

abbrev mapping_import_request_schema : Schema
mapping_import_request_schema =
    required "sourcePath" plain
    $ required "format" (literal "TINY_V2")
    $ required "mode" (literal "MERGE_FAIL_ON_CONFLICT")
    $ required "expectedSessionId" uuid
    $ required "expectedLogicalRevision" plain
    $ closed

abbrev pending_edits_code_data_schema : Schema
pending_edits_code_data_schema = with_additional

abbrev pending_edits_schema : Schema
pending_edits_schema =
    required "sessionId" plain
    $ required "logicalRevision" plain
    $ required "dirty" plain
    $ required "codeData" (model pending_edits_code_data_schema)
    $ optional "mappingsPath" plain
    $ with_additional

abbrev rename_operation_schema : Schema
rename_operation_schema =
    required "kind" (literal "RENAME")
    $ required "target" (model symbol_ref_schema)
    $ required "newName" plain
    $ optional "propagateRelated" plain
    $ closed

abbrev rename_parameter_operation_schema : Schema
rename_parameter_operation_schema =
    required "kind" (literal "RENAME_PARAMETER")
    $ required "method" (model method_symbol_ref_schema)
    $ required "parameterIndex" plain
    $ required "sourceSnapshotId" plain
    $ required "newName" plain
    $ closed

abbrev set_comment_operation_schema : Schema
set_comment_operation_schema =
    required "kind" (literal "SET_COMMENT")
    $ required "target" (model symbol_ref_schema)
    $ required "comment" plain
    $ required "style" (literal "LINE")
    $ closed
