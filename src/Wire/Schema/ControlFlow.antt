-- ===== src/Wire/Schema/ControlFlow.antt =====
-- The classes of python/src/libjadx/_generated/models for the control flow of a method.
use libjadx.Base.{String, List, [], ◌∷◌}
use libjadx.Wire.Schema.{
  plain, uuid, enum, literal, model, models, Schema, closed, required, optional, ◌$◌,
}
use libjadx.Wire.Schema.Symbols.{method_symbol_ref_schema, symbol_info_schema, symbol_ref_schema}

abbrev control_flow_payload_kind_values : List String
control_flow_payload_kind_values = "ARRAY_DATA" ∷ "PACKED_SWITCH" ∷ "SPARSE_SWITCH" ∷ []

abbrev control_flow_result_availability_values : List String
control_flow_result_availability_values = "AVAILABLE" ∷ "FAILED" ∷ "UNAVAILABLE" ∷ []

abbrev control_flow_result_outcome_values : List String
control_flow_result_outcome_values =
    "AMBIGUOUS" ∷ "NOT_FOUND" ∷ "PROVENANCE_UNAVAILABLE" ∷ "RESOLVED" ∷ []

abbrev control_flow_result_precision_values : List String
control_flow_result_precision_values = "EXACT" ∷ "UNAVAILABLE" ∷ []

abbrev control_flow_array_data_schema : Schema
control_flow_array_data_schema = required "offset" plain $ required "payloadOffset" plain $ closed

abbrev control_flow_branch_schema : Schema
control_flow_branch_schema =
    required "offset" plain
    $ required "opcode" plain
    $ required "target" plain
    $ required "nextOffset" plain
    $ closed

abbrev control_flow_case_schema : Schema
control_flow_case_schema = required "key" plain $ required "target" plain $ closed

abbrev control_flow_handler_schema : Schema
control_flow_handler_schema = required "type" plain $ required "target" plain $ closed

abbrev control_flow_instruction_schema : Schema
control_flow_instruction_schema =
    required "offset" plain $ required "length" plain $ required "opcode" plain $ closed

abbrev control_flow_payload_schema : Schema
control_flow_payload_schema =
    required "offset" plain
    $ required "length" plain
    $ required "kind" (enum control_flow_payload_kind_values)
    $ closed

abbrev control_flow_request_schema : Schema
control_flow_request_schema =
    required "ref" (model method_symbol_ref_schema)
    $ optional "strict" plain
    $ optional "expectedSessionId" uuid
    $ optional "expectedLogicalRevision" plain
    $ closed

abbrev control_flow_switch_schema : Schema
control_flow_switch_schema =
    required "offset" plain
    $ required "opcode" plain
    $ required "payloadOffset" plain
    $ required "defaultOffset" plain
    $ required "cases" (models control_flow_case_schema)
    $ closed

abbrev control_flow_try_schema : Schema
control_flow_try_schema =
    required "start" plain
    $ required "endExclusive" plain
    $ required "handlers" (models control_flow_handler_schema)
    $ closed

abbrev control_flow_result_schema : Schema
control_flow_result_schema =
    required "outcome" (enum control_flow_result_outcome_values)
    $ required "queriedRef" (model symbol_ref_schema)
    $ required "candidates" (models symbol_info_schema)
    $ required "sessionId" uuid
    $ required "logicalRevision" plain
    $ required "publicationEpoch" plain
    $ required "effectiveSettingsHash" plain
    $ required "snapshotId" plain
    $ required "representation" (literal "LOADED_DEX_CONTROL_FLOW_FACTS_V1")
    $ required "unit" (literal "DEX_CODE_UNIT_16")
    $ required "base" (literal "LOADED_METHOD_INSNS_START")
    $ required "availability" (enum control_flow_result_availability_values)
    $ required "precision" (enum control_flow_result_precision_values)
    $ required "coverage" (literal "PARTIAL")
    $ required "reason" plain
    $ required "codeUnits" plain
    $ required "instructions" (models control_flow_instruction_schema)
    $ required "payloads" (models control_flow_payload_schema)
    $ required "branches" (models control_flow_branch_schema)
    $ required "switches" (models control_flow_switch_schema)
    $ required "arrayData" (models control_flow_array_data_schema)
    $ required "tries" (models control_flow_try_schema)
    $ required "diagnostics" plain
    $ closed
