-- ===== src/Wire/Schema/References.antt =====
-- The classes of python/src/libjadx/_generated/models for references and their pages.
use libjadx.Base.{String, List, [], ◌∷◌}
use libjadx.Wire.Schema.{
  enums, plain, uuid, enum, literal, model, models, nullable, Schema, closed, required, optional,
  ◌$◌,
}
use libjadx.Wire.Schema.Enums.{source_availability_values}
use libjadx.Wire.Schema.Source.{source_point_schema}
use libjadx.Wire.Schema.Symbols.{symbol_info_schema, symbol_ref_schema}

abbrev reference_edge_evidence_values : List String
reference_edge_evidence_values =
    "JADX_CLASS_DEPENDENCY" ∷ "JADX_CLASS_USE_IN" ∷ "JADX_FIELD_USE_IN"
    ∷ "JADX_METHOD_UNRESOLVED_USED" ∷ "JADX_METHOD_USED" ∷ "JADX_METHOD_USE_IN"
    ∷ "LOADED_DEX_INPUT_READER" ∷ []

abbrev reference_edge_resolution_values : List String
reference_edge_resolution_values = "OBSERVED" ∷ "RESOLVED" ∷ "UNRESOLVED" ∷ []

abbrev reference_edge_source_site_coverage_values : List String
reference_edge_source_site_coverage_values = "PARTIAL" ∷ "UNAVAILABLE" ∷ []

abbrev reference_instruction_scan_availability_values : List String
reference_instruction_scan_availability_values = "AVAILABLE" ∷ "FAILED" ∷ "UNAVAILABLE" ∷ []

abbrev reference_page_direction_values : List String
reference_page_direction_values = "INCOMING" ∷ "OUTGOING" ∷ []

abbrev reference_page_outcome_values : List String
reference_page_outcome_values =
    "AMBIGUOUS" ∷ "NOT_FOUND" ∷ "PROVENANCE_UNAVAILABLE" ∷ "RESOLVED" ∷ []

abbrev reference_page_scope_values : List String
reference_page_scope_values = "JADX_REPORTED" ∷ "LOADED_DEX_METHOD" ∷ []

abbrev pub reference_query_direction_values : List String
reference_query_direction_values = "INCOMING" ∷ "OUTGOING" ∷ []

abbrev pub reference_query_view_values : List String
reference_query_view_values = "INSTRUCTIONS" ∷ "PAIRS" ∷ []

abbrev pub reference_relation_values : List String
reference_relation_values =
    "CALL" ∷ "CLASS_DEPENDENCY" ∷ "FIELD_READ" ∷ "FIELD_USE" ∷ "FIELD_WRITE" ∷ "UNRESOLVED_CALL"
    ∷ []

abbrev reference_capabilities_schema : Schema
reference_capabilities_schema =
    required "resolvedTarget" (enum source_availability_values)
    $ required "sourceLocation" (enum source_availability_values)
    $ required "originalOffset" (literal "UNAVAILABLE")
    $ required "referenceKind" (literal "PARTIAL")
    $ required "globalCoverage" (literal "UNKNOWN")
    $ optional "loadedDexOffset" (nullable (enum source_availability_values))
    $ closed

abbrev reference_site_schema : Schema
reference_site_schema =
    required "sourceOwnerRef" (model symbol_ref_schema)
    $ required "sourceSnapshotId" plain
    $ required "position" (model source_point_schema)
    $ required "precision" (literal "EXACT")
    $ closed

abbrev reference_instruction_schema : Schema
reference_instruction_schema =
    required "offsetCodeUnits" plain
    $ required "unit" (literal "DEX_CODE_UNIT_16")
    $ required "base" (literal "LOADED_METHOD_INSNS_START")
    $ required "precision" (literal "EXACT")
    $ required "opcode" plain
    $ closed

abbrev reference_edge_schema : Schema
reference_edge_schema =
    required "sourceRef" (model symbol_ref_schema)
    $ required "targetRef" (model symbol_ref_schema)
    $ required "relation" (enum reference_relation_values)
    $ required "resolution" (enum reference_edge_resolution_values)
    $ required "evidence" (enum reference_edge_evidence_values)
    $ required "sourceSites" (models reference_site_schema)
    $ required "sourceSiteCoverage" (enum reference_edge_source_site_coverage_values)
    $ required "originalOffset" plain
    $ optional "instruction" (nullable (model reference_instruction_schema))
    $ closed

abbrev reference_instruction_scan_schema : Schema
reference_instruction_scan_schema =
    required "availability" (enum reference_instruction_scan_availability_values)
    $ required "reason" plain
    $ required "excludedOpcodes" plain
    $ closed

abbrev reference_page_coverage_schema : Schema
reference_page_coverage_schema =
    required "status" (literal "PARTIAL") $ required "reason" plain $ closed

abbrev reference_page_schema : Schema
reference_page_schema =
    required "outcome" (enum reference_page_outcome_values)
    $ required "queriedRef" (model symbol_ref_schema)
    $ required "direction" (enum reference_page_direction_values)
    $ required "candidates" (models symbol_info_schema)
    $ required "sessionId" uuid
    $ required "logicalRevision" plain
    $ required "snapshotId" plain
    $ required "scope" (enum reference_page_scope_values)
    $ required "coverage" (model reference_page_coverage_schema)
    $ required "edges" (models reference_edge_schema)
    $ required "nextCursor" plain
    $ required "pageComplete" plain
    $ required "capabilities" (model reference_capabilities_schema)
    $ required "diagnostics" plain
    $ optional "instructionScan" (nullable (model reference_instruction_scan_schema))
    $ closed

abbrev reference_query_schema : Schema
reference_query_schema =
    required "ref" (model symbol_ref_schema)
    $ required "direction" (enum reference_query_direction_values)
    $ optional "view" (enum reference_query_view_values)
    $ optional "relations" (enums reference_relation_values)
    $ optional "pageSize" plain
    $ optional "cursor" plain
    $ optional "includeSourceSites" plain
    $ optional "strict" plain
    $ optional "expectedSessionId" uuid
    $ optional "expectedLogicalRevision" plain
    $ closed
