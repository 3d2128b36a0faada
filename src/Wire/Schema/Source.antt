-- ===== src/Wire/Schema/Source.antt =====
-- The classes of python/src/libjadx/_generated/models for decompiled source.
use libjadx.Base.{String, List, [], ◌∷◌}
use libjadx.Wire.Schema.{
  plain, uuid, enum, literal, model, models, nullable, Schema, closed, required, optional, ◌$◌,
}
use libjadx.Wire.Schema.Enums.{source_availability_values}
use libjadx.Wire.Schema.Symbols.{method_symbol_ref_schema, symbol_info_schema, symbol_ref_schema}

abbrev decompile_request_decompilation_mode_values : List String
decompile_request_decompilation_mode_values = "AUTO" ∷ "FALLBACK" ∷ "RESTRUCTURE" ∷ "SIMPLE" ∷ []

abbrev decompile_result_outcome_values : List String
decompile_result_outcome_values =
    "AMBIGUOUS" ∷ "NOT_FOUND" ∷ "PROVENANCE_UNAVAILABLE" ∷ "RESOLVED" ∷ []

abbrev decompile_result_representation_values : List String
decompile_result_representation_values = "JAVA" ∷ "SMALI" ∷ []

abbrev decompile_result_status_values : List String
decompile_result_status_values = "COMPLETE" ∷ "PARTIAL" ∷ "UNAVAILABLE" ∷ []

abbrev effective_source_settings_decompilation_mode_values : List String
effective_source_settings_decompilation_mode_values =
    "AUTO" ∷ "FALLBACK" ∷ "RESTRUCTURE" ∷ "SIMPLE" ∷ []

abbrev source_annotation_kind_values : List String
source_annotation_kind_values = "DECLARATION" ∷ "REFERENCE" ∷ []

abbrev source_variable_kind_values : List String
source_variable_kind_values = "LOCAL" ∷ "PARAMETER" ∷ []

abbrev source_variable_persistability_values : List String
source_variable_persistability_values = "SUPPORTED" ∷ "UNSUPPORTED" ∷ []

abbrev decompile_request_schema : Schema
decompile_request_schema =
    required "ref" (model symbol_ref_schema)
    $ optional "representation" plain
    $ optional "decompilationMode" (enum decompile_request_decompilation_mode_values)
    $ optional "includeAnnotations" plain
    $ optional "includeRawDebugLines" plain
    $ optional "strict" plain
    $ optional "expectedSessionId" uuid
    $ optional "expectedLogicalRevision" plain
    $ optional "expectedSourceSnapshotId" plain
    $ closed

abbrev effective_source_settings_schema : Schema
effective_source_settings_schema =
    required "decompilationMode" (enum effective_source_settings_decompilation_mode_values)
    $ required "fingerprint" plain
    $ closed

abbrev pub source_point_schema : Schema
source_point_schema =
    required "offsetUtf16" plain
    $ required "line" plain
    $ required "columnCodePoints" plain
    $ closed

abbrev pub source_range_schema : Schema
source_range_schema =
    required "startOffsetUtf16" plain
    $ required "endOffsetUtf16" plain
    $ required "start" (model source_point_schema)
    $ required "end" (model source_point_schema)
    $ required "sourceSnapshotId" plain
    $ closed

abbrev source_annotation_schema : Schema
source_annotation_schema =
    required "kind" (enum source_annotation_kind_values)
    $ required "position" (model source_point_schema)
    $ required "targetRef" (model symbol_ref_schema)
    $ required "precision" (literal "EXACT")
    $ required "sourceSnapshotId" plain
    $ closed

abbrev source_variable_schema : Schema
source_variable_schema =
    required "kind" (enum source_variable_kind_values)
    $ required "method" (model method_symbol_ref_schema)
    $ required "parameterIndex" plain
    $ required "displayName" plain
    $ required "range" (model source_range_schema)
    $ required "sourceSnapshotId" plain
    $ required "persistability" (enum source_variable_persistability_values)
    $ closed

abbrev source_capabilities_schema : Schema
source_capabilities_schema =
    required "source" (enum source_availability_values)
    $ required "declarationPositions" (enum source_availability_values)
    $ required "referenceTargets" (enum source_availability_values)
    $ required "methodRange" (enum source_availability_values)
    $ required "rawDebugLines" (enum source_availability_values)
    $ required "originalBytecodeOffsets" (enum source_availability_values)
    $ required "classErrors" (enum source_availability_values)
    $ closed

abbrev pub decompile_result_schema : Schema
decompile_result_schema =
    required "outcome" (enum decompile_result_outcome_values)
    $ required "queriedRef" (model symbol_ref_schema)
    $ required "sourceOwnerRef" (nullable (model symbol_ref_schema))
    $ required "candidates" (models symbol_info_schema)
    $ required "sessionId" uuid
    $ required "logicalRevision" plain
    $ required "sourceSnapshotId" plain
    $ required "effectiveSettings" (model effective_source_settings_schema)
    $ required "status" (enum decompile_result_status_values)
    $ required "representation" (enum decompile_result_representation_values)
    $ required "source" plain
    $ required "methodRangeAvailable" plain
    $ required "methodRange" (nullable (model source_range_schema))
    $ required "methodSource" plain
    $ required "annotations" (models source_annotation_schema)
    $ required "variables" (models source_variable_schema)
    $ required "rawDebugLines" plain
    $ required "classErrorCount" plain
    $ required "diagnostics" plain
    $ required "capabilities" (model source_capabilities_schema)
    $ closed
