-- ===== src/Wire/Schema/Symbols.antt =====
-- The classes of python/src/libjadx/_generated/models for symbols and classes.
use libjadx.Base.{String, List, [], ◌∷◌}
use libjadx.Wire.Schema.{
  plain, uuid, enum, literal, model, models, nullable, Schema, closed, with_additional, required,
  optional, ◌$◌,
}

abbrev class_info_provenance_values : List String
class_info_provenance_values = "AMBIGUOUS" ∷ "EXACT" ∷ "UNAVAILABLE" ∷ []

abbrev symbol_info_provenance_values : List String
symbol_info_provenance_values = "AMBIGUOUS" ∷ "EXACT" ∷ "UNAVAILABLE" ∷ []

abbrev symbol_ref_kind_values : List String
symbol_ref_kind_values = "CLASS" ∷ "FIELD" ∷ "METHOD" ∷ []

abbrev symbol_resolution_outcome_values : List String
symbol_resolution_outcome_values =
    "AMBIGUOUS" ∷ "NOT_FOUND" ∷ "PROVENANCE_UNAVAILABLE" ∷ "RESOLVED" ∷ []

abbrev pub symbol_ref_schema : Schema
symbol_ref_schema =
    required "kind" (enum symbol_ref_kind_values)
    $ required "originalClassDescriptor" plain
    $ optional "inputIdentity" plain
    $ optional "originalName" plain
    $ optional "originalDescriptor" plain
    $ closed

abbrev class_info_schema : Schema
class_info_schema =
    required "ref" (model symbol_ref_schema)
    $ required "originalDottedName" plain
    $ required "displayName" plain
    $ required "displayQualifiedName" plain
    $ required "isInner" plain
    $ required "codeAvailable" plain
    $ required "provenance" (enum class_info_provenance_values)
    $ optional "originalParent" (nullable (model symbol_ref_schema))
    $ closed

abbrev class_page_schema : Schema
class_page_schema =
    required "sessionId" uuid
    $ required "logicalRevision" plain
    $ required "snapshotId" plain
    $ required "scope" (literal "JADX_VISIBLE")
    $ required "sourceCoverage" (literal "UNVERIFIED")
    $ required "items" (models class_info_schema)
    $ required "nextCursor" plain
    $ required "complete" plain
    $ closed

abbrev pub method_symbol_ref_schema : Schema
method_symbol_ref_schema =
    required "kind" (literal "METHOD")
    $ required "originalClassDescriptor" plain
    $ required "originalName" plain
    $ required "originalDescriptor" plain
    $ optional "inputIdentity" plain
    $ closed

abbrev page_schema : Schema
page_schema =
    required "items" plain
    $ required "complete" plain
    $ optional "nextCursor" plain
    $ with_additional

abbrev pub symbol_info_schema : Schema
symbol_info_schema =
    required "ref" (model symbol_ref_schema)
    $ required "originalName" plain
    $ required "originalDescriptor" plain
    $ required "displayName" plain
    $ required "displayQualifiedName" plain
    $ required "provenance" (enum symbol_info_provenance_values)
    $ optional "containingClass" (nullable (model symbol_ref_schema))
    $ closed

abbrev symbol_resolution_schema : Schema
symbol_resolution_schema =
    required "outcome" (enum symbol_resolution_outcome_values)
    $ required "queriedRef" (model symbol_ref_schema)
    $ required "sessionId" uuid
    $ required "logicalRevision" plain
    $ required "snapshotId" plain
    $ required "candidates" (models symbol_info_schema)
    $ required "diagnostics" plain
    $ optional "symbol" (nullable (model symbol_info_schema))
    $ closed

abbrev pub symbol_resolve_request_schema : Schema
symbol_resolve_request_schema =
    required "ref" (model symbol_ref_schema)
    $ optional "expectedSessionId" uuid
    $ optional "expectedLogicalRevision" plain
    $ closed
