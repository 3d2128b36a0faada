-- ===== src/Wire/Schema/Search.antt =====
-- The classes of python/src/libjadx/_generated/models for searching.
use libjadx.Base.{String, List, [], ◌∷◌}
use libjadx.Wire.Schema.{
  enums, plain, enum, literal, model, models, nullable, Schema, closed, required, optional, ◌$◌,
}
use libjadx.Wire.Schema.Source.{source_range_schema}
use libjadx.Wire.Schema.Symbols.{symbol_ref_schema}

abbrev search_build_request_domains_item_values : List String
search_build_request_domains_item_values =
    "CLASS_NAME" ∷ "MEMBER_NAME" ∷ "SOURCE_TEXT" ∷ "STRING_LITERAL" ∷ []

abbrev search_coverage_availability_values : List String
search_coverage_availability_values = "SUPPORTED" ∷ "UNSUPPORTED" ∷ []

abbrev search_coverage_domain_values : List String
search_coverage_domain_values = "CLASS_NAME" ∷ "MEMBER_NAME" ∷ "SOURCE_TEXT" ∷ "STRING_LITERAL" ∷ []

abbrev search_coverage_state_values : List String
search_coverage_state_values = "COMPLETE" ∷ "PARTIAL" ∷ "UNAVAILABLE" ∷ []

abbrev search_hit_domain_values : List String
search_hit_domain_values = "CLASS_NAME" ∷ "MEMBER_NAME" ∷ "SOURCE_TEXT" ∷ "STRING_LITERAL" ∷ []

abbrev search_hit_match_mode_values : List String
search_hit_match_mode_values = "CONTAINS" ∷ "EXACT" ∷ "REGEX" ∷ []

abbrev search_request_domains_item_values : List String
search_request_domains_item_values =
    "CLASS_NAME" ∷ "MEMBER_NAME" ∷ "SOURCE_TEXT" ∷ "STRING_LITERAL" ∷ []

abbrev search_request_match_mode_values : List String
search_request_match_mode_values = "CONTAINS" ∷ "EXACT" ∷ "REGEX" ∷ []

abbrev search_build_request_schema : Schema
search_build_request_schema =
    optional "domains" (enums search_build_request_domains_item_values)
    $ optional "force" plain
    $ closed

abbrev search_coverage_schema : Schema
search_coverage_schema =
    required "domain" (enum search_coverage_domain_values)
    $ required "availability" (enum search_coverage_availability_values)
    $ required "state" (enum search_coverage_state_values)
    $ required "scope" (literal "JADX_VISIBLE_ELIGIBLE")
    $ required "sourceInputCoverage" (literal "UNVERIFIED")
    $ required "eligible" plain
    $ required "indexed" plain
    $ required "pending" plain
    $ required "skipped" plain
    $ required "failed" plain
    $ required "evicted" plain
    $ required "diagnostics" plain
    $ closed

abbrev search_hit_schema : Schema
search_hit_schema =
    required "domain" (enum search_hit_domain_values)
    $ required "ref" (nullable (model symbol_ref_schema))
    $ required "sourceOwnerRef" (nullable (model symbol_ref_schema))
    $ required "displayName" plain
    $ required "matchedText" plain
    $ required "matchMode" (enum search_hit_match_mode_values)
    $ required "range" (nullable (model source_range_schema))
    $ required "sourceSnapshotId" plain
    $ closed

abbrev search_index_status_schema : Schema
search_index_status_schema =
    required "sessionId" plain
    $ required "logicalRevision" plain
    $ required "settingsFingerprint" plain
    $ required "indexSnapshotId" plain
    $ required "indexGeneration" plain
    $ required "coverage" (models search_coverage_schema)
    $ closed

abbrev search_page_schema : Schema
search_page_schema =
    required "sessionId" plain
    $ required "logicalRevision" plain
    $ required "settingsFingerprint" plain
    $ required "indexSnapshotId" plain
    $ required "indexGeneration" plain
    $ required "resultSnapshotId" plain
    $ required "coverage" (models search_coverage_schema)
    $ required "hits" (models search_hit_schema)
    $ required "nextCursor" plain
    $ required "pageComplete" plain
    $ required "diagnostics" plain
    $ closed

abbrev search_request_schema : Schema
search_request_schema =
    required "query" plain
    $ optional "domains" (enums search_request_domains_item_values)
    $ optional "matchMode" (enum search_request_match_mode_values)
    $ optional "caseSensitive" plain
    $ optional "pageSize" plain
    $ optional "cursor" plain
    $ optional "strict" plain
    $ optional "requireComplete" plain
    $ optional "expectedSessionId" plain
    $ optional "expectedLogicalRevision" plain
    $ closed
