-- ===== src/Wire/Schema/Errors.antt =====
-- The classes of python/src/libjadx/_generated/models for errors.
pub mod Size
pub mod Depth
pub mod Objects
pub mod Lacks
pub mod Whole
use libjadx.Base.{ℕ, zero, suc, String, List, [], ◌∷◌}
use libjadx.Wire.Schema.{
  plain, enum, model, models, nullable, Schema, closed, with_additional, required, optional, ◌$◌,
}

abbrev pub api_error_code_values : List String
api_error_code_values =
    "CANCELLATION_PENDING" ∷ "EVENT_HISTORY_EXPIRED" ∷ "EXTERNAL_MODIFICATION_CONFLICT"
    ∷ "INCOMPLETE_ANALYSIS" ∷ "INPUT_SECURITY_REJECTION" ∷ "INTERNAL_ERROR" ∷ "INVALID_ENTITY_ID"
    ∷ "INVALID_REQUEST" ∷ "MAPPING_MERGE_CONFLICT" ∷ "METHOD_NOT_ALLOWED" ∷ "NOT_FOUND"
    ∷ "OPERATION_NOT_IMPLEMENTED" ∷ "PROJECT_BUSY" ∷ "PROJECT_LOAD_FAILED" ∷ "PROJECT_NOT_READY"
    ∷ "RESOURCE_LIMIT" ∷ "SERVICE_SHUTTING_DOWN" ∷ "STALE_REVISION" ∷ "UNSUPPORTED_CAPABILITY" ∷ []

abbrev pub api_error_details_type_0_schema : Schema
api_error_details_type_0_schema = with_additional

abbrev pub item_error_details_type_0_schema : Schema
item_error_details_type_0_schema = with_additional

abbrev pub item_error_schema : Schema
item_error_schema =
    required "index" plain
    $ required "code" plain
    $ required "message" plain
    $ optional "details" (nullable (model item_error_details_type_0_schema))
    $ with_additional

-- A class that no dict fits.
abbrev pub no_cause : Schema
no_cause = required "code" (enum []) $ closed

abbrev pub with_causes : Schema → Schema
with_causes causes =
    required "code" (enum api_error_code_values)
    $ required "message" plain
    $ optional "retryable" plain
    $ optional "requestId" plain
    $ optional "details" (nullable (model api_error_details_type_0_schema))
    $ optional "causes" (models causes)
    $ optional "itemErrors" (models item_error_schema)
    $ with_additional

-- The errors whose causes nest at most n deep, and the causes of such an error.
abbrev pub cause_schema : ℕ → Schema
cause_schema zero = no_cause
cause_schema (suc n) = with_causes (cause_schema n)

abbrev pub api_error_schema : ℕ → Schema
api_error_schema n = with_causes (cause_schema n)

abbrev error_envelope_schema : ℕ → Schema
error_envelope_schema n = required "error" (model (api_error_schema n)) $ with_additional
