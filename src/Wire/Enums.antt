-- ===== src/Wire/Enums.antt =====
-- The string enumerations of the wire: their members, `.value`, and the call that reads a text.
use libjadx.Base.{String, Option, none, some, List, [], ◌∷◌, str_eq, if◌then◌else◌}

pub data JobState : Type 0 where
  cancelled cancelling failed queued running succeeded : JobState

abbrev pub state_value : JobState → String
state_value cancelled = "CANCELLED"
state_value cancelling = "CANCELLING"
state_value failed = "FAILED"
state_value queued = "QUEUED"
state_value running = "RUNNING"
state_value succeeded = "SUCCEEDED"

abbrev pub job_states : List JobState
job_states = cancelled ∷ cancelling ∷ failed ∷ queued ∷ running ∷ succeeded ∷ []

pub data JobEventType : Type 0 where
  job_cancelled job_cancel_requested job_completed job_failed : JobEventType
  job_progress job_queued job_started : JobEventType

abbrev pub event_type_value : JobEventType → String
event_type_value job_cancelled = "job.cancelled"
event_type_value job_cancel_requested = "job.cancel_requested"
event_type_value job_completed = "job.completed"
event_type_value job_failed = "job.failed"
event_type_value job_progress = "job.progress"
event_type_value job_queued = "job.queued"
event_type_value job_started = "job.started"

abbrev pub event_types : List JobEventType
event_types =
    job_cancelled ∷ job_cancel_requested ∷ job_completed ∷ job_failed ∷ job_progress ∷ job_queued
    ∷ job_started ∷ []

pub data SymbolRefKind : Type 0 where
  class field method : SymbolRefKind

abbrev pub kind_value : SymbolRefKind → String
kind_value class = "CLASS"
kind_value field = "FIELD"
kind_value method = "METHOD"

abbrev pub kinds : List SymbolRefKind
kinds = class ∷ field ∷ method ∷ []

pub data ApiErrorCode : Type 0 where
  cancellation_pending event_history_expired external_modification_conflict : ApiErrorCode
  incomplete_analysis input_security_rejection internal_error invalid_entity_id : ApiErrorCode
  invalid_request mapping_merge_conflict method_not_allowed not_found : ApiErrorCode
  operation_not_implemented project_busy project_load_failed project_not_ready : ApiErrorCode
  resource_limit service_shutting_down stale_revision unsupported_capability : ApiErrorCode

abbrev pub code_value : ApiErrorCode → String
code_value cancellation_pending = "CANCELLATION_PENDING"
code_value event_history_expired = "EVENT_HISTORY_EXPIRED"
code_value external_modification_conflict = "EXTERNAL_MODIFICATION_CONFLICT"
code_value incomplete_analysis = "INCOMPLETE_ANALYSIS"
code_value input_security_rejection = "INPUT_SECURITY_REJECTION"
code_value internal_error = "INTERNAL_ERROR"
code_value invalid_entity_id = "INVALID_ENTITY_ID"
code_value invalid_request = "INVALID_REQUEST"
code_value mapping_merge_conflict = "MAPPING_MERGE_CONFLICT"
code_value method_not_allowed = "METHOD_NOT_ALLOWED"
code_value not_found = "NOT_FOUND"
code_value operation_not_implemented = "OPERATION_NOT_IMPLEMENTED"
code_value project_busy = "PROJECT_BUSY"
code_value project_load_failed = "PROJECT_LOAD_FAILED"
code_value project_not_ready = "PROJECT_NOT_READY"
code_value resource_limit = "RESOURCE_LIMIT"
code_value service_shutting_down = "SERVICE_SHUTTING_DOWN"
code_value stale_revision = "STALE_REVISION"
code_value unsupported_capability = "UNSUPPORTED_CAPABILITY"

-- `Enum(text)`: the member with that value; `none` where the call raises `ValueError`.
unfoldable pub member_of {ℓ} : {A : Type ℓ} → (A → String) → List A → String → Option A
member_of value [] text = none
member_of value (a ∷ rest) text =
    if str_eq (value a) text then some a else member_of value rest text
