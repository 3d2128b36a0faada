-- ===== src/Errors.antt =====
-- python/src/libjadx/errors.py: the exceptions of the SDK. Methods that may raise return a `Result`.
pub mod Table
use libjadx.Base.{ℕ, String, false, Option, none, some, List, [], ◌∷◌, str_eq, if◌then◌else◌}
use libjadx.Wire.Json.{Json, bool, arr, nil, get, get_default}
use libjadx.Wire.Enums.{code_value}
use libjadx.Wire.ApiError
use libjadx.Wire.ApiError.{message_of, code_of, to_dict}
use libjadx.Wire.Job.{Job}
use libjadx.Wire.Pages.{ServiceStatus}

-- The subclasses of `ApiError`, and `ApiError` itself.
pub data ErrorClass : Type 0 where
  api_error : ErrorClass
  project_not_ready_error service_shutting_down_error project_load_failed_error : ErrorClass
  method_not_allowed_error project_busy_error event_history_expired_error : ErrorClass
  invalid_request_error invalid_entity_id_error not_found_error : ErrorClass
  unsupported_capability_error incomplete_analysis_error stale_revision_error : ErrorClass
  external_modification_conflict_error mapping_merge_conflict_error : ErrorClass
  resource_limit_error cancellation_pending_error input_security_rejection_error : ErrorClass
  internal_server_error operation_not_implemented_error : ErrorClass

-- `zip(…, strict=True)` of the two lists.
abbrev pub error_types : List (String × ErrorClass)
error_types =
    ("PROJECT_NOT_READY", project_not_ready_error)
    ∷ ("SERVICE_SHUTTING_DOWN", service_shutting_down_error)
    ∷ ("PROJECT_LOAD_FAILED", project_load_failed_error)
    ∷ ("METHOD_NOT_ALLOWED", method_not_allowed_error)
    ∷ ("PROJECT_BUSY", project_busy_error)
    ∷ ("EVENT_HISTORY_EXPIRED", event_history_expired_error)
    ∷ ("INVALID_REQUEST", invalid_request_error)
    ∷ ("INVALID_ENTITY_ID", invalid_entity_id_error)
    ∷ ("NOT_FOUND", not_found_error)
    ∷ ("UNSUPPORTED_CAPABILITY", unsupported_capability_error)
    ∷ ("INCOMPLETE_ANALYSIS", incomplete_analysis_error)
    ∷ ("STALE_REVISION", stale_revision_error)
    ∷ ("EXTERNAL_MODIFICATION_CONFLICT", external_modification_conflict_error)
    ∷ ("MAPPING_MERGE_CONFLICT", mapping_merge_conflict_error)
    ∷ ("RESOURCE_LIMIT", resource_limit_error)
    ∷ ("CANCELLATION_PENDING", cancellation_pending_error)
    ∷ ("INPUT_SECURITY_REJECTION", input_security_rejection_error)
    ∷ ("INTERNAL_ERROR", internal_server_error)
    ∷ ("OPERATION_NOT_IMPLEMENTED", operation_not_implemented_error)
    ∷ []

-- Response headers. httpx gives them in order, with their spelling.
abbrev pub Headers : Type 0
Headers = List (String × String)

-- An instance of `ApiError` or of a subclass.
pub record ApiFailure : Type 0 where
  pub type_ : ErrorClass
  pub raw : ApiError.ApiError
  pub http_status : Option ℕ
  pub code : String
  pub message : Json
  pub retryable : Json
  pub request_id : Option Json
  pub headers : Headers
  pub header_request_id : Option String
  pub details : Option Json
  pub causes : Json
  pub item_errors : Json

-- `ERROR_TYPES.get(code, ApiError)`
unfoldable pub class_of : List (String × ErrorClass) → String → ErrorClass
class_of [] code = api_error
class_of ((c, t) ∷ rest) code = if str_eq c code then t else class_of rest code

-- `next((v for k, v in headers.items() if k.lower() == "x-request-id"), None)`; `lower` is Python's
-- `str.lower`.
unfoldable pub find_header : (String → String) → Headers → Option String
find_header lower [] = none
find_header lower ((k, v) ∷ rest) =
    if str_eq (lower k) "x-request-id" then some v else find_header lower rest

-- `ApiError.__init__`
unfoldable pub make_failure :
    (String → String) → ErrorClass → ApiError.ApiError → Option ℕ → Headers → ApiFailure
unfolding find_header
make_failure lower type_ raw status headers =
    let body = to_dict raw in
    record {
      type_ = type_;
      raw = raw;
      http_status = status;
      code = code_value (code_of raw);
      message = message_of raw;
      retryable = get_default "retryable" (bool false) body;
      request_id = get "requestId" body;
      headers = headers;
      header_request_id = find_header lower headers;
      details = get "details" body;
      causes = get_default "causes" (arr nil) body;
      item_errors = get_default "itemErrors" (arr nil) body;
    }

-- The function `api_error`.
unfoldable pub failure_of : (String → String) → ApiError.ApiError → Option ℕ → Headers → ApiFailure
unfolding class_of make_failure
failure_of lower raw status headers =
    make_failure lower (class_of error_types (code_value (code_of raw))) raw status headers

-- What a method of the SDK may raise. `unexpected_status n` is the `UnexpectedResponseError` whose text
-- names the HTTP status n; `invalid_dict` stands for what the `from_dict` of a model raises, an error of the
-- standard library; `service_load_failed` keeps the error of the status.
pub data Exception : Type 0 where
  value_error : String → Exception
  transport_error request_timeout_error unexpected_response_error : String → Exception
  unexpected_status : ℕ → Exception
  api : ApiFailure → Exception
  invalid_dict : Exception
  service_load_failed : ServiceStatus → Option ApiFailure → Exception
  wait_ready_timeout job_wait_timeout : Exception
  job_failed : Job → Option ApiFailure → Exception
  job_cancelled : Job → Exception

pub data Result {ℓ} (A : Type ℓ) : Type ℓ where
  ok : A → Result A
  raise : Exception → Result A

infixl 5 ◌>>=◌
abbrev pub ◌>>=◌ {ℓ κ} : {A : Type ℓ} {B : Type κ} → Result A → (A → Result B) → Result B
ok a >>= f = f a
raise e >>= f = raise e

-- `f()` with `except …: raise e from exc` for what the part raises
abbrev pub or_raise {ℓ} : {A : Type ℓ} → Option A → Exception → Result A
or_raise none e = raise e
or_raise (some a) e = ok a
