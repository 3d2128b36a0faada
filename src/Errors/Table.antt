-- ===== src/Errors/Table.antt =====
-- `ERROR_TYPES` and the request id of a failure, of errors.py.
use libjadx.Base.{
  String, false, Option, none, some, [], ◌∷◌, ◌++◌, str_eq, ◌≡◌, ◌≢◌, refl, sym, ap, ◌∙◌, inl, inr,
  Bool-cases, All, eq_iff,
}
use libjadx.Wire.Enums.{ApiErrorCode, code_value}
use libjadx.Wire.Enums
use libjadx.Errors.{
  ErrorClass, api_error, project_not_ready_error, service_shutting_down_error,
  project_load_failed_error, method_not_allowed_error, project_busy_error,
  event_history_expired_error, invalid_request_error, invalid_entity_id_error, not_found_error,
  unsupported_capability_error, incomplete_analysis_error, stale_revision_error,
  external_modification_conflict_error, mapping_merge_conflict_error, resource_limit_error,
  cancellation_pending_error, input_security_rejection_error, internal_server_error,
  operation_not_implemented_error, error_types, class_of, Headers, find_header,
}

-- The code that the name of a subclass stands for.
abbrev pub code_named : ErrorClass → Option ApiErrorCode
code_named api_error = none
code_named project_not_ready_error = some Enums.project_not_ready
code_named service_shutting_down_error = some Enums.service_shutting_down
code_named project_load_failed_error = some Enums.project_load_failed
code_named method_not_allowed_error = some Enums.method_not_allowed
code_named project_busy_error = some Enums.project_busy
code_named event_history_expired_error = some Enums.event_history_expired
code_named invalid_request_error = some Enums.invalid_request
code_named invalid_entity_id_error = some Enums.invalid_entity_id
code_named not_found_error = some Enums.not_found
code_named unsupported_capability_error = some Enums.unsupported_capability
code_named incomplete_analysis_error = some Enums.incomplete_analysis
code_named stale_revision_error = some Enums.stale_revision
code_named external_modification_conflict_error = some Enums.external_modification_conflict
code_named mapping_merge_conflict_error = some Enums.mapping_merge_conflict
code_named resource_limit_error = some Enums.resource_limit
code_named cancellation_pending_error = some Enums.cancellation_pending
code_named input_security_rejection_error = some Enums.input_security_rejection
code_named internal_server_error = some Enums.internal_error
code_named operation_not_implemented_error = some Enums.operation_not_implemented

-- Every code of the contract has the subclass that is named after it.
pub class_of-code_value :
    (code : ApiErrorCode) → code_named (class_of error_types (code_value code)) ≡ some code
unfolding class_of
class_of-code_value Enums.cancellation_pending = refl
class_of-code_value Enums.event_history_expired = refl
class_of-code_value Enums.external_modification_conflict = refl
class_of-code_value Enums.incomplete_analysis = refl
class_of-code_value Enums.input_security_rejection = refl
class_of-code_value Enums.internal_error = refl
class_of-code_value Enums.invalid_entity_id = refl
class_of-code_value Enums.invalid_request = refl
class_of-code_value Enums.mapping_merge_conflict = refl
class_of-code_value Enums.method_not_allowed = refl
class_of-code_value Enums.not_found = refl
class_of-code_value Enums.operation_not_implemented = refl
class_of-code_value Enums.project_busy = refl
class_of-code_value Enums.project_load_failed = refl
class_of-code_value Enums.project_not_ready = refl
class_of-code_value Enums.resource_limit = refl
class_of-code_value Enums.service_shutting_down = refl
class_of-code_value Enums.stale_revision = refl
class_of-code_value Enums.unsupported_capability = refl

-- No header before the one that is found is a request id, in any spelling of its name.
pub record FirstHeader (lower : String → String) (headers : Headers) (value : String) : Type 0 where
  pub before : Headers
  pub after : Headers
  pub name : String
  pub split : headers ≡ before ++ (name, value) ∷ after
  pub named : lower name ≡ "x-request-id"
  pub others : All (λ h. lower h.0 ≢ "x-request-id") before

ne_of : (s t : String) → str_eq s t ≡ false → s ≢ t
ne_of s t f e = cc (sym f ∙ (eq_iff s t).1 e)

-- The request id that is found in the headers is the value of the first header with that name, in any
-- spelling of it.
pub find_header_first :
    (lower : String → String) (headers : Headers) {value : String}
    → find_header lower headers ≡ some value
    → FirstHeader lower headers value
unfolding find_header
find_header_first lower [] h = cc
find_header_first lower ((k, v) ∷ rest) {value} h =
    elim (Bool-cases (str_eq (lower k) "x-request-id")) [
      | inl t ↦
          let same : value ≡ v = cc (rw t at h) in
          rw same (record {
            before = [];
            after = rest;
            name = k;
            split = refl;
            named = (eq_iff (lower k) "x-request-id").0 t;
            others = tt;
          })
      | inr f ↦
          let r = find_header_first lower rest (rw f at h) in
          record {
            before = (k, v) ∷ r.before;
            after = r.after;
            name = r.name;
            split = ap (λ l. (k, v) ∷ l) r.split;
            named = r.named;
            others = (ne_of (lower k) "x-request-id" f, r.others);
          }
    ]
