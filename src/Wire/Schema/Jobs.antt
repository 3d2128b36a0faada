-- ===== src/Wire/Schema/Jobs.antt =====
-- The classes of python/src/libjadx/_generated/models for jobs and the state of the service.
use libjadx.Base.{ℕ, String, List, [], ◌∷◌}
use libjadx.Wire.Schema.{
  plain, uuid, datetime, enum, model, nullable, Schema, with_additional, required, optional, ◌$◌,
}
use libjadx.Wire.Schema.Errors.{api_error_schema}

abbrev job_cancellation_reason_type_1_values : List String
job_cancellation_reason_type_1_values = "DEADLINE" ∷ "SHUTDOWN" ∷ "USER" ∷ []

abbrev job_completeness_type_1_values : List String
job_completeness_type_1_values = "COMPLETE" ∷ "PARTIAL" ∷ []

abbrev job_event_state_values : List String
job_event_state_values =
    "CANCELLED" ∷ "CANCELLING" ∷ "FAILED" ∷ "QUEUED" ∷ "RUNNING" ∷ "SUCCEEDED" ∷ []

abbrev job_event_type_values : List String
job_event_type_values =
    "job.cancelled" ∷ "job.cancel_requested" ∷ "job.completed" ∷ "job.failed" ∷ "job.progress"
    ∷ "job.queued" ∷ "job.started" ∷ []

abbrev job_state_values : List String
job_state_values = "CANCELLED" ∷ "CANCELLING" ∷ "FAILED" ∷ "QUEUED" ∷ "RUNNING" ∷ "SUCCEEDED" ∷ []

abbrev service_status_state_values : List String
service_status_state_values =
    "FAILED" ∷ "LOADING" ∷ "READY" ∷ "RELOADING" ∷ "SHUTTING_DOWN" ∷ "STARTING" ∷ "STOPPED" ∷ []

abbrev job_progress_schema : Schema
job_progress_schema =
    required "completed" plain $ required "total" plain $ required "stage" plain $ with_additional

abbrev job_result_type_0_schema : Schema
job_result_type_0_schema = with_additional

abbrev job_schema : ℕ → Schema
job_schema n =
    required "jobId" uuid
    $ required "type" plain
    $ required "state" (enum job_state_values)
    $ required "createdAt" datetime
    $ required "startedAt" (nullable datetime)
    $ required "completedAt" (nullable datetime)
    $ required "deadlineAt" (nullable datetime)
    $ required "sessionId" plain
    $ required "logicalRevision" plain
    $ required "sourceSnapshotId" plain
    $ required "progress" (model job_progress_schema)
    $ required "result" (nullable (model job_result_type_0_schema))
    $ required "completeness" (nullable (enum job_completeness_type_1_values))
    $ required "error" (nullable (model (api_error_schema n)))
    $ required "diagnostics" plain
    $ required "cancellationReason" (nullable (enum job_cancellation_reason_type_1_values))
    $ with_additional

abbrev job_event_schema : Schema
job_event_schema =
    required "jobId" uuid
    $ required "sequence" plain
    $ required "type" (enum job_event_type_values)
    $ required "at" datetime
    $ required "state" (enum job_event_state_values)
    $ required "progress" (model job_progress_schema)
    $ required "resultUrl" plain
    $ with_additional

abbrev progress_schema : Schema
progress_schema =
    required "completed" plain $ required "total" plain $ required "unit" plain $ with_additional

abbrev service_status_schema : ℕ → Schema
service_status_schema n =
    required "state" (enum service_status_state_values)
    $ required "stage" plain
    $ required "progress" (model progress_schema)
    $ required "inputs" plain
    $ optional "projectPath" plain
    $ optional "error" (nullable (model (api_error_schema n)))
    $ with_additional
