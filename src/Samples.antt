-- ===== src/Samples.antt =====
-- Values at which the theorems are applied and the definitions are run.
use libjadx.Base.{false, none, some, [], ◌∷◌, ◌++◌, codes, pos, arith, ◌≡◌, refl}
use libjadx.Wire.Json.{Json, null, str, int, obj, end, member, unset, given}
use libjadx.Wire.Codec.{Codec, Uuid}
use libjadx.Wire.Enums.{JobState, method, running, job_started}
use libjadx.Wire.Job.{Job, JobProgress, JobEvent}
use libjadx.Wire.Refs.{SymbolRef}
use libjadx.Revisions.{RevisionCache}
use libjadx.Revisions.Session.{IsValid}
use libjadx.Sse.{Bytes}
use libjadx.Client.{Client, System, Payload, response}
use libjadx.Client.Poll.Ends.{IsSteady}

abbrev pub job_uuid : Uuid
job_uuid = record { canonical = "00000000-0000-4000-8000-000000000001" }

abbrev pub no_progress : JobProgress
no_progress = record { completed = null; total = null; stage = null; additional_properties = end }

-- The event that a stream's data stands for, as JSON and as a value.
abbrev pub event_json : Json
event_json = obj (
    member "jobId" (str "00000000-0000-4000-8000-000000000001") (
      member "sequence" (int (pos 4)) (
        member "type" (str "job.started") (
          member "at" (str "2026-01-01T00:00:00Z") (
            member "state" (str "RUNNING") (
              member "progress"
                (obj (member "completed" null (member "total" null (member "stage" null end))))
                (member "resultUrl" null end)))))))

abbrev pub event : JobEvent
event = record {
  job_id = job_uuid;
  sequence = int (pos 4);
  type_ = job_started;
  at = record { iso = "2026-01-01T00:00:00Z" };
  state = running;
  progress = no_progress;
  result_url = null;
  additional_properties = end;
}

-- A codec that takes every text, reads every body as that event, and knows one header name.
abbrev pub codec : Codec
codec = record {
  uuid_of = λ s. some (record { canonical = s });
  datetime_of = λ s. some (record { iso = s });
  loads = λ _. some event_json;
  lower = λ s. s;
}

abbrev newline : Bytes
newline = 10 ∷ []

-- A frame up to its blank line, and that line.
abbrev pub frame_head : Bytes
frame_head =
    codes "id: 4"
    ++ (newline ++ (codes "event: job.started" ++ (newline ++ (codes "data: {}" ++ newline))))

abbrev pub frame_tail : Bytes
frame_tail = newline

abbrev pub job_in : JobState → Job
job_in state = record {
  job_id = job_uuid;
  type_ = "SEARCH_INDEX";
  state = state;
  created_at = record { iso = "2026-01-01T00:00:00Z" };
  started_at = none;
  completed_at = none;
  deadline_at = none;
  session_id = "00000000-0000-4000-8000-00000000000a";
  logical_revision = 7;
  source_snapshot_id = "snapshot";
  progress = no_progress;
  result = none;
  completeness = none;
  error = none;
  diagnostics = [];
  cancellation_reason = none;
  additional_properties = end;
}

abbrev pub cache : RevisionCache
cache = record {
  retired = "00000000-0000-4000-8000-00000000000b" ∷ [];
  session_id = some "00000000-0000-4000-8000-00000000000a";
  logical_revision = some 7;
  index_revision = some 2;
}

pub cache-IsValid : IsValid cache
cache-IsValid = record {
  current = λ s h. let e : s ≡ "00000000-0000-4000-8000-00000000000a" = cc in rw e refl;
  together = λ s h. cc;
  alone = λ h. cc;
}

abbrev pub client : Client
client = record { closed = false; revisions = cache; sent = []; readings = 0; slept = 0 }

-- A service that answers every request with this payload, and a clock that shows the time slept.
abbrev pub system : Payload → System
system p = record {
  codec = codec;
  exchange = λ _ _. response (record { status_code = 200; headers = []; parsed = p });
  monotonic = λ _ slept. slept;
}

pub system-IsSteady : (p : Payload) → IsSteady (system p)
system-IsSteady p = record { goes_on = λ m n s t _ h. omega arith }

abbrev pub method_reference : SymbolRef
method_reference = record {
  kind = method;
  original_class_descriptor = str "La/B;";
  input_identity = unset;
  original_name = given (str "run");
  original_descriptor = given (str "()V");
}
