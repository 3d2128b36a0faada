-- ===== src/Wire/Job.antt =====
-- models/job.py, job_progress.py and job_event.py, and `JobEvent.from_dict`.
-- The fields of `Job` have the types that the source declares; an event comes
-- from the stream, and what `from_dict` does not check stays a JSON value.
use libjadx.Base.{ℕ, String, Option, none, some, List}
use libjadx.Wire.Json.{Json, str, arr, obj, Items, nil, item, Members, end, get, put, remove}
use libjadx.Wire.Codec.{Uuid, DateTime, Codec}
use libjadx.Wire.Enums.{
  JobState, state_value, job_states, JobEventType, event_type_value, event_types,
}
use libjadx.Wire.Enums.{member_of}
use libjadx.Wire.ApiError.{ApiError}

pub record JobProgress : Type 0 where
  pub completed : Json
  pub total : Json
  pub stage : Json
  pub additional_properties : Members

pub record Job : Type 0 where
  pub job_id : Uuid
  pub type_ : String
  pub state : JobState
  pub created_at : DateTime
  pub started_at : Option DateTime
  pub completed_at : Option DateTime
  pub deadline_at : Option DateTime
  pub session_id : String
  pub logical_revision : ℕ
  pub source_snapshot_id : String
  pub progress : JobProgress
  pub result : Option Members
  pub completeness : Option String
  pub error : Option ApiError
  pub diagnostics : List String
  pub cancellation_reason : Option String
  pub additional_properties : Members

pub record JobEvent : Type 0 where
  pub job_id : Uuid
  pub sequence : Json
  pub type_ : JobEventType
  pub at : DateTime
  pub state : JobState
  pub progress : JobProgress
  pub result_url : Json
  pub additional_properties : Members

infixl 5 ◌>>=◌
abbrev pub ◌>>=◌ {ℓ κ} : {A : Type ℓ} {B : Type κ} → Option A → (A → Option B) → Option B
none >>= f = none
some a >>= f = f a

-- `dict(value)`: a copy of a dict, or the dict of a list of pairs whose keys are texts. Lists with
-- other pairs are refused here; Python also takes keys that are no texts, and no field has one.
-- The empty text, of which Python makes an empty dict, is refused too; only a class that requires no key
-- would take it.
abbrev pub put_pair : Json → Option Members → Option Members
put_pair (arr (item (str k) (item v nil))) (some m) = some (put k v m)
put_pair _ _ = none

abbrev pub put_pairs : Items → Members → Option Members
put_pairs nil m = some m
put_pairs (item p ps) m = put_pair p (some m) >>= put_pairs ps

unfoldable pub as_dict : Json → Option Members
as_dict (obj m) = some m
as_dict (arr ps) = put_pairs ps end
as_dict _ = none

-- d.pop(k), which raises `KeyError`, and hands the rest of `d` on
abbrev pub pop {ℓ} : {B : Type ℓ} → String → Members → (Json → Members → Option B) → Option B
pop k d f = get k d >>= λ v. f v (remove k d)

-- A call that wants a text, and raises on anything else.
abbrev pub of_text {ℓ} : {A : Type ℓ} → (String → Option A) → Json → Option A
of_text f (str s) = f s
of_text f _ = none

unfoldable pub progress_from_dict : Json → Option JobProgress
unfolding as_dict
progress_from_dict src = do
  d ← as_dict src
  pop "completed" d λ completed d. pop "total" d λ total d. pop "stage" d λ stage d.
      some
        (record { completed = completed; total = total; stage = stage; additional_properties = d })

unfoldable pub event_from_dict : Codec → Json → Option JobEvent
unfolding as_dict progress_from_dict
event_from_dict codec src = do
  d ← as_dict src
  pop "jobId" d λ raw_id d. do
    job_id ← of_text codec.uuid_of raw_id
    pop "sequence" d λ sequence d. pop "type" d λ raw_type d. do
      type_ ← of_text (member_of event_type_value event_types) raw_type
      pop "at" d λ raw_at d. do
        at ← of_text codec.datetime_of raw_at
        pop "state" d λ raw_state d. do
          state ← of_text (member_of state_value job_states) raw_state
          pop "progress" d λ raw_progress d. do
            progress ← progress_from_dict raw_progress
            pop "resultUrl" d λ result_url d. some (record {
              job_id = job_id;
              sequence = sequence;
              type_ = type_;
              at = at;
              state = state;
              progress = progress;
              result_url = result_url;
              additional_properties = d;
            })
