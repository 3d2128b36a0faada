-- ===== src/Jobs.antt =====
-- python/src/libjadx/jobs.py: the handle of a server job. A `Job` object is its last raw job.
-- `poll_updates`, a generator, is given by the list of what it yields to a caller that takes it all.
pub mod Outcome
pub mod Stream
pub mod Updates
pub mod Waits
pub mod Live
use libjadx.Base.{
  ℕ, String, Bool, true, false, ◌||◌, Option, none, some, List, [], ◌∷◌, ◌++◌, if◌then◌else◌,
  str_eq, ℤ,
}
use libjadx.Wire.ApiError
use libjadx.Wire.Codec.{Codec, Uuid}
use libjadx.Wire.Enums.{JobState, cancelled, cancelling, failed, queued, running, succeeded}
use libjadx.Wire.Job.{Job}
use libjadx.Errors.{
  Exception, job_failed, job_cancelled, job_wait_timeout, ApiFailure, failure_of, Result, ok, raise,
  ◌>>=◌,
}
use libjadx.Sse.{is_terminal}
use libjadx.Client.{Payload, Expects, System, Client, get_job, cancel_job, invoke}
use libjadx.Client
use libjadx.Client.Poll.{Round, finished, again, poll, polling, deadline_of}

-- `isinstance(parsed, WireJob)`
unfoldable pub as_job : Expects Job
as_job (Client.job j) = some j
as_job _ = none

-- `_Job.error`
abbrev pub error_of : Codec → Job → Option ApiFailure
error_of codec raw = elim raw.error [
  | none ↦ none
  | some e ↦ some (failure_of codec.lower e none [])
]

abbrev terminal_state : Codec → JobState → Job → Result Bool
terminal_state codec failed raw = raise (job_failed raw (error_of codec raw))
terminal_state codec cancelled raw = raise (job_cancelled raw)
terminal_state codec succeeded raw = ok true
terminal_state codec _ raw = ok false

-- `_Job._terminal`
unfoldable pub terminal : Codec → Job → Result Bool
terminal codec raw = terminal_state codec raw.state raw

module _ (sys : System) where
  -- `Job.refresh` and `Job.cancel`, which replace the raw job unless the call raises.
  unfoldable pub refresh : Job → Client → Result Job × Client
  refresh raw c = invoke sys as_job (get_job raw.job_id) c

  unfoldable pub cancel : Job → Client → Result Job × Client
  cancel raw c = invoke sys as_job (cancel_job raw.job_id) c

  -- Behind the refresh of a round of `wait`: `if self._terminal(): break`.
  abbrev pub wait_test : Result Bool → Job → Client → Round Job Job
  wait_test (raise e) raw c = finished (raise e) raw c
  wait_test (ok true) raw c = finished (ok raw) raw c
  wait_test (ok false) raw c = again raw c

  abbrev pub wait_refreshed : Job → Result Job × Client → Round Job Job
  wait_refreshed raw (raise e, c) = finished (raise e) raw c
  wait_refreshed raw (ok raw', c) = wait_test (terminal sys.codec raw') raw' c

  -- `while not self._terminal()`
  abbrev pub wait_start : Result Bool → Job → Client → Round Job Job
  wait_start (raise e) raw c = finished (raise e) raw c
  wait_start (ok true) raw c = finished (ok raw) raw c
  wait_start (ok false) raw c = wait_refreshed raw (refresh raw c)

  -- One round of `wait`.
  unfoldable pub wait_round : Job → Client → Round Job Job
  unfolding terminal refresh
  wait_round raw c = wait_start (terminal sys.codec raw) raw c

  -- `Job.wait`, with fuel for its rounds.
  unfoldable pub wait : ℕ → Option ℤ → ℤ → Job → Client → Option (Result Job × Job × Client)
  unfolding polling deadline_of
  wait fuel timeout poll_interval raw c = elim (polling timeout poll_interval) [
    | raise e ↦ some (raise e, raw, c)
    | ok (limit, interval) ↦
        let (deadline, c') = deadline_of sys limit c in
        poll sys wait_round job_wait_timeout fuel deadline interval raw c'
  ]

  -- One round of `poll_updates`, over the last raw job and what was yielded.
  abbrev pub updates_refreshed :
      Job × List Job → Result Job × Client → Round (Job × List Job) (List Job)
  updates_refreshed s (raise e, c) = finished (raise e) s c
  updates_refreshed s (ok raw, c) =
      let yielded = s.1 ++ raw ∷ [] in
      if is_terminal raw.state
      then finished (ok yielded) (raw, yielded) c
      else again (raw, yielded) c

  unfoldable pub updates_round : Job × List Job → Client → Round (Job × List Job) (List Job)
  unfolding refresh
  updates_round s c = updates_refreshed s (refresh s.0 c)

  -- `Job.poll_updates`
  unfoldable pub poll_updates :
      ℕ → Option ℤ → ℤ → Job → Client → Option (Result (List Job) × (Job × List Job) × Client)
  unfolding polling deadline_of
  poll_updates fuel timeout poll_interval raw c = elim (polling timeout poll_interval) [
    | raise e ↦ some (raise e, (raw, []), c)
    | ok (limit, interval) ↦
        let (deadline, c') = deadline_of sys limit c in
        poll sys updates_round job_wait_timeout fuel deadline interval (raw, []) c'
  ]
