-- ===== src/Async/Jobs.antt =====
-- `AsyncJob` of python/src/libjadx/jobs.py, without its event stream. A job is its last raw job, as
-- that of `Job` is.
use libjadx.Base.{ℕ, Bool, true, false, Option, some, List, [], ◌∷◌, ◌++◌, if◌then◌else◌, ℤ}
use libjadx.Wire.Job.{Job}
use libjadx.Errors.{job_wait_timeout, Result, ok, raise}
use libjadx.Sse.{is_terminal}
use libjadx.Client.{get_job, cancel_job, System, Client}
use libjadx.Client.Poll.{polling, deadline_of}
use libjadx.Jobs.{as_job, terminal}
use libjadx.Async.{Step, returned, Async, and_then, async_invoke}
use libjadx.Async.Poll.{Turn, over, next, async_poll}

module _ (sys : System) where
  unfoldable pub async_refresh : Job → Async Job
  async_refresh raw = async_invoke sys as_job (get_job raw.job_id)

  unfoldable pub async_cancel : Job → Async Job
  async_cancel raw = async_invoke sys as_job (cancel_job raw.job_id)

  -- Behind the refresh of a round of `wait`.
  abbrev pub test_turn : Result Bool → Job → Turn Job Job
  test_turn (raise e) raw = over (raise e) raw
  test_turn (ok true) raw = over (ok raw) raw
  test_turn (ok false) raw = next raw

  abbrev pub refreshed_turn : Job → Result Job → Client → Step (Turn Job Job)
  refreshed_turn raw (raise e) c = returned (over (raise e) raw) c
  refreshed_turn raw (ok raw') c = returned (test_turn (terminal sys.codec raw') raw') c

  -- `while not self._terminal()`
  abbrev pub start_turn : Result Bool → Job → Client → Step (Turn Job Job)
  start_turn (raise e) raw c = returned (over (raise e) raw) c
  start_turn (ok true) raw c = returned (over (ok raw) raw) c
  start_turn (ok false) raw c = and_then (async_refresh raw c) (refreshed_turn raw)

  unfoldable pub async_wait_round : Job → Client → Step (Turn Job Job)
  unfolding terminal async_refresh
  async_wait_round raw c = start_turn (terminal sys.codec raw) raw c

  -- `AsyncJob.wait`, with fuel for its rounds.
  unfoldable pub async_wait : ℕ → Option ℤ → ℤ → Job → Client → Step (Option (Result Job × Job))
  unfolding polling deadline_of
  async_wait fuel timeout poll_interval raw c = elim (polling timeout poll_interval) [
    | raise e ↦ returned (some (raise e, raw)) c
    | ok (limit, interval) ↦
        let (deadline, c') = deadline_of sys limit c in
        async_poll sys job_wait_timeout async_wait_round fuel deadline interval raw c'
  ]

  -- One round of `poll_updates`, over the last raw job and what was yielded.
  abbrev pub updated_turn :
      Job × List Job → Result Job → Client → Step (Turn (Job × List Job) (List Job))
  updated_turn s (raise e) c = returned (over (raise e) s) c
  updated_turn s (ok raw) c =
      let yielded = s.1 ++ raw ∷ [] in
      if is_terminal raw.state
      then returned (over (ok yielded) (raw, yielded)) c
      else returned (next (raw, yielded)) c

  unfoldable pub async_updates_round :
      Job × List Job → Client → Step (Turn (Job × List Job) (List Job))
  unfolding async_refresh
  async_updates_round s c = and_then (async_refresh s.0 c) (updated_turn s)

  -- `AsyncJob.poll_updates`
  unfoldable pub async_poll_updates :
      ℕ → Option ℤ → ℤ → Job → Client → Step (Option (Result (List Job) × (Job × List Job)))
  unfolding polling deadline_of
  async_poll_updates fuel timeout poll_interval raw c = elim (polling timeout poll_interval) [
    | raise e ↦ returned (some (raise e, (raw, []))) c
    | ok (limit, interval) ↦
        let (deadline, c') = deadline_of sys limit c in
        async_poll sys job_wait_timeout async_updates_round fuel deadline interval (raw, []) c'
  ]
