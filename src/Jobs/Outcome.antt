-- ===== src/Jobs/Outcome.antt =====
-- `Job.wait` of jobs.py: what it gives, and what it asks of the service.
use libjadx.Base.{ℕ, Bool, true, false, Option, some, ◌≡◌, ◌≢◌, refl, ℤ}
use libjadx.Wire.Enums.{JobState, cancelled, cancelling, failed, queued, running, succeeded}
use libjadx.Wire.Job.{Job}
use libjadx.Errors.{job_wait_timeout, Result, ok, raise}
use libjadx.Client.{System, Client, get_job, Request}
use libjadx.Client.Sends.{OnlySends, none_sent, then_sent, pause_sent, invoke_sent}
use libjadx.Client.Poll.{poll, polling, deadline_of}
use libjadx.Client.Poll.Ends.{clock_sent}
use libjadx.Client.Poll.Rule.{Keeps, Q_of, poll_inv}
use libjadx.Jobs.{
  as_job, terminal_state, terminal, refresh, wait_test, wait_refreshed, wait_start, wait_round,
  wait,
}

-- Is the request a `get_job`?
abbrev pub is_refresh : Request → Bool
is_refresh (get_job id) = true
is_refresh _ = false

-- What the result of `wait` says of the job's last known state.
abbrev pub Outcome : Result Job → Job → Type 0
Outcome (ok j) raw = (j ≡ raw) × (raw.state ≡ succeeded)
Outcome (raise e) raw = raw.state ≢ succeeded

module _ (sys : System) where
  refresh_sent : (raw : Job) (c : Client) → OnlySends is_refresh c (refresh sys raw c).1
  unfolding refresh
  refresh_sent raw c = invoke_sent is_refresh sys as_job (get_job raw.job_id) c refl

  -- What `_terminal` says of a state.
  abbrev Verdict : Result Bool → JobState → Type 0
  Verdict (ok true) state = state ≡ succeeded
  Verdict _ state = state ≢ succeeded

  terminal_state-Verdict :
      (state : JobState) (raw : Job) → Verdict (terminal_state sys.codec state raw) state
  terminal_state-Verdict failed raw = λ e. cc
  terminal_state-Verdict cancelled raw = λ e. cc
  terminal_state-Verdict succeeded raw = refl
  terminal_state-Verdict queued raw = λ e. cc
  terminal_state-Verdict running raw = λ e. cc
  terminal_state-Verdict cancelling raw = λ e. cc

  verdict : (raw : Job) → Verdict (terminal sys.codec raw) raw.state
  unfolding terminal
  verdict raw = terminal_state-Verdict raw.state raw

  module _ (c₀ : Client) where
    abbrev Before : Job → Client → Type 0
    Before raw c = OnlySends is_refresh c₀ c

    abbrev Going : Job → Client → Type 0
    Going raw c = OnlySends is_refresh c₀ c × (raw.state ≢ succeeded)

    abbrev Over : Result Job → Job → Client → Type 0
    Over x raw c = OnlySends is_refresh c₀ c × Outcome x raw

    wait_test-Keeps :
        (x : Result Bool) (raw : Job) (c : Client)
        → Verdict x raw.state
        → OnlySends is_refresh c₀ c
        → Keeps Going Over (wait_test sys x raw c)
    wait_test-Keeps (raise e) raw c v o = (o, v)
    wait_test-Keeps (ok true) raw c v o = (o, (refl, v))
    wait_test-Keeps (ok false) raw c v o = (o, v)

    wait_refreshed-Keeps :
        (raw : Job) (x : Result Job × Client)
        → raw.state ≢ succeeded
        → OnlySends is_refresh c₀ x.1
        → Keeps Going Over (wait_refreshed sys raw x)
    wait_refreshed-Keeps raw (raise e, c) v o = (o, v)
    wait_refreshed-Keeps raw (ok raw', c) v o =
        wait_test-Keeps (terminal sys.codec raw') raw' c (verdict raw') o

    wait_start-Keeps :
        (x : Result Bool) (raw : Job) (c : Client)
        → Verdict x raw.state
        → OnlySends is_refresh c₀ c
        → Keeps Going Over (wait_start sys x raw c)
    wait_start-Keeps (raise e) raw c v o = (o, v)
    wait_start-Keeps (ok true) raw c v o = (o, (refl, v))
    wait_start-Keeps (ok false) raw c v o =
        wait_refreshed-Keeps raw (refresh sys raw c) v
          (then_sent is_refresh c₀ c (refresh sys raw c).1 o (refresh_sent raw c))

    wait_round-Keeps :
        (raw : Job) (c : Client) → Before raw c → Keeps Going Over (wait_round sys raw c)
    unfolding wait_round
    wait_round-Keeps raw c o = wait_start-Keeps (terminal sys.codec raw) raw c (verdict raw) o

    poll-Over :
        (n : ℕ) (deadline : Option ℕ) (interval : ℕ) (raw : Job) (c : Client) {x : Result Job}
        {raw' : Job} {c' : Client}
        → Before raw c
        → poll sys (wait_round sys) job_wait_timeout n deadline interval raw c ≡ some (x, raw', c')
        → Over x raw' c'
    poll-Over n deadline interval raw c o h =
        poll_inv sys (wait_round sys) job_wait_timeout Before Going Over wait_round-Keeps
          (λ s c d e r. pause_sent is_refresh c₀ c d e r.0)
          (λ s c d e r. (pause_sent is_refresh c₀ c d e r.0, r.1)) n deadline interval raw c o h

  -- However `wait` is called of a job that is not known to have succeeded, and whenever it is over: it has
  -- sent refreshes and nothing else, so it never cancels. If it returns, then it returns the last known
  -- job, whose state is succeeded; if it raises, then that state is another.
  pub wait-Outcome :
      (fuel : ℕ) (timeout : Option ℤ) (interval : ℤ) (raw : Job) (c : Client) {x : Result Job}
      {raw' : Job} {c' : Client}
      → raw.state ≢ succeeded
      → wait sys fuel timeout interval raw c ≡ some (x, raw', c')
      → OnlySends is_refresh c c' × Outcome x raw'
  unfolding wait
  wait-Outcome fuel timeout interval raw c {x} {raw'} {c'} v h = go (polling timeout interval) h
    where
      go :
          (p : Result (Option ℕ × ℕ))
          → elim p [
            | raise e ↦ some (raise e, raw, c)
            | ok q ↦
                poll sys
                  (wait_round sys)
                  job_wait_timeout
                  fuel
                  (deadline_of sys q.0 c).0
                  q.1
                  raw
                  (deadline_of sys q.0 c).1
          ]
            ≡ some (x, raw', c')
          → OnlySends is_refresh c c' × Outcome x raw'
      go (raise e) h = Q_of (Over c) h (none_sent is_refresh c c refl, v)
      go (ok q) h =
          poll-Over c fuel (deadline_of sys q.0 c).0 q.1 raw (deadline_of sys q.0 c).1
            (none_sent is_refresh c (deadline_of sys q.0 c).1 (clock_sent sys q.0 c)) h
