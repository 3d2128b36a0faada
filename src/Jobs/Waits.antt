-- ===== src/Jobs/Waits.antt =====
-- `Job.wait` of jobs.py with a timeout: when it ends, and the time that it sleeps.
use libjadx.Base.{
  ℕ, ◌+◌, ◌≤◌, ◌<◌, Bool, true, false, none, some, ◌≡◌, ◌≢◌, ◌⊎◌, inl, inr, refl, sym, ap, ◌∙◌,
  arith, pos,
}
use libjadx.Wire.Job.{Job}
use libjadx.Errors.{job_wait_timeout, Result, ok, raise}
use libjadx.Client.{System, Client, get_job}
use libjadx.Client.Invoke.{invoke_sends}
use libjadx.Client.Poll.{poll, polling, deadline_of, now, read_clock}
use libjadx.Client.Poll.Ends.{IsSteady, IsTimeless, client_of, polling_ok, poll_ends, poll_slept}
use libjadx.Jobs.{
  as_job, terminal, refresh, wait_test, wait_refreshed, wait_start, wait_round, wait,
}

module _ (sys : System) where
  test_client : (x : Result Bool) (raw : Job) (c : Client) → client_of (wait_test sys x raw c) ≡ c
  test_client (raise e) raw c = refl
  test_client (ok true) raw c = refl
  test_client (ok false) raw c = refl

  refreshed_client :
      (raw : Job) (x : Result Job × Client) → client_of (wait_refreshed sys raw x) ≡ x.1
  refreshed_client raw (raise e, c) = refl
  refreshed_client raw (ok raw', c) = test_client (terminal sys.codec raw') raw' c

  start_client :
      (x : Result Bool) (raw : Job) (c : Client)
      → (client_of (wait_start sys x raw c) ≡ c)
        ⊎ (client_of (wait_start sys x raw c) ≡ (refresh sys raw c).1)
  start_client (raise e) raw c = inl refl
  start_client (ok true) raw c = inl refl
  start_client (ok false) raw c = inr (refreshed_client raw (refresh sys raw c))

  -- A round of `wait` leaves the client alone, or it has refreshed the job.
  round_client :
      (raw : Job) (c : Client)
      → (client_of (wait_round sys raw c) ≡ c)
        ⊎ (client_of (wait_round sys raw c) ≡ (refresh sys raw c).1)
  unfolding wait_round
  round_client raw c = start_client (terminal sys.codec raw) raw c

  pub wait_round-IsTimeless : IsTimeless (wait_round sys)
  unfolding refresh
  wait_round-IsTimeless = record {
    readings = λ raw c. elim (round_client raw c) [
      | inl e ↦ ap (λ d. d.readings) e
      | inr e ↦
          let (_, _, _, r, _) = invoke_sends sys as_job (get_job raw.job_id) c in
          ap (λ d. d.readings) e ∙ r
    ];
    slept = λ raw c. elim (round_client raw c) [
      | inl e ↦ ap (λ d. d.slept) e
      | inr e ↦
          let (_, _, _, _, t) = invoke_sends sys as_job (get_job raw.job_id) c in
          ap (λ d. d.slept) e ∙ t
    ];
  }

  wait_is_poll :
      (fuel timeout interval : ℕ) (raw : Job) (c : Client)
      → 0 < interval
      → wait sys fuel (some (pos timeout)) (pos interval) raw c
        ≡ poll sys
            (wait_round sys)
            job_wait_timeout
            fuel
            (some (now sys c + timeout))
            interval
            raw
            (read_clock sys c)
  unfolding wait polling deadline_of
  wait_is_poll fuel timeout interval raw c i =
      rw (wait, polling_ok timeout interval i, deadline_of) refl

  module _ (steady : IsSteady sys) where
    -- On a steady clock `wait` with a timeout and a positive interval returns or raises, whenever its fuel
    -- is more than the units of the timeout.
    pub wait_ends :
        (fuel timeout interval : ℕ) (raw : Job) (c : Client)
        → 0 < interval
        → timeout < fuel
        → wait sys fuel (some (pos timeout)) (pos interval) raw c ≢ none
    wait_ends fuel timeout interval raw c i m = rw (wait_is_poll fuel timeout interval raw c i) (
        poll_ends sys (wait_round sys) job_wait_timeout steady wait_round-IsTimeless fuel
          (now sys c + timeout) interval raw (read_clock sys c) i (omega arith)
          (omega (arith, advances)))
      where
        advances : now sys c ≤ now sys (read_clock sys c)
        advances = omega (
          arith,
          steady.goes_on c.readings (c.readings + 1) c.slept c.slept (omega arith) (omega arith),
        )

    -- On a steady clock, when `wait` with a timeout and a positive interval is over, it has slept for no
    -- longer than the timeout.
    pub wait_slept :
        (fuel timeout interval : ℕ) (raw : Job) (c : Client) {x : Result Job} {raw' : Job}
        {c' : Client}
        → 0 < interval
        → wait sys fuel (some (pos timeout)) (pos interval) raw c ≡ some (x, raw', c')
        → c'.slept ≤ c.slept + timeout
    wait_slept fuel timeout interval raw c i h =
        let b =
          poll_slept sys (wait_round sys) job_wait_timeout steady wait_round-IsTimeless fuel
            (now sys c + timeout) interval raw (read_clock sys c)
            (sym (wait_is_poll fuel timeout interval raw c i) ∙ h) in
        let a =
          steady.goes_on c.readings (c.readings + 1) c.slept c.slept (omega arith) (omega arith) in
        omega (arith, a, b)
