-- ===== src/Jobs/Updates.antt =====
-- `Job.poll_updates` of jobs.py: what it yields, when it ends, and what it asks of the service.
use libjadx.Base.{
  ℕ, ◌+◌, ◌<◌, true, false, Option, none, some, List, [], ◌∷◌, ◌++◌, ◌≡◌, ◌≢◌, inl, inr, refl, ap,
  ◌∙◌, arith, ℤ, pos, Bool-cases, All, All-append,
}
use libjadx.Wire.Job.{Job}
use libjadx.Errors.{job_wait_timeout, Result, ok, raise}
use libjadx.Sse.{is_terminal}
use libjadx.Client.{System, Client, get_job}
use libjadx.Client.Invoke.{invoke_sends}
use libjadx.Client.Sends.{OnlySends, none_sent, then_sent, pause_sent, invoke_sent}
use libjadx.Client.Poll.{poll, polling, deadline_of, now, read_clock}
use libjadx.Client.Poll.Ends.{IsSteady, IsTimeless, client_of, polling_ok, poll_ends, clock_sent}
use libjadx.Client.Poll.Rule.{Keeps, Q_of, poll_inv}
use libjadx.Jobs.{as_job, refresh, updates_round, updates_refreshed, poll_updates}
use libjadx.Jobs.Outcome.{is_refresh}

-- Jobs that have not ended.
abbrev pub Going : List Job → Type 0
Going js = All (λ (j : Job). is_terminal j.state ≡ false) js

-- The updates that were yielded end with `last`, the one among them that has ended.
pub record UpdatesTo (last : Job) (updates : List Job) : Type 0 where
  pub before : List Job
  pub yielded : updates ≡ before ++ last ∷ []
  pub over : is_terminal last.state ≡ true
  pub going : Going before

-- What the end of `poll_updates` says of the last raw job and of what was yielded.
abbrev pub Updated : Result (List Job) → Job × List Job → Type 0
Updated (ok updates) s = (updates ≡ s.1) × UpdatesTo s.0 updates
Updated (raise e) s = Going s.1

module _ (sys : System) where
  refreshed_client :
      (s : Job × List Job) (x : Result Job × Client) → client_of (updates_refreshed sys s x) ≡ x.1
  refreshed_client s (raise e, c) = refl
  refreshed_client s (ok raw, c) = elim (Bool-cases (is_terminal raw.state)) [
    | inl t ↦ rw t refl
    | inr f ↦ rw f refl
  ]

  updates_round-IsTimeless : IsTimeless (updates_round sys)
  unfolding updates_round refresh
  updates_round-IsTimeless = record {
    readings = λ s c.
        let (_, _, _, r, _) = invoke_sends sys as_job (get_job s.0.job_id) c in
        ap (λ d. d.readings) (refreshed_client s (refresh sys s.0 c)) ∙ r;
    slept = λ s c.
        let (_, _, _, _, t) = invoke_sends sys as_job (get_job s.0.job_id) c in
        ap (λ d. d.slept) (refreshed_client s (refresh sys s.0 c)) ∙ t;
  }

  updates_are_poll :
      (fuel timeout interval : ℕ) (raw : Job) (c : Client)
      → 0 < interval
      → poll_updates sys fuel (some (pos timeout)) (pos interval) raw c
        ≡ poll sys
            (updates_round sys)
            job_wait_timeout
            fuel
            (some (now sys c + timeout))
            interval
            (raw, [])
            (read_clock sys c)
  unfolding poll_updates polling deadline_of
  updates_are_poll fuel timeout interval raw c i =
      rw (poll_updates, polling_ok timeout interval i, deadline_of) refl

  -- On a steady clock `poll_updates` with a timeout and a positive interval ends, whenever its fuel is more
  -- than the units of the timeout.
  pub poll_updates_ends :
      (steady : IsSteady sys) (fuel timeout interval : ℕ) (raw : Job) (c : Client)
      → 0 < interval
      → timeout < fuel
      → poll_updates sys fuel (some (pos timeout)) (pos interval) raw c ≢ none
  poll_updates_ends steady fuel timeout interval raw c i m =
      let advances =
        steady.goes_on c.readings (c.readings + 1) c.slept c.slept (omega arith) (omega arith) in
      rw (updates_are_poll fuel timeout interval raw c i) (
        poll_ends sys (updates_round sys) job_wait_timeout steady updates_round-IsTimeless fuel
          (now sys c + timeout) interval (raw, []) (read_clock sys c) i (omega arith)
          (omega (arith, advances)))

  module _ (c₀ : Client) where
    abbrev Polling : Job × List Job → Client → Type 0
    Polling s c = OnlySends is_refresh c₀ c × Going s.1

    abbrev Over : Result (List Job) → Job × List Job → Client → Type 0
    Over x s c = OnlySends is_refresh c₀ c × Updated x s

    refreshed-Keeps :
        (s : Job × List Job) (x : Result Job × Client)
        → OnlySends is_refresh c₀ x.1
        → Going s.1
        → Keeps Polling Over (updates_refreshed sys s x)
    refreshed-Keeps s (raise e, c) o g = (o, g)
    refreshed-Keeps s (ok raw, c) o g = elim (Bool-cases (is_terminal raw.state)) [
      | inl t ↦ rw t (o, (refl, record { before = s.1; yielded = refl; over = t; going = g }))
      | inr f ↦
          rw f (o, All-append (λ (j : Job). is_terminal j.state ≡ false) s.1 (raw ∷ []) g (f, tt))
    ]

    updates_round-Keeps :
        (s : Job × List Job) (c : Client) → Polling s c → Keeps Polling Over (updates_round sys s c)
    unfolding updates_round refresh
    updates_round-Keeps s c (o, g) =
        refreshed-Keeps s (refresh sys s.0 c)
          (then_sent is_refresh c₀ c (refresh sys s.0 c).1 o
            (invoke_sent is_refresh sys as_job (get_job s.0.job_id) c refl))
          g

    poll-Over :
        (n : ℕ) (deadline : Option ℕ) (interval : ℕ) (s : Job × List Job) (c : Client)
        {x : Result (List Job)} {s' : Job × List Job} {d : Client}
        → Polling s c
        → poll sys (updates_round sys) job_wait_timeout n deadline interval s c ≡ some (x, s', d)
        → Over x s' d
    poll-Over n deadline interval s c p h =
        poll_inv sys (updates_round sys) job_wait_timeout Polling Polling Over updates_round-Keeps
          (λ s c d e r. (pause_sent is_refresh c₀ c d e r.0, r.1))
          (λ s c d e r. (pause_sent is_refresh c₀ c d e r.0, r.1)) n deadline interval s c p h

  -- However `poll_updates` is called and whenever it is over: it has sent refreshes and nothing else; if
  -- it ends normally, the last job that it yielded has ended and none before it had; and if it
  -- raises, no job that it yielded had ended.
  pub poll_updates-Updated :
      (fuel : ℕ) (timeout : Option ℤ) (interval : ℤ) (raw : Job) (c : Client)
      {x : Result (List Job)} {s : Job × List Job} {d : Client}
      → poll_updates sys fuel timeout interval raw c ≡ some (x, s, d)
      → OnlySends is_refresh c d × Updated x s
  unfolding poll_updates
  poll_updates-Updated fuel timeout interval raw c {x} {s} {d} h = go (polling timeout interval) h
    where
      go :
          (p : Result (Option ℕ × ℕ))
          → elim p [
            | raise e ↦ some (raise e, (raw, []), c)
            | ok q ↦
                poll sys
                  (updates_round sys)
                  job_wait_timeout
                  fuel
                  (deadline_of sys q.0 c).0
                  q.1
                  (raw, [])
                  (deadline_of sys q.0 c).1
          ]
            ≡ some (x, s, d)
          → OnlySends is_refresh c d × Updated x s
      go (raise e) h = Q_of (Over c) h (none_sent is_refresh c c refl, tt)
      go (ok q) h =
          poll-Over c fuel (deadline_of sys q.0 c).0 q.1 (raw, []) (deadline_of sys q.0 c).1
            (none_sent is_refresh c (deadline_of sys q.0 c).1 (clock_sent sys q.0 c), tt) h
