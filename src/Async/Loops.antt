-- ===== src/Async/Loops.antt =====
-- The asynchronous loops (`AsyncJob.wait`, `AsyncJob.poll_updates`, `AsyncClient.wait_ready`) and the
-- other methods of `AsyncClient` and `AsyncJob`, running alone.
use libjadx.Base.{
  ℕ, String, Bool, true, false, Option, some, List, [], str_eq, member, ℤ, ◌≡◌, refl, Bool-cases,
  inl, inr,
}
use libjadx.Wire.Job.{Job}
use libjadx.Wire.Pages.{ServiceStatus}
use libjadx.Errors.{Result, ok, raise, job_wait_timeout, wait_ready_timeout}
use libjadx.Sse.{is_terminal}
use libjadx.Client.{System, Client, get_job, get_status}
use libjadx.Client.Poll.{polling, deadline_of}
use libjadx.Project.Paired.{cases_of}
use libjadx.Jobs.{
  as_job, terminal, refresh, cancel, wait, wait_round, wait_refreshed, wait_test, wait_start,
  updates_round, updates_refreshed, poll_updates,
}
use libjadx.Service.{as_status, shutdown_policies, ready_round, ready_received, wait_ready}
use libjadx.Service
use libjadx.Async.{run_alone, run_alone-async_invoke, run_alone-and_then, continued}
use libjadx.Async.Alone.{Same, invoke-Same, first-Same, unless-Same, raise-Same}
use libjadx.Async.Poll.{turned, regroup, async_poll-poll}
use libjadx.Async.Jobs.{
  async_refresh, async_cancel, test_turn, refreshed_turn, start_turn, async_wait_round, async_wait,
  updated_turn, async_updates_round, async_poll_updates,
}
use libjadx.Async.Service.{
  async_enter, async_liveness, async_status, async_capabilities, async_job, async_shutdown,
  ready_turn, async_ready_round, async_wait_ready, aclose,
}

module _ (sys : System) where
  wait_tested :
      (x : Result Bool) (raw : Job) (c : Client)
      → turned (test_turn sys x raw, c) ≡ wait_test sys x raw c
  wait_tested (raise e) raw c = refl
  wait_tested (ok true) raw c = refl
  wait_tested (ok false) raw c = refl

  wait_continued :
      (raw : Job) (x : Result Job × Client)
      → turned (continued sys (refreshed_turn sys raw) x) ≡ wait_refreshed sys raw x
  unfolding run_alone
  wait_continued raw (raise e, c) = refl
  wait_continued raw (ok raw', c) = wait_tested (terminal sys.codec raw') raw' c

  wait_started :
      (x : Result Bool) (raw : Job) (c : Client)
      → turned (run_alone sys (start_turn sys x raw c)) ≡ wait_start sys x raw c
  unfolding run_alone async_refresh refresh
  wait_started (raise e) raw c = refl
  wait_started (ok true) raw c = refl
  wait_started (ok false) raw c =
      rw
        (
          run_alone-and_then sys (async_refresh sys raw c) (refreshed_turn sys raw),
          run_alone-async_invoke sys as_job (get_job raw.job_id) c,
        )
        (wait_continued raw (refresh sys raw c))

  wait_rounds :
      (raw : Job) (c : Client)
      → turned (run_alone sys (async_wait_round sys raw c)) ≡ wait_round sys raw c
  unfolding async_wait_round wait_round
  wait_rounds raw c = wait_started (terminal sys.codec raw) raw c

  updates_continued :
      (s : Job × List Job) (x : Result Job × Client)
      → turned (continued sys (updated_turn sys s) x) ≡ updates_refreshed sys s x
  unfolding run_alone
  updates_continued s (raise e, c) = refl
  updates_continued s (ok raw, c) = elim (Bool-cases (is_terminal raw.state)) [
    | inl last ↦ rw last refl
    | inr more ↦ rw more refl
  ]

  updates_rounds :
      (s : Job × List Job) (c : Client)
      → turned (run_alone sys (async_updates_round sys s c)) ≡ updates_round sys s c
  unfolding async_updates_round updates_round async_refresh refresh
  updates_rounds s c =
      rw
        (
          run_alone-and_then sys (async_refresh sys s.0 c) (updated_turn sys s),
          run_alone-async_invoke sys as_job (get_job s.0.job_id) c,
        )
        (updates_continued s (refresh sys s.0 c))

  ready_continued :
      (x : Result ServiceStatus × Client)
      → turned (continued sys (ready_turn sys) x) ≡ ready_received sys x
  unfolding run_alone
  ready_continued (raise e, c) = refl
  ready_continued (ok s, c) = elim (Bool-cases (str_eq s.state "READY")) [
    | inl ready ↦ rw ready refl
    | inr not_yet ↦ elim (Bool-cases (str_eq s.state "FAILED")) [
      | inl bad ↦ rw (not_yet, bad) refl
      | inr loading ↦ rw (not_yet, loading) refl
    ]
  ]

  ready_rounds :
      (u : Unit {0}) (c : Client)
      → turned (run_alone sys (async_ready_round sys u c)) ≡ ready_round sys u c
  unfolding async_ready_round ready_round async_status Service.status
  ready_rounds u c =
      rw
        (
          run_alone-and_then sys (async_status sys c) (ready_turn sys),
          run_alone-async_invoke sys as_status get_status c,
        )
        (ready_continued (Service.status sys c))

  regroup-async_wait :
      (fuel : ℕ) (timeout : Option ℤ) (interval : ℤ) (raw : Job) (c : Client)
      → regroup (run_alone sys (async_wait sys fuel timeout interval raw c))
        ≡ wait sys fuel timeout interval raw c
  unfolding async_wait wait run_alone
  regroup-async_wait fuel timeout interval raw c = elim (cases_of (polling timeout interval)) [
    | inl (e, bad) ↦ rw (async_wait, wait, bad) refl
    | inr ((limit, pause), good) ↦
        let (deadline, c') = deadline_of sys limit c in
        rw (async_wait, wait, good)
          (async_poll-poll sys job_wait_timeout (async_wait_round sys) (wait_round sys) wait_rounds
            fuel deadline pause raw c')
  ]

  regroup-async_poll_updates :
      (fuel : ℕ) (timeout : Option ℤ) (interval : ℤ) (raw : Job) (c : Client)
      → regroup (run_alone sys (async_poll_updates sys fuel timeout interval raw c))
        ≡ poll_updates sys fuel timeout interval raw c
  unfolding async_poll_updates poll_updates run_alone
  regroup-async_poll_updates fuel timeout interval raw c =
      elim (cases_of (polling timeout interval)) [
        | inl (e, bad) ↦ rw (async_poll_updates, poll_updates, bad) refl
        | inr ((limit, pause), good) ↦
            let (deadline, c') = deadline_of sys limit c in
            rw (async_poll_updates, poll_updates, good)
              (async_poll-poll sys job_wait_timeout (async_updates_round sys) (updates_round sys)
                updates_rounds fuel deadline pause (raw, []) c')
      ]

  regroup-async_wait_ready :
      (fuel : ℕ) (timeout interval : ℤ) (c : Client)
      → regroup (run_alone sys (async_wait_ready sys fuel timeout interval c))
        ≡ wait_ready sys fuel timeout interval c
  unfolding async_wait_ready wait_ready run_alone
  regroup-async_wait_ready fuel timeout interval c =
      elim (cases_of (polling (some timeout) interval)) [
        | inl (e, bad) ↦ rw (async_wait_ready, wait_ready, bad) refl
        | inr ((limit, pause), good) ↦
            let (deadline, c') = deadline_of sys limit c in
            rw (async_wait_ready, wait_ready, good)
              (async_poll-poll sys wait_ready_timeout (async_ready_round sys) (ready_round sys)
                ready_rounds fuel deadline pause tt c')
      ]

  -- Alone, each asynchronous polling loop does what its synchronous one does, whatever the arguments
  -- and the fuel: it ends in the same way with the same result, the same updates and the same client.
  pub loops_same :
      (fuel : ℕ) (timeout : Option ℤ) (limit interval : ℤ) (raw : Job) (c : Client)
      → (regroup (run_alone sys (async_wait sys fuel timeout interval raw c))
          ≡ wait sys fuel timeout interval raw c)
        × (regroup (run_alone sys (async_poll_updates sys fuel timeout interval raw c))
            ≡ poll_updates sys fuel timeout interval raw c)
        × (regroup (run_alone sys (async_wait_ready sys fuel limit interval c))
            ≡ wait_ready sys fuel limit interval c)
  loops_same fuel timeout limit interval raw c = (
    regroup-async_wait fuel timeout interval raw c,
    regroup-async_poll_updates fuel timeout interval raw c,
    regroup-async_wait_ready fuel limit interval c,
  )

  job-Same : (job_id : String) → Same sys (async_job sys job_id) (Service.job sys job_id)
  unfolding async_job Service.job
  job-Same job_id = first-Same sys _ (λ u. invoke-Same sys _ _)

  enter-Same : Same sys async_enter Service.enter
  unfolding async_enter Service.enter run_alone
  enter-Same = record {
    alone = λ c. elim (Bool-cases c.closed) [ inl shut ↦ rw shut refl | inr live ↦ rw live refl ];
  }

  -- Alone, the other methods of the asynchronous client and of its jobs do what the synchronous ones
  -- do, and closing does the same to the client.
  pub calls-Same :
      (raw : Job) (job_id policy : String) (c : Client)
      → Same sys (async_liveness sys) (Service.liveness sys)
        × Same sys (async_status sys) (Service.status sys)
        × Same sys (async_capabilities sys) (Service.capabilities sys)
        × Same sys (async_job sys job_id) (Service.job sys job_id)
        × Same sys (async_shutdown sys policy) (Service.shutdown sys policy)
        × Same sys async_enter Service.enter
        × Same sys (async_refresh sys raw) (refresh sys raw)
        × Same sys (async_cancel sys raw) (cancel sys raw)
        × (aclose c ≡ Service.close c)
  unfolding async_liveness Service.liveness async_status Service.status async_capabilities
      Service.capabilities async_shutdown Service.shutdown async_refresh refresh async_cancel cancel
      aclose Service.close
  calls-Same raw job_id policy c = (
    invoke-Same sys _ _,
    invoke-Same sys _ _,
    invoke-Same sys _ _,
    job-Same job_id,
    unless-Same sys (member policy shutdown_policies) (invoke-Same sys _ _) (raise-Same sys _),
    enter-Same,
    invoke-Same sys _ _,
    invoke-Same sys _ _,
    refl,
  )
