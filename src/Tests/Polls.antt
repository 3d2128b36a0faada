-- ===== src/Tests/Polls.antt =====
-- The polling loops.
use libjadx.Base.{
  length, suc, leb, if◌then◌else◌, ◌+◌, ◌≤◌, String, none, some, [], ◌∷◌, ◌≡◌, ◌≢◌, refl, arith,
  pos,
}
use libjadx.Wire.Json.{null, unset, end}
use libjadx.Wire.Enums.{running, succeeded}
use libjadx.Wire.Pages.{ServiceStatus}
use libjadx.Errors.{ok, raise, job_wait_timeout}
use libjadx.Client.{
  Client, System, job, service_status, invoke, settle, unwrap, accept, observable, get_job,
  get_status,
}
use libjadx.Client.Sends.{OnlySends}
use libjadx.Client.Poll.{poll, polling, deadline_of}
use libjadx.Revisions.{observe, advance}
use libjadx.Jobs.{as_job, terminal, refresh, wait_round, wait, updates_round, poll_updates}
use libjadx.Jobs.Waits.{wait_ends, wait_slept}
use libjadx.Jobs.Live.{Reports, ends, goes_on, returns, verdict, reported, wait_live}
use libjadx.Jobs.Updates.{poll_updates-Updated, Updated}
use libjadx.Jobs.Outcome.{wait-Outcome, Outcome, is_refresh}
use libjadx.Service.{as_status, status, ready_round, wait_ready}
use libjadx.Service.Ready.{wait_ready_ends, wait_ready_outcome, is_get_status, Says}
use libjadx.Samples.{system, system-IsSteady, client, job_in}

-- A service whose job goes on running, and one whose job has succeeded.
abbrev busy : System
busy = system (job (job_in running))

abbrev done : System
done = system (job (job_in succeeded))

-- One whose job ends with the third report.
abbrev soon : System
soon = record done {
  exchange = λ n _. reported [] (if leb 2 n then job_in succeeded else job_in running);
}

soon-Reports : Reports soon (job_in running).job_id (job_in succeeded) 0 2
unfolding terminal
soon-Reports =
    goes_on [] (job_in running) refl refl refl
      (goes_on [] (job_in running) refl refl refl (ends [] refl returns))

wait_live_example :
    (c' : Client) × (wait soon 3 none (pos 5) (job_in running) client
      ≡ some (
        verdict (terminal soon.codec (job_in succeeded)) (job_in succeeded),
        job_in succeeded,
        c',
      ))
    × (length c'.sent ≡ length client.sent + suc 2)
unfolding terminal
wait_live_example =
    wait_live soon 3 5 2 (job_in running) (job_in succeeded) client refl refl soon-Reports
      (omega arith) (omega arith)

wait_ends_example : wait busy 9 (some (pos 8)) (pos 3) (job_in running) client ≢ none
wait_ends_example =
    wait_ends busy (system-IsSteady (job (job_in running))) 9 8 3 (job_in running) client
      (omega arith) (omega arith)

-- It gives up after three pauses, of 3, 3 and 2 units.
abbrev after_busy : Client
after_busy = record client {
  sent =
      get_job (job_in running).job_id
      ∷ get_job (job_in running).job_id
      ∷ get_job (job_in running).job_id
      ∷ get_job (job_in running).job_id
      ∷ [];
  readings = 5;
  slept = 8;
}

wait-busy :
    wait busy 9 (some (pos 8)) (pos 3) (job_in running) client
    ≡ some (raise job_wait_timeout, job_in running, after_busy)
unfolding wait polling deadline_of poll wait_round terminal refresh invoke settle unwrap accept
    as_job observable observe advance
wait-busy = refl

wait_slept_example : after_busy.slept ≤ 0 + 8
wait_slept_example =
    wait_slept busy (system-IsSteady (job (job_in running))) 9 8 3 (job_in running) client
      (omega arith) wait-busy

wait-Outcome_example :
    OnlySends is_refresh client after_busy × Outcome (raise job_wait_timeout) (job_in running)
wait-Outcome_example =
    wait-Outcome busy 9 (some (pos 8)) (pos 3) (job_in running) client (λ h. cc) wait-busy

-- A job that has succeeded by the first refresh is returned.
abbrev after_done : Client
after_done = record client { sent = get_job (job_in running).job_id ∷ []; readings = 1 }

wait-done :
    wait done 9 (some (pos 8)) (pos 3) (job_in running) client
    ≡ some (ok (job_in succeeded), job_in succeeded, after_done)
unfolding wait polling deadline_of poll wait_round terminal refresh invoke settle unwrap accept
    as_job observable observe advance
wait-done = refl

abbrev status_in : String → ServiceStatus
status_in state = record {
  state = state;
  stage = "load";
  progress = null;
  inputs = [];
  project_path = unset;
  error = unset;
  additional_properties = end;
}

abbrev ready : System
ready = system (service_status (status_in "READY"))

abbrev loading : System
loading = system (service_status (status_in "LOADING"))

wait_ready_ends_example : wait_ready loading 31 (pos 30) (pos 7) client ≢ none
wait_ready_ends_example =
    wait_ready_ends loading (system-IsSteady (service_status (status_in "LOADING"))) 31 30 7 client
      (omega arith) (omega arith)

abbrev after_ready : Client
after_ready = record client { sent = get_status ∷ []; readings = 1 }

ready_wait :
    wait_ready ready 31 (pos 30) (pos 7) client ≡ some (ok (status_in "READY"), tt, after_ready)
unfolding wait_ready polling deadline_of poll ready_round status invoke settle unwrap accept
    as_status observable observe
ready_wait = refl

wait_ready_outcome_example :
    OnlySends is_get_status client after_ready × Says ready (ok (status_in "READY"))
wait_ready_outcome_example = wait_ready_outcome ready 31 (pos 30) (pos 7) client ready_wait

-- One refresh finds that the job has succeeded.
poll_updates_run :
    poll_updates done 9 (some (pos 8)) (pos 3) (job_in running) client
    ≡ some (ok (job_in succeeded ∷ []), (job_in succeeded, job_in succeeded ∷ []), after_done)
unfolding poll_updates polling deadline_of poll updates_round refresh invoke settle unwrap accept
    as_job observable observe advance
poll_updates_run = refl

poll_updates-Updated_example :
    OnlySends is_refresh client after_done
    × Updated (ok (job_in succeeded ∷ [])) (job_in succeeded, job_in succeeded ∷ [])
poll_updates-Updated_example =
    poll_updates-Updated done 9 (some (pos 8)) (pos 3) (job_in running) client poll_updates_run
