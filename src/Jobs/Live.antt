-- ===== src/Jobs/Live.antt =====
-- `Job.wait` of jobs.py without a timeout, of a service that reports the job's end at last.
use libjadx.Base.{
  ℕ, zero, suc, ◌+◌, ◌<◌, Bool, true, false, none, some, [], ◌∷◌, ◌++◌, ◌==◌, length, length-append,
  ◌≡◌, refl, arith, pos,
}
use libjadx.Wire.Codec.{Uuid}
use libjadx.Wire.Job.{Job}
use libjadx.Errors.{Exception, job_wait_timeout, Headers, Result, ok, raise}
use libjadx.Revisions.{observe}
use libjadx.Client.{
  System, Client, Exchange, response, get_job, invoke, settle, unwrap, accept, observable,
}
use libjadx.Client
use libjadx.Client.Poll.{finished, poll, polling, deadline_of, sleep}
use libjadx.Jobs.{as_job, terminal, refresh, wait_test, wait_round, wait}

abbrev pub reported : Headers → Job → Exchange
reported headers j =
    response (record { status_code = 200; headers = headers; parsed = Client.job j })

-- What `wait` makes of a job that has ended.
abbrev pub verdict : Result Bool → Job → Result Job
verdict (raise e) j = raise e
verdict (ok _) j = ok j

pub data HasEnded : Result Bool → Type 0 where
  returns : HasEnded (ok true)
  raises : {e : Exception} → HasEnded (raise e)

-- From the n-th exchange on, the service answers `k` refreshes of the job with one that goes on, and
-- then with the job `j`, which has ended.
pub data Reports (sys : System) (u : Uuid) (j : Job) : (n k : ℕ) → Type 0 where
  ends :
      {n : ℕ} (headers : Headers)
      → sys.exchange n (get_job u) ≡ reported headers j
      → HasEnded (terminal sys.codec j)
      → Reports sys u j n 0
  goes_on :
      {n k : ℕ} (headers : Headers) (i : Job)
      → sys.exchange n (get_job u) ≡ reported headers i
      → i.job_id ≡ u
      → terminal sys.codec i ≡ ok false
      → Reports sys u j (suc n) k
      → Reports sys u j n (suc k)

module _ (sys : System) where
  -- The client behind a refresh that was answered with `j`.
  abbrev answered : Job → Job → Client → Client
  answered raw j c = record c {
    sent = c.sent ++ get_job raw.job_id ∷ [];
    revisions = observe (observable (Client.job j)) c.revisions;
  }

  refresh-reported :
      (raw j : Job) (headers : Headers) (c : Client)
      → c.closed ≡ false
      → sys.exchange (length c.sent) (get_job raw.job_id) ≡ reported headers j
      → refresh sys raw c ≡ (ok j, answered raw j c)
  unfolding refresh invoke settle unwrap accept as_job
  refresh-reported raw j headers c o e = rw (o, e) refl

  round_reported :
      (raw j : Job) (headers : Headers) (c : Client)
      → c.closed ≡ false
      → terminal sys.codec raw ≡ ok false
      → sys.exchange (length c.sent) (get_job raw.job_id) ≡ reported headers j
      → wait_round sys raw c ≡ wait_test sys (terminal sys.codec j) j (answered raw j c)
  unfolding wait_round
  round_reported raw j headers c o t e = rw (t, refresh-reported raw j headers c o e) refl

  test_ended :
      (x : Result Bool) (j : Job) (c : Client)
      → HasEnded x
      → wait_test sys x j c ≡ finished (verdict x j) j c
  test_ended x j c returns = refl
  test_ended x j c raises = refl

  sent_one : (raw j : Job) (c : Client) → length (answered raw j c).sent ≡ suc (length c.sent)
  sent_one raw j c = omega (arith, length-append c.sent (get_job raw.job_id ∷ []))

  poll_reported :
      (fuel interval k n : ℕ) (raw j : Job) (c : Client)
      → c.closed ≡ false
      → terminal sys.codec raw ≡ ok false
      → length c.sent ≡ n
      → Reports sys raw.job_id j n k
      → k < fuel
      → (c' : Client) × (poll sys (wait_round sys) job_wait_timeout fuel none interval raw c
          ≡ some (verdict (terminal sys.codec j) j, j, c'))
        × (length c'.sent ≡ n + suc k)
  unfolding poll
  poll_reported zero interval k n raw j c o t at r m = absurd (omega (arith, m))
  poll_reported (suc fuel) interval zero n raw j c o t at (ends headers e d) m = (
    answered raw j c,
    rw
        (
          poll,
          round_reported raw j headers c o t (rw at e),
          test_ended (terminal sys.codec j) j (answered raw j c) d,
        )
        refl,
    omega (arith, sent_one raw j c, at),
  )
  poll_reported (suc fuel) interval (suc k) n raw j c o t at (goes_on headers i e same t' r) m =
      let c1 = sleep interval (answered raw i c) in
      let (c', p, q) =
        poll_reported fuel interval k (suc n) i j c1 o t' (omega (arith, sent_one raw i c, at))
          (rw same r) (omega (arith, m)) in
      (c', rw (poll, round_reported raw i headers c o t (rw at e), t') p, omega (arith, q))

  -- On an open client, `wait` without a timeout, of a job not known to have ended and with a positive
  -- interval, is over if the service reports the end of the job after `k` reports that it goes on,
  -- whenever its fuel is more than `k`: it returns the job or raises as its last report says, keeps
  -- that report, and has sent `k + 1` requests.
  pub wait_live :
      (fuel interval k : ℕ) (raw j : Job) (c : Client)
      → c.closed ≡ false
      → terminal sys.codec raw ≡ ok false
      → Reports sys raw.job_id j (length c.sent) k
      → 0 < interval
      → k < fuel
      → (c' : Client) × (wait sys fuel none (pos interval) raw c
          ≡ some (verdict (terminal sys.codec j) j, j, c'))
        × (length c'.sent ≡ length c.sent + suc k)
  unfolding wait polling deadline_of
  wait_live fuel interval k raw j c o t r i m =
      let e : (interval == 0) ≡ false = ground arith in
      rw (wait, e, deadline_of) (poll_reported fuel interval k (length c.sent) raw j c o t refl r m)
