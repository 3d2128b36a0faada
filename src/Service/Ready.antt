-- ===== src/Service/Ready.antt =====
-- `Client.wait_ready` of client.py: when it ends, what it gives, and what it asks of the service.
use libjadx.Base.{
  ℕ, ◌+◌, ◌≤◌, ◌<◌, Bool, true, false, Option, none, some, str_eq, ◌≡◌, ◌≢◌, inl, inr, refl, sym,
  ap, ◌∙◌, arith, ℤ, pos, Bool-cases, eq_iff,
}
use libjadx.Wire.Pages.{ServiceStatus}
use libjadx.Errors.{Exception, wait_ready_timeout, Result, ok, raise, service_load_failed}
use libjadx.Client.{System, Client, get_status, Request, invoke}
use libjadx.Client.Errors.{FailsAsCall, is_call_error, invoke_fails}
use libjadx.Client.Invoke.{invoke_sends}
use libjadx.Client.Sends.{OnlySends, none_sent, then_sent, pause_sent, invoke_sent}
use libjadx.Client.Poll.{poll, polling, deadline_of, now, read_clock}
use libjadx.Client.Poll.Ends.{
  IsSteady, IsTimeless, client_of, polling_ok, polling_fails, FailsAsCheck, is_value_error,
  clock_sent, poll_ends, poll_slept,
}
use libjadx.Client.Poll.Rule.{Keeps, Q_of, poll_inv}
use libjadx.Service.{as_status, status, judged, ready_received, ready_round, wait_ready}

-- Is the request a `get_status`?
abbrev pub is_get_status : Request → Bool
is_get_status get_status = true
is_get_status _ = false

module _ (sys : System) where
  judged_client : (s : ServiceStatus) (c : Client) → client_of (judged sys s c) ≡ c
  judged_client s c = elim (Bool-cases (str_eq s.state "READY")) [
    | inl t ↦ rw t refl
    | inr f ↦ elim (Bool-cases (str_eq s.state "FAILED")) [
      | inl g ↦ rw (f, g) refl
      | inr h ↦ rw (f, h) refl
    ]
  ]

  received_client : (x : Result ServiceStatus × Client) → client_of (ready_received sys x) ≡ x.1
  received_client (raise e, c) = refl
  received_client (ok s, c) = judged_client s c

  pub ready_round-IsTimeless : IsTimeless (ready_round sys)
  unfolding ready_round status
  ready_round-IsTimeless = record {
    readings = λ _ c.
        let (_, _, _, r, _) = invoke_sends sys as_status get_status c in
        ap (λ d. d.readings) (received_client (invoke sys as_status get_status c)) ∙ r;
    slept = λ _ c.
        let (_, _, _, _, t) = invoke_sends sys as_status get_status c in
        ap (λ d. d.slept) (received_client (invoke sys as_status get_status c)) ∙ t;
  }

  ready_is_poll :
      (fuel timeout interval : ℕ) (c : Client)
      → 0 < interval
      → wait_ready sys fuel (pos timeout) (pos interval) c
        ≡ poll sys
            (ready_round sys)
            wait_ready_timeout
            fuel
            (some (now sys c + timeout))
            interval
            tt
            (read_clock sys c)
  unfolding wait_ready polling deadline_of
  ready_is_poll fuel timeout interval c i =
      rw (wait_ready, polling_ok timeout interval i, deadline_of) refl

  module _ (steady : IsSteady sys) where
    -- On a steady clock `wait_ready` with a positive interval returns or raises, whenever its fuel is more
    -- than the units of the timeout.
    pub wait_ready_ends :
        (fuel timeout interval : ℕ) (c : Client)
        → 0 < interval
        → timeout < fuel
        → wait_ready sys fuel (pos timeout) (pos interval) c ≢ none
    wait_ready_ends fuel timeout interval c i m =
        let advances =
          steady.goes_on c.readings (c.readings + 1) c.slept c.slept (omega arith) (omega arith) in
        rw (ready_is_poll fuel timeout interval c i) (
          poll_ends sys (ready_round sys) wait_ready_timeout steady ready_round-IsTimeless fuel
            (now sys c + timeout) interval tt (read_clock sys c) i (omega arith)
            (omega (arith, advances)))

    -- On a steady clock, when `wait_ready` with a positive interval is over, it has slept for no longer than
    -- the timeout.
    pub wait_ready_slept :
        (fuel timeout interval : ℕ) (c : Client) {x : Result ServiceStatus} {u : Unit {0}}
        {d : Client}
        → 0 < interval
        → wait_ready sys fuel (pos timeout) (pos interval) c ≡ some (x, u, d)
        → d.slept ≤ c.slept + timeout
    wait_ready_slept fuel timeout interval c i h =
        let b =
          poll_slept sys (ready_round sys) wait_ready_timeout steady ready_round-IsTimeless fuel
            (now sys c + timeout) interval tt (read_clock sys c)
            (sym (ready_is_poll fuel timeout interval c i) ∙ h) in
        let a =
          steady.goes_on c.readings (c.readings + 1) c.slept c.slept (omega arith) (omega arith) in
        omega (arith, a, b)

  -- What a result says: a status that is returned is READY, one that `ServiceLoadFailed` keeps is FAILED.
  abbrev pub Says : Result ServiceStatus → Type 0
  Says (ok s) = s.state ≡ "READY"
  Says (raise (service_load_failed s e)) = s.state ≡ "FAILED"
  Says (raise _) = Unit

  status_sent : (c : Client) → OnlySends is_get_status c (status sys c).1
  unfolding status
  status_sent c = invoke_sent is_get_status sys as_status get_status c refl

  status_fails : (c : Client) → FailsAsCall (status sys c).0
  unfolding status
  status_fails c = invoke_fails sys as_status get_status c

  call-Says : (e : Exception) → is_call_error e ≡ true → Says (raise e)
  call-Says (service_load_failed s x) h = cc h
  call-Says _ h = tt

  check-Says : (e : Exception) → is_value_error e ≡ true → Says (raise e)
  check-Says (service_load_failed s x) h = cc h
  check-Says _ h = tt

  module _ (c₀ : Client) where
    abbrev Going : Unit {0} → Client → Type 0
    Going _ c = OnlySends is_get_status c₀ c

    abbrev Over : Result ServiceStatus → Unit {0} → Client → Type 0
    Over x _ c = OnlySends is_get_status c₀ c × Says x

    judged-Keeps :
        (s : ServiceStatus) (c : Client)
        → OnlySends is_get_status c₀ c
        → Keeps Going Over (judged sys s c)
    judged-Keeps s c o = elim (Bool-cases (str_eq s.state "READY")) [
      | inl t ↦ rw t (o, (eq_iff s.state "READY").0 t)
      | inr f ↦ elim (Bool-cases (str_eq s.state "FAILED")) [
        | inl g ↦ rw (f, g) (o, (eq_iff s.state "FAILED").0 g)
        | inr h ↦ rw (f, h) o
      ]
    ]

    received-Keeps :
        (x : Result ServiceStatus × Client)
        → OnlySends is_get_status c₀ x.1
        → FailsAsCall x.0
        → Keeps Going Over (ready_received sys x)
    received-Keeps (raise e, c) o f = (o, call-Says e f)
    received-Keeps (ok s, c) o f = judged-Keeps s c o

    ready_round-Keeps :
        (u : Unit {0}) (c : Client) → Going u c → Keeps Going Over (ready_round sys u c)
    unfolding ready_round
    ready_round-Keeps u c o =
        received-Keeps (status sys c)
          (then_sent is_get_status c₀ c (status sys c).1 o (status_sent c)) (status_fails c)

    poll-Over :
        (n : ℕ) (deadline : Option ℕ) (interval : ℕ) (c : Client) {x : Result ServiceStatus}
        {u : Unit {0}} {d : Client}
        → OnlySends is_get_status c₀ c
        → poll sys (ready_round sys) wait_ready_timeout n deadline interval tt c ≡ some (x, u, d)
        → Over x u d
    poll-Over n deadline interval c o h =
        poll_inv sys (ready_round sys) wait_ready_timeout Going Going Over ready_round-Keeps
          (λ s c d e r. pause_sent is_get_status c₀ c d e r)
          (λ s c d e r. (pause_sent is_get_status c₀ c d e r, tt)) n deadline interval tt c o h

  -- However `wait_ready` is called and whenever it is over: it has sent status requests and nothing
  -- else; a status that it returns is READY, and one for which it raises `ServiceLoadFailed` is FAILED.
  pub wait_ready_outcome :
      (fuel : ℕ) (timeout interval : ℤ) (c : Client) {x : Result ServiceStatus} {u : Unit {0}}
      {d : Client}
      → wait_ready sys fuel timeout interval c ≡ some (x, u, d)
      → OnlySends is_get_status c d × Says x
  unfolding wait_ready
  wait_ready_outcome fuel timeout interval c {x} {u} {d} h =
      outcome (polling (some timeout) interval) refusal h
    where
      refusal : FailsAsCheck (polling (some timeout) interval)
      refusal = polling_fails (some timeout) interval

      outcome :
          (p : Result (Option ℕ × ℕ))
          → FailsAsCheck p
          → elim p [
            | raise e ↦ some (raise e, tt, c)
            | ok q ↦
                poll sys
                  (ready_round sys)
                  wait_ready_timeout
                  fuel
                  (deadline_of sys q.0 c).0
                  q.1
                  tt
                  (deadline_of sys q.0 c).1
          ]
            ≡ some (x, u, d)
          → OnlySends is_get_status c d × Says x
      outcome (raise e) k h = Q_of (Over c) h (none_sent is_get_status c c refl, check-Says e k)
      outcome (ok q) k h =
          poll-Over c fuel (deadline_of sys q.0 c).0 q.1 (deadline_of sys q.0 c).1
            (none_sent is_get_status c (deadline_of sys q.0 c).1 (clock_sent sys q.0 c)) h
