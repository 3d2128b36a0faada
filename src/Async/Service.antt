-- ===== src/Async/Service.antt =====
-- `AsyncClient` of python/src/libjadx/async_client.py beside `_invoke` and the constructor.
use libjadx.Base.{ℕ, String, true, Option, some, str_eq, member, if◌then◌else◌, ℤ}
use libjadx.Wire.Job.{Job}
use libjadx.Wire.Pages.{ServiceStatus}
use libjadx.Errors.{
  value_error, transport_error, service_load_failed, wait_ready_timeout, Result, ok, raise,
  or_raise,
}
use libjadx.Revisions.{Observable}
use libjadx.Client.{
  System, Client, get_job, get_status, get_liveness, get_capabilities, shutdown_service,
  shutdown_accepted,
}
use libjadx.Client
use libjadx.Client.Poll.{polling, deadline_of}
use libjadx.Project.{as_model}
use libjadx.Jobs.{as_job}
use libjadx.Service.{as_status, load_error, shutdown_policies}
use libjadx.Async.{Step, returned, Async, and_then, async_invoke}
use libjadx.Async.Project.{async_first}
use libjadx.Async.Poll.{Turn, over, next, async_poll}

-- `AsyncClient.aclose`, as far as the SDK's own state goes.
unfoldable pub aclose : Client → Client
aclose c = if c.closed then c else record c { closed = true }

-- `AsyncClient.__aenter__`
unfoldable pub async_enter : Async (Unit {0})
async_enter c =
    if c.closed then returned (raise (transport_error "Client is closed")) c else returned (ok tt) c

module _ (sys : System) where
  unfoldable pub async_liveness : Async Observable
  async_liveness = async_invoke sys (as_model Client.liveness) get_liveness

  unfoldable pub async_status : Async ServiceStatus
  async_status = async_invoke sys as_status get_status

  unfoldable pub async_capabilities : Async Observable
  async_capabilities = async_invoke sys (as_model Client.capabilities) get_capabilities

  -- `AsyncClient.job`, whose argument is the text of a UUID
  unfoldable pub async_job : String → Async Job
  async_job job_id =
      async_first
        (or_raise (sys.codec.uuid_of job_id) (value_error "badly formed hexadecimal UUID string"))
        (λ u. async_invoke sys as_job (get_job u))

  unfoldable pub async_shutdown : String → Async Observable
  async_shutdown policy c =
      if member policy shutdown_policies
      then async_invoke sys (as_model shutdown_accepted) (shutdown_service policy) c
      else returned (raise (value_error "not a valid ShutdownRequestPolicy")) c

  -- One round of `wait_ready`.
  abbrev pub ready_turn : Result ServiceStatus → Client → Step (Turn (Unit {0}) ServiceStatus)
  ready_turn (raise e) c = returned (over (raise e) tt) c
  ready_turn (ok s) c =
      if str_eq s.state "READY"
      then returned (over (ok s) tt) c
      else if str_eq s.state "FAILED"
      then returned (over (raise (service_load_failed s (load_error sys.codec s.error))) tt) c
      else returned (next tt) c

  unfoldable pub async_ready_round : Unit {0} → Client → Step (Turn (Unit {0}) ServiceStatus)
  unfolding async_status
  async_ready_round _ c = and_then (async_status c) ready_turn

  -- `AsyncClient.wait_ready`, with fuel for its rounds.
  unfoldable pub async_wait_ready :
      ℕ → ℤ → ℤ → Client → Step (Option (Result ServiceStatus × Unit {0}))
  unfolding polling deadline_of
  async_wait_ready fuel timeout poll_interval c = elim (polling (some timeout) poll_interval) [
    | raise e ↦ returned (some (raise e, tt)) c
    | ok (limit, interval) ↦
        let (deadline, c') = deadline_of sys limit c in
        async_poll sys wait_ready_timeout async_ready_round fuel deadline interval tt c'
  ]
