-- ===== src/Service.antt =====
-- python/src/libjadx/client.py: the methods of `Client` beside `_invoke`.
pub mod Closed
pub mod Ready
use libjadx.Base.{
  ℕ, String, Bool, true, false, Option, none, some, List, [], ◌∷◌, str_eq, member, if◌then◌else◌, ℤ,
}
use libjadx.Wire.Json.{Omittable, unset, given}
use libjadx.Wire.Codec.{Codec, Uuid}
use libjadx.Wire.ApiError
use libjadx.Wire.Job.{Job}
use libjadx.Wire.Pages.{ServiceStatus}
use libjadx.Errors.{
  Exception, value_error, transport_error, service_load_failed, wait_ready_timeout, ApiFailure,
  failure_of, Result, ok, raise, or_raise,
}
use libjadx.Revisions.{Observable}
use libjadx.Client.{
  Payload, System, Client, Exec, Expects, invoke, get_job, get_status, get_liveness,
  get_capabilities, shutdown_service, shutdown_accepted,
}
use libjadx.Client
use libjadx.Client.Poll.{Round, finished, again, poll, polling, deadline_of}
use libjadx.Project.{as_model, first}
use libjadx.Jobs.{as_job}

unfoldable pub as_status : Expects ServiceStatus
as_status (Client.service_status s) = some s
as_status _ = none

-- `api_error(status.error) if isinstance(status.error, WireError) else None`
abbrev pub load_error : Codec → Omittable (Option ApiError.ApiError) → Option ApiFailure
load_error codec (given (some e)) = some (failure_of codec.lower e none [])
load_error codec _ = none

abbrev pub shutdown_policies : List String
shutdown_policies = "discard" ∷ "refuse_if_dirty" ∷ "save" ∷ []

-- `Client.close`, as far as the SDK's own state goes.
unfoldable pub close : Client → Client
close c = if c.closed then c else record c { closed = true }

-- `Client.__enter__`
unfoldable pub enter : Exec (Unit {0})
enter c = if c.closed then (raise (transport_error "Client is closed"), c) else (ok tt, c)

module _ (sys : System) where
  unfoldable pub liveness : Exec Observable
  liveness = invoke sys (as_model Client.liveness) get_liveness

  unfoldable pub status : Exec ServiceStatus
  status = invoke sys as_status get_status

  unfoldable pub capabilities : Exec Observable
  capabilities = invoke sys (as_model Client.capabilities) get_capabilities

  -- `Client.job`, whose argument is the text of a UUID
  unfoldable pub job : String → Exec Job
  job job_id =
      first
        (or_raise (sys.codec.uuid_of job_id) (value_error "badly formed hexadecimal UUID string"))
        (λ u. invoke sys as_job (get_job u))

  unfoldable pub shutdown : String → Exec Observable
  shutdown policy c =
      if member policy shutdown_policies
      then invoke sys (as_model shutdown_accepted) (shutdown_service policy) c
      else (raise (value_error "not a valid ShutdownRequestPolicy"), c)

  -- One round of `wait_ready`.
  abbrev pub judged : ServiceStatus → Client → Round (Unit {0}) ServiceStatus
  judged s c =
      if str_eq s.state "READY"
      then finished (ok s) tt c
      else if str_eq s.state "FAILED"
      then finished (raise (service_load_failed s (load_error sys.codec s.error))) tt c
      else again tt c

  abbrev pub ready_received : Result ServiceStatus × Client → Round (Unit {0}) ServiceStatus
  ready_received (raise e, c) = finished (raise e) tt c
  ready_received (ok s, c) = judged s c

  unfoldable pub ready_round : Unit {0} → Client → Round (Unit {0}) ServiceStatus
  unfolding status
  ready_round _ c = ready_received (status c)

  -- `Client.wait_ready`, with fuel for its rounds.
  unfoldable pub wait_ready : ℕ → ℤ → ℤ → Client → Option (Result ServiceStatus × Unit {0} × Client)
  unfolding polling deadline_of
  wait_ready fuel timeout poll_interval c = elim (polling (some timeout) poll_interval) [
    | raise e ↦ some (raise e, tt, c)
    | ok (limit, interval) ↦
        let (deadline, c') = deadline_of sys limit c in
        poll sys ready_round wait_ready_timeout fuel deadline interval tt c'
  ]
