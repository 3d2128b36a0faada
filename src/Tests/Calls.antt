-- ===== src/Tests/Calls.antt =====
-- One call of the client, and the failures that it raises.
use libjadx.Base.{false, some, [], ◌∷◌, ◌≡◌, ◌↔◌, refl}
use libjadx.Wire.Enums.{running}
use libjadx.Errors.{Headers, find_header, ok, raise, transport_error}
use libjadx.Client.{System, Response, response, http_error, job, get_job, invoke, settle}
use libjadx.Client.Invoke.{invoke_ok_iff, Delivers}
use libjadx.Jobs.{as_job}
use libjadx.Service.{close, enter}
use libjadx.Service.Closed.{close_silences}
use libjadx.Samples.{codec, system, client, job_in, job_uuid}

-- A service that answers with a running job, and one that cannot be reached.
abbrev serving : System
serving = system (job (job_in running))

abbrev unreachable : System
unreachable = record {
  codec = codec;
  exchange = λ _ _. http_error "refused";
  monotonic = λ _ slept. slept;
}

invoke_ok_iff_example :
    ((invoke serving as_job (get_job job_uuid) client).0 ≡ ok (job_in running)) ↔ (
      (client.closed ≡ false)
      × ((r : Response) × (serving.exchange 0 (get_job job_uuid) ≡ response r)
          × Delivers as_job r (job_in running)))
invoke_ok_iff_example = invoke_ok_iff serving as_job (get_job job_uuid) client (job_in running)

refused :
    (invoke unreachable as_job (get_job job_uuid) client).0 ≡ raise (transport_error "refused")
unfolding invoke settle
refused = refl

abbrev headers : Headers
headers =
    ("content-type", "application/json") ∷ ("x-request-id", "r1") ∷ ("x-request-id", "r2") ∷ []

found : find_header codec.lower headers ≡ some "r1"
unfolding find_header
found = refl

close_silences_example :
    (invoke serving as_job (get_job job_uuid) (close client)
      ≡ (raise (transport_error "Client is closed"), close client))
    × (enter (close client) ≡ (raise (transport_error "Client is closed"), close client))
    × (close (close client) ≡ close client)
    × ((close client).sent ≡ client.sent)
    × ((close client).revisions ≡ client.revisions)
close_silences_example = close_silences serving as_job (get_job job_uuid) client
