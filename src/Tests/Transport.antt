-- ===== src/Tests/Transport.antt =====
-- The generated transport.
use libjadx.Base.{ℕ, false, none, some, [], length, inr, ◌≡◌, refl}
use libjadx.Wire.Json.{obj, end, str, unset}
use libjadx.Wire.Enums.{stale_revision}
use libjadx.Wire.ApiError.{ApiError, api_error, unset_causes}
use libjadx.Errors.{ok, raise, api, failure_of}
use libjadx.Client.{
  Payload, Response, response, absent, error_envelope, instance_of, fixed_project, get_project,
  cancel_job, invoke, settle, unwrap, accept,
}
use libjadx.Project.{as_model}
use libjadx.Transport.{
  Class, FromDict, HttpResponse, responded, Sender, received, build_response, by_status,
}
use libjadx.Transport
use libjadx.Transport.Projects.{get_project_detailed, parse_get_project}
use libjadx.Transport.Perform.{perform, kwargs_of, over_http, successes}
use libjadx.Transport.Routes.{route, operation_of, route-kwargs_of}
use libjadx.Transport.Tables.{payload_class, GivesInstances, find_class}
use libjadx.Transport.Typed.{Answer, perform-Answer, invoke_success}
use libjadx.Transport.Refused.{invoke_refused}
use libjadx.Samples.{codec, client, job_uuid}
use libjadx.Tests.Cache.{seen, a}

route-kwargs_of_example :
    route (kwargs_of (cancel_job job_uuid)).method (kwargs_of (cancel_job job_uuid)).url
    ≡ some (operation_of (cancel_job job_uuid))
route-kwargs_of_example = route-kwargs_of (cancel_job job_uuid)

abbrev refusal : ApiError
refusal = api_error stale_revision (str "stale") unset unset unset unset_causes unset end

-- Two of the classes, read from any body.
abbrev reads : FromDict
reads Transport.search_index_status json = none
reads Transport.job json = none
reads Transport.decompile_result json = none
reads Transport.control_flow_result json = none
reads Transport.search_page json = none
reads Transport.edit_batch_result json = none
reads Transport.mapping_export_receipt json = none
reads Transport.pending_edits json = none
reads Transport.fixed_project json = some (instance_of fixed_project (seen a 8))
reads Transport.project_settings json = none
reads Transport.mapping_import_receipt json = none
reads Transport.capabilities json = none
reads Transport.liveness json = none
reads Transport.service_status json = none
reads Transport.shutdown_accepted json = none
reads Transport.class_page json = none
reads Transport.reference_page json = none
reads Transport.symbol_resolution json = none
reads Transport.error_envelope json = some (error_envelope refusal)

reads-GivesInstances : GivesInstances reads
reads-GivesInstances Transport.search_index_status json p e = absurd (cc)
reads-GivesInstances Transport.job json p e = absurd (cc)
reads-GivesInstances Transport.decompile_result json p e = absurd (cc)
reads-GivesInstances Transport.control_flow_result json p e = absurd (cc)
reads-GivesInstances Transport.search_page json p e = absurd (cc)
reads-GivesInstances Transport.edit_batch_result json p e = absurd (cc)
reads-GivesInstances Transport.mapping_export_receipt json p e = absurd (cc)
reads-GivesInstances Transport.pending_edits json p e = absurd (cc)
reads-GivesInstances Transport.fixed_project json p e =
    let q : p ≡ instance_of fixed_project (seen a 8) = cc in rw q refl
reads-GivesInstances Transport.project_settings json p e = absurd (cc)
reads-GivesInstances Transport.mapping_import_receipt json p e = absurd (cc)
reads-GivesInstances Transport.capabilities json p e = absurd (cc)
reads-GivesInstances Transport.liveness json p e = absurd (cc)
reads-GivesInstances Transport.service_status json p e = absurd (cc)
reads-GivesInstances Transport.shutdown_accepted json p e = absurd (cc)
reads-GivesInstances Transport.class_page json p e = absurd (cc)
reads-GivesInstances Transport.reference_page json p e = absurd (cc)
reads-GivesInstances Transport.symbol_resolution json p e = absurd (cc)
reads-GivesInstances Transport.error_envelope json p e =
    let q : p ≡ error_envelope refusal = cc in rw q refl

abbrev reply : ℕ → HttpResponse
reply status = record { status_code = status; headers = []; json = some (obj end) }

abbrev http : ℕ → ℕ → Sender
http status n kwargs = responded (reply status)

abbrev clock : ℕ → ℕ → ℕ
clock reading slept = slept

abbrev found : Response
found = record { status_code = 200; headers = []; parsed = instance_of fixed_project (seen a 8) }

found-performed : perform (http 200 0) reads get_project ≡ response found
unfolding perform get_project_detailed parse_get_project received build_response by_status
found-performed = refl

perform-Answer_example : Answer (successes get_project) found.status_code found.parsed
perform-Answer_example =
    perform-Answer reads reads-GivesInstances (http 200 0) get_project found found-performed

nothing : as_model fixed_project absent ≡ none
unfolding as_model
nothing = refl

succeeds :
    (invoke (over_http codec reads (http 200) clock) (as_model fixed_project) get_project client).0
    ≡ ok (seen a 8)
unfolding invoke settle unwrap accept as_model perform get_project_detailed parse_get_project
    received build_response by_status
succeeds = refl

invoke_success_example :
    (x : HttpResponse) × (k : Class) × (p : Payload) × (client.closed ≡ false)
    × (http 200 (length client.sent) (kwargs_of get_project) ≡ responded x)
    × (find_class x.status_code (successes get_project) ≡ some k)
    × (payload_class p ≡ some k)
    × (as_model fixed_project p ≡ some (seen a 8))
invoke_success_example =
    invoke_success reads reads-GivesInstances codec (http 200) clock (as_model fixed_project)
      get_project client (seen a 8) nothing succeeds

invoke_refused_example :
    (invoke (over_http codec reads (http 409) clock) (as_model fixed_project) get_project client).0
    ≡ raise (api (failure_of codec.lower refusal (some 409) []))
invoke_refused_example =
    invoke_refused reads codec (http 409) clock (as_model fixed_project) get_project client
      (reply 409) (obj end) refusal refl refl refl
      (record { known = refl; no_success = refl; documented = inr refl }) refl
