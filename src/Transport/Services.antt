-- ===== src/Transport/Services.antt =====
-- The operations of python/src/libjadx/_generated/api/service: `_get_kwargs`, `_parse_response` and
-- `sync_detailed` of each.
use libjadx.Base.{String, Option, none, some, [], ◌∷◌, ◌++◌, codes}
use libjadx.Wire.Codec.{Uuid}
use libjadx.Wire.Bodies.{shutdown_dict}
use libjadx.Client.{Payload, Exchange}
use libjadx.Transport.{
  Kwargs, with_body, without_body, quote, FromDict, HttpResponse, Sender, by_status, received,
  capabilities, error_envelope, job, liveness, service_status, shutdown_accepted,
}

unfoldable pub cancel_job_kwargs : Uuid → Kwargs
cancel_job_kwargs job_id = record {
  method = "post";
  url = codes "/jobs/" ++ (quote (codes job_id.canonical) ++ codes "/cancel");
  json = none;
  params = none;
  headers = [];
}

unfoldable pub parse_cancel_job : FromDict → HttpResponse → Option Payload
parse_cancel_job from_dict =
    by_status from_dict
      ((200, job) ∷ (400, error_envelope) ∷ (403, error_envelope) ∷ (404, error_envelope) ∷ []) none

unfoldable pub cancel_job_detailed : Sender → FromDict → Uuid → Exchange
cancel_job_detailed send from_dict job_id =
    received (parse_cancel_job from_dict) (send (cancel_job_kwargs job_id))

unfoldable pub get_capabilities_kwargs : Kwargs
get_capabilities_kwargs = without_body "get" "/capabilities"

unfoldable pub parse_get_capabilities : FromDict → HttpResponse → Option Payload
parse_get_capabilities from_dict =
    by_status from_dict ((200, capabilities) ∷ []) (some error_envelope)

unfoldable pub get_capabilities_detailed : Sender → FromDict → Exchange
get_capabilities_detailed send from_dict =
    received (parse_get_capabilities from_dict) (send (get_capabilities_kwargs))

unfoldable pub get_job_kwargs : Uuid → Kwargs
get_job_kwargs job_id = record {
  method = "get";
  url = codes "/jobs/" ++ quote (codes job_id.canonical);
  json = none;
  params = none;
  headers = [];
}

unfoldable pub parse_get_job : FromDict → HttpResponse → Option Payload
parse_get_job from_dict =
    by_status from_dict ((200, job) ∷ (400, error_envelope) ∷ (404, error_envelope) ∷ []) none

unfoldable pub get_job_detailed : Sender → FromDict → Uuid → Exchange
get_job_detailed send from_dict job_id =
    received (parse_get_job from_dict) (send (get_job_kwargs job_id))

unfoldable pub get_liveness_kwargs : Kwargs
get_liveness_kwargs = without_body "get" "/health/live"

unfoldable pub parse_get_liveness : FromDict → HttpResponse → Option Payload
parse_get_liveness from_dict = by_status from_dict ((200, liveness) ∷ []) (some error_envelope)

unfoldable pub get_liveness_detailed : Sender → FromDict → Exchange
get_liveness_detailed send from_dict =
    received (parse_get_liveness from_dict) (send (get_liveness_kwargs))

unfoldable pub get_status_kwargs : Kwargs
get_status_kwargs = without_body "get" "/status"

unfoldable pub parse_get_status : FromDict → HttpResponse → Option Payload
parse_get_status from_dict = by_status from_dict ((200, service_status) ∷ []) (some error_envelope)

unfoldable pub get_status_detailed : Sender → FromDict → Exchange
get_status_detailed send from_dict =
    received (parse_get_status from_dict) (send (get_status_kwargs))

unfoldable pub shutdown_service_kwargs : String → Kwargs
shutdown_service_kwargs body = with_body "post" "/shutdown" (shutdown_dict body)

unfoldable pub parse_shutdown_service : FromDict → HttpResponse → Option Payload
parse_shutdown_service from_dict =
    by_status from_dict
      ((202, shutdown_accepted)
        ∷ (400, error_envelope)
        ∷ (403, error_envelope)
        ∷ (409, error_envelope)
        ∷ (500, error_envelope)
        ∷ (503, error_envelope)
        ∷ [])
      none

unfoldable pub shutdown_service_detailed : Sender → FromDict → String → Exchange
shutdown_service_detailed send from_dict body =
    received (parse_shutdown_service from_dict) (send (shutdown_service_kwargs body))
