-- ===== src/Transport/Analysis.antt =====
-- The operations of python/src/libjadx/_generated/api/analysis: `_get_kwargs`, `_parse_response` and
-- `sync_detailed` of each.
use libjadx.Base.{Option, none, [], ◌∷◌}
use libjadx.Wire.Requests.{SearchBuildRequest, DecompileRequest, ControlFlowRequest, SearchRequest}
use libjadx.Wire.Bodies.{search_build_dict, decompile_dict, control_flow_dict, search_dict}
use libjadx.Client.{Payload, Exchange}
use libjadx.Transport.{
  Kwargs, with_body, FromDict, HttpResponse, Sender, by_status, received, control_flow_result,
  decompile_result, error_envelope, job, search_index_status, search_page,
}

unfoldable pub build_search_index_kwargs : SearchBuildRequest → Kwargs
build_search_index_kwargs body = with_body "post" "/search/build-index" (search_build_dict body)

unfoldable pub parse_build_search_index : FromDict → HttpResponse → Option Payload
parse_build_search_index from_dict =
    by_status from_dict
      ((200, search_index_status)
        ∷ (202, job)
        ∷ (400, error_envelope)
        ∷ (403, error_envelope)
        ∷ (409, error_envelope)
        ∷ (415, error_envelope)
        ∷ (422, error_envelope)
        ∷ (429, error_envelope)
        ∷ (500, error_envelope)
        ∷ (503, error_envelope)
        ∷ [])
      none

unfoldable pub build_search_index_detailed : Sender → FromDict → SearchBuildRequest → Exchange
build_search_index_detailed send from_dict body =
    received (parse_build_search_index from_dict) (send (build_search_index_kwargs body))

unfoldable pub decompile_java_kwargs : DecompileRequest → Kwargs
decompile_java_kwargs body = with_body "post" "/decompile" (decompile_dict body)

unfoldable pub parse_decompile_java : FromDict → HttpResponse → Option Payload
parse_decompile_java from_dict =
    by_status from_dict
      ((200, decompile_result)
        ∷ (400, error_envelope)
        ∷ (403, error_envelope)
        ∷ (409, error_envelope)
        ∷ (415, error_envelope)
        ∷ (422, error_envelope)
        ∷ (429, error_envelope)
        ∷ (500, error_envelope)
        ∷ (503, error_envelope)
        ∷ [])
      none

unfoldable pub decompile_java_detailed : Sender → FromDict → DecompileRequest → Exchange
decompile_java_detailed send from_dict body =
    received (parse_decompile_java from_dict) (send (decompile_java_kwargs body))

unfoldable pub get_control_flow_facts_kwargs : ControlFlowRequest → Kwargs
get_control_flow_facts_kwargs body =
    with_body "post" "/analysis/control-flow" (control_flow_dict body)

unfoldable pub parse_get_control_flow_facts : FromDict → HttpResponse → Option Payload
parse_get_control_flow_facts from_dict =
    by_status from_dict
      ((200, control_flow_result)
        ∷ (400, error_envelope)
        ∷ (409, error_envelope)
        ∷ (415, error_envelope)
        ∷ (429, error_envelope)
        ∷ (500, error_envelope)
        ∷ (503, error_envelope)
        ∷ [])
      none

unfoldable pub get_control_flow_facts_detailed : Sender → FromDict → ControlFlowRequest → Exchange
get_control_flow_facts_detailed send from_dict body =
    received (parse_get_control_flow_facts from_dict) (send (get_control_flow_facts_kwargs body))

unfoldable pub search_kwargs : SearchRequest → Kwargs
search_kwargs body = with_body "post" "/search" (search_dict body)

unfoldable pub parse_search : FromDict → HttpResponse → Option Payload
parse_search from_dict =
    by_status from_dict
      ((200, search_page)
        ∷ (202, job)
        ∷ (400, error_envelope)
        ∷ (403, error_envelope)
        ∷ (409, error_envelope)
        ∷ (415, error_envelope)
        ∷ (422, error_envelope)
        ∷ (429, error_envelope)
        ∷ (500, error_envelope)
        ∷ (503, error_envelope)
        ∷ [])
      none

unfoldable pub search_detailed : Sender → FromDict → SearchRequest → Exchange
search_detailed send from_dict body = received (parse_search from_dict) (send (search_kwargs body))
