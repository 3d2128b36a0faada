-- ===== src/Transport/Classes.antt =====
-- The operations of python/src/libjadx/_generated/api/symbols: `_get_kwargs`, `_parse_response` and
-- `sync_detailed` of each.
use libjadx.Base.{Option, none, some, [], ◌∷◌, codes}
use libjadx.Wire.Refs.{SymbolRef}
use libjadx.Wire.Requests.{ListClasses, ReferenceQuery}
use libjadx.Wire.Bodies.{reference_query_dict, symbol_resolve_dict}
use libjadx.Client.{Payload, Exchange}
use libjadx.Transport.{
  Kwargs, with_body, class_params, FromDict, HttpResponse, Sender, by_status, received, class_page,
  error_envelope, reference_page, symbol_resolution,
}

unfoldable pub list_classes_kwargs : ListClasses → Kwargs
list_classes_kwargs query = record {
  method = "get";
  url = codes "/classes";
  json = none;
  params = some (class_params query);
  headers = [];
}

unfoldable pub parse_list_classes : FromDict → HttpResponse → Option Payload
parse_list_classes from_dict =
    by_status from_dict
      ((200, class_page)
        ∷ (400, error_envelope)
        ∷ (409, error_envelope)
        ∷ (429, error_envelope)
        ∷ (500, error_envelope)
        ∷ (503, error_envelope)
        ∷ [])
      none

unfoldable pub list_classes_detailed : Sender → FromDict → ListClasses → Exchange
list_classes_detailed send from_dict query =
    received (parse_list_classes from_dict) (send (list_classes_kwargs query))

unfoldable pub query_references_kwargs : ReferenceQuery → Kwargs
query_references_kwargs body = with_body "post" "/references/query" (reference_query_dict body)

unfoldable pub parse_query_references : FromDict → HttpResponse → Option Payload
parse_query_references from_dict =
    by_status from_dict
      ((200, reference_page)
        ∷ (400, error_envelope)
        ∷ (409, error_envelope)
        ∷ (415, error_envelope)
        ∷ (429, error_envelope)
        ∷ (500, error_envelope)
        ∷ (503, error_envelope)
        ∷ [])
      none

unfoldable pub query_references_detailed : Sender → FromDict → ReferenceQuery → Exchange
query_references_detailed send from_dict body =
    received (parse_query_references from_dict) (send (query_references_kwargs body))

unfoldable pub resolve_symbol_kwargs : SymbolRef → Kwargs
resolve_symbol_kwargs body = with_body "post" "/symbols/resolve" (symbol_resolve_dict body)

unfoldable pub parse_resolve_symbol : FromDict → HttpResponse → Option Payload
parse_resolve_symbol from_dict =
    by_status from_dict
      ((200, symbol_resolution)
        ∷ (400, error_envelope)
        ∷ (409, error_envelope)
        ∷ (415, error_envelope)
        ∷ (429, error_envelope)
        ∷ (500, error_envelope)
        ∷ (503, error_envelope)
        ∷ [])
      none

unfoldable pub resolve_symbol_detailed : Sender → FromDict → SymbolRef → Exchange
resolve_symbol_detailed send from_dict body =
    received (parse_resolve_symbol from_dict) (send (resolve_symbol_kwargs body))
