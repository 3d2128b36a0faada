-- ===== src/Transport.antt =====
-- The generated transport (python/src/libjadx/_generated/api and types.py): what an operation asks of
-- httpx, and what it makes of the response. httpx is the environment: for the keyword arguments of a
-- request it gives a response or raises. `from_dict` of the response classes is an argument. The
-- client's `raise_on_unexpected_status` has its default, false, which `connection` of _common.py keeps.
pub mod Analysis
pub mod Projects
pub mod Services
pub mod Classes
pub mod Perform
pub mod Routes
pub mod Tables
pub mod Typed
pub mod Refused
use libjadx.Base.{
  ℕ, ◌+◌, ◌/◌, ◌%◌, String, Bool, true, false, ◌&&◌, ◌||◌, Option, none, some, List, [], ◌∷◌, ◌++◌,
  ltb, leb, ◌==◌, if◌then◌else◌, codes, pos,
}
use libjadx.Wire.Json.{Json, bool, int, str, Members, end, put, put_given, Omittable}
use libjadx.Wire.Bodies.{encoded}
use libjadx.Wire.Requests.{ListClasses}
use libjadx.Errors.{Headers}
use libjadx.Client.{
  Payload, absent, Response, Exchange, response, timeout_exception, http_error, undecodable,
}

-- The arguments of `httpx.Client.request`; the URL is its code points.
pub record Kwargs : Type 0 where
  pub method : String
  pub url : List ℕ
  pub json : Option Members
  pub params : Option Members
  pub headers : List (String × String)

abbrev pub with_body : String → String → Members → Kwargs
with_body method url body = record {
  method = method;
  url = codes url;
  json = some body;
  params = none;
  headers = ("Content-Type", "application/json") ∷ [];
}

abbrev pub without_body : String → String → Kwargs
without_body method url = record {
  method = method;
  url = codes url;
  json = none;
  params = none;
  headers = [];
}

-- A letter, a digit, or one of `_.-~`.
abbrev pub is_unreserved : ℕ → Bool
is_unreserved c =
    (leb 48 c && leb c 57)
    || ((leb 65 c && leb c 90)
        || ((leb 97 c && leb c 122) || ((c == 95) || ((c == 46) || ((c == 45) || (c == 126))))))

abbrev pub hex_digit : ℕ → ℕ
hex_digit d = if ltb d 10 then 48 + d else 55 + d

abbrev pub percent : ℕ → List ℕ
percent byte = 37 ∷ hex_digit (byte / 16) ∷ hex_digit (byte % 16) ∷ []

-- The UTF-8 bytes of a code point, each with its percent sign.
abbrev pub percents : ℕ → List ℕ
percents c =
    if ltb c 128
    then percent c
    else if ltb c 2048
    then percent (192 + c / 64) ++ percent (128 + c % 64)
    else if ltb c 65536
    then percent (224 + c / 4096) ++ (percent (128 + c / 64 % 64) ++ percent (128 + c % 64))
    else percent (240 + c / 262144)
      ++ (percent (128 + c / 4096 % 64) ++ (percent (128 + c / 64 % 64) ++ percent (128 + c % 64)))

-- `urllib.parse.quote(text, safe="")`
unfoldable pub quote : List ℕ → List ℕ
quote [] = []
quote (c ∷ cs) = (if is_unreserved c then c ∷ [] else percents c) ++ quote cs

abbrev int_of : ℕ → Json
int_of n = int (pos n)

-- The query parameters of `list_classes`, without those that are `UNSET`.
unfoldable pub class_params : ListClasses → Members
class_params q = put "includeInner" (bool q.include_inner) (
    put "nameDomain" (str q.name_domain) (
      put_given "nameContains" (encoded str q.name_contains) (
        put_given "packagePrefix" (encoded str q.package_prefix)
          (put_given "cursor" (encoded str q.cursor) (put "pageSize" (int_of q.page_size) end)))))

-- The classes whose `from_dict` the operations call.
pub data Class : Type 0 where
  search_index_status job decompile_result control_flow_result search_page edit_batch_result : Class
  mapping_export_receipt pending_edits fixed_project project_settings mapping_import_receipt
        capabilities :
      Class
  liveness service_status shutdown_accepted class_page reference_page symbol_resolution
        error_envelope :
      Class

-- `K.from_dict(json)`, `none` where it raises.
abbrev pub FromDict : Type 0
FromDict = Class → Json → Option Payload

-- `json` is `none` where `response.json()` raises.
pub record HttpResponse : Type 0 where
  pub status_code : ℕ
  pub headers : Headers
  pub json : Option Json

-- What `httpx.Client.request` does: it returns, or raises an exception with its text.
pub data Outcome : Type 0 where
  responded : HttpResponse → Outcome
  timed_out failed : String → Outcome

abbrev pub Sender : Type 0
Sender = Kwargs → Outcome

abbrev pub decoded : FromDict → Class → Option Json → Option Payload
decoded from_dict class none = none
decoded from_dict class (some json) = from_dict class json

-- `if response.status_code == …: return K.from_dict(response.json())`, one after the other; behind them
-- the class of every other status, or `None`.
unfoldable pub by_status :
    FromDict → List (ℕ × Class) → Option Class → HttpResponse → Option Payload
by_status from_dict [] none r = some absent
by_status from_dict [] (some class) r = decoded from_dict class r.json
by_status from_dict ((status, class) ∷ table) default r =
    if r.status_code == status
    then decoded from_dict class r.json
    else by_status from_dict table default r

-- The values of `http.HTTPStatus`.
abbrev pub is_http_status : ℕ → Bool
is_http_status s =
    (leb 100 s && leb s 103)
    || ((leb 200 s && leb s 208)
        || ((s == 226)
            || ((leb 300 s && leb s 305)
                || ((leb 307 s && leb s 308)
                    || ((leb 400 s && leb s 418)
                        || ((leb 421 s && leb s 426)
                            || ((leb 428 s && leb s 429)
                                || ((s == 431)
                                    || ((s == 451)
                                        || ((leb 500 s && leb s 508)
                                            || (leb 510 s && leb s 511)))))))))))

abbrev pub with_payload : HttpResponse → Option Payload → Option Response
with_payload r none = none
with_payload r (some p) =
    some (record { status_code = r.status_code; headers = r.headers; parsed = p })

-- `_build_response`; `none` where it raises.
unfoldable pub build_response : (HttpResponse → Option Payload) → HttpResponse → Option Response
build_response parse r = if is_http_status r.status_code then with_payload r (parse r) else none

abbrev pub returned : Option Response → Exchange
returned none = undecodable
returned (some r) = response r

-- What the caller of `sync_detailed` gets.
unfoldable pub received : (HttpResponse → Option Payload) → Outcome → Exchange
unfolding build_response
received parse (responded r) = returned (build_response parse r)
received parse (timed_out text) = timeout_exception text
received parse (failed text) = http_error text
