-- ===== src/Client.antt =====
-- python/src/libjadx/client.py and `unwrap` of _common.py: one client, the exchanges that it makes and
-- what it has observed. httpx and the generated transport are the environment: the n-th exchange of
-- a client has some outcome for its request, and the n-th reading of `time.monotonic`, made after a
-- time slept in all, some value. Times are whole units of a clock.
pub mod Errors
pub mod Invoke
pub mod Poll
pub mod Sends
use libjadx.Base.{
  ℕ, suc, String, Bool, true, false, not, ◌&&◌, Option, none, some, List, [], ◌∷◌, ◌++◌, length,
  ltb, leb, ◌==◌, str_eq, if◌then◌else◌,
}
use libjadx.Wire.Json.{Json, Members, Omittable, unset, given}
use libjadx.Wire.Codec.{Codec, Uuid}
use libjadx.Wire.ApiError
use libjadx.Wire.Job.{Job}
use libjadx.Wire.Pages.{
  ClassPage, ReferencePage, SearchPage, SearchIndexStatus, SymbolResolution, ServiceStatus,
}
use libjadx.Wire.Refs.{SymbolRef}
use libjadx.Wire.Requests.{
  SaveProjectRequest, ReloadProjectRequest, UpdateProjectSettingsRequest, MappingExportRequest,
  MappingImportRequest, EditBatchRequest, ControlFlowRequest, DecompileRequest, ReferenceQuery,
  SearchRequest, SearchBuildRequest, ListClasses,
}
use libjadx.Errors.{
  Exception, transport_error, request_timeout_error, unexpected_response_error, unexpected_status,
  api, Headers, failure_of, Result, ok, raise, or_raise,
}
use libjadx.Revisions.{Attributes, Observable, RevisionCache, observe}
use libjadx.Revisions

-- An operation of the generated transport with its arguments.
pub data Request : Type 0 where
  get_liveness get_status get_capabilities : Request
  get_job cancel_job : Uuid → Request
  shutdown_service : (policy : String) → Request
  get_project get_project_settings export_pending_edits : Request
  save_project : SaveProjectRequest → Request
  reload_project : ReloadProjectRequest → Request
  update_project_settings : UpdateProjectSettingsRequest → Request
  export_mappings : MappingExportRequest → Request
  import_mappings : MappingImportRequest → Request
  apply_edit_batch : EditBatchRequest → Request
  resolve_symbol : SymbolRef → Request
  list_classes : ListClasses → Request
  decompile_java : DecompileRequest → Request
  get_control_flow_facts : ControlFlowRequest → Request
  query_references : ReferenceQuery → Request
  search : SearchRequest → Request
  build_search_index : SearchBuildRequest → Request

-- The response classes of which the SDK reads nothing but what `observe` reads.
pub data Model : Type 0 where
  liveness capabilities shutdown_accepted fixed_project project_settings pending_edits : Model
  mapping_export_receipt mapping_import_receipt edit_batch_result decompile_result : Model
  control_flow_result : Model

-- `response.parsed`: `None`, an error body, or an instance of a response class.
pub data Payload : Type 0 where
  absent : Payload
  error_envelope : ApiError.ApiError → Payload
  job : Job → Payload
  class_page : ClassPage → Payload
  reference_page : ReferencePage → Payload
  search_page : SearchPage → Payload
  search_index_status : SearchIndexStatus → Payload
  symbol_resolution : SymbolResolution → Payload
  service_status : ServiceStatus → Payload
  instance_of : Model → Observable → Payload

pub record Response : Type 0 where
  pub status_code : ℕ
  pub headers : Headers
  pub parsed : Payload

-- What `operation.sync_detailed` does: it returns, or raises an exception of httpx with its text, or
-- one of the exceptions of a body that does not decode.
pub data Exchange : Type 0 where
  response : Response → Exchange
  timeout_exception http_error : String → Exchange
  undecodable : Exchange

pub record System : Type 0 where
  pub codec : Codec
  pub exchange : ℕ → Request → Exchange
  pub monotonic : (reading slept : ℕ) → ℕ

-- The client with its project's revision cache, and what has happened: the requests that were sent,
-- the number of clock readings, and the time slept.
pub record Client : Type 0 where
  pub closed : Bool
  pub revisions : RevisionCache
  pub sent : List Request
  pub readings : ℕ
  pub slept : ℕ

abbrev pub Exec : Type 0 → Type 0
Exec A = Client → Result A × Client

abbrev no_attributes : Attributes
no_attributes = record {
  session_id = none;
  logical_revision = none;
  logical_revision_after = none;
  after_logical_revision = none;
  index_revision = none;
  index_revision_after = none;
  after_index_revision = none;
}

abbrev own : Attributes → Observable
own a = record { revisions = none; own = a }

abbrev at_revision : String → ℕ → Observable
at_revision session revision =
    own (record no_attributes { session_id = some session; logical_revision = some revision })

-- The attributes that `getattr` finds on a payload.
unfoldable pub observable : Payload → Observable
observable (job j) = at_revision j.session_id j.logical_revision
observable (class_page p) = at_revision p.session_id.canonical p.logical_revision
observable (reference_page p) = at_revision p.session_id.canonical p.logical_revision
observable (search_page p) = at_revision p.session_id p.logical_revision
observable (search_index_status p) = at_revision p.session_id p.logical_revision
observable (symbol_resolution p) = at_revision p.session_id.canonical p.logical_revision
observable (instance_of model attributes) = attributes
observable _ = own no_attributes

-- `isinstance(response.parsed, expected)`
abbrev pub Expects : Type 0 → Type 0
Expects A = Payload → Option A

-- The second half of `unwrap`, for what `isinstance` says of the payload.
unfoldable pub accept : {A : Type 0} → ℕ → Option A → Result A
accept status cast =
    if not (leb 200 status && ltb status 300)
    then raise (unexpected_status status)
    else or_raise cast (unexpected_status status)

-- `unwrap`
abbrev unwrap_parsed : {A : Type 0} → Codec → Expects A → ℕ → Headers → Payload → Result A
unwrap_parsed codec expects status headers (error_envelope e) =
    raise (api (failure_of codec.lower e (some status) headers))
unwrap_parsed codec expects status headers parsed = accept status (expects parsed)

unfoldable pub unwrap : {A : Type 0} → Codec → Expects A → Response → Result A
unwrap codec expects r = unwrap_parsed codec expects r.status_code r.headers r.parsed

module _ (sys : System) {A : Type 0} (expects : Expects A) where
  -- `self.project._revisions.observe(result)`, if `unwrap` returned
  abbrev pub observed : Payload → Result A → Exec A
  observed payload (ok a) c =
      (ok a, record c { revisions = observe (observable payload) c.revisions })
  observed payload (raise e) c = (raise e, c)

  unfoldable pub settle : Exchange → Exec A
  settle (timeout_exception text) c = (raise (request_timeout_error text), c)
  settle (http_error text) c = (raise (transport_error text), c)
  settle undecodable c =
      (raise (unexpected_response_error "Response could not be decoded against the contract"), c)
  settle (response r) c = observed r.parsed (unwrap sys.codec expects r) c

  -- `Client._invoke`
  unfoldable pub invoke : Request → Exec A
  unfolding settle
  invoke request c =
      if c.closed
      then (raise (transport_error "Client is closed"), c)
      else settle (sys.exchange (length c.sent) request)
          (record c { sent = c.sent ++ request ∷ [] })
