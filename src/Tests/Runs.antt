-- ===== src/Tests/Runs.antt =====
-- Runs of the operations at concrete inputs.
use libjadx.Base.{true, false, none, some, [], ◌∷◌, ◌≡◌, refl, pos}
use libjadx.Wire.Json.{
  null, str, bool, int, obj, arr, nil, item, end, member, unset, given, get, put,
}
use libjadx.Wire.Codec.{Uuid}
use libjadx.Wire.Enums.{running, cancelling, stale_revision}
use libjadx.Wire.ApiError
use libjadx.Wire.ApiError.{to_dict, item_dict, ItemError, item_error, none_left, unset_causes}
use libjadx.Wire.Pages.{SymbolInfo, SymbolResolution}
use libjadx.Wire.Refs.{ref_to_dict, method_from_dict, class_ref, method_ref, field_ref}
use libjadx.Wire.Requests.{EditOperation}
use libjadx.Wire.Requests
use libjadx.Errors.{
  ok, raise, value_error, unexpected_status, failure_of, make_failure, class_of,
  stale_revision_error, find_header,
}
use libjadx.Revisions.{Observable, observe, advance}
use libjadx.Revisions.Expected.{no_preconditions, Preconditions, expected, required, pair_up}
use libjadx.Client.{
  Client, System, Payload, Request, absent, instance_of, fixed_project, invoke, settle, unwrap,
  accept, observable, cancel_job, reload_project, save_project, get_job, symbol_resolution,
  resolve_symbol, job,
}
use libjadx.Client
use libjadx.Jobs.{cancel, as_job}
use libjadx.Project
use libjadx.Project.{as_model, as_method}
use libjadx.Project.Reads
use libjadx.Service.{close, enter}
use libjadx.Service
use libjadx.Symbols.{
  symbol_info, original_name, display_name, reference, rename_symbol, symbol_references,
  decompile_symbol, symbol_control_flow,
}
use libjadx.Samples.{codec, system, client, method_reference, job_in, job_uuid}

-- What a project response is observed by: no session.
abbrev quiet : Observable
quiet = record {
  revisions = none;
  own = record {
    session_id = none;
    logical_revision = none;
    logical_revision_after = none;
    after_logical_revision = none;
    index_revision = none;
    index_revision_after = none;
    after_index_revision = none;
  };
}

abbrev session : Uuid
session = record { canonical = "00000000-0000-4000-8000-00000000000a" }

abbrev projects : System
projects = system (instance_of fixed_project quiet)

abbrev sent : Request → Client
sent r = record client { sent = r ∷ [] }

-- Saving and reloading send the cached pair.
save_run : Project.save projects (some "/p") no_preconditions client ≡ (
  ok quiet,
  sent (
      save_project (record {
        target_path = given "/p";
        expected_logical_revision = given 7;
        expected_session_id = given session;
      })),
)
unfolding Project.save expected pair_up invoke settle unwrap accept as_model observable observe
save_run = refl

reload_run : Project.reload projects true no_preconditions client ≡ (
  ok quiet,
  sent (
      reload_project (record {
        discard_unsaved = true;
        expected_session_id = session;
        expected_logical_revision = 7;
      })),
)
unfolding Project.reload required expected pair_up invoke settle unwrap accept as_model observable
    observe
reload_run = refl

-- A response of another class is not taken.
settings_run : (Project.settings projects client).0 ≡ raise (unexpected_status 200)
unfolding Project.settings invoke settle unwrap accept as_model
settings_run = refl

pending_edits_run : (Project.pending_edits projects client).0 ≡ raise (unexpected_status 200)
unfolding Project.pending_edits invoke settle unwrap accept as_model
pending_edits_run = refl

snapshot_run : Project.snapshot projects client ≡ (ok quiet, sent Client.get_project)
unfolding Project.snapshot invoke settle unwrap accept as_model observable observe
snapshot_run = refl

-- `None, None` leaves the pair out; a propagating rename is then refused, a comment is not.
abbrev omitted : Preconditions
omitted = record { expected_session_id = given none; expected_logical_revision = given none }

rename_run : Project.rename projects method_reference "go" true omitted client ≡ (
  raise (value_error "Observe project.snapshot() or supply session/revision explicitly"),
  client,
)
unfolding Project.rename Project.apply_edits expected pair_up
rename_run = refl

set_comment_run :
    (Project.set_comment projects method_reference "note" omitted client).1
    ≡ sent (
        Client.apply_edit_batch (record {
          items = Requests.set_comment method_reference "note" "LINE" ∷ [];
          expected_session_id = unset;
          expected_logical_revision = unset;
        }))
unfolding Project.set_comment Project.apply_edits expected pair_up invoke settle unwrap accept
    as_model
set_comment_run = refl

rename_parameter_run :
    Project.rename_parameter projects (class_ref "La/B;" none) 0 "x" "s" no_preconditions client
    ≡ (raise (value_error "Parameter rename requires a method ref"), client)
unfolding Project.rename_parameter class_ref as_method
rename_parameter_run = refl

mappings_run :
    ((Project.export_mappings projects "/m" omitted client).1 ≡ client)
    × ((Project.import_mappings projects "/m" omitted client).1 ≡ client)
    × ((Project.update_settings projects none omitted client).1 ≡ client)
unfolding Project.export_mappings Project.import_mappings Project.update_settings required expected
    pair_up
mappings_run = (refl, refl, refl)

cancel_run :
    cancel (system (job (job_in cancelling))) (job_in running) client
    ≡ (ok (job_in cancelling), sent (cancel_job job_uuid))
unfolding cancel invoke settle unwrap accept as_job observable observe advance
cancel_run = refl

-- A method reference that is made by hand, and its dict.
method_ref_run :
    (method_from_dict (ref_to_dict (method_ref "La/B;" "run" "()V" none))
      ≡ some (record {
        original_class_descriptor = str "La/B;";
        original_name = str "run";
        original_descriptor = str "()V";
        input_identity = given null;
      }))
    × (method_from_dict (ref_to_dict (field_ref "La/B;" "x" "I" none)) ≡ none)
unfolding method_ref field_ref method_from_dict ref_to_dict get put
method_ref_run = (refl, refl)

-- A failure with a status and a request id in its headers.
abbrev stale : ApiError.ApiError
stale =
    ApiError.api_error stale_revision (str "stale") (given (bool true)) (given (str "r")) unset
      unset_causes
      (given (
        item_error
          (record {
            index = int (pos 0);
            code = str "STALE_REVISION";
            message = str "stale";
            details = unset;
            additional_properties = end;
          })
          none_left))
      end

failure_run : failure_of codec.lower stale (some 409) (("x-request-id", "h") ∷ []) ≡ record {
  type_ = stale_revision_error;
  raw = stale;
  http_status = some 409;
  code = "STALE_REVISION";
  message = str "stale";
  retryable = bool true;
  request_id = some (str "r");
  headers = ("x-request-id", "h") ∷ [];
  header_request_id = some "h";
  details = none;
  causes = arr nil;
  item_errors = arr (
      item
        (obj (
          member "index"
            (int (pos 0))
            (member "code" (str "STALE_REVISION") (member "message" (str "stale") end))))
        nil);
}
unfolding failure_of make_failure class_of find_header to_dict item_dict get put
failure_run = refl

closed_run : (enter client ≡ (ok tt, client)) × ((close client).closed ≡ true)
unfolding enter close
closed_run = (refl, refl)

-- The service does not know the job; the text of a policy is checked before anything is sent.
service_run :
    ((Service.job projects "j" client).0 ≡ raise (unexpected_status 200))
    × ((Service.shutdown projects "now" client).1 ≡ client)
    × ((Service.liveness projects client).1 ≡ sent Client.get_liveness)
    × ((Service.capabilities projects client).1 ≡ sent Client.get_capabilities)
unfolding Service.job Service.shutdown Service.liveness Service.capabilities invoke settle unwrap
    accept as_job as_model
service_run = (refl, refl, refl, refl)

abbrev pub symbol : SymbolInfo
symbol = record {
  ref = method_reference;
  original_name = some "run";
  original_descriptor = some "()V";
  display_name = "run";
  display_qualified_name = "a.B.run";
  provenance = "ORIGINAL";
  containing_class = unset;
}

abbrev resolution : SymbolResolution
resolution = record {
  outcome = "RESOLVED";
  queried_ref = method_reference;
  session_id = session;
  logical_revision = 7;
  snapshot_id = "snapshot";
  candidates = [];
  diagnostics = [];
  symbol = given (some symbol);
}

resolve_object_run :
    Reads.resolve_object (system (symbol_resolution resolution)) method_reference client
    ≡ (ok (Reads.java_method symbol), sent (resolve_symbol method_reference))
unfolding Reads.resolve_object Reads.resolve Reads.bind_resolution Reads.as_resolution invoke settle
    unwrap accept observable observe advance
resolve_object_run = refl

-- Arguments that no enumeration has are refused before anything is sent.
reads_run :
    ((Reads.decompile projects method_reference "JAVA" false (given "FAST") true false client).1
      ≡ client)
    × ((Reads.references projects method_reference "SIDEWAYS" "PAIRS" none 50 none false false
          client).1
        ≡ client)
    × ((Reads.search projects "q" (some ("NAME" ∷ [])) "CONTAINS" true 50 false false client).1
        ≡ client)
    × ((Reads.control_flow projects (class_ref "La/B;" none) false no_preconditions client).1
        ≡ client)
unfolding Reads.decompile Reads.references Reads.search Reads.control_flow class_ref
reads_run = (refl, refl, refl, refl)

build_search_index_run : Reads.build_search_index (system (job (job_in running))) none client ≡ (
  ok (Reads.build_job (job_in running)),
  sent (Client.build_search_index (record { domains = unset; force = given false })),
)
unfolding Reads.build_search_index invoke settle unwrap accept observable observe advance
build_search_index_run = refl

-- A handle calls its project with its own reference.
symbol_run :
    (original_name (symbol_info symbol) ≡ some "run")
    × (display_name (symbol_info symbol) ≡ "run")
    × (rename_symbol projects (symbol_info symbol) "go" true omitted client
        ≡ Project.rename projects method_reference "go" true omitted client)
    × ((symbol_references projects (symbol_info symbol) "OUTGOING" "PAIRS" false false client).1
        ≡ (Reads.references projects method_reference "OUTGOING" "PAIRS" none 50 none false false
            client).1)
    × ((decompile_symbol projects (symbol_info symbol) true client)
        ≡ (Reads.decompile projects method_reference "JAVA" true unset true false client))
    × ((symbol_control_flow projects (symbol_info symbol) true omitted client)
        ≡ (Reads.control_flow projects method_reference true omitted client))
unfolding original_name display_name reference rename_symbol symbol_references decompile_symbol
    symbol_control_flow
symbol_run = (refl, refl, refl, refl, refl, refl)
