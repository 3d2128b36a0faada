-- ===== src/Async/Pool.antt =====
-- Several coroutines of the asynchronous SDK (python/src/libjadx/async_client.py, project.py, jobs.py and
-- search.py) over one client: what asyncio may do next with them, as a relation. A coroutine is not
-- interrupted between two awaits, and responses and pauses may come in any order.
pub mod Keeps
pub mod Calls
pub mod Methods
pub mod Every
pub mod Shared
use libjadx.Base.{ℕ, String, Bool, Option, List, [], ◌∷◌, ◌++◌, length, ◌≡◌, ℤ}
use libjadx.Wire.Json.{Omittable}
use libjadx.Wire.Job.{Job}
use libjadx.Wire.Refs.{SymbolRef}
use libjadx.Wire.Requests.{EditOperation, ReferenceQuery, SearchBuildRequest}
use libjadx.Revisions.Expected.{Preconditions}
use libjadx.Client.{Request, Exchange, System, Client}
use libjadx.Client.Poll.{sleep}
use libjadx.Pages.{ClassQuery, SearchCursor}
use libjadx.Async.{Step, returned, awaits, sleeps, and_then, send}
use libjadx.Async.Project.{
  async_snapshot, async_settings, async_pending_edits, async_save, async_reload,
  async_update_settings, async_export_mappings, async_import_mappings, async_apply_edits,
  async_rename, async_set_comment, async_rename_parameter,
}
use libjadx.Async.Reads.{
  async_resolve, async_resolve_object, async_decompile, async_control_flow, async_references,
  async_search, async_build_search_index,
}
use libjadx.Async.Pages.{async_class_pages, async_classes, async_reference_pages, async_iterate}
use libjadx.Async.Jobs.{async_refresh, async_cancel, async_wait, async_poll_updates}
use libjadx.Async.Service.{
  async_liveness, async_status, async_capabilities, async_job, async_shutdown, async_wait_ready,
  aclose,
}

-- A call of a method of the asynchronous SDK.
pub data Call : Type 0 where
  snapshot settings pending_edits liveness status capabilities : Call
  save : Option String → Preconditions → Call
  reload : Bool → Preconditions → Call
  update_settings : Option String → Preconditions → Call
  export_mappings import_mappings : String → Preconditions → Call
  apply_edits : List EditOperation → Preconditions → Call
  rename : SymbolRef → String → Bool → Preconditions → Call
  set_comment : SymbolRef → String → Preconditions → Call
  rename_parameter : SymbolRef → ℕ → String → String → Preconditions → Call
  resolve resolve_object : SymbolRef → Call
  decompile : SymbolRef → String → Bool → Omittable String → Bool → Bool → Call
  control_flow : SymbolRef → Bool → Preconditions → Call
  references :
      SymbolRef → String → String → Option (List String) → ℕ → Option String → Bool → Bool → Call
  search : String → Option (List String) → String → Bool → ℕ → Bool → Bool → Call
  build_search_index : Option SearchBuildRequest → Call
  class_pages classes : ℕ → ClassQuery → Call
  reference_pages : ℕ → ReferenceQuery → Call
  iterate : ℕ → SearchCursor → Call
  refresh cancel : Job → Call
  wait poll_updates : ℕ → Option ℤ → ℤ → Job → Call
  job shutdown : String → Call
  wait_ready : ℕ → ℤ → ℤ → Call

-- A coroutine whose result is not looked at.
abbrev pub discard : {A : Type 0} → Step A → Step (Unit {0})
discard s = and_then s (λ _ c. returned tt c)

-- A coroutine that waits: for the response to the n-th request, or for a time to pass.
pub data Task : Type 0 where
  pending : ℕ → Request → (Exchange → Client → Step (Unit {0})) → Task
  asleep : ℕ → (Client → Step (Unit {0})) → Task

pub record Pool : Type 0 where
  pub client : Client
  pub tasks : List Task

-- A client on which nothing is running.
abbrev pub fresh : Client → Pool
fresh c = record { client = c; tasks = [] }

-- Behind a run of one coroutine, beside the tasks that wait.
abbrev pub suspend : Step (Unit {0}) → List Task → Pool
suspend (returned _ c) tasks = record { client = c; tasks = tasks }
suspend (awaits request c more) tasks = record {
  client = send request c;
  tasks = tasks ++ pending (length c.sent) request more ∷ [];
}
suspend (sleeps t c more) tasks = record { client = c; tasks = tasks ++ asleep t more ∷ [] }

module _ (sys : System) where
  unfoldable pub coroutine : Call → Client → Step (Unit {0})
  coroutine snapshot c = discard (async_snapshot sys c)
  coroutine settings c = discard (async_settings sys c)
  coroutine pending_edits c = discard (async_pending_edits sys c)
  coroutine liveness c = discard (async_liveness sys c)
  coroutine status c = discard (async_status sys c)
  coroutine capabilities c = discard (async_capabilities sys c)
  coroutine (save path options) c = discard (async_save sys path options c)
  coroutine (reload discards options) c = discard (async_reload sys discards options c)
  coroutine (update_settings path options) c = discard (async_update_settings sys path options c)
  coroutine (export_mappings path options) c = discard (async_export_mappings sys path options c)
  coroutine (import_mappings path options) c = discard (async_import_mappings sys path options c)
  coroutine (apply_edits items options) c = discard (async_apply_edits sys items options c)
  coroutine (rename ref name related options) c =
      discard (async_rename sys ref name related options c)
  coroutine (set_comment ref text options) c = discard (async_set_comment sys ref text options c)
  coroutine (rename_parameter ref index name snapshot_id options) c =
      discard (async_rename_parameter sys ref index name snapshot_id options c)
  coroutine (resolve ref) c = discard (async_resolve sys ref c)
  coroutine (resolve_object ref) c = discard (async_resolve_object sys ref c)
  coroutine (decompile ref representation strict mode annotations lines) c =
      discard (async_decompile sys ref representation strict mode annotations lines c)
  coroutine (control_flow ref strict options) c =
      discard (async_control_flow sys ref strict options c)
  coroutine (references ref direction view relations size cursor sites strict) c =
      discard (async_references sys ref direction view relations size cursor sites strict c)
  coroutine (search query domains mode cased size strict complete) c =
      discard (async_search sys query domains mode cased size strict complete c)
  coroutine (build_search_index request) c = discard (async_build_search_index sys request c)
  coroutine (class_pages fuel query) c = discard (async_class_pages sys fuel query c)
  coroutine (classes fuel query) c = discard (async_classes sys fuel query c)
  coroutine (reference_pages fuel query) c = discard (async_reference_pages sys fuel query c)
  coroutine (iterate fuel cursor) c = discard (async_iterate sys fuel cursor c)
  coroutine (refresh raw) c = discard (async_refresh sys raw c)
  coroutine (cancel raw) c = discard (async_cancel sys raw c)
  coroutine (wait fuel timeout interval raw) c =
      discard (async_wait sys fuel timeout interval raw c)
  coroutine (poll_updates fuel timeout interval raw) c =
      discard (async_poll_updates sys fuel timeout interval raw c)
  coroutine (job job_id) c = discard (async_job sys job_id c)
  coroutine (shutdown policy) c = discard (async_shutdown sys policy c)
  coroutine (wait_ready fuel timeout interval) c =
      discard (async_wait_ready sys fuel timeout interval c)

  -- What may happen next: a call starts, a response arrives, a pause ends, or the client is closed.
  pub data Moves (p : Pool) : Pool → Type 0 where
    starts : (call : Call) → Moves p (suspend (coroutine call p.client) p.tasks)
    answered :
        (before after : List Task) (n : ℕ) (request : Request)
        (more : Exchange → Client → Step (Unit {0}))
        → p.tasks ≡ before ++ pending n request more ∷ after
        → Moves p (suspend (more (sys.exchange n request) p.client) (before ++ after))
    wakes :
        (before after : List Task) (t : ℕ) (more : Client → Step (Unit {0}))
        → p.tasks ≡ before ++ asleep t more ∷ after
        → Moves p (suspend (more (sleep t p.client)) (before ++ after))
    closes : Moves p (record p { client = aclose p.client })

  -- What may have happened after any number of moves.
  pub data Later (p : Pool) : Pool → Type 0 where
    now : Later p p
    moved : {q r : Pool} → Later p q → Moves q r → Later p r
