-- ===== src/Async/Pool/Every.antt =====
-- Every method of the asynchronous SDK, as a coroutine that keeps a relation on the client.
use libjadx.Base.{ℕ, String, Bool, false, none, [], ◌∷◌, ◌≡◌, refl, member}
use libjadx.Wire.Json.{Omittable}
use libjadx.Wire.Refs.{SymbolRef}
use libjadx.Wire.Requests.{ReferenceQuery, EditOperation, rename, set_comment, rename_parameter}
use libjadx.Errors.{value_error, or_raise}
use libjadx.Client.{Request, System, Client, Expects, get_job}
use libjadx.Project.Paired.{pair_of}
use libjadx.Jobs.{as_job}
use libjadx.Async.{Step, async_invoke}
use libjadx.Async.Project.{
  async_snapshot, async_save, async_reload, async_update_settings, async_export_mappings,
  async_import_mappings, async_set_comment,
}
use libjadx.Pages.{SearchCursor}
use libjadx.Wire.Requests
use libjadx.Async.Service.{async_status}
use libjadx.Async.Pool.Calls.{
  IsWhole, unpaired-IsWhole, async_first-Keeps, plain-Keeps, async_apply_edits-Keeps,
}
use libjadx.Async.Pool.{Call, discard, coroutine}
use libjadx.Async.Pool
use libjadx.Async.Project.{async_settings, async_pending_edits}
use libjadx.Async.Reads.{async_resolve_object, async_decompile, async_build_search_index}
use libjadx.Project.Reads.{enum?, decompilation_modes}
use libjadx.Service.{shutdown_policies}
use libjadx.Pages.{is_clonable}
use libjadx.Async.Pages.{async_classes, async_reference_pages, async_search_pages, async_iterate}
use libjadx.Async.Jobs.{async_cancel}
use libjadx.Async.Service.{async_liveness, async_capabilities, async_job, async_shutdown}
use libjadx.Async.Pool.Calls.{expected-Keeps, required-Keeps}
use libjadx.Async.Pool.Methods.{
  async_rename-Keeps, async_rename_parameter-Keeps, async_control_flow-Keeps, async_resolve-Keeps,
  async_check-Keeps, async_references-Keeps, async_search-Keeps, async_class_pages-Keeps,
  async_refresh-Keeps, async_wait-Keeps, async_poll_updates-Keeps, async_wait_ready-Keeps,
}
use libjadx.Async.Pool.Keeps.{
  Keeps, at_end, and_then-Keeps, if-Keeps, IsKept, async_walk-Keeps, async_walk_all-Keeps,
}

module _ (sys : System) {P : Client → Client → Type 0} (kept : IsKept P IsWhole) where
  discard-Keeps : {A : Type 0} {b : Client} {s : Step A} → Keeps P b s → Keeps P b (discard s)
  discard-Keeps h = and_then-Keeps P h (λ d e a p. at_end p)

  plain :
      {A : Type 0} {b : Client} (expects : Expects A) (request : Request) (c : Client)
      → pair_of request ≡ none
      → P b c
      → Keeps P b (discard (async_invoke sys expects request c))
  plain expects request c e p = discard-Keeps (plain-Keeps sys kept expects request c e p)

  async_reference_pages-Keeps :
      {b : Client} (fuel : ℕ) (query : ReferenceQuery) (c : Client)
      → P b c
      → Keeps P b (async_reference_pages sys fuel query c)
  unfolding async_reference_pages
  async_reference_pages-Keeps fuel query c p =
      if-Keeps P (is_clonable query)
        (async_walk_all-Keeps sys kept _ _ _ _ _ (λ cursor. unpaired-IsWhole _ refl) fuel _ c
          (unpaired-IsWhole _ refl) p)
        (at_end p)

  async_search_pages-Keeps :
      {b : Client} (fuel : ℕ) (cursor : SearchCursor) (c : Client)
      → P b c
      → Keeps P b (async_search_pages sys fuel cursor c)
  unfolding async_search_pages
  async_search_pages-Keeps fuel cursor c p = if-Keeps P cursor.started (at_end p) (
      async_walk-Keeps sys kept _ _ _ _ _ (λ text. unpaired-IsWhole _ refl) fuel [] 0 cursor.raw c
        p)

  async_decompile-Keeps :
      {b : Client} (ref : SymbolRef) (representation : String) (strict : Bool)
      (mode : Omittable String) (annotations lines : Bool) (c : Client)
      → P b c
      → Keeps P b (async_decompile sys ref representation strict mode annotations lines c)
  unfolding async_decompile
  async_decompile-Keeps ref representation strict mode annotations lines c p =
      async_first-Keeps sys kept (enum? decompilation_modes mode) _ c p
        (λ m _. plain-Keeps sys kept _ _ c refl p)

  async_job-Keeps :
      {b : Client} (job_id : String) (c : Client) → P b c → Keeps P b (async_job sys job_id c)
  unfolding async_job
  async_job-Keeps job_id c p =
      async_first-Keeps sys kept
        (or_raise (sys.codec.uuid_of job_id) (value_error "badly formed hexadecimal UUID string"))
        (λ u. async_invoke sys as_job (get_job u)) c p
        (λ u _. plain-Keeps sys kept as_job (get_job u) c refl p)

  async_shutdown-Keeps :
      {b : Client} (policy : String) (c : Client) → P b c → Keeps P b (async_shutdown sys policy c)
  unfolding async_shutdown
  async_shutdown-Keeps policy c p =
      if-Keeps P (member policy shutdown_policies) (plain-Keeps sys kept _ _ c refl p) (at_end p)

  -- Whatever is called, and on whatever client, the coroutine keeps the relation.
  pub coroutine-Keeps :
      {b : Client} (call : Call) (c : Client) → P b c → Keeps P b (coroutine sys call c)
  unfolding coroutine async_snapshot async_settings async_pending_edits async_liveness async_status
      async_capabilities async_save async_reload async_update_settings async_export_mappings
      async_import_mappings async_set_comment async_resolve_object async_build_search_index
      async_classes async_iterate async_cancel
  coroutine-Keeps Pool.snapshot c p = plain _ _ c refl p
  coroutine-Keeps Pool.settings c p = plain _ _ c refl p
  coroutine-Keeps Pool.pending_edits c p = plain _ _ c refl p
  coroutine-Keeps Pool.liveness c p = plain _ _ c refl p
  coroutine-Keeps Pool.status c p = plain _ _ c refl p
  coroutine-Keeps Pool.capabilities c p = plain _ _ c refl p
  coroutine-Keeps (Pool.save path options) c p =
      discard-Keeps (expected-Keeps sys kept _ _ false options c (λ q. refl) (λ q. refl) p)
  coroutine-Keeps (Pool.reload discards options) c p =
      discard-Keeps (required-Keeps sys kept _ _ options c (λ q. refl) p)
  coroutine-Keeps (Pool.update_settings path options) c p =
      discard-Keeps (required-Keeps sys kept _ _ options c (λ q. refl) p)
  coroutine-Keeps (Pool.export_mappings path options) c p =
      discard-Keeps (required-Keeps sys kept _ _ options c (λ q. refl) p)
  coroutine-Keeps (Pool.import_mappings path options) c p =
      discard-Keeps (required-Keeps sys kept _ _ options c (λ q. refl) p)
  coroutine-Keeps (Pool.apply_edits items options) c p =
      discard-Keeps (async_apply_edits-Keeps sys kept items options c p)
  coroutine-Keeps (Pool.rename ref name related options) c p =
      discard-Keeps (async_rename-Keeps sys kept ref name related options c p)
  coroutine-Keeps (Pool.set_comment ref text options) c p =
      discard-Keeps
        (async_apply_edits-Keeps sys kept (Requests.set_comment ref text "LINE" ∷ []) options c p)
  coroutine-Keeps (Pool.rename_parameter ref index name snapshot_id options) c p =
      discard-Keeps (async_rename_parameter-Keeps sys kept ref index name snapshot_id options c p)
  coroutine-Keeps (Pool.resolve ref) c p = discard-Keeps (async_resolve-Keeps sys kept ref c p)
  coroutine-Keeps (Pool.resolve_object ref) c p =
      discard-Keeps
        (and_then-Keeps P (async_resolve-Keeps sys kept ref c p) (async_check-Keeps sys kept _))
  coroutine-Keeps (Pool.decompile ref representation strict mode annotations lines) c p =
      discard-Keeps (async_decompile-Keeps ref representation strict mode annotations lines c p)
  coroutine-Keeps (Pool.control_flow ref strict options) c p =
      discard-Keeps (async_control_flow-Keeps sys kept ref strict options c p)
  coroutine-Keeps (Pool.references ref direction view relations size cursor sites strict) c p =
      discard-Keeps
        (async_references-Keeps sys kept ref direction view relations size cursor sites strict c p)
  coroutine-Keeps (Pool.search query domains mode cased size strict complete) c p =
      discard-Keeps (async_search-Keeps sys kept query domains mode cased size strict complete c p)
  coroutine-Keeps (Pool.build_search_index request) c p =
      discard-Keeps
        (and_then-Keeps P (plain-Keeps sys kept _ _ c refl p) (async_check-Keeps sys kept _))
  coroutine-Keeps (Pool.class_pages fuel query) c p =
      discard-Keeps (async_class_pages-Keeps sys kept fuel query c p)
  coroutine-Keeps (Pool.classes fuel query) c p =
      discard-Keeps
        (and_then-Keeps P (async_class_pages-Keeps sys kept fuel query c p) (λ d e a q. at_end q))
  coroutine-Keeps (Pool.reference_pages fuel query) c p =
      discard-Keeps (async_reference_pages-Keeps fuel query c p)
  coroutine-Keeps (Pool.iterate fuel cursor) c p =
      discard-Keeps
        (and_then-Keeps P (async_search_pages-Keeps fuel cursor c p) (λ d e a q. at_end q))
  coroutine-Keeps (Pool.refresh raw) c p = discard-Keeps (async_refresh-Keeps sys kept raw c p)
  coroutine-Keeps (Pool.cancel raw) c p = plain _ _ c refl p
  coroutine-Keeps (Pool.wait fuel timeout interval raw) c p =
      discard-Keeps (async_wait-Keeps sys kept fuel timeout interval raw c p)
  coroutine-Keeps (Pool.poll_updates fuel timeout interval raw) c p =
      discard-Keeps (async_poll_updates-Keeps sys kept fuel timeout interval raw c p)
  coroutine-Keeps (Pool.job job_id) c p = discard-Keeps (async_job-Keeps job_id c p)
  coroutine-Keeps (Pool.shutdown policy) c p = discard-Keeps (async_shutdown-Keeps policy c p)
  coroutine-Keeps (Pool.wait_ready fuel timeout interval) c p =
      discard-Keeps (async_wait_ready-Keeps sys kept fuel timeout interval c p)
