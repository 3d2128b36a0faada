-- ===== src/Async/Pool/Methods.antt =====
-- The longer methods of the asynchronous SDK, as coroutines that keep a property of the client.
use libjadx.Base.{
  ℕ, String, Bool, true, false, not, ◌&&◌, Option, none, some, List, [], ◌∷◌, inl, inr, refl,
  str_eq, member, ℤ,
}
use libjadx.Wire.Json.{given}
use libjadx.Wire.Job.{Job}
use libjadx.Wire.Pages.{ServiceStatus}
use libjadx.Wire.Refs.{SymbolRef}
use libjadx.Wire.Requests.{EditOperation, rename, set_comment, rename_parameter}
use libjadx.Errors.{Result, ok, raise, job_wait_timeout, wait_ready_timeout}
use libjadx.Sse.{is_terminal}
use libjadx.Revisions.Expected.{Preconditions, expected, expected_paired}
use libjadx.Client.{System, Client}
use libjadx.Client.Poll.{polling, deadline_of}
use libjadx.Project.{is_method_kind, as_method}
use libjadx.Project.Paired.{cases_of}
use libjadx.Jobs.{terminal}
use libjadx.Async.Project.{async_rename, async_rename_parameter}
use libjadx.Pages.{ClassQuery, class_request, is_below_one, name_domains}
use libjadx.Wire.Requests
use libjadx.Project.Reads.{
  enum, enums?, query_directions, query_views, reference_relations, search_domains, match_modes,
}
use libjadx.Async.Reads.{
  async_check, async_resolve, async_control_flow, async_references, async_search,
}
use libjadx.Async.Pages.{async_class_pages}
use libjadx.Async.Jobs.{
  async_refresh, refreshed_turn, start_turn, updated_turn, async_wait_round, async_wait,
  async_updates_round, async_poll_updates,
}
use libjadx.Async.Service.{ready_turn, async_ready_round, async_status, async_wait_ready}
use libjadx.Async.Pool.Calls.{
  IsWhole, unpaired-IsWhole, paired-IsWhole, async_first-Keeps, plain-Keeps,
  async_apply_edits-Keeps,
}
use libjadx.Async.Pool.Keeps.{
  Keeps, at_end, and_then-Keeps, if-Keeps, IsKept, async_invoke-Keeps, async_poll-Keeps,
  async_walk_all-Keeps,
}

module _ (sys : System) {P : Client → Client → Type 0} (kept : IsKept P IsWhole) where
  pub async_rename-Keeps :
      {b : Client} (ref : SymbolRef) (name : String) (related : Bool) (options : Preconditions)
      (c : Client)
      → P b c
      → Keeps P b (async_rename sys ref name related options c)
  unfolding async_rename
  async_rename-Keeps ref name related options c p =
      if-Keeps P (related && not (is_method_kind ref.kind)) (at_end p) (
        async_apply_edits-Keeps sys kept (Requests.rename ref name (given related) ∷ []) options c
          p)

  pub async_rename_parameter-Keeps :
      {b : Client} (ref : SymbolRef) (index : ℕ) (name snapshot : String) (options : Preconditions)
      (c : Client)
      → P b c
      → Keeps P b (async_rename_parameter sys ref index name snapshot options c)
  unfolding async_rename_parameter
  async_rename_parameter-Keeps ref index name snapshot options c p =
      if-Keeps P (is_method_kind ref.kind)
        (async_first-Keeps sys kept (as_method ref) _ c p (λ m _.
          async_apply_edits-Keeps sys kept (Requests.rename_parameter m index snapshot name ∷ [])
            options c p))
        (at_end p)

  pub async_control_flow-Keeps :
      {b : Client} (ref : SymbolRef) (strict : Bool) (options : Preconditions) (c : Client)
      → P b c
      → Keeps P b (async_control_flow sys ref strict options c)
  unfolding async_control_flow
  async_control_flow-Keeps ref strict options c p =
      if-Keeps P (is_method_kind ref.kind)
        (async_first-Keeps sys kept (expected sys.codec options false c.revisions) _ c p
          (λ pair good.
            let (w, _) = expected_paired sys.codec options false c.revisions good in
            async_first-Keeps sys kept (as_method ref) _ c p (λ m _.
              async_invoke-Keeps sys kept _ _ c (paired-IsWhole _ pair refl w (inl refl)) p)))
        (at_end p)

  pub async_resolve-Keeps :
      {b : Client} (ref : SymbolRef) (c : Client) → P b c → Keeps P b (async_resolve sys ref c)
  unfolding async_resolve
  async_resolve-Keeps ref c p = plain-Keeps sys kept _ _ c refl p

  pub async_check-Keeps :
      {A B : Type 0} (k : A → Result B) (b c : Client) (r : Result A)
      → P b c
      → Keeps P b (async_check k r c)
  async_check-Keeps k b c (raise e) p = at_end p
  async_check-Keeps k b c (ok a) p = at_end p

  pub async_references-Keeps :
      {b : Client} (ref : SymbolRef) (direction view : String) (relations : Option (List String))
      (size : ℕ) (cursor : Option String) (sites strict : Bool) (c : Client)
      → P b c
      → Keeps P b (async_references sys ref direction view relations size cursor sites strict c)
  unfolding async_references
  async_references-Keeps ref direction view relations size cursor sites strict c p =
      async_first-Keeps sys kept (enum query_directions direction) _ c p (λ d _.
        async_first-Keeps sys kept (enum query_views view) _ c p (λ v _.
          async_first-Keeps sys kept (enums? reference_relations relations) _ c p
            (λ rs _. plain-Keeps sys kept _ _ c refl p)))

  pub async_search-Keeps :
      {b : Client} (query : String) (domains : Option (List String)) (mode : String) (cased : Bool)
      (size : ℕ) (strict complete : Bool) (c : Client)
      → P b c
      → Keeps P b (async_search sys query domains mode cased size strict complete c)
  unfolding async_search
  async_search-Keeps query domains mode cased size strict complete c p =
      async_first-Keeps sys kept (enums? search_domains domains) _ c p (λ ds _.
        async_first-Keeps sys kept (enum match_modes mode) _ c p
          (λ m _. and_then-Keeps P (plain-Keeps sys kept _ _ c refl p) (async_check-Keeps _)))

  pub async_class_pages-Keeps :
      {b : Client} (fuel : ℕ) (q : ClassQuery) (c : Client)
      → P b c
      → Keeps P b (async_class_pages sys fuel q c)
  unfolding async_class_pages class_request
  async_class_pages-Keeps fuel q c p = if-Keeps P (is_below_one q.max_pages) (at_end p) (
      if-Keeps P (member q.name_domain name_domains)
        (async_walk_all-Keeps sys kept _ _ _ _ _ (λ cursor. unpaired-IsWhole _ refl) fuel _ c
          (unpaired-IsWhole _ refl) p)
        (at_end p))

  pub async_refresh-Keeps :
      {b : Client} (raw : Job) (c : Client) → P b c → Keeps P b (async_refresh sys raw c)
  unfolding async_refresh
  async_refresh-Keeps raw c p = plain-Keeps sys kept _ _ c refl p

  refreshed_turn-Keeps :
      (raw : Job) (b c : Client) (r : Result Job) → P b c → Keeps P b (refreshed_turn sys raw r c)
  refreshed_turn-Keeps raw b c (raise e) p = at_end p
  refreshed_turn-Keeps raw b c (ok raw') p = at_end p

  start_turn-Keeps :
      {b : Client} (x : Result Bool) (raw : Job) (c : Client)
      → P b c
      → Keeps P b (start_turn sys x raw c)
  start_turn-Keeps (raise e) raw c p = at_end p
  start_turn-Keeps (ok true) raw c p = at_end p
  start_turn-Keeps (ok false) raw c p =
      and_then-Keeps P (async_refresh-Keeps raw c p) (refreshed_turn-Keeps raw)

  updated_turn-Keeps :
      (s : Job × List Job) (b c : Client) (r : Result Job)
      → P b c
      → Keeps P b (updated_turn sys s r c)
  updated_turn-Keeps s b c (raise e) p = at_end p
  updated_turn-Keeps s b c (ok raw) p = if-Keeps P (is_terminal raw.state) (at_end p) (at_end p)

  ready_turn-Keeps :
      (b c : Client) (r : Result ServiceStatus) → P b c → Keeps P b (ready_turn sys r c)
  ready_turn-Keeps b c (raise e) p = at_end p
  ready_turn-Keeps b c (ok s) p =
      if-Keeps P (str_eq s.state "READY") (at_end p)
        (if-Keeps P (str_eq s.state "FAILED") (at_end p) (at_end p))

  deadline-kept :
      {b : Client} (limit : Option ℕ) (c : Client) → P b c → P b (deadline_of sys limit c).1
  unfolding deadline_of
  deadline-kept none c p = p
  deadline-kept (some t) c p = kept.reads _ c p

  pub async_wait-Keeps :
      {b : Client} (fuel : ℕ) (timeout : Option ℤ) (interval : ℤ) (raw : Job) (c : Client)
      → P b c
      → Keeps P b (async_wait sys fuel timeout interval raw c)
  unfolding async_wait async_wait_round
  async_wait-Keeps fuel timeout interval raw c p = elim (cases_of (polling timeout interval)) [
    | inl (e, bad) ↦ rw (async_wait, bad) (at_end p)
    | inr ((limit, pause), good) ↦
        rw (async_wait, good)
          (async_poll-Keeps sys kept job_wait_timeout (async_wait_round sys)
            (λ d e raw' q. start_turn-Keeps (terminal sys.codec raw') raw' e q) fuel _ pause raw _
            (deadline-kept limit c p))
  ]

  pub async_poll_updates-Keeps :
      {b : Client} (fuel : ℕ) (timeout : Option ℤ) (interval : ℤ) (raw : Job) (c : Client)
      → P b c
      → Keeps P b (async_poll_updates sys fuel timeout interval raw c)
  unfolding async_poll_updates async_updates_round
  async_poll_updates-Keeps fuel timeout interval raw c p =
      elim (cases_of (polling timeout interval)) [
        | inl (e, bad) ↦ rw (async_poll_updates, bad) (at_end p)
        | inr ((limit, pause), good) ↦
            rw (async_poll_updates, good)
              (async_poll-Keeps sys kept job_wait_timeout (async_updates_round sys)
                (λ d e s q. and_then-Keeps P (async_refresh-Keeps s.0 e q) (updated_turn-Keeps s))
                fuel _ pause (raw, []) _ (deadline-kept limit c p))
      ]

  pub async_wait_ready-Keeps :
      {b : Client} (fuel : ℕ) (timeout interval : ℤ) (c : Client)
      → P b c
      → Keeps P b (async_wait_ready sys fuel timeout interval c)
  unfolding async_wait_ready async_ready_round async_status
  async_wait_ready-Keeps fuel timeout interval c p =
      elim (cases_of (polling (some timeout) interval)) [
        | inl (e, bad) ↦ rw (async_wait_ready, bad) (at_end p)
        | inr ((limit, pause), good) ↦
            rw (async_wait_ready, good)
              (async_poll-Keeps sys kept wait_ready_timeout (async_ready_round sys)
                (λ d e u q. and_then-Keeps P (plain-Keeps sys kept _ _ e refl q) ready_turn-Keeps)
                fuel _ pause tt _ (deadline-kept limit c p))
      ]
