-- ===== src/Async/Alone.antt =====
-- A coroutine of the asynchronous SDK that runs alone on its client, beside the function of the
-- synchronous one.
pub mod Edits
pub mod Lookups
use libjadx.Base.{
  if◌then◌else◌, [], none, ℕ, String, Bool, true, false, not, ◌&&◌, Option, List, ◌≡◌, refl,
  Bool-cases, inl, inr, ◌∙◌,
}
use libjadx.Wire.Json.{Omittable}
use libjadx.Wire.Codec.{Uuid}
use libjadx.Wire.Refs.{SymbolRef}
use libjadx.Wire.Requests.{EditOperation, SearchBuildRequest}
use libjadx.Errors.{Exception, Result, ok, raise}
use libjadx.Revisions.Expected.{Preconditions, Expected, expected, required}
use libjadx.Client.{System, Client, Exec, Expects, Request, invoke}
use libjadx.Project.{first, with_expected, with_required, as_method, is_method_kind, needs_pair}
use libjadx.Project
use libjadx.Project.Reads.{then_check, enum}
use libjadx.Project.Reads
use libjadx.Symbols.{
  RawSymbol, reference, rename_symbol, symbol_references, decompile_symbol, symbol_control_flow,
}
use libjadx.Async.{
  Step, returned, Async, and_then, async_invoke, run_alone, run_alone-async_invoke,
  run_alone-and_then, continued,
}
use libjadx.Async.Project.{
  async_first, async_expected, async_required, async_snapshot, async_settings, async_pending_edits,
  async_save, async_reload, async_update_settings, async_export_mappings, async_import_mappings,
  async_apply_edits, async_rename, async_set_comment, async_rename_parameter,
}
use libjadx.Async.Reads.{
  async_check, async_resolve, async_resolve_object, async_decompile, async_control_flow,
  async_references, async_search, async_build_search_index, async_rename_symbol,
  async_symbol_references, async_decompile_symbol, async_symbol_control_flow,
}

-- A coroutine that runs alone does what the function does.
pub record Same (sys : System) {A : Type 0} (f : Async A) (g : Exec A) : Type 0 where
  pub alone : (c : Client) → run_alone sys (f c) ≡ g c

module _ (sys : System) where
  pub invoke-Same :
      {A : Type 0} (expects : Expects A) (request : Request)
      → Same sys (async_invoke sys expects request) (invoke sys expects request)
  invoke-Same expects request = record { alone = λ c. run_alone-async_invoke sys expects request c }

  pub first-Same :
      {A B : Type 0} (r : Result A) {f : A → Async B} {g : A → Exec B}
      → ((a : A) → Same sys (f a) (g a))
      → Same sys (async_first r f) (first r g)
  unfolding run_alone
  first-Same (raise e) h = record { alone = λ c. refl }
  first-Same (ok a) h = record { alone = λ c. (h a).alone c }

  pub expected-Same :
      {B : Type 0} (needs : Bool) (options : Preconditions) {f : Expected → Async B}
      {g : Expected → Exec B}
      → ((p : Expected) → Same sys (f p) (g p))
      → Same sys (async_expected sys needs options f) (with_expected sys needs options g)
  expected-Same needs options h = record {
    alone = λ c. (first-Same (expected sys.codec options needs c.revisions) h).alone c;
  }

  pub required-Same :
      {B : Type 0} (options : Preconditions) {f : Uuid × ℕ → Async B} {g : Uuid × ℕ → Exec B}
      → ((p : Uuid × ℕ) → Same sys (f p) (g p))
      → Same sys (async_required sys options f) (with_required sys options g)
  required-Same options h = record {
    alone = λ c. (first-Same (required sys.codec options c.revisions) h).alone c;
  }

  checked :
      {A B : Type 0} (k : A → Result B) (x : Result A × Client)
      → continued sys (async_check k) x ≡ then_check k x
  unfolding run_alone
  checked k (raise e, c) = refl
  checked k (ok a, c) = refl

  pub check-Same :
      {A B : Type 0} (k : A → Result B) {f : Async A} {g : Exec A}
      → Same sys f g
      → Same sys (λ c. and_then (f c) (async_check k)) (λ c. then_check k (g c))
  check-Same k {f} {g} h = record {
    alone = λ c. run_alone-and_then sys (f c) (async_check k) ∙ rw (h.alone c) (checked k (g c));
  }

  pub unless-Same :
      {A : Type 0} (b : Bool) {f f' : Async A} {g g' : Exec A}
      → Same sys f g
      → Same sys f' g'
      → Same sys (λ c. if b then f c else f' c) (λ c. if b then g c else g' c)
  unless-Same true h k = record { alone = λ c. h.alone c }
  unless-Same false h k = record { alone = λ c. k.alone c }

  pub raise-Same :
      {A : Type 0} (e : Exception)
      → Same sys {A = A} (λ c. returned (raise e) c) (λ c. (raise e, c))
  unfolding run_alone
  raise-Same e = record { alone = λ c. refl }
