-- ===== src/Async/Alone/Lookups.antt =====
-- The methods of `AsyncProject` that read, and the asynchronous handles, running alone.
use libjadx.Base.{none, ℕ, String, Bool, true, false, Option, List}
use libjadx.Wire.Json.{Omittable, unset}
use libjadx.Wire.Refs.{SymbolRef}
use libjadx.Wire.Requests.{SearchBuildRequest}
use libjadx.Revisions.Expected.{Preconditions}
use libjadx.Client.{System}
use libjadx.Project.{first, with_expected, with_required, as_method, is_method_kind, needs_pair}
use libjadx.Project
use libjadx.Project.Reads.{
  enum, enum?, enums?, decompilation_modes, query_directions, query_views, reference_relations,
  search_domains, match_modes, searched,
}
use libjadx.Project.Reads
use libjadx.Symbols.{
  RawSymbol, reference, rename_symbol, symbol_references, decompile_symbol, symbol_control_flow,
}
use libjadx.Async.Project.{async_snapshot, async_settings, async_pending_edits}
use libjadx.Async.Reads.{
  async_resolve, async_resolve_object, async_decompile, async_control_flow, async_references,
  async_search, async_build_search_index, async_rename_symbol, async_symbol_references,
  async_decompile_symbol, async_symbol_control_flow,
}
use libjadx.Async.Alone.{
  Same, invoke-Same, first-Same, expected-Same, check-Same, unless-Same, raise-Same,
}
use libjadx.Async.Alone.Edits.{rename-Same}

module _ (sys : System) where
  resolve-Same : (ref : SymbolRef) → Same sys (async_resolve sys ref) (Reads.resolve sys ref)
  unfolding async_resolve Reads.resolve
  resolve-Same ref = invoke-Same sys _ _

  decompile-Same :
      (ref : SymbolRef) (representation : String) (strict : Bool) (mode : Omittable String)
      (annotations debug_lines : Bool)
      → Same sys
          (async_decompile sys ref representation strict mode annotations debug_lines)
          (Reads.decompile sys ref representation strict mode annotations debug_lines)
  unfolding async_decompile Reads.decompile
  decompile-Same ref representation strict mode annotations debug_lines =
      first-Same sys (enum? decompilation_modes mode) (λ m. invoke-Same sys _ _)

  control_flow-Same :
      (ref : SymbolRef) (strict : Bool) (options : Preconditions)
      → Same sys
          (async_control_flow sys ref strict options)
          (Reads.control_flow sys ref strict options)
  unfolding async_control_flow Reads.control_flow
  control_flow-Same ref strict options =
      unless-Same sys (is_method_kind ref.kind)
        (expected-Same sys false options
          (λ p. first-Same sys (as_method ref) (λ m. invoke-Same sys _ _)))
        (raise-Same sys _)

  references-Same :
      (ref : SymbolRef) (direction view : String) (relations : Option (List String)) (size : ℕ)
      (cursor : Option String) (sites strict : Bool)
      → Same sys
          (async_references sys ref direction view relations size cursor sites strict)
          (Reads.references sys ref direction view relations size cursor sites strict)
  unfolding async_references Reads.references
  references-Same ref direction view relations size cursor sites strict =
      first-Same sys (enum query_directions direction) (λ d.
        first-Same sys (enum query_views view)
          (λ v. first-Same sys (enums? reference_relations relations) (λ rs. invoke-Same sys _ _)))

  search-Same :
      (query : String) (domains : Option (List String)) (mode : String) (cased : Bool) (size : ℕ)
      (strict complete : Bool)
      → Same sys
          (async_search sys query domains mode cased size strict complete)
          (Reads.search sys query domains mode cased size strict complete)
  unfolding async_search Reads.search
  search-Same query domains mode cased size strict complete =
      first-Same sys (enums? search_domains domains) (λ ds.
        first-Same sys (enum match_modes mode)
          (λ m. check-Same sys (searched _) (invoke-Same sys _ _)))

  -- Each asynchronous method that reads (the resolutions, decompilation, control flow, references,
  -- the searches, the state of the project) does, when it runs alone, exactly what the method of
  -- `Project` does, and so does each asynchronous handle of a symbol.
  pub lookups-Same :
      (ref : SymbolRef) (symbol : RawSymbol) (text direction view : String)
      (mode : Omittable String) (texts : Option (List String)) (cursor : Option String) (size : ℕ)
      (a b d : Bool) (options : Preconditions) (request : Option SearchBuildRequest)
      → Same sys (async_snapshot sys) (Project.snapshot sys)
        × Same sys (async_settings sys) (Project.settings sys)
        × Same sys (async_pending_edits sys) (Project.pending_edits sys)
        × Same sys (async_resolve_object sys ref) (Reads.resolve_object sys ref)
        × Same sys
            (async_decompile sys ref text a mode b d)
            (Reads.decompile sys ref text a mode b d)
        × Same sys (async_control_flow sys ref a options) (Reads.control_flow sys ref a options)
        × Same sys
            (async_references sys ref direction view texts size cursor a b)
            (Reads.references sys ref direction view texts size cursor a b)
        × Same sys
            (async_search sys text texts view a size b d)
            (Reads.search sys text texts view a size b d)
        × Same sys (async_build_search_index sys request) (Reads.build_search_index sys request)
        × Same sys
            (async_rename_symbol sys symbol text a options)
            (rename_symbol sys symbol text a options)
        × Same sys
            (async_symbol_references sys symbol direction view a b)
            (symbol_references sys symbol direction view a b)
        × Same sys (async_decompile_symbol sys symbol a) (decompile_symbol sys symbol a)
        × Same sys
            (async_symbol_control_flow sys symbol a options)
            (symbol_control_flow sys symbol a options)
  unfolding async_snapshot Project.snapshot async_settings Project.settings async_pending_edits
      Project.pending_edits async_resolve_object Reads.resolve_object async_build_search_index
      Reads.build_search_index async_rename_symbol rename_symbol async_symbol_references
      symbol_references async_decompile_symbol decompile_symbol async_symbol_control_flow
      symbol_control_flow
  lookups-Same ref symbol text direction view mode texts cursor size a b d options request = (
    invoke-Same sys _ _,
    invoke-Same sys _ _,
    invoke-Same sys _ _,
    check-Same sys _ (resolve-Same ref),
    decompile-Same ref text a mode b d,
    control_flow-Same ref a options,
    references-Same ref direction view texts size cursor a b,
    search-Same text texts view a size b d,
    check-Same sys _ (invoke-Same sys _ _),
    rename-Same sys (reference symbol) text a options,
    references-Same (reference symbol) direction view none 50 none b a,
    decompile-Same (reference symbol) "JAVA" a unset true false,
    control_flow-Same (reference symbol) a options,
  )
