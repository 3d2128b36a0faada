-- ===== src/Symbols.antt =====
-- python/src/libjadx/symbols.py: the handles of classes, methods and fields. A handle is its raw record;
-- the project that it holds is the client of the calls. An argument that a handle does not pass on has
-- the default of the method that it calls.
use libjadx.Base.{String, Bool, true, false, Option, none, some}
use libjadx.Wire.Json.{unset}
use libjadx.Wire.Pages.{ClassInfo, SymbolInfo, ReferencePage}
use libjadx.Wire.Refs.{SymbolRef}
use libjadx.Revisions.{Observable}
use libjadx.Revisions.Expected.{Preconditions}
use libjadx.Client.{System, Exec}
use libjadx.Project
use libjadx.Project.Reads

-- `self.raw` of a `_Symbol`
pub data RawSymbol : Type 0 where
  class_info : ClassInfo → RawSymbol
  symbol_info : SymbolInfo → RawSymbol

-- `self.ref`, which `reference` gives too
unfoldable pub reference : RawSymbol → SymbolRef
reference (class_info r) = r.ref
reference (symbol_info r) = r.ref

unfoldable pub display_name : RawSymbol → String
display_name (class_info r) = r.display_name
display_name (symbol_info r) = r.display_name

unfoldable pub original_name : RawSymbol → Option String
original_name (class_info r) = some r.original_dotted_name
original_name (symbol_info r) = r.original_name

module _ (sys : System) where
  -- `_BoundSymbol.rename`
  unfoldable pub rename_symbol : RawSymbol → String → Bool → Preconditions → Exec Observable
  unfolding reference
  rename_symbol s new_name propagate_related options =
      Project.rename sys (reference s) new_name propagate_related options

  -- `_BoundSymbol.references`
  unfoldable pub symbol_references : RawSymbol → String → String → Bool → Bool → Exec ReferencePage
  unfolding reference
  symbol_references s direction view strict include_source_sites =
      Reads.references sys (reference s) direction view none 50 none include_source_sites strict

  -- `JavaClass.decompile` and `JavaMethod.decompile`
  unfoldable pub decompile_symbol : RawSymbol → Bool → Exec Observable
  unfolding reference
  decompile_symbol s strict = Reads.decompile sys (reference s) "JAVA" strict unset true false

  -- `JavaMethod.control_flow`
  unfoldable pub symbol_control_flow : RawSymbol → Bool → Preconditions → Exec Observable
  unfolding reference
  symbol_control_flow s strict options = Reads.control_flow sys (reference s) strict options
