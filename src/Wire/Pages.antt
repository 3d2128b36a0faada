-- ===== src/Wire/Pages.antt =====
-- The response models whose fields the SDK reads, with the types that the source declares. A field
-- of another model, or of an enumeration that the SDK only passes on, is a JSON value or its text.
use libjadx.Base.{ℕ, String, Bool, Option, List}
use libjadx.Wire.Json.{Json, Members, Omittable}
use libjadx.Wire.Codec.{Uuid}
use libjadx.Wire.ApiError.{ApiError}
use libjadx.Wire.Refs.{SymbolRef}

-- models/class_info.py
pub record ClassInfo : Type 0 where
  pub ref : SymbolRef
  pub original_dotted_name : String
  pub display_name : String
  pub display_qualified_name : String
  pub is_inner : Bool
  pub code_available : Bool
  pub provenance : String
  pub original_parent : Omittable (Option SymbolRef)

-- models/symbol_info.py
pub record SymbolInfo : Type 0 where
  pub ref : SymbolRef
  pub original_name : Option String
  pub original_descriptor : Option String
  pub display_name : String
  pub display_qualified_name : String
  pub provenance : String
  pub containing_class : Omittable (Option SymbolRef)

-- models/class_page.py
pub record ClassPage : Type 0 where
  pub session_id : Uuid
  pub logical_revision : ℕ
  pub snapshot_id : String
  pub scope : String
  pub source_coverage : String
  pub items : List ClassInfo
  pub next_cursor : Option String
  pub complete : Bool

-- models/reference_page.py
pub record ReferencePage : Type 0 where
  pub outcome : String
  pub queried_ref : SymbolRef
  pub direction : String
  pub candidates : List SymbolInfo
  pub session_id : Uuid
  pub logical_revision : ℕ
  pub snapshot_id : Option String
  pub scope : String
  pub coverage : String
  pub edges : List Json
  pub next_cursor : Option String
  pub page_complete : Bool
  pub capabilities : Json
  pub diagnostics : List String
  pub instruction_scan : Omittable (Option Json)

-- models/search_coverage.py
pub record SearchCoverage : Type 0 where
  pub domain : String
  pub availability : String
  pub state : String
  pub scope : String
  pub source_input_coverage : String
  pub eligible : ℕ
  pub indexed : ℕ
  pub pending : ℕ
  pub skipped : ℕ
  pub failed : ℕ
  pub evicted : ℕ
  pub diagnostics : List String

-- models/search_page.py; a hit is passed on
pub record SearchPage : Type 0 where
  pub session_id : String
  pub logical_revision : ℕ
  pub settings_fingerprint : String
  pub index_snapshot_id : String
  pub index_generation : ℕ
  pub result_snapshot_id : String
  pub coverage : List SearchCoverage
  pub hits : List Json
  pub next_cursor : Option String
  pub page_complete : Bool
  pub diagnostics : List String

-- models/search_index_status.py
pub record SearchIndexStatus : Type 0 where
  pub session_id : String
  pub logical_revision : ℕ
  pub settings_fingerprint : String
  pub index_snapshot_id : String
  pub index_generation : ℕ
  pub coverage : List SearchCoverage

-- models/symbol_resolution.py
pub record SymbolResolution : Type 0 where
  pub outcome : String
  pub queried_ref : SymbolRef
  pub session_id : Uuid
  pub logical_revision : ℕ
  pub snapshot_id : String
  pub candidates : List SymbolInfo
  pub diagnostics : List String
  pub symbol : Omittable (Option SymbolInfo)

-- models/service_status.py
pub record ServiceStatus : Type 0 where
  pub state : String
  pub stage : String
  pub progress : Json
  pub inputs : List String
  pub project_path : Omittable (Option String)
  pub error : Omittable (Option ApiError)
  pub additional_properties : Members
