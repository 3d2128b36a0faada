-- ===== src/Wire/Requests.antt =====
-- The request models that the SDK builds, with the types that the source declares. Enumerations of
-- the request side are their texts, a literal field stands in the constructor or the comment, and the
-- additional properties of a request, which the SDK leaves empty, are left out.
use libjadx.Base.{ℕ, String, Bool, Option, List}
use libjadx.Wire.Json.{Omittable}
use libjadx.Wire.Codec.{Uuid}
use libjadx.Wire.Refs.{SymbolRef, MethodSymbolRef}

-- models/save_project_request.py
pub record SaveProjectRequest : Type 0 where
  pub target_path : Omittable String
  pub expected_logical_revision : Omittable ℕ
  pub expected_session_id : Omittable Uuid

-- models/reload_project_request.py
pub record ReloadProjectRequest : Type 0 where
  pub discard_unsaved : Bool
  pub expected_session_id : Uuid
  pub expected_logical_revision : ℕ

-- models/update_project_settings_request.py
pub record UpdateProjectSettingsRequest : Type 0 where
  pub mappings_path : Option String
  pub expected_logical_revision : ℕ
  pub expected_session_id : Uuid

-- models/mapping_export_request.py
pub record MappingExportRequest : Type 0 where
  pub target_path : String
  pub format_ : String
  pub expected_session_id : Uuid
  pub expected_logical_revision : ℕ

-- models/mapping_import_request.py
pub record MappingImportRequest : Type 0 where
  pub source_path : String
  pub format_ : String
  pub mode : String
  pub expected_session_id : Uuid
  pub expected_logical_revision : ℕ

-- models/rename_operation.py, set_comment_operation.py and rename_parameter_operation.py; their
-- `kind`s are "RENAME", "SET_COMMENT" and "RENAME_PARAMETER".
pub data EditOperation : Type 0 where
  rename :
      (target : SymbolRef) (new_name : String) (propagate_related : Omittable Bool) → EditOperation
  set_comment : (target : SymbolRef) (comment style : String) → EditOperation
  rename_parameter :
      (method : MethodSymbolRef) (parameter_index : ℕ) (source_snapshot_id new_name : String)
      → EditOperation

-- models/edit_batch_request.py
pub record EditBatchRequest : Type 0 where
  pub items : List EditOperation
  pub expected_session_id : Omittable Uuid
  pub expected_logical_revision : Omittable ℕ

-- models/control_flow_request.py
pub record ControlFlowRequest : Type 0 where
  pub ref : MethodSymbolRef
  pub strict : Omittable Bool
  pub expected_session_id : Omittable Uuid
  pub expected_logical_revision : Omittable ℕ

-- models/decompile_request.py
pub record DecompileRequest : Type 0 where
  pub ref : SymbolRef
  pub representation : Omittable String
  pub decompilation_mode : Omittable String
  pub include_annotations : Omittable Bool
  pub include_raw_debug_lines : Omittable Bool
  pub strict : Omittable Bool
  pub expected_session_id : Omittable Uuid
  pub expected_logical_revision : Omittable ℕ
  pub expected_source_snapshot_id : Omittable String

-- models/reference_query.py
pub record ReferenceQuery : Type 0 where
  pub ref : SymbolRef
  pub direction : String
  pub view : Omittable String
  pub relations : Omittable (List String)
  pub page_size : Omittable ℕ
  pub cursor : Omittable (Option String)
  pub include_source_sites : Omittable Bool
  pub strict : Omittable Bool
  pub expected_session_id : Omittable Uuid
  pub expected_logical_revision : Omittable ℕ

-- models/search_request.py
pub record SearchRequest : Type 0 where
  pub query : String
  pub domains : Omittable (List String)
  pub match_mode : Omittable String
  pub case_sensitive : Omittable Bool
  pub page_size : Omittable ℕ
  pub cursor : Omittable (Option String)
  pub strict : Omittable Bool
  pub require_complete : Omittable Bool
  pub expected_session_id : Omittable (Option String)
  pub expected_logical_revision : Omittable (Option ℕ)

-- models/search_build_request.py
pub record SearchBuildRequest : Type 0 where
  pub domains : Omittable (List String)
  pub force : Omittable Bool

-- The keyword arguments of `list_classes`.
pub record ListClasses : Type 0 where
  pub page_size : ℕ
  pub cursor : Omittable String
  pub package_prefix : Omittable String
  pub name_contains : Omittable String
  pub name_domain : String
  pub include_inner : Bool
