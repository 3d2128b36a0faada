-- ===== src/Wire/Bodies.antt =====
-- `to_dict` of the request models (models/*_request.py, reference_query.py and the edit operations of
-- python/src/libjadx/_generated): the JSON body of a request. Keys are written in the source's order; the
-- additional properties, which the SDK leaves empty, are left out.
use libjadx.Base.{ℕ, String, Option, none, some, List, [], ◌∷◌, pos}
use libjadx.Wire.Json.{
  Json, null, bool, int, str, arr, obj, Items, nil, item, Members, end, Omittable, unset, given,
  put, put_given,
}
use libjadx.Wire.Codec.{Uuid}
use libjadx.Wire.Refs.{SymbolRef, MethodSymbolRef, ref_to_dict, method_to_dict}
use libjadx.Wire.Requests.{
  SaveProjectRequest, ReloadProjectRequest, UpdateProjectSettingsRequest, MappingExportRequest,
  MappingImportRequest, EditOperation, EditBatchRequest, ControlFlowRequest, DecompileRequest,
  ReferenceQuery, SearchRequest, SearchBuildRequest, rename, set_comment, rename_parameter,
}

abbrev number : ℕ → Json
number n = int (pos n)

-- `str(uuid)`
abbrev uuid_text : Uuid → Json
uuid_text u = str u.canonical

abbrev pub text_or_null : Option String → Json
text_or_null none = null
text_or_null (some s) = str s

abbrev number_or_null : Option ℕ → Json
number_or_null none = null
number_or_null (some n) = number n

abbrev text_items : List String → Items
text_items [] = nil
text_items (s ∷ ss) = item (str s) (text_items ss)

abbrev texts : List String → Json
texts ss = arr (text_items ss)

abbrev ref_object : SymbolRef → Json
ref_object r = obj (ref_to_dict r)

abbrev method_object : MethodSymbolRef → Json
method_object r = obj (method_to_dict r)

-- `UNSET`, or the encoded value.
abbrev pub encoded {ℓ} : {A : Type ℓ} → (A → Json) → Omittable A → Omittable Json
encoded f unset = unset
encoded f (given a) = given (f a)

unfoldable pub edit_dict : EditOperation → Members
unfolding ref_to_dict method_to_dict
edit_dict (rename target new_name propagate_related) =
    put_given "propagateRelated" (encoded bool propagate_related) (
      put "newName" (str new_name)
        (put "target" (ref_object target) (put "kind" (str "RENAME") end)))
edit_dict (set_comment target comment style) = put "style" (str style) (
    put "comment" (str comment)
      (put "target" (ref_object target) (put "kind" (str "SET_COMMENT") end)))
edit_dict (rename_parameter method parameter_index source_snapshot_id new_name) =
    put "newName" (str new_name) (
      put "sourceSnapshotId" (str source_snapshot_id) (
        put "parameterIndex" (number parameter_index)
          (put "method" (method_object method) (put "kind" (str "RENAME_PARAMETER") end))))

abbrev edits : List EditOperation → Items
edits [] = nil
edits (x ∷ xs) = item (obj (edit_dict x)) (edits xs)

abbrev edit_items : List EditOperation → Json
edit_items xs = arr (edits xs)

unfoldable pub save_project_dict : SaveProjectRequest → Members
save_project_dict r = put_given "expectedSessionId" (encoded uuid_text r.expected_session_id) (
    put_given "expectedLogicalRevision" (encoded number r.expected_logical_revision)
      (put_given "targetPath" (encoded str r.target_path) end))

unfoldable pub reload_project_dict : ReloadProjectRequest → Members
reload_project_dict r = put "expectedLogicalRevision" (number r.expected_logical_revision) (
    put "expectedSessionId" (uuid_text r.expected_session_id)
      (put "discardUnsaved" (bool r.discard_unsaved) end))

unfoldable pub project_settings_dict : UpdateProjectSettingsRequest → Members
project_settings_dict r = put "expectedSessionId" (uuid_text r.expected_session_id) (
    put "expectedLogicalRevision" (number r.expected_logical_revision)
      (put "mappingsPath" (text_or_null r.mappings_path) end))

unfoldable pub mapping_export_dict : MappingExportRequest → Members
mapping_export_dict r = put "expectedLogicalRevision" (number r.expected_logical_revision) (
    put "expectedSessionId" (uuid_text r.expected_session_id)
      (put "format" (str r.format_) (put "targetPath" (str r.target_path) end)))

unfoldable pub mapping_import_dict : MappingImportRequest → Members
mapping_import_dict r = put "expectedLogicalRevision" (number r.expected_logical_revision) (
    put "expectedSessionId" (uuid_text r.expected_session_id) (
      put "mode" (str r.mode)
        (put "format" (str r.format_) (put "sourcePath" (str r.source_path) end))))

unfoldable pub edit_batch_dict : EditBatchRequest → Members
edit_batch_dict r =
    put_given "expectedLogicalRevision" (encoded number r.expected_logical_revision) (
      put_given "expectedSessionId" (encoded uuid_text r.expected_session_id)
        (put "items" (edit_items r.items) end))

unfoldable pub control_flow_dict : ControlFlowRequest → Members
control_flow_dict r =
    put_given "expectedLogicalRevision" (encoded number r.expected_logical_revision) (
      put_given "expectedSessionId" (encoded uuid_text r.expected_session_id)
        (put_given "strict" (encoded bool r.strict) (put "ref" (method_object r.ref) end)))

unfoldable pub decompile_dict : DecompileRequest → Members
decompile_dict r =
    put_given "expectedSourceSnapshotId" (encoded str r.expected_source_snapshot_id) (
      put_given "expectedLogicalRevision" (encoded number r.expected_logical_revision) (
        put_given "expectedSessionId" (encoded uuid_text r.expected_session_id) (
          put_given "strict" (encoded bool r.strict) (
            put_given "includeRawDebugLines" (encoded bool r.include_raw_debug_lines) (
              put_given "includeAnnotations" (encoded bool r.include_annotations) (
                put_given "decompilationMode" (encoded str r.decompilation_mode) (
                  put_given "representation" (encoded str r.representation)
                    (put "ref" (ref_object r.ref) end))))))))

unfoldable pub reference_query_dict : ReferenceQuery → Members
reference_query_dict r =
    put_given "expectedLogicalRevision" (encoded number r.expected_logical_revision) (
      put_given "expectedSessionId" (encoded uuid_text r.expected_session_id) (
        put_given "strict" (encoded bool r.strict) (
          put_given "includeSourceSites" (encoded bool r.include_source_sites) (
            put_given "cursor" (encoded text_or_null r.cursor) (
              put_given "pageSize" (encoded number r.page_size) (
                put_given "relations" (encoded texts r.relations) (
                  put_given "view" (encoded str r.view)
                    (put "direction" (str r.direction) (put "ref" (ref_object r.ref) end)))))))))

unfoldable pub search_dict : SearchRequest → Members
search_dict r =
    put_given "expectedLogicalRevision" (encoded number_or_null r.expected_logical_revision) (
      put_given "expectedSessionId" (encoded text_or_null r.expected_session_id) (
        put_given "requireComplete" (encoded bool r.require_complete) (
          put_given "strict" (encoded bool r.strict) (
            put_given "cursor" (encoded text_or_null r.cursor) (
              put_given "pageSize" (encoded number r.page_size) (
                put_given "caseSensitive" (encoded bool r.case_sensitive) (
                  put_given "matchMode" (encoded str r.match_mode) (
                    put_given "domains" (encoded texts r.domains)
                      (put "query" (str r.query) end)))))))))

unfoldable pub search_build_dict : SearchBuildRequest → Members
search_build_dict r =
    put_given "force" (encoded bool r.force) (put_given "domains" (encoded texts r.domains) end)

-- `SymbolResolveRequest(ref)`, whose preconditions are `UNSET`.
unfoldable pub symbol_resolve_dict : SymbolRef → Members
symbol_resolve_dict ref = put "ref" (ref_object ref) end

-- `ShutdownRequest(policy=…)`
unfoldable pub shutdown_dict : String → Members
shutdown_dict policy = put "policy" (str policy) end
