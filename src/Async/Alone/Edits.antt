-- ===== src/Async/Alone/Edits.antt =====
-- The methods of `AsyncProject` that change the project, running alone.
use libjadx.Base.{[], ◌∷◌, ℕ, String, Bool, false, not, ◌&&◌, Option, List}
use libjadx.Wire.Json.{given}
use libjadx.Wire.Refs.{SymbolRef}
use libjadx.Wire.Requests.{EditOperation, SearchBuildRequest}
use libjadx.Wire.Requests
use libjadx.Revisions.Expected.{Preconditions}
use libjadx.Client.{System}
use libjadx.Project.{first, with_expected, with_required, as_method, is_method_kind, needs_pair}
use libjadx.Project
use libjadx.Async.Project.{
  async_save, async_reload, async_update_settings, async_export_mappings, async_import_mappings,
  async_apply_edits, async_rename, async_set_comment, async_rename_parameter,
}
use libjadx.Async.Alone.{
  Same, invoke-Same, first-Same, expected-Same, required-Same, unless-Same, raise-Same,
}

module _ (sys : System) where
  pub apply_edits-Same :
      (items : List EditOperation) (options : Preconditions)
      → Same sys (async_apply_edits sys items options) (Project.apply_edits sys items options)
  unfolding async_apply_edits Project.apply_edits
  apply_edits-Same items options =
      expected-Same sys (needs_pair items) options (λ p. invoke-Same sys _ _)

  pub rename-Same :
      (ref : SymbolRef) (text : String) (propagate : Bool) (options : Preconditions)
      → Same sys
          (async_rename sys ref text propagate options)
          (Project.rename sys ref text propagate options)
  unfolding async_rename Project.rename
  rename-Same ref text propagate options =
      unless-Same sys (propagate && not (is_method_kind ref.kind)) (raise-Same sys _)
        (apply_edits-Same (Requests.rename ref text (given propagate) ∷ []) options)

  rename_parameter-Same :
      (ref : SymbolRef) (index : ℕ) (text snapshot : String) (options : Preconditions)
      → Same sys
          (async_rename_parameter sys ref index text snapshot options)
          (Project.rename_parameter sys ref index text snapshot options)
  unfolding async_rename_parameter Project.rename_parameter
  rename_parameter-Same ref index text snapshot options =
      unless-Same sys (is_method_kind ref.kind)
        (first-Same sys (as_method ref)
          (λ m. apply_edits-Same (Requests.rename_parameter m index snapshot text ∷ []) options))
        (raise-Same sys _)

  -- Each asynchronous method of the project that changes it does, when it runs alone, exactly what
  -- the method of `Project` does: the same result or exception, and the same client behind it.
  pub mutations-Same :
      (target_path mappings_path : Option String) (path : String) (discard_unsaved : Bool)
      (items : List EditOperation) (options : Preconditions) (ref : SymbolRef) (text : String)
      (propagate : Bool) (index : ℕ) (snapshot : String)
      → Same sys (async_save sys target_path options) (Project.save sys target_path options)
        × Same sys
            (async_reload sys discard_unsaved options)
            (Project.reload sys discard_unsaved options)
        × Same sys
            (async_update_settings sys mappings_path options)
            (Project.update_settings sys mappings_path options)
        × Same sys
            (async_export_mappings sys path options)
            (Project.export_mappings sys path options)
        × Same sys
            (async_import_mappings sys path options)
            (Project.import_mappings sys path options)
        × Same sys (async_apply_edits sys items options) (Project.apply_edits sys items options)
        × Same sys
            (async_rename sys ref text propagate options)
            (Project.rename sys ref text propagate options)
        × Same sys
            (async_set_comment sys ref text options)
            (Project.set_comment sys ref text options)
        × Same sys
            (async_rename_parameter sys ref index text snapshot options)
            (Project.rename_parameter sys ref index text snapshot options)
  unfolding async_save Project.save async_reload Project.reload async_update_settings
      Project.update_settings async_export_mappings Project.export_mappings async_import_mappings
      Project.import_mappings async_set_comment Project.set_comment
  mutations-Same target_path mappings_path path discard_unsaved items options ref text propagate
        index snapshot =
      (
        expected-Same sys false options (λ p. invoke-Same sys _ _),
        required-Same sys options (λ p. invoke-Same sys _ _),
        required-Same sys options (λ p. invoke-Same sys _ _),
        required-Same sys options (λ p. invoke-Same sys _ _),
        required-Same sys options (λ p. invoke-Same sys _ _),
        apply_edits-Same items options,
        rename-Same ref text propagate options,
        apply_edits-Same (Requests.set_comment ref text "LINE" ∷ []) options,
        rename_parameter-Same ref index text snapshot options,
      )
