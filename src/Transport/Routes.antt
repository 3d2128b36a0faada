-- ===== src/Transport/Routes.antt =====
-- The operations by method and path, as openapi/openapi.yaml lists them, and the requests of
-- python/src/libjadx/_generated/api: which operation the service takes a request for.
use libjadx.Base.{
  ℕ, ◌/◌, ◌%◌, ◌+◌, String, Bool, true, false, ◌&&◌, Option, none, some, List, [], ◌∷◌, ◌++◌, ◌==◌,
  All, All-append, codes, str_eq, if◌then◌else◌, ltb, ◌≡◌, refl, arith, Bool-cases, inl, inr,
}
use libjadx.Sse.Text.{split_at, text_eq}
use libjadx.Client.{Request}
use libjadx.Client
use libjadx.Transport.{quote, is_unreserved, percents, percent, hex_digit}
use libjadx.Transport.Analysis.{
  build_search_index_kwargs, decompile_java_kwargs, get_control_flow_facts_kwargs, search_kwargs,
}
use libjadx.Transport.Projects.{
  apply_edit_batch_kwargs, export_mappings_kwargs, export_pending_edits_kwargs, get_project_kwargs,
  get_project_settings_kwargs, import_mappings_kwargs, reload_project_kwargs, save_project_kwargs,
  update_project_settings_kwargs,
}
use libjadx.Transport.Services.{
  cancel_job_kwargs, get_capabilities_kwargs, get_job_kwargs, get_liveness_kwargs,
  get_status_kwargs, shutdown_service_kwargs,
}
use libjadx.Transport.Classes.{list_classes_kwargs, query_references_kwargs, resolve_symbol_kwargs}
use libjadx.Transport.Perform.{kwargs_of}

-- `operationId`
pub data Operation : Type 0 where
  get_liveness get_status get_capabilities shutdown_service get_project export_mappings : Operation
  import_mappings save_project get_project_settings update_project_settings reload_project
        export_pending_edits :
      Operation
  apply_edit_batch query_references get_control_flow_facts list_classes resolve_symbol : Operation
  decompile_java search build_search_index get_job cancel_job : Operation

abbrev pub operation_of : Request → Operation
operation_of Client.get_liveness = get_liveness
operation_of Client.get_status = get_status
operation_of Client.get_capabilities = get_capabilities
operation_of (Client.shutdown_service _) = shutdown_service
operation_of Client.get_project = get_project
operation_of (Client.export_mappings _) = export_mappings
operation_of (Client.import_mappings _) = import_mappings
operation_of (Client.save_project _) = save_project
operation_of Client.get_project_settings = get_project_settings
operation_of (Client.update_project_settings _) = update_project_settings
operation_of (Client.reload_project _) = reload_project
operation_of Client.export_pending_edits = export_pending_edits
operation_of (Client.apply_edit_batch _) = apply_edit_batch
operation_of (Client.query_references _) = query_references
operation_of (Client.get_control_flow_facts _) = get_control_flow_facts
operation_of (Client.list_classes _) = list_classes
operation_of (Client.resolve_symbol _) = resolve_symbol
operation_of (Client.decompile_java _) = decompile_java
operation_of (Client.search _) = search
operation_of (Client.build_search_index _) = build_search_index
operation_of (Client.get_job _) = get_job
operation_of (Client.cancel_job _) = cancel_job

-- The paths without a parameter.
abbrev paths : List (String × String × Operation)
paths =
    ("get", "/health/live", get_liveness)
    ∷ ("get", "/status", get_status)
    ∷ ("get", "/capabilities", get_capabilities)
    ∷ ("post", "/shutdown", shutdown_service)
    ∷ ("get", "/project", get_project)
    ∷ ("post", "/project/mappings/export", export_mappings)
    ∷ ("post", "/project/mappings/import", import_mappings)
    ∷ ("post", "/project/save", save_project)
    ∷ ("get", "/project/settings", get_project_settings)
    ∷ ("patch", "/project/settings", update_project_settings)
    ∷ ("post", "/project/reload", reload_project)
    ∷ ("post", "/project/pending-edits/export", export_pending_edits)
    ∷ ("post", "/edits/batch", apply_edit_batch)
    ∷ ("post", "/references/query", query_references)
    ∷ ("post", "/analysis/control-flow", get_control_flow_facts)
    ∷ ("get", "/classes", list_classes)
    ∷ ("post", "/symbols/resolve", resolve_symbol)
    ∷ ("post", "/decompile", decompile_java)
    ∷ ("post", "/search", search)
    ∷ ("post", "/search/build-index", build_search_index)
    ∷ []

-- What is left behind a prefix.
abbrev after_prefix : List ℕ → List ℕ → Option (List ℕ)
after_prefix [] u = some u
after_prefix (p ∷ ps) [] = none
after_prefix (p ∷ ps) (c ∷ cs) = if p == c then after_prefix ps cs else none

abbrev find_path : List (String × String × Operation) → String → List ℕ → Option Operation
find_path [] method url = none
find_path ((m, path, operation) ∷ rest) method url =
    if str_eq m method && text_eq (codes path) url
    then some operation
    else find_path rest method url

-- Behind "/jobs/": the id, and what follows it.
abbrev job_path : String → Option (List ℕ × List ℕ) → Option Operation
job_path method none = if str_eq method "get" then some get_job else none
job_path method (some (id, rest)) =
    if str_eq method "post" && text_eq rest (codes "cancel") then some cancel_job else none

-- The operation for a method and the code points of a path.
unfoldable pub route : String → List ℕ → Option Operation
route method url = elim (after_prefix (codes "/jobs/") url) [
  | none ↦ find_path paths method url
  | some rest ↦ job_path method (split_at 47 rest)
]

abbrev IsPlain : List ℕ → Type 0
IsPlain = All (λ c. (c == 47) ≡ false)

hex_digit-IsPlain : (d : ℕ) → (hex_digit d == 47) ≡ false
hex_digit-IsPlain d = ground arith

percent_then : (byte : ℕ) (xs : List ℕ) → IsPlain xs → IsPlain (percent byte ++ xs)
percent_then byte xs h = (refl, (hex_digit-IsPlain (byte / 16), (hex_digit-IsPlain (byte % 16), h)))

if-IsPlain : (b : Bool) (xs ys : List ℕ) → IsPlain xs → IsPlain ys → IsPlain (if b then xs else ys)
if-IsPlain true xs ys h k = h
if-IsPlain false xs ys h k = k

percents-IsPlain : (c : ℕ) → IsPlain (percents c)
percents-IsPlain c = if-IsPlain (ltb c 128) _ _ (percent_then c [] tt) (
    if-IsPlain (ltb c 2048) _ _ (percent_then (192 + c / 64) (percent (128 + c % 64)) last) (
      if-IsPlain (ltb c 65536) _ _
        (percent_then (224 + c / 4096) (percent (128 + c / 64 % 64) ++ percent (128 + c % 64)) two)
        (percent_then (240 + c / 262144)
          (percent (128 + c / 4096 % 64) ++ (percent (128 + c / 64 % 64) ++ percent (128 + c % 64)))
          (percent_then (128 + c / 4096 % 64)
            (percent (128 + c / 64 % 64) ++ percent (128 + c % 64)) two))))
  where
    last : IsPlain (percent (128 + c % 64))
    last = percent_then (128 + c % 64) [] tt

    two : IsPlain (percent (128 + c / 64 % 64) ++ percent (128 + c % 64))
    two = percent_then (128 + c / 64 % 64) (percent (128 + c % 64)) last

-- Quoted text has no slash, whatever the text.
quote-IsPlain : (cs : List ℕ) → IsPlain (quote cs)
unfolding quote
quote-IsPlain [] = tt
quote-IsPlain (c ∷ cs) = elim (Bool-cases (is_unreserved c)) [
  | inl plain ↦ rw plain (ground arith, quote-IsPlain cs)
  | inr other ↦
      rw other (All-append _ (percents c) (quote cs) (percents-IsPlain c) (quote-IsPlain cs))
]

split_at-none : (cs : List ℕ) → IsPlain cs → split_at 47 cs ≡ none
unfolding split_at
split_at-none [] h = refl
split_at-none (c ∷ cs) (h, hs) = rw (h, split_at-none cs hs) refl

split_at-some : (cs rest : List ℕ) → IsPlain cs → split_at 47 (cs ++ 47 ∷ rest) ≡ some (cs, rest)
unfolding split_at
split_at-some [] rest h = refl
split_at-some (c ∷ cs) rest (h, hs) = rw (h, split_at-some cs rest hs) refl

-- Each request that the SDK sends goes to the path and the method of its own operation and of no
-- other, whatever its arguments are; an id of a job, quoted, cannot lead to another path.
pub route-kwargs_of :
    (r : Request) → route (kwargs_of r).method (kwargs_of r).url ≡ some (operation_of r)
unfolding route kwargs_of get_liveness_kwargs get_status_kwargs get_capabilities_kwargs
    shutdown_service_kwargs get_project_kwargs export_mappings_kwargs import_mappings_kwargs
    save_project_kwargs get_project_settings_kwargs update_project_settings_kwargs
    reload_project_kwargs export_pending_edits_kwargs apply_edit_batch_kwargs
    query_references_kwargs get_control_flow_facts_kwargs list_classes_kwargs resolve_symbol_kwargs
    decompile_java_kwargs search_kwargs build_search_index_kwargs get_job_kwargs cancel_job_kwargs
route-kwargs_of Client.get_liveness = refl
route-kwargs_of Client.get_status = refl
route-kwargs_of Client.get_capabilities = refl
route-kwargs_of (Client.shutdown_service _) = refl
route-kwargs_of Client.get_project = refl
route-kwargs_of (Client.export_mappings _) = refl
route-kwargs_of (Client.import_mappings _) = refl
route-kwargs_of (Client.save_project _) = refl
route-kwargs_of Client.get_project_settings = refl
route-kwargs_of (Client.update_project_settings _) = refl
route-kwargs_of (Client.reload_project _) = refl
route-kwargs_of Client.export_pending_edits = refl
route-kwargs_of (Client.apply_edit_batch _) = refl
route-kwargs_of (Client.query_references _) = refl
route-kwargs_of (Client.get_control_flow_facts _) = refl
route-kwargs_of (Client.list_classes _) = refl
route-kwargs_of (Client.resolve_symbol _) = refl
route-kwargs_of (Client.decompile_java _) = refl
route-kwargs_of (Client.search _) = refl
route-kwargs_of (Client.build_search_index _) = refl
route-kwargs_of (Client.get_job u) =
    rw (route, split_at-none (quote (codes u.canonical)) (quote-IsPlain _)) refl
route-kwargs_of (Client.cancel_job u) =
    rw (route, split_at-some (quote (codes u.canonical)) (codes "cancel") (quote-IsPlain _)) refl
