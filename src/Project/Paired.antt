-- ===== src/Project/Paired.antt =====
-- The preconditions that the requests of `Project` carry.
use libjadx.Base.{
  ℕ, String, Bool, true, false, Option, none, some, List, [], ◌∷◌, ◌++◌, ◌≡◌, ◌≢◌, ◌⊎◌, ◌↔◌, inl,
  inr, refl, Bool-cases,
}
use libjadx.Wire.Json.{Omittable, unset, given}
use libjadx.Wire.Codec.{Uuid}
use libjadx.Wire.Refs.{SymbolRef, MethodSymbolRef}
use libjadx.Wire.Requests.{EditOperation}
use libjadx.Wire.Requests
use libjadx.Errors.{Exception, Result, ok, raise}
use libjadx.Revisions.Expected.{Preconditions, Expected, expected, required, expected_paired}
use libjadx.Client.{
  Request, save_project, reload_project, update_project_settings, export_mappings, import_mappings,
  apply_edit_batch, get_control_flow_facts, System, Client, Expects, invoke,
}
use libjadx.Client.Invoke.{invoke_sends}
use libjadx.Project.{as_method, is_method_kind, first, with_expected, with_required, needs_pair}
use libjadx.Project

-- The preconditions in the body of a request, if it has some.
abbrev pub pair_of : Request → Option Expected
pair_of (save_project r) = some (r.expected_session_id, r.expected_logical_revision)
pair_of (reload_project r) = some (given r.expected_session_id, given r.expected_logical_revision)
pair_of (update_project_settings r) =
    some (given r.expected_session_id, given r.expected_logical_revision)
pair_of (export_mappings r) = some (given r.expected_session_id, given r.expected_logical_revision)
pair_of (import_mappings r) = some (given r.expected_session_id, given r.expected_logical_revision)
pair_of (apply_edit_batch r) = some (r.expected_session_id, r.expected_logical_revision)
pair_of (get_control_flow_facts r) = some (r.expected_session_id, r.expected_logical_revision)
pair_of _ = none

-- The edits in the body of a request.
abbrev pub edits_of : Request → List EditOperation
edits_of (apply_edit_batch r) = r.items
edits_of _ = []

-- A method sent one request, `request`, with these edits, with a whole pair of preconditions or none, and with a pair if
-- it needs one.
pub record SentPaired (needs : Bool) (edits : List EditOperation) (before after : Client)
    : Type 0 where
  pub request : Request
  pub session : Omittable Uuid
  pub revision : Omittable ℕ
  pub sent : after.sent ≡ before.sent ++ request ∷ []
  pub pair : pair_of request ≡ some (session, revision)
  pub same_edits : edits_of request ≡ edits
  pub whole : (session ≡ unset) ↔ (revision ≡ unset)
  pub there : (needs ≡ false) ⊎ (session ≢ unset)

-- It raised before it used the client, or it sent that one request.
abbrev pub Guarded : {A : Type 0} → Bool → List EditOperation → Client → Result A × Client → Type 0
Guarded {A} needs edits c x = ((e : Exception) × (x ≡ (raise e, c))) ⊎ SentPaired needs edits c x.1

pub cases_of :
    {A : Type 0} (x : Result A) → ((e : Exception) × (x ≡ raise e)) ⊎ ((a : A) × (x ≡ ok a))
cases_of (raise e) = inl (e, refl)
cases_of (ok a) = inr (a, refl)

module _ (sys : System) where
  expected-Guarded :
      {A : Type 0} (expects : Expects A) (request : Expected → Request) (needs : Bool)
      (edits : List EditOperation) (options : Preconditions) (c : Client)
      → ((p : Expected) → pair_of (request p) ≡ some p)
      → ((p : Expected) → edits_of (request p) ≡ edits)
      → c.closed ≡ false
      → Guarded needs edits c
          (with_expected sys needs options (λ p. invoke sys expects (request p)) c)
  expected-Guarded expects request needs edits options c carries same o =
      elim (cases_of (expected sys.codec options needs c.revisions)) [
        | inl (e, bad) ↦ rw bad (inl (e, refl))
        | inr ((u, n), good) ↦
            let (whole, there) = expected_paired sys.codec options needs c.revisions good in
            let (_, opened, _, _, _) = invoke_sends sys expects (request (u, n)) c in
            rw good (
              inr (record {
                request = request (u, n);
                session = u;
                revision = n;
                sent = opened o;
                pair = carries (u, n);
                same_edits = same (u, n);
                whole = whole;
                there = there;
              }))
      ]

  required-Guarded :
      {A : Type 0} (expects : Expects A) (request : Uuid × ℕ → Request) (options : Preconditions)
      (c : Client)
      → ((p : Uuid × ℕ) → pair_of (request p) ≡ some (given p.0, given p.1))
      → ((p : Uuid × ℕ) → edits_of (request p) ≡ [])
      → c.closed ≡ false
      → Guarded true [] c (with_required sys options (λ p. invoke sys expects (request p)) c)
  required-Guarded expects request options c carries same o =
      elim (cases_of (required sys.codec options c.revisions)) [
        | inl (e, bad) ↦ rw bad (inl (e, refl))
        | inr ((u, n), good) ↦
            let (_, opened, _, _, _) = invoke_sends sys expects (request (u, n)) c in
            rw good (
              inr (record {
                request = request (u, n);
                session = given u;
                revision = given n;
                sent = opened o;
                pair = carries (u, n);
                same_edits = same (u, n);
                whole = (λ h. cc, λ h. cc);
                there = inr (λ h. cc);
              }))
      ]

  pub apply_edits-Guarded :
      (items : List EditOperation) (options : Preconditions) (c : Client)
      → c.closed ≡ false
      → Guarded (needs_pair items) items c (Project.apply_edits sys items options c)
  unfolding Project.apply_edits
  apply_edits-Guarded items options c o =
      expected-Guarded _ _ (needs_pair items) items options c (λ p. refl) (λ p. refl) o

  rename-Guarded :
      (ref : SymbolRef) (new_name : String) (propagate_related : Bool) (options : Preconditions)
      (c : Client)
      → c.closed ≡ false
      → Guarded propagate_related
          (Requests.rename ref new_name (given propagate_related) ∷ [])
          c
          (Project.rename sys ref new_name propagate_related options c)
  unfolding Project.rename
  rename-Guarded ref new_name false options c o = apply_edits-Guarded _ options c o
  rename-Guarded ref new_name true options c o = elim (Bool-cases (is_method_kind ref.kind)) [
    | inl t ↦ rw t (apply_edits-Guarded _ options c o)
    | inr f ↦ rw f (inl (_, refl))
  ]

  rename_parameter-Guarded :
      (ref : SymbolRef) (i : ℕ) (new_name snapshot : String) (options : Preconditions) (c : Client)
      → c.closed ≡ false
      → ((e : Exception) × (Project.rename_parameter sys ref i new_name snapshot options c
            ≡ (raise e, c)))
        ⊎ ((m : MethodSymbolRef) × SentPaired true
              (Requests.rename_parameter m i snapshot new_name ∷ [])
              c
              (Project.rename_parameter sys ref i new_name snapshot options c).1)
  unfolding Project.rename_parameter
  rename_parameter-Guarded ref i new_name snapshot options c o =
      elim (Bool-cases (is_method_kind ref.kind)) [
        | inr f ↦ rw f (inl (_, refl))
        | inl t ↦ elim (cases_of (as_method ref)) [
          | inl (e, bad) ↦ rw (t, bad) (inl (e, refl))
          | inr (m, good) ↦
              rw (t, good)
                (elim (apply_edits-Guarded (Requests.rename_parameter m i snapshot new_name ∷ [])
                  options c o) [ inl r ↦ inl r | inr s ↦ inr (m, s) ])
        ]
      ]

  -- Every method of an open client that changes the project raises before it sends anything, or sends
  -- one request with a whole pair of preconditions or none; reloading, the settings, the mappings and a
  -- parameter's name always send a pair, edits do if one of them renames a parameter or propagates, and
  -- a rename does if it propagates. The edits that are sent are those that were given, or the one that
  -- the method stands for.
  pub mutations_paired :
      (target_path mappings_path : Option String) (path : String) (discard_unsaved : Bool)
      (items : List EditOperation) (ref : SymbolRef) (name : String) (propagate_related : Bool)
      (parameter_index : ℕ) (source_snapshot_id : String) (options : Preconditions) (c : Client)
      → c.closed ≡ false
      → Guarded false [] c (Project.save sys target_path options c)
        × Guarded true [] c (Project.reload sys discard_unsaved options c)
        × Guarded true [] c (Project.update_settings sys mappings_path options c)
        × Guarded true [] c (Project.export_mappings sys path options c)
        × Guarded true [] c (Project.import_mappings sys path options c)
        × Guarded (needs_pair items) items c (Project.apply_edits sys items options c)
        × Guarded propagate_related
            (Requests.rename ref name (given propagate_related) ∷ [])
            c
            (Project.rename sys ref name propagate_related options c)
        × Guarded false
            (Requests.set_comment ref name "LINE" ∷ [])
            c
            (Project.set_comment sys ref name options c)
        × (((e : Exception) × (Project.rename_parameter sys ref parameter_index name
                  source_snapshot_id options c
                ≡ (raise e, c)))
            ⊎ ((m : MethodSymbolRef) × SentPaired true
                  (Requests.rename_parameter m parameter_index source_snapshot_id name ∷ [])
                  c
                  (Project.rename_parameter sys ref parameter_index name source_snapshot_id options
                    c).1))
  unfolding Project.save Project.reload Project.update_settings Project.export_mappings
      Project.import_mappings Project.set_comment
  mutations_paired target_path mappings_path path discard_unsaved items ref name propagate i
        snapshot options c o =
      (
        expected-Guarded _ _ false [] options c (λ p. refl) (λ p. refl) o,
        required-Guarded _ _ options c (λ p. refl) (λ p. refl) o,
        required-Guarded _ _ options c (λ p. refl) (λ p. refl) o,
        required-Guarded _ _ options c (λ p. refl) (λ p. refl) o,
        required-Guarded _ _ options c (λ p. refl) (λ p. refl) o,
        apply_edits-Guarded items options c o,
        rename-Guarded ref name propagate options c o,
        apply_edits-Guarded _ options c o,
        rename_parameter-Guarded ref i name snapshot options c o,
      )
