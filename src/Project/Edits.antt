-- ===== src/Project/Edits.antt =====
-- `rename`, `set_comment` and `rename_parameter`: the edit that each sends.
use libjadx.Base.{
  ℕ, String, Bool, true, false, some, [], ◌∷◌, ◌≡◌, ◌⊎◌, ◌↔◌, inl, inr, refl, ap, ◌∙◌, arith,
  Bool-cases, Option-cases,
}
use libjadx.Wire.Json.{given}
use libjadx.Wire.Enums.{SymbolRefKind, class, field, method}
use libjadx.Wire.Refs.{
  SymbolRef, MethodSymbolRef, ref_to_dict, method_from_dict, method_from_dict-ref_to_dict,
}
use libjadx.Wire.Requests.{EditOperation}
use libjadx.Wire.Requests
use libjadx.Errors.{Exception, ok, raise}
use libjadx.Revisions.Expected.{Preconditions}
use libjadx.Client.{System, Client}
use libjadx.Project.{first, as_method, is_method_kind, needs_pair}
use libjadx.Project
use libjadx.Project.Paired.{SentPaired, apply_edits-Guarded, cases_of}

is_method_kind_iff : (k : SymbolRefKind) → (is_method_kind k ≡ true) ↔ (k ≡ method)
is_method_kind_iff class = ground arith
is_method_kind_iff method = ground arith
is_method_kind_iff field = ground arith

as_method_ok :
    (ref : SymbolRef) {m : MethodSymbolRef}
    → as_method ref ≡ ok m
    → method_from_dict (ref_to_dict ref) ≡ some m
unfolding as_method
as_method_ok ref h = elim (Option-cases (method_from_dict (ref_to_dict ref))) [
  | inl bad ↦ cc (rw bad at h)
  | inr (n, good) ↦ good ∙ ap some (cc (rw good at h))
]

module _ (sys : System) where
  -- On an open client `rename` raises before it sends anything, or it sends that one edit; if the rename
  -- propagates, then the reference is a method's and the request carries a pair of preconditions.
  pub rename_sends :
      (ref : SymbolRef) (new_name : String) (propagate_related : Bool) (options : Preconditions)
      (c : Client)
      → c.closed ≡ false
      → ((e : Exception) × (Project.rename sys ref new_name propagate_related options c
            ≡ (raise e, c)))
        ⊎ (((propagate_related ≡ false) ⊎ (ref.kind ≡ method))
            × SentPaired propagate_related
                (Requests.rename ref new_name (given propagate_related) ∷ [])
                c
                (Project.rename sys ref new_name propagate_related options c).1)
  unfolding Project.rename
  rename_sends ref new_name false options c o =
      elim (apply_edits-Guarded sys (Requests.rename ref new_name (given false) ∷ []) options c o) [
        | inl r ↦ inl r
        | inr s ↦ inr (inl refl, s)
      ]
  rename_sends ref new_name true options c o = elim (Bool-cases (is_method_kind ref.kind)) [
    | inl t ↦
        rw t
          (elim (apply_edits-Guarded sys (Requests.rename ref new_name (given true) ∷ []) options c
            o) [ inl r ↦ inl r | inr s ↦ inr (inr ((is_method_kind_iff ref.kind).0 t), s) ])
    | inr f ↦ rw f (inl (_, refl))
  ]

  -- On an open client `rename_parameter` raises before it sends anything, or it sends that one edit with
  -- a pair of preconditions, for a method reference with the attributes of the one that was given.
  pub rename_parameter_sends :
      (ref : SymbolRef) (parameter_index : ℕ) (new_name source_snapshot_id : String)
      (options : Preconditions) (c : Client)
      → c.closed ≡ false
      → ((e : Exception) × (Project.rename_parameter sys ref parameter_index new_name
              source_snapshot_id options c
            ≡ (raise e, c)))
        ⊎ ((m : MethodSymbolRef) × (ref.kind ≡ method)
            × (ref.original_name ≡ given m.original_name)
            × (ref.original_descriptor ≡ given m.original_descriptor)
            × (m.original_class_descriptor ≡ ref.original_class_descriptor)
            × SentPaired true
                (Requests.rename_parameter m parameter_index source_snapshot_id new_name ∷ [])
                c
                (Project.rename_parameter sys ref parameter_index new_name source_snapshot_id
                  options c).1)
  unfolding Project.rename_parameter
  rename_parameter_sends ref i new_name snapshot options c o =
      elim (Bool-cases (is_method_kind ref.kind)) [
        | inr f ↦ rw f (inl (_, refl))
        | inl t ↦ elim (cases_of (as_method ref)) [
          | inl (e, bad) ↦ rw (t, bad) (inl (e, refl))
          | inr (m, good) ↦
              let (kind, owner, name, member, _) =
                (method_from_dict-ref_to_dict ref m).0 (as_method_ok ref good) in
              rw (t, good)
                (elim (apply_edits-Guarded sys
                  (Requests.rename_parameter m i snapshot new_name ∷ []) options c o) [
                    | inl r ↦ inl r
                    | inr s ↦ inr (m, kind, name, member, owner, s)
                  ])
        ]
      ]
