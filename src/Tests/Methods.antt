-- ===== src/Tests/Methods.antt =====
-- The methods of a project, and the references that they send.
use libjadx.Base.{true, false, none, some, List, [], ◌∷◌, ◌≡◌, ◌⊎◌, refl}
use libjadx.Wire.Json.{str, unset, given}
use libjadx.Wire.Enums.{method}
use libjadx.Wire.Refs.{MethodSymbolRef, ref_to_dict, ref_from_dict, ref_from_dict-ref_to_dict}
use libjadx.Wire.Requests.{EditOperation, rename, rename_parameter, set_comment}
use libjadx.Errors.{Exception, raise}
use libjadx.Revisions.Expected.{no_preconditions}
use libjadx.Client.{System, absent}
use libjadx.Project.{needs_pair}
use libjadx.Project
use libjadx.Project.Paired.{Guarded, SentPaired, mutations_paired}
use libjadx.Project.Edits.{rename_sends, rename_parameter_sends}
use libjadx.Samples.{system, client, method_reference}

abbrev silent : System
silent = system absent

abbrev edits : List EditOperation
edits = rename method_reference "start" (given true) ∷ []

mutations_paired_example :
    Guarded false [] client (Project.save silent none no_preconditions client)
    × Guarded true [] client (Project.reload silent true no_preconditions client)
    × Guarded true [] client (Project.update_settings silent none no_preconditions client)
    × Guarded true [] client (Project.export_mappings silent "/m" no_preconditions client)
    × Guarded true [] client (Project.import_mappings silent "/m" no_preconditions client)
    × Guarded
        (needs_pair edits)
        edits
        client
        (Project.apply_edits silent edits no_preconditions client)
    × Guarded true edits client
        (Project.rename silent method_reference "start" true no_preconditions client)
    × Guarded false
        (set_comment method_reference "start" "LINE" ∷ [])
        client
        (Project.set_comment silent method_reference "start" no_preconditions client)
    × (((e : Exception) × (Project.rename_parameter silent method_reference 0 "start" "s"
              no_preconditions client
            ≡ (raise e, client)))
        ⊎ ((m : MethodSymbolRef) × SentPaired true
              (rename_parameter m 0 "s" "start" ∷ [])
              client
              (Project.rename_parameter silent method_reference 0 "start" "s" no_preconditions
                client).1))
mutations_paired_example =
    mutations_paired silent none none "/m" true edits method_reference "start" true 0 "s"
      no_preconditions client refl

rename_sends_example :
    ((e : Exception) × (Project.rename silent method_reference "start" true no_preconditions client
        ≡ (raise e, client)))
    ⊎ (((true ≡ false) ⊎ (method_reference.kind ≡ method))
        × SentPaired true edits client
            (Project.rename silent method_reference "start" true no_preconditions client).1)
rename_sends_example =
    rename_sends silent method_reference "start" true no_preconditions client refl

rename_parameter_sends_example :
    ((e : Exception) × (Project.rename_parameter silent method_reference 0 "x" "snapshot"
          no_preconditions client
        ≡ (raise e, client)))
    ⊎ ((m : MethodSymbolRef) × (method_reference.kind ≡ method)
        × (method_reference.original_name ≡ given m.original_name)
        × (method_reference.original_descriptor ≡ given m.original_descriptor)
        × (m.original_class_descriptor ≡ method_reference.original_class_descriptor)
        × SentPaired true
            (rename_parameter m 0 "snapshot" "x" ∷ [])
            client
            (Project.rename_parameter silent method_reference 0 "x" "snapshot" no_preconditions
              client).1)
rename_parameter_sends_example =
    rename_parameter_sends silent method_reference 0 "x" "snapshot" no_preconditions client refl

ref_from_dict-ref_to_dict_example :
    ref_from_dict (ref_to_dict method_reference) ≡ some method_reference
ref_from_dict-ref_to_dict_example = ref_from_dict-ref_to_dict method_reference

abbrev as_method_reference : MethodSymbolRef
as_method_reference = record {
  original_class_descriptor = str "La/B;";
  original_name = str "run";
  original_descriptor = str "()V";
  input_identity = unset;
}
