-- ===== src/Wire/Schema/Errors/Whole.antt =====
-- `ApiError.from_dict` of python/src/libjadx/_generated/models/api_error.py, which calls itself for the
-- causes, behind `ApiError.to_dict`.
use libjadx.Base.{
  ℕ, zero, suc, max, ◌≤◌, String, Bool, true, ◌&&◌, some, List, [], ◌∷◌, member, ◌≡◌, refl, ap, ◌∙◌,
  sym, arith,
}
use libjadx.Wire.Json.{Json, str, arr, obj, Omittable, unset, given}
use libjadx.Wire.Codec.{Codec}
use libjadx.Wire.Enums.{ApiErrorCode, code_value}
use libjadx.Wire.Enums
use libjadx.Wire.ApiError.{
  ItemError, ItemErrors, none_left, item_error, ApiError, api_error, OmittableCauses, unset_causes,
  causes, Causes, no_cause, cause, to_dict,
}
use libjadx.Wire.Schema.{
  plain, model, models, nullable, with_additional, raw, instances, additional, write_value,
  read_object,
}
use libjadx.Wire.Schema.RoundTrip.{
  FitsKind, fits_plain, fits_enum, fits_model, fits_models, fits_null, fits_nullable, fits_raw,
  fits_additional, FitAll, fit_none, fit_object, read_object-write_object,
}
use libjadx.Wire.Schema.Errors.{
  api_error_schema, cause_schema, api_error_code_values, item_error_schema,
}
use libjadx.Wire.Schema.Errors.Objects.{
  as_raw, detail, as_details, item_object, item_objects, as_items, error_object, as_causes,
  cause_objects, write-error_object,
}
use libjadx.Wire.Schema.Errors.Lacks.{
  lacks, Keeps, FitsField, keeps_required, keeps_optional, keeps_additional,
}

abbrev error_keys : List String
error_keys =
    "itemErrors" ∷ "causes" ∷ "details" ∷ "requestId" ∷ "retryable" ∷ "message" ∷ "code" ∷ []

abbrev item_keys : List String
item_keys = "details" ∷ "message" ∷ "code" ∷ "index" ∷ []

abbrev items_clean : ItemErrors → Bool
items_clean none_left = true
items_clean (item_error e es) =
    lacks item_keys (additional e.additional_properties) && items_clean es

abbrev given_clean : Omittable ItemErrors → Bool
given_clean unset = true
given_clean (given es) = items_clean es

-- The additional properties of an error, of its items and of its causes are not under the keys of
-- attributes; and how deep the causes nest.
unfoldable mutual
  pub is_clean : ApiError → Bool
  is_clean (api_error _ _ _ _ _ because item_errors m) =
      lacks error_keys (additional m) && given_clean item_errors && because_clean because

  because_clean : OmittableCauses → Bool
  because_clean unset_causes = true
  because_clean (causes cs) = causes_clean cs

  causes_clean : Causes → Bool
  causes_clean no_cause = true
  causes_clean (cause e cs) = is_clean e && causes_clean cs

unfoldable mutual
  pub depth : ApiError → ℕ
  depth (api_error _ _ _ _ _ because _ _) = because_depth because

  because_depth : OmittableCauses → ℕ
  because_depth unset_causes = 0
  because_depth (causes cs) = causes_depth cs

  causes_depth : Causes → ℕ
  causes_depth no_cause = 0
  causes_depth (cause e cs) = max (suc (depth e)) (causes_depth cs)

code_listed : (c : ApiErrorCode) → member (code_value c) api_error_code_values ≡ true
code_listed Enums.cancellation_pending = refl
code_listed Enums.event_history_expired = refl
code_listed Enums.external_modification_conflict = refl
code_listed Enums.incomplete_analysis = refl
code_listed Enums.input_security_rejection = refl
code_listed Enums.internal_error = refl
code_listed Enums.invalid_entity_id = refl
code_listed Enums.invalid_request = refl
code_listed Enums.mapping_merge_conflict = refl
code_listed Enums.method_not_allowed = refl
code_listed Enums.not_found = refl
code_listed Enums.operation_not_implemented = refl
code_listed Enums.project_busy = refl
code_listed Enums.project_load_failed = refl
code_listed Enums.project_not_ready = refl
code_listed Enums.resource_limit = refl
code_listed Enums.service_shutting_down = refl
code_listed Enums.stale_revision = refl
code_listed Enums.unsupported_capability = refl

module _ (codec : Codec) where
  -- Details are null, a dict, or a value that is kept.
  detail-FitsKind : (j : Json) → FitsKind codec (nullable (model with_additional)) (detail j)
  unfolding write_value
  detail-FitsKind Json.null = fits_null
  detail-FitsKind (Json.bool b) = fits_raw refl
  detail-FitsKind (Json.int n) = fits_raw refl
  detail-FitsKind (Json.real m n) = fits_raw refl
  detail-FitsKind (str s) = fits_raw refl
  detail-FitsKind (arr xs) = fits_raw refl
  detail-FitsKind (obj m) = fits_nullable refl (fits_model fits_additional)

  as_raw-FitsField : (j : Omittable Json) → FitsField codec plain (as_raw j)
  as_raw-FitsField unset w e = absurd (cc)
  as_raw-FitsField (given j) w e = let q : raw j ≡ w = ground arith in rw (sym q) fits_plain

  as_details-FitsField :
      (j : Omittable Json) → FitsField codec (nullable (model with_additional)) (as_details j)
  as_details-FitsField unset w e = absurd (cc)
  as_details-FitsField (given j) w e =
      let q : detail j ≡ w = ground arith in rw (sym q) (detail-FitsKind j)

  item-Keeps :
      (e : ItemError)
      → lacks item_keys (additional e.additional_properties) ≡ true
      → Keeps codec [] item_error_schema (item_object e)
  item-Keeps e h = keeps_required codec fits_plain refl (
      keeps_required codec fits_plain refl (
        keeps_required codec fits_plain refl (
          keeps_optional codec "details" (as_details e.details) (as_details-FitsField e.details)
            refl (keeps_additional codec _ e.additional_properties h))))

  items-FitAll :
      (es : ItemErrors) → items_clean es ≡ true → FitAll codec item_error_schema (item_objects es)
  items-FitAll none_left h = fit_none
  items-FitAll (item_error e es) h =
      fit_object (item-Keeps e (ground arith)).fits (items-FitAll es (ground arith))

  as_items-FitsField :
      (es : Omittable ItemErrors)
      → given_clean es ≡ true
      → FitsField codec (models item_error_schema) (as_items es)
  as_items-FitsField unset h w e = absurd (cc)
  as_items-FitsField (given es) h w e =
      let q : instances (item_objects es) ≡ w = ground arith in
      rw (sym q) (fits_models (items-FitAll es h))

  mutual
    unfolding is_clean because_clean causes_clean depth because_depth causes_depth error_object
        as_causes cause_objects

    error-Keeps :
        (n : ℕ) (e : ApiError)
        → is_clean e ≡ true
        → depth e ≤ n
        → Keeps codec [] (api_error_schema n) (error_object e)
    error-Keeps n (api_error code message retryable request_id details because item_errors m) h d =
        keeps_required codec (fits_enum (code_listed code)) refl (
          keeps_required codec fits_plain refl (
            keeps_optional codec "retryable" (as_raw retryable) (as_raw-FitsField retryable) refl (
              keeps_optional codec "requestId" (as_raw request_id) (as_raw-FitsField request_id)
                refl
                (keeps_optional codec "details" (as_details details) (as_details-FitsField details)
                  refl
                  (keeps_optional codec "causes" (as_causes because)
                    (because-FitsField n because (ground arith) d) refl
                    (keeps_optional codec "itemErrors" (as_items item_errors)
                      (as_items-FitsField item_errors (ground arith)) refl
                      (keeps_additional codec _ m (ground arith))))))))

    because-FitsField :
        (n : ℕ) (cs : OmittableCauses)
        → because_clean cs ≡ true
        → because_depth cs ≤ n
        → FitsField codec (models (cause_schema n)) (as_causes cs)
    because-FitsField n unset_causes h d w e = absurd (cc)
    because-FitsField n (causes cs) h d w e =
        let q : instances (cause_objects cs) ≡ w = ground arith in
        rw (sym q) (fits_models (causes-FitAll n cs h d))

    causes-FitAll :
        (n : ℕ) (cs : Causes)
        → causes_clean cs ≡ true
        → causes_depth cs ≤ n
        → FitAll codec (cause_schema n) (cause_objects cs)
    causes-FitAll n no_cause h d = fit_none
    causes-FitAll zero (cause e cs) h d = absurd (omega arith)
    causes-FitAll (suc n) (cause e cs) h d =
        fit_object (error-Keeps n e (ground arith) (omega arith)).fits
          (causes-FitAll (suc n) cs (ground arith) (omega arith))

  -- `ApiError.from_dict` of what `to_dict` of an error writes gives the error back, with its causes and
  -- theirs, its items, `UNSET` and null attributes and additional properties, if no additional property
  -- is under the key of an attribute: every depth that the causes do not exceed is enough.
  pub read_object-to_dict :
      (n : ℕ) (e : ApiError)
      → is_clean e ≡ true
      → depth e ≤ n
      → read_object codec (api_error_schema n) (to_dict e) ≡ some (error_object e)
  read_object-to_dict n e h d =
      ap (read_object codec (api_error_schema n)) (sym (write-error_object e))
      ∙ read_object-write_object codec (error-Keeps n e h d).fits
