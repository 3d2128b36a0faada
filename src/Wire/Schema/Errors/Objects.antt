-- ===== src/Wire/Schema/Errors/Objects.antt =====
-- The instances of `ApiError` and `ItemError` (api_error.py and item_error.py of
-- python/src/libjadx/_generated/models) that the errors of Wire/ApiError stand for, and what they write.
use libjadx.Base.{String, ◌≡◌, refl, ap}
use libjadx.Wire.Json.{Json, str, arr, obj, Members, put_given, Omittable, unset, given}
use libjadx.Wire.Enums.{code_value}
use libjadx.Wire.ApiError.{
  ItemError, ItemErrors, none_left, item_error, ApiError, api_error, OmittableCauses, unset_causes,
  causes, Causes, no_cause, cause, item_dict, item_dicts, item_errors_value, to_dict, causes_value,
  cause_dicts,
}
use libjadx.Wire.Schema.{
  Value, raw, a_member, instance_of, instances, Object, additional, attribute, left_out, Objects,
  no_object, object, additional_of, write_value, write_onto, write_all, write_object,
}

-- An attribute that may be `UNSET`.
abbrev pub field : String → Omittable Value → Object → Object
field key unset o = left_out key o
field key (given v) o = attribute key v o

abbrev pub as_raw : Omittable Json → Omittable Value
as_raw unset = unset
as_raw (given j) = given (raw j)

-- Details are an instance of their class if they are a dict.
abbrev pub detail : Json → Value
detail (obj m) = instance_of (additional m)
detail j = raw j

abbrev pub as_details : Omittable Json → Omittable Value
as_details unset = unset
as_details (given j) = given (detail j)

abbrev pub item_object : ItemError → Object
item_object e = attribute "index" (raw e.index) (
    attribute "code" (raw e.code) (
      attribute "message" (raw e.message)
        (field "details" (as_details e.details) (additional e.additional_properties))))

abbrev pub item_objects : ItemErrors → Objects
item_objects none_left = no_object
item_objects (item_error e es) = object (item_object e) (item_objects es)

abbrev pub as_items : Omittable ItemErrors → Omittable Value
as_items unset = unset
as_items (given es) = given (instances (item_objects es))

unfoldable mutual
  pub error_object : ApiError → Object
  error_object (api_error code message retryable request_id details because item_errors m) =
      attribute "code" (a_member (code_value code)) (
        attribute "message" (raw message) (
          field "retryable" (as_raw retryable) (
            field "requestId" (as_raw request_id) (
              field "details" (as_details details) (
                field "causes" (as_causes because)
                  (field "itemErrors" (as_items item_errors) (additional m)))))))

  pub as_causes : OmittableCauses → Omittable Value
  as_causes unset_causes = unset
  as_causes (causes cs) = given (instances (cause_objects cs))

  pub cause_objects : Causes → Objects
  cause_objects no_cause = no_object
  cause_objects (cause e cs) = object (error_object e) (cause_objects cs)

abbrev written : Omittable Value → Omittable Json
written unset = unset
written (given v) = given (write_value v)

write_onto-field :
    (key : String) (v : Omittable Value) (o : Object) (m : Members)
    → write_onto (field key v o) m ≡ write_onto o (put_given key (written v) m)
unfolding write_onto
write_onto-field key unset o m = refl
write_onto-field key (given v) o m = refl

pub additional_of-field :
    (key : String) (v : Omittable Value) (o : Object)
    → additional_of (field key v o) ≡ additional_of o
additional_of-field key unset o = refl
additional_of-field key (given v) o = refl

written-as_raw : (j : Omittable Json) → written (as_raw j) ≡ j
unfolding write_value
written-as_raw unset = refl
written-as_raw (given j) = refl

pub write_value-detail : (j : Json) → write_value (detail j) ≡ j
unfolding write_value write_onto
write_value-detail Json.null = refl
write_value-detail (Json.bool b) = refl
write_value-detail (Json.int n) = refl
write_value-detail (Json.real m n) = refl
write_value-detail (str s) = refl
write_value-detail (arr xs) = refl
write_value-detail (obj m) = refl

written-as_details : (j : Omittable Json) → written (as_details j) ≡ j
written-as_details unset = refl
written-as_details (given j) = ap given (write_value-detail j)

write-item_object : (e : ItemError) → write_object (item_object e) ≡ item_dict e
unfolding write_onto write_value item_dict
write-item_object e = simp (write_onto-field, additional_of-field, written-as_details) refl

write-item_objects : (es : ItemErrors) → write_all (item_objects es) ≡ item_dicts es
unfolding write_all
write-item_objects none_left = refl
write-item_objects (item_error e es) = rw (write-item_object e, write-item_objects es) refl

written-as_items : (es : Omittable ItemErrors) → written (as_items es) ≡ item_errors_value es
unfolding write_value
written-as_items unset = refl
written-as_items (given es) = rw (write-item_objects es) refl

mutual
  unfolding write_onto write_value write_all error_object to_dict as_causes cause_objects
      causes_value cause_dicts

  -- An error's instance writes what the error does.
  pub write-error_object : (e : ApiError) → write_object (error_object e) ≡ to_dict e
  write-error_object (api_error code message retryable request_id details because item_errors m) =
      simp
        (
          write_onto-field,
          additional_of-field,
          written-as_raw,
          written-as_details,
          written-as_items,
          written-as_causes because,
        )
        refl

  written-as_causes : (cs : OmittableCauses) → written (as_causes cs) ≡ causes_value cs
  written-as_causes unset_causes = refl
  written-as_causes (causes cs) = rw (write-cause_objects cs) refl

  write-cause_objects : (cs : Causes) → write_all (cause_objects cs) ≡ cause_dicts cs
  write-cause_objects no_cause = refl
  write-cause_objects (cause e cs) = rw (write-error_object e, write-cause_objects cs) refl
