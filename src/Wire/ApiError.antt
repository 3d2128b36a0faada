-- ===== src/Wire/ApiError.antt =====
-- models/api_error.py and models/item_error.py: the error body of the service.
use libjadx.Wire.Json.{
  Json, str, arr, obj, Items, nil, item, Members, Omittable, unset, given, put, put_given,
}
use libjadx.Wire.Enums.{ApiErrorCode, code_value}

-- What `from_dict` does not check (message, retryable, request id, details) is the JSON value.
pub record ItemError : Type 0 where
  pub index : Json
  pub code : Json
  pub message : Json
  pub details : Omittable Json
  pub additional_properties : Members

pub data ItemErrors : Type 0 where
  none_left : ItemErrors
  item_error : ItemError → ItemErrors → ItemErrors

mutual
  pub data ApiError : Type 0 where
    api_error :
        (code : ApiErrorCode) (message : Json) (retryable request_id details : Omittable Json)
        (causes : OmittableCauses) (item_errors : Omittable ItemErrors)
        (additional_properties : Members)
        → ApiError

  pub data OmittableCauses : Type 0 where
    unset_causes : OmittableCauses
    causes : Causes → OmittableCauses

  pub data Causes : Type 0 where
    no_cause : Causes
    cause : ApiError → Causes → Causes

unfoldable pub item_dict : ItemError → Members
item_dict e =
    put_given "details" e.details
      (put "message" e.message (put "code" e.code (put "index" e.index e.additional_properties)))

abbrev pub item_dicts : ItemErrors → Items
item_dicts none_left = nil
item_dicts (item_error e es) = item (obj (item_dict e)) (item_dicts es)

abbrev pub item_errors_value : Omittable ItemErrors → Omittable Json
item_errors_value unset = unset
item_errors_value (given es) = given (arr (item_dicts es))

unfoldable mutual
  pub to_dict : ApiError → Members
  to_dict (api_error code message retryable request_id details because item_errors additional) =
      put_given "itemErrors" (item_errors_value item_errors) (
        put_given "causes" (causes_value because) (
          put_given "details" details (
            put_given "requestId" request_id (
              put_given "retryable" retryable
                (put "message" message (put "code" (str (code_value code)) additional))))))

  pub causes_value : OmittableCauses → Omittable Json
  causes_value unset_causes = unset
  causes_value (causes cs) = given (arr (cause_dicts cs))

  pub cause_dicts : Causes → Items
  cause_dicts no_cause = nil
  cause_dicts (cause e cs) = item (obj (to_dict e)) (cause_dicts cs)

abbrev pub code_of : ApiError → ApiErrorCode
code_of (api_error code _ _ _ _ _ _ _) = code

abbrev pub message_of : ApiError → Json
message_of (api_error _ message _ _ _ _ _ _) = message
