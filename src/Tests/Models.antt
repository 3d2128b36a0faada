-- ===== src/Tests/Models.antt =====
-- The classes of python/src/libjadx/_generated/models at concrete values.
use libjadx.Base.{String, true, false, none, some, ◌≡◌, refl}
use libjadx.Wire.Json.{
  arr, obj, item, nil, remove, null, str, Members, end, get, equals_ℕ, unset, given,
}
use libjadx.Wire.Json
use libjadx.Wire.Schema.{
  raw, instances, no_object, a_uuid, a_member, instance_of, Object, no_more, attribute, left_out,
  read_object, write_object, additional_of,
}
use libjadx.Wire.Schema.Written.{has_key, IsNew}
use libjadx.Wire.Schema.RoundTrip.{
  Fits, fits_plain, fits_uuid, fits_enum, fits_model, fits_closed, fits_required, fits_given,
  fits_unset, fits_false, fits_models, fit_none, read_object-write_object,
}
use libjadx.Wire.Schema.Required.{read_object_missing}
use libjadx.Wire.Schema.Symbols.{symbol_ref_schema, symbol_resolve_request_schema}
use libjadx.Wire.Schema.Source.{decompile_result_schema}
use libjadx.Base.{arith}
use libjadx.Wire.Job.{as_dict}
use libjadx.Wire.Schema.Errors.{api_error_schema}
use libjadx.Wire.Enums
use libjadx.Wire.ApiError.{ApiError, api_error, causes, cause, no_cause, unset_causes, to_dict}
use libjadx.Wire.Schema.Errors.Objects.{error_object}
use libjadx.Wire.Schema.Errors.Whole.{is_clean, depth, read_object-to_dict}
use libjadx.Wire.Schema.Edits.{edit_batch_result_schema}
use libjadx.Samples.{codec, job_uuid}

abbrev class_main : Object
class_main = attribute "kind" (a_member "CLASS") (
    attribute "originalClassDescriptor" (raw (str "La/Main;")) (
      left_out "inputIdentity"
        (attribute "originalName" (raw null) (left_out "originalDescriptor" no_more))))

abbrev resolve_request : Object
resolve_request =
    attribute "ref" (instance_of class_main)
      (attribute "expectedSessionId" (a_uuid job_uuid) (left_out "expectedLogicalRevision" no_more))

abbrev new_key :
    {key : String} {o : Object}
    → has_key key o ≡ false
    → get key (additional_of o) ≡ none
    → IsNew key o
new_key h u = record { no_attribute = h; unknown = u }

class_main-Fits : Fits codec symbol_ref_schema class_main
unfolding get
class_main-Fits = fits_required (fits_enum refl) (new_key refl refl) (
    fits_required fits_plain (new_key refl refl) (
      fits_unset (new_key refl refl)
        (fits_given fits_plain (new_key refl refl) (fits_unset (new_key refl refl) fits_closed))))

resolve_request-Fits : Fits codec symbol_resolve_request_schema resolve_request
unfolding get
resolve_request-Fits =
    fits_required (fits_model class_main-Fits) (new_key refl refl)
      (fits_given (fits_uuid refl) (new_key refl refl) (fits_unset (new_key refl refl) fits_closed))

read_object-write_object_example :
    read_object codec symbol_resolve_request_schema (write_object resolve_request)
    ≡ some resolve_request
read_object-write_object_example = read_object-write_object codec resolve_request-Fits

abbrev no_source : Members
no_source = Json.member "outcome" (str "RESOLVED") (Json.member "status" (str "COMPLETE") end)

read_object_missing_example : read_object codec decompile_result_schema no_source ≡ none
unfolding get
read_object_missing_example =
    read_object_missing codec "source" decompile_result_schema no_source refl refl

-- An error with a cause that has no cause itself.
abbrev plain_cause : Members
plain_cause = Json.member "code" (str "NOT_FOUND") (Json.member "message" (str "no class") end)

abbrev caused : Members
caused = Json.member "code" (str "INTERNAL_ERROR") (
    Json.member "message" (str "failed")
      (Json.member "causes" (arr (item (obj plain_cause) nil)) end))

caused_shallow : read_object codec (api_error_schema 0) caused ≡ none
unfolding get remove as_dict read_object
caused_shallow = refl

-- The same error as an instance, which reads at depth 1 and deeper.
abbrev caused_error : ApiError
caused_error =
    api_error Enums.internal_error (str "failed") unset unset (given (obj end))
      (causes (
        cause
          (api_error Enums.not_found (str "no class") unset (given null) unset unset_causes unset
            end)
          no_cause))
      unset (Json.member "hint" (str "x") end)

read_object-to_dict_example :
    read_object codec (api_error_schema 1) (to_dict caused_error) ≡ some (error_object caused_error)
unfolding is_clean get depth
read_object-to_dict_example = read_object-to_dict codec 1 caused_error refl (omega arith)

-- A result of an edit batch, whose `saved` is `False`.
abbrev batch : Object
batch = attribute "outcome" (a_member "APPLIED") (
    attribute "sessionId" (raw (str "s")) (
      attribute "logicalRevisionBefore" (raw null) (
        attribute "logicalRevisionAfter" (raw null) (
          attribute "indexRevisionAfter" (raw null) (
            attribute "dirty" (raw (Json.bool true)) (
              attribute "saved" (raw (Json.bool false)) (
                attribute "items" (instances no_object)
                  (attribute "diagnostics" (raw null) no_more))))))))

batch-Fits : Fits codec edit_batch_result_schema batch
unfolding get equals_ℕ
batch-Fits = fits_required (fits_enum refl) (new_key refl refl) (
    fits_required fits_plain (new_key refl refl) (
      fits_required fits_plain (new_key refl refl) (
        fits_required fits_plain (new_key refl refl) (
          fits_required fits_plain (new_key refl refl) (
            fits_required fits_plain (new_key refl refl) (
              fits_required (fits_false refl) (new_key refl refl) (
                fits_required (fits_models fit_none) (new_key refl refl)
                  (fits_required fits_plain (new_key refl refl) fits_closed))))))))
