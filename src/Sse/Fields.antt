-- ===== src/Sse/Fields.antt =====
-- `Parser._event`: the fields of one frame, and the event that they make.
pub mod Checked
use libjadx.Base.{
  ℕ, String, Bool, true, false, ◌||◌, not, Option, none, some, List, [], ◌∷◌, ◌++◌, length, ltb,
  leb, if◌then◌else◌, ℤ, pos, negsuc, codes,
}
use libjadx.Errors.{Exception, unexpected_response_error, Result, ok, raise, ◌>>=◌, or_raise}
use libjadx.Wire.Json.{equals_ℕ}
use libjadx.Wire.Codec.{Codec, Uuid, uuid_eq}
use libjadx.Wire.Enums.{event_type_value}
use libjadx.Wire.Job.{JobEvent, event_from_dict}
use libjadx.Wire.Job
use libjadx.Sse.Text.{
  Codes, split_at, starts_with_colon, remove_space, join_lines, is_ascii_decimal, decimal_from,
  text_eq,
}

-- The local variables `data`, `event_id` and `event_type`.
pub record Frame : Type 0 where
  pub data_lines : List Codes
  pub event_id : Option Codes
  pub event_type : Option Codes

abbrev pub no_fields : Frame
no_fields = record { data_lines = []; event_id = none; event_type = none }

abbrev bad : {A : Type 0} → String → Result A
bad text = raise (unexpected_response_error text)

unfoldable pub set_field : Codes → Codes → Frame → Result Frame
set_field key value f =
    if text_eq key (codes "data")
    then ok (record f { data_lines = f.data_lines ++ value ∷ [] })
    else if text_eq key (codes "id")
    then ok (record f { event_id = some value })
    else if text_eq key (codes "event")
    then ok (record f { event_type = some value })
    else bad "Unknown SSE field"

-- One round of the loop over the lines.
unfoldable pub read_line : Codes → Frame → Result Frame
unfolding set_field
read_line line f = if starts_with_colon line then ok f else elim (split_at b':' line) [
  | none ↦ bad "Malformed SSE field"
  | some (key, value) ↦ set_field key (remove_space value) f
]

unfoldable pub read_lines : List Codes → Frame → Result Frame
unfolding read_line
read_lines [] f = ok f
read_lines (line ∷ lines) f = do f' ← read_line line f; read_lines lines f'

-- `number <= self.last_id`
abbrev pub at_most_ℤ : ℕ → ℤ → Bool
at_most_ℤ n (pos m) = leb n m
at_most_ℤ n (negsuc m) = false

-- `event_type == event.type_`, false on `None`
abbrev is_type : Option Codes → Codes → Bool
is_type none t = false
is_type (some s) t = text_eq s t

-- CPython refuses to read more digits than this.
abbrev max_digits : ℕ
max_digits = 4300

unfoldable pub is_consistent : Uuid → ℤ → Frame → ℕ → JobEvent → Bool
is_consistent job_id last_id f number event = not (
    at_most_ℤ number last_id
    || (not (equals_ℕ event.sequence number)
        || (not (is_type f.event_type (codes (event_type_value event.type_)))
            || not (uuid_eq event.job_id job_id))))

-- The `try` block; `none` where it raises.
unfoldable pub checked_event : Codec → Uuid → ℤ → Frame → Codes → Option (ℕ × JobEvent)
unfolding is_consistent decimal_from
checked_event codec job_id last_id f text =
    if not (is_ascii_decimal text) || ltb max_digits (length text)
    then none
    else elim (codec.loads (join_lines f.data_lines)) [
      | none ↦ none
      | some json ↦ elim (event_from_dict codec json) [
        | none ↦ none
        | some event ↦
            if is_consistent job_id last_id f (decimal_from 0 text) event
            then some (decimal_from 0 text, event)
            else none
      ]
    ]

abbrev pub id_or_nothing : Option Codes → (Codes → Option (ℕ × JobEvent)) → Option (ℕ × JobEvent)
id_or_nothing none f = none
id_or_nothing (some text) f = f text

-- `event_id is not None or event_type is not None`, with no data
abbrev lacks_data : Option Codes → Option Codes → Result (Option (ℕ × JobEvent))
lacks_data none none = ok none
lacks_data _ _ = bad "SSE frame lacks data"

abbrev just : {A : Type 0} → Result A → Result (Option A)
just r = r >>= λ a. ok (some a)

unfoldable pub read_event : Codec → Uuid → ℤ → Frame → List Codes → Result (Option (ℕ × JobEvent))
unfolding checked_event
read_event codec job_id last_id f [] = lacks_data f.event_id f.event_type
read_event codec job_id last_id f (_ ∷ _) = just (
    or_raise (id_or_nothing f.event_id (checked_event codec job_id last_id f))
      (unexpected_response_error "Malformed job SSE event"))

-- What follows the loop: nothing, or the event with the number that becomes `last_id`.
unfoldable pub event_of : Codec → Uuid → ℤ → Frame → Result (Option (ℕ × JobEvent))
unfolding read_event
event_of codec job_id last_id f = read_event codec job_id last_id f f.data_lines
