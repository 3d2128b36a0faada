-- ===== src/Sse.antt =====
-- python/src/libjadx/_sse.py: the parser of the job event stream. Bytes and code points are numbers.
-- A call that raises ends the stream, so the half-changed parser is not kept.
pub mod Text
mod Fields
pub mod Drains
pub mod Chunks
pub mod Limits
pub mod Order
pub mod Memory
pub use Text.{Bytes, Codes, starts_with_colon}
unfoldable pub use Text.{
  split_at, decode_utf8, rstrip_cr, lead_byte, follow_byte, utf8_step, utf8_from, decimal_from,
}
pub use Fields.{Frame, no_fields}
unfoldable pub use Fields.{
  read_lines, event_of, set_field, read_line, read_event, checked_event, is_consistent,
}
use libjadx.Base.{
  ℕ, zero, suc, ◌+◌, ◌*◌, Bool, true, false, Option, none, some, List, [], ◌∷◌, ◌++◌, length, ltb,
  if◌then◌else◌, ℤ, pos,
}
use libjadx.Errors.{Exception, unexpected_response_error, Result, ok, raise, ◌>>=◌, or_raise}
use libjadx.Wire.Codec.{Codec, Uuid}
use libjadx.Wire.Enums.{JobState, cancelled, failed, succeeded}
use libjadx.Wire.Job.{JobEvent}

-- MAX_FRAME and MAX_LINE
abbrev pub max_frame : ℕ
max_frame = 1048576

abbrev pub max_line : ℕ
max_line = 1048576

-- `state in TERMINAL`
abbrev pub is_terminal : JobState → Bool
is_terminal succeeded = true
is_terminal failed = true
is_terminal cancelled = true
is_terminal _ = false

pub record Parser : Type 0 where
  pub job_id : Uuid
  pub last_id : ℤ
  pub pending : Bytes
  pub lines : List Codes
  pub frame_bytes : ℕ
  pub terminal : Bool

-- `Parser.__init__`, with what `int(last_event_id)` gives.
abbrev pub start : Uuid → Option ℤ → Parser
start job_id last_event_id = record {
  job_id = job_id;
  last_id = elim last_event_id [ none ↦ pos 0 | some n ↦ n ];
  pending = [];
  lines = [];
  frame_bytes = 0;
  terminal = false;
}

-- What `feed` has: the events so far and the parser, or an exception.
abbrev pub Drained : Type 0
Drained = Result (List JobEvent × Parser)

-- `events.append(event)`, before what the later rounds append
abbrev pub prepend : JobEvent → Drained → Drained
prepend e (ok (events, p)) = ok (e ∷ events, p)
prepend e (raise x) = raise x

abbrev pub receive : Bytes → Parser → Parser
receive chunk p = record p { pending = p.pending ++ chunk }

-- The two tests behind the loop.
abbrev pub within_limits : List JobEvent → Parser → Drained
within_limits events p =
    if ltb max_line (length p.pending)
    then raise (unexpected_response_error "Oversized SSE line")
    else if ltb max_frame (p.frame_bytes + length p.pending)
    then raise (unexpected_response_error "Oversized SSE frame")
    else ok (events, p)

-- Behind the loop, if it did not raise.
abbrev pub finish : Drained → Drained
finish (ok (events, p)) = within_limits events p
finish (raise e) = raise e

-- The parser behind a blank line, whose frame gave `found`.
abbrev pub after_frame : Option (ℕ × JobEvent) → Parser → Option JobEvent × Parser
after_frame none p = (none, record p { lines = []; frame_bytes = 0 })
after_frame (some (number, event)) p = (
  some event,
  record p {
    last_id = pos number;
    lines = [];
    frame_bytes = 0;
    terminal = if is_terminal event.state then true else p.terminal;
  },
)

module _ (codec : Codec) where
  -- A line with its bytes counted: kept, or the end of a frame.
  unfoldable pub end_line : Codes → Parser → Result (Option JobEvent × Parser)
  end_line [] p = do
    f ← read_lines p.lines no_fields
    found ← event_of codec p.job_id p.last_id f
    ok (after_frame found p)
  end_line (c ∷ cs) p = ok (none, record p { lines = p.lines ++ (c ∷ cs) ∷ [] })

  -- The line has been taken from `pending`, and its bytes are counted with its newline.
  unfoldable pub count_line : ℕ → Codes → Parser → Result (Option JobEvent × Parser)
  unfolding end_line
  count_line bytes text p =
      if ltb max_frame bytes
      then raise (unexpected_response_error "Oversized SSE frame")
      else end_line (rstrip_cr text) (record p { frame_bytes = bytes })

  -- One round of the `while`, for the line up to the first newline and the bytes behind it.
  unfoldable pub take_line : Bytes → Bytes → Parser → Result (Option JobEvent × Parser)
  unfolding count_line
  take_line line rest p =
      if ltb max_line (length line)
      then raise (unexpected_response_error "Oversized SSE line")
      else or_raise (decode_utf8 line) (unexpected_response_error "Invalid SSE UTF-8") >>= λ text.
          count_line (p.frame_bytes + (length line + 1)) text (record p { pending = rest })

  -- The `while` loop, with fuel for the newlines in `pending`.
  unfoldable pub drain : ℕ → Parser → Drained
  drain zero p = ok ([], p)
  drain (suc n) p = elim (split_at 10 p.pending) [
    | none ↦ ok ([], p)
    | some (line, rest) ↦ elim (take_line line rest p) [
      | raise e ↦ raise e
      | ok (none, q) ↦ drain n q
      | ok (some event, q) ↦
          let more = prepend event (drain n q) in
          if is_terminal event.state then ok (event ∷ [], q) else more
    ]
  ]

  unfoldable pub feed : Bytes → Parser → Drained
  unfolding drain
  feed chunk p = let q = receive chunk p in finish (drain (suc (length q.pending)) q)
