-- ===== src/Jobs/Stream.antt =====
-- `stream_status` and `Job.events` of python/src/libjadx/jobs.py. What httpx gives is a parameter: how the
-- stream opens, the chunks of its body, and how they end. The generator is given by what it yields to
-- a caller that takes everything, and by how it ends.
pub mod Order
pub mod Pieces
use libjadx.Base.{
  ℕ, zero, suc, String, Bool, true, false, not, Option, none, some, List, [], ◌∷◌, ◌++◌, length,
  ◌==◌, if◌then◌else◌, codes, ℤ,
}
use libjadx.Wire.ApiError
use libjadx.Wire.Codec.{Codec, Uuid}
use libjadx.Wire.Job.{JobEvent}
use libjadx.Errors.{
  Exception, value_error, transport_error, request_timeout_error, unexpected_response_error,
  unexpected_status, api, Headers, failure_of, Result, ok, raise, or_raise,
}
use libjadx.Sse.{Bytes, Codes, Parser, start, feed, split_at}
use libjadx.Sse.Text.{text_eq}

-- How the body ends: it is exhausted, or httpx raises behind its last chunk.
pub data StreamEnd : Type 0 where
  exhausted : StreamEnd
  timed_out failed : String → StreamEnd

-- `content_type` is `response.headers.get("content-type", "")`, and `error` the body read as an error
-- envelope, `none` if it cannot be.
pub record StreamResponse : Type 0 where
  pub status_code : ℕ
  pub headers : Headers
  pub content_type : String
  pub error : Option ApiError.ApiError
  pub chunks : List Bytes
  pub end : StreamEnd

-- What `pool.stream` does.
pub data Opened : Type 0 where
  stream_response : StreamResponse → Opened
  stream_timeout stream_error : String → Opened

-- `s.split(";", 1)[0]`
abbrev before_semicolon : Codes → Codes
before_semicolon s = elim (split_at 59 s) [ none ↦ s | some (head, rest) ↦ head ]

-- The text of the status is not kept when the body is no error envelope.
unfoldable pub stream_status : Codec → StreamResponse → Result (Unit {0})
stream_status codec r =
    if not (r.status_code == 200)
    then elim r.error [
      | none ↦ raise (unexpected_status r.status_code)
      | some e ↦ raise (api (failure_of codec.lower e (some r.status_code) r.headers))
    ]
    else if text_eq (before_semicolon (codes r.content_type)) (codes "text/event-stream")
    then ok tt
    else raise (unexpected_response_error "Expected text/event-stream")

module _ {A : Type 0} where
  -- `xs[:n]` and `xs[n:]`
  abbrev pub take : ℕ → List A → List A
  take zero xs = []
  take (suc n) [] = []
  take (suc n) (x ∷ xs) = x ∷ take n xs

  abbrev pub drop : ℕ → List A → List A
  drop zero xs = xs
  drop (suc n) [] = []
  drop (suc n) (x ∷ xs) = drop n xs

abbrev pub piece_size : ℕ
piece_size = 16384

-- `chunk[offset : offset + size] for offset in range(0, len(chunk), size)`, on fuel for the bytes.
unfoldable pub pieces : ℕ → ℕ → Bytes → List Bytes
pieces zero size chunk = []
pieces (suc n) size [] = []
pieces (suc n) size (b ∷ bs) = take size (b ∷ bs) ∷ pieces n size (drop size (b ∷ bs))

module _ (codec : Codec) where
  abbrev pub Yielded : Type 0 → Type 0
  Yielded A = List JobEvent × Result A

  abbrev pub yield_before : {A : Type 0} → List JobEvent → Yielded A → Yielded A
  yield_before es (later, r) = (es ++ later, r)

  -- The inner loop: `yield from parser.feed(piece)`.
  abbrev fed : (Parser → Yielded Parser) → Result (List JobEvent × Parser) → Yielded Parser
  fed more (raise e) = ([], raise e)
  fed more (ok (es, p)) = yield_before es (more p)

  unfoldable pub feed_pieces : List Bytes → Parser → Yielded Parser
  unfolding feed
  feed_pieces [] p = ([], ok p)
  feed_pieces (x ∷ xs) p = fed (feed_pieces xs) (feed codec x p)

  abbrev pub ended : StreamEnd → Exception
  ended exhausted =
      transport_error "Job event stream ended before terminal event; poll or reconnect explicitly"
  ended (timed_out text) = request_timeout_error text
  ended (failed text) = transport_error text

  -- Behind a chunk: `if parser.terminal: return`.
  abbrev chunk_fed : (Parser → Yielded (Unit {0})) → Yielded Parser → Yielded (Unit {0})
  chunk_fed more (es, raise e) = (es, raise e)
  chunk_fed more (es, ok p) =
      let rest = yield_before es (more p) in if p.terminal then (es, ok tt) else rest

  unfoldable pub feed_chunks : List Bytes → StreamEnd → Parser → Yielded (Unit {0})
  unfolding feed_pieces pieces
  feed_chunks [] end p = ([], raise (ended end))
  feed_chunks (x ∷ xs) end p =
      chunk_fed (feed_chunks xs end) (feed_pieces (pieces (length x) piece_size x) p)

  -- `Parser(self.id, last_event_id)`: `int` of the text, which may raise.
  abbrev int_or_raise : Option ℤ → Result (Option ℤ)
  int_or_raise none = raise (value_error "invalid literal for int()")
  int_or_raise (some n) = ok (some n)

  abbrev last_id_of : (String → Option ℤ) → Option String → Result (Option ℤ)
  last_id_of int_of none = ok none
  last_id_of int_of (some text) = int_or_raise (int_of text)

  abbrev parsed : Uuid → StreamResponse → Result (Option ℤ) → Yielded (Unit {0})
  parsed id r (raise e) = ([], raise e)
  parsed id r (ok last_id) = feed_chunks r.chunks r.end (start id last_id)

  abbrev checked :
      (String → Option ℤ)
      → Uuid
      → Option String
      → StreamResponse
      → Result (Unit {0})
      → Yielded (Unit {0})
  checked int_of id last_event_id r (raise e) = ([], raise e)
  checked int_of id last_event_id r (ok _) = parsed id r (last_id_of int_of last_event_id)

  abbrev streamed : (String → Option ℤ) → Uuid → Option String → Opened → Yielded (Unit {0})
  streamed int_of id last_event_id (stream_timeout text) = ([], raise (request_timeout_error text))
  streamed int_of id last_event_id (stream_error text) = ([], raise (transport_error text))
  streamed int_of id last_event_id (stream_response r) =
      checked int_of id last_event_id r (stream_status codec r)

  -- `Job.events` of the job `id` on a client that is `closed` or not.
  unfoldable pub events :
      (String → Option ℤ) → Bool → Uuid → Option String → Opened → Yielded (Unit {0})
  unfolding stream_status feed_chunks
  events int_of closed id last_event_id opened =
      if closed
      then ([], raise (transport_error "Client is closed"))
      else streamed int_of id last_event_id opened
