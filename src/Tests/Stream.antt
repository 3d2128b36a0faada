-- ===== src/Tests/Stream.antt =====
-- The parser of the event stream on one frame.
use libjadx.Base.{
  false, String, Option, ℤ, ◌+◌, ◌≤◌, ◌||◌, none, [], ◌∷◌, ◌++◌, length, pos, ◌≡◌, refl, arith,
}
use libjadx.Errors.{ok, raise}
use libjadx.Wire.Json.{get, put, remove, equals_ℕ}
use libjadx.Wire.Enums.{member_of}
use libjadx.Wire.Job.{as_dict, progress_from_dict, event_from_dict}
use libjadx.Sse.{
  Parser, start, receive, feed, drain, take_line, count_line, end_line, read_lines, read_line,
  set_field, event_of, read_event, checked_event, is_consistent, decimal_from, split_at,
  decode_utf8, utf8_from, utf8_step, lead_byte, follow_byte, rstrip_cr, max_frame,
}
use libjadx.Sse.Chunks.{ends}
use libjadx.Sse.Limits.{Joined, feed-append}
use libjadx.Sse.Order.{Numbered, OnlyLastEnds, feed_order}
use libjadx.Sse.Memory.{held, feed_bounded}
use libjadx.Jobs.Stream.{
  Opened, stream_response, exhausted, ended, pieces, events, stream_status, feed_chunks,
  feed_pieces,
}
use libjadx.Jobs.Stream.Order.{Streamed, events-Streamed}
use libjadx.Samples.{codec, job_uuid, event, frame_head, frame_tail}

abbrev before : Parser
before = start job_uuid none

abbrev behind : Parser
behind = record before { last_id = pos 4 }

frame_feed : feed codec (frame_head ++ frame_tail) before ≡ ok (event ∷ [], behind)
unfolding feed drain take_line count_line end_line read_lines read_line set_field event_of
    read_event checked_event is_consistent decimal_from split_at decode_utf8 utf8_from utf8_step
    lead_byte follow_byte rstrip_cr get put remove equals_ℕ member_of as_dict progress_from_dict
    event_from_dict
frame_feed = refl

feed-append_example : Joined codec frame_head frame_tail before behind (event ∷ [])
feed-append_example = feed-append codec frame_head frame_tail before frame_feed

feed_order_example :
    Numbered job_uuid (pos 0) (event ∷ []) (pos 4)
    × OnlyLastEnds (event ∷ [])
    × (behind.terminal ≡ (ends (event ∷ []) || before.terminal))
feed_order_example = feed_order codec (frame_head ++ frame_tail) before frame_feed

feed_bounded_example :
    (held behind.lines ≤ behind.frame_bytes)
    × (held behind.lines + length behind.pending ≤ max_frame)
feed_bounded_example = feed_bounded codec (frame_head ++ frame_tail) before (omega arith) frame_feed

-- The frame as the body of a response, in two chunks; the job has not ended by its end.
abbrev opened : Opened
opened = stream_response (record {
  status_code = 200;
  headers = [];
  content_type = "text/event-stream;charset=utf-8";
  error = none;
  chunks = frame_head ∷ frame_tail ∷ [];
  end = exhausted;
})

abbrev no_int : String → Option ℤ
no_int _ = none

events-Streamed_example :
    Streamed codec job_uuid (pos 0) (events codec no_int false job_uuid none opened)
events-Streamed_example = events-Streamed codec no_int false job_uuid none opened

-- The event is yielded, although the stream then ends too early.
events_run :
    events codec no_int false job_uuid none opened ≡ (event ∷ [], raise (ended codec exhausted))
unfolding events stream_status feed_chunks feed_pieces pieces feed drain take_line count_line
    end_line read_lines read_line set_field event_of read_event checked_event is_consistent
    decimal_from split_at decode_utf8 utf8_from utf8_step lead_byte follow_byte rstrip_cr get put
    remove equals_ℕ member_of as_dict progress_from_dict event_from_dict
events_run = refl

abbrev loaded : Parser
loaded = receive (frame_head ++ frame_tail) before
