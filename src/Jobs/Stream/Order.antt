-- ===== src/Jobs/Stream/Order.antt =====
-- What `Job.events` yields.
use libjadx.Base.{
  String, Bool, true, false, ◌||◌, Option, none, some, List, [], ◌∷◌, ◌++◌, length, ◌≡◌, ◌⊎◌, inl,
  inr, refl, sym, ◌∙◌, arith, ℤ, pos, Bool-cases, if_false,
}
use libjadx.Wire.Codec.{Codec, Uuid}
use libjadx.Wire.Job.{JobEvent}
use libjadx.Errors.{Exception, Result, ok, raise}
use libjadx.Sse.{Bytes, Parser, start, feed}
use libjadx.Sse.Chunks.{ends}
use libjadx.Sse.Drains.{Drains, idle, quiet, last, more, take_line-Takes}
use libjadx.Sse.Limits.{feed_inv}
use libjadx.Sse.Order.{Numbered, feed_order}
use libjadx.Jobs.Stream.{
  pieces, piece_size, feed_pieces, feed_chunks, yield_before, Yielded, StreamEnd, Opened,
  StreamResponse, stream_response, stream_timeout, stream_error, streamed, checked, parsed,
  int_or_raise, last_id_of, events, stream_status,
}

Numbered-append :
    (job : Uuid) (a b c : ℤ) (es fs : List JobEvent)
    → Numbered job a es b
    → Numbered job b fs c
    → Numbered job a (es ++ fs) c
Numbered-append job a b c [] fs h k = rw h k
Numbered-append job a b c (e ∷ es) fs (n, f, h) k =
    (n, f, Numbered-append job (pos n) b c es fs h k)

ends-append : (es fs : List JobEvent) → ends (es ++ fs) ≡ (ends es || ends fs)
ends-append [] fs = refl
ends-append (e ∷ es) fs = ground (arith, ends-append es fs)

flags_join :
    (es fs old : Bool) {middle new all : Bool}
    → middle ≡ (es || old)
    → new ≡ (fs || middle)
    → all ≡ (es || fs)
    → new ≡ (all || old)
flags_join es fs old h k l = ground arith

module _ (codec : Codec) where
  Drains-job : {p s : Parser} {es : List JobEvent} → Drains codec p es s → s.job_id ≡ p.job_id
  Drains-job (idle _) = refl
  Drains-job (quiet {p} {line = line} {rest = rest} found taken d) =
      Drains-job d ∙ (take_line-Takes codec line rest p taken).0.same_job
  Drains-job (last {p} {line = line} {rest = rest} found taken t) =
      (take_line-Takes codec line rest p taken).0.same_job
  Drains-job (more {p} {line = line} {rest = rest} found taken t d) =
      Drains-job d ∙ (take_line-Takes codec line rest p taken).0.same_job

  -- Events that a parser yielded, and the parser behind them.
  pub record Yields (p : Parser) (es : List JobEvent) (s : Parser) : Type 0 where
    pub numbered : Numbered p.job_id p.last_id es s.last_id
    pub same_job : s.job_id ≡ p.job_id
    pub flag : s.terminal ≡ (ends es || p.terminal)

  feed-Yields :
      (xs : Bytes) (p : Parser) {es : List JobEvent} {s : Parser}
      → feed codec xs p ≡ ok (es, s)
      → Yields p es s
  feed-Yields xs p h =
      let (n, _, f) = feed_order codec xs p h in
      record { numbered = n; same_job = Drains-job (feed_inv codec xs p h).0; flag = f }

  Yields-append :
      {p q s : Parser} (es fs : List JobEvent)
      → Yields p es q
      → Yields q fs s
      → Yields p (es ++ fs) s
  Yields-append {p} {q} {s} es fs a b =
      let numbered : Numbered p.job_id q.last_id fs s.last_id = rw (sym a.same_job) b.numbered in
      record {
        numbered = Numbered-append p.job_id p.last_id q.last_id s.last_id es fs a.numbered numbered;
        same_job = b.same_job ∙ a.same_job;
        flag = flags_join (ends es) (ends fs) p.terminal a.flag b.flag (ends-append es fs);
      }

  -- The events are of the job and numbered upwards from `before`.
  abbrev pub InOrder : Uuid → ℤ → List JobEvent → Type 0
  InOrder id before es = (after : ℤ) × Numbered id before es after

  abbrev Pieced : Parser → Yielded codec Parser → Type 0
  Pieced p (es, ok s) = Yields p es s
  Pieced p (es, raise e) = InOrder p.job_id p.last_id es

  InOrder-append :
      {p q : Parser} (es fs : List JobEvent)
      → Yields p es q
      → InOrder q.job_id q.last_id fs
      → InOrder p.job_id p.last_id (es ++ fs)
  InOrder-append {p} {q} es fs a (after, n) =
      let numbered : Numbered p.job_id q.last_id fs after = rw (sym a.same_job) n in
      (after, Numbered-append p.job_id p.last_id q.last_id after es fs a.numbered numbered)

  feed-cases :
      (r : Result (List JobEvent × Parser))
      → ((e : Exception) × (r ≡ raise e)) ⊎ ((es : List JobEvent) × (s : Parser) × (r ≡ ok (es, s)))
  feed-cases (raise e) = inl (e, refl)
  feed-cases (ok (es, s)) = inr (es, s, refl)

  Pieced-before :
      {p q : Parser} (es : List JobEvent) (y : Yielded codec Parser)
      → Yields p es q
      → Pieced q y
      → Pieced p (yield_before codec es y)
  Pieced-before es (fs, ok s) a b = Yields-append es fs a b
  Pieced-before es (fs, raise e) a b = InOrder-append es fs a b

  feed_pieces-Pieced : (xs : List Bytes) (p : Parser) → Pieced p (feed_pieces codec xs p)
  unfolding feed_pieces
  feed_pieces-Pieced [] p = record { numbered = refl; same_job = refl; flag = refl }
  feed_pieces-Pieced (x ∷ xs) p = elim (feed-cases (feed codec x p)) [
    | inl (e, bad) ↦ rw bad (p.last_id, refl)
    | inr (es, q, good) ↦
        rw good (
          Pieced-before es (feed_pieces codec xs q) (feed-Yields x p good)
            (feed_pieces-Pieced xs q))
  ]

  -- What is said of a run: its events are in order, and if it ends normally then one of them ends the
  -- job.
  abbrev pub Streamed : Uuid → ℤ → Yielded codec (Unit {0}) → Type 0
  Streamed id before (es, ok _) = InOrder id before es × (ends es ≡ true)
  Streamed id before (es, raise e) = InOrder id before es

  pieced-cases :
      (y : Yielded codec Parser)
      → ((es : List JobEvent) × (e : Exception) × (y ≡ (es, raise e)))
        ⊎ ((es : List JobEvent) × (q : Parser) × (y ≡ (es, ok q)))
  pieced-cases (es, raise e) = inl (es, e, refl)
  pieced-cases (es, ok q) = inr (es, q, refl)

  Streamed-before :
      {p q : Parser} (es : List JobEvent) (y : Yielded codec (Unit {0}))
      → Yields p es q
      → Streamed q.job_id q.last_id y
      → Streamed p.job_id p.last_id (yield_before codec es y)
  Streamed-before es (fs, ok u) a (b, t) =
      (InOrder-append es fs a b, ends-append es fs ∙ ground (arith, t))
  Streamed-before es (fs, raise e) a b = InOrder-append es fs a b

  feed_chunks-Streamed :
      (xs : List Bytes) (end : StreamEnd) (p : Parser)
      → p.terminal ≡ false
      → Streamed p.job_id p.last_id (feed_chunks codec xs end p)
  unfolding feed_chunks
  feed_chunks-Streamed [] end p o = (p.last_id, refl)
  feed_chunks-Streamed (x ∷ xs) end p o =
      let ps = pieces (length x) piece_size x in
      let seen = feed_pieces-Pieced ps p in
      elim (pieced-cases (feed_pieces codec ps p)) [
        | inl (es, e, bad) ↦ rw bad (rw bad at seen)
        | inr (es, q, good) ↦
            let y : Yields p es q = rw good at seen in
            elim (Bool-cases q.terminal) [
              | inl t ↦ rw good (rw t ((q.last_id, y.numbered), ground (arith, y.flag, o)))
              | inr f ↦ rw good (
                  rw
                    (if_false q.terminal (es, ok tt)
                      (yield_before codec es (feed_chunks codec xs end q)) f)
                    (Streamed-before es (feed_chunks codec xs end q) y
                      (feed_chunks-Streamed xs end q f)))
            ]
      ]

  -- The number from which the caller resumes: what `int` gives, and 0 without an id.
  abbrev number_of : Option ℤ → ℤ
  number_of none = pos 0
  number_of (some n) = n

  abbrev pub resumed : (String → Option ℤ) → Option String → ℤ
  resumed int_of none = pos 0
  resumed int_of (some text) = number_of (int_of text)

  numbered-Streamed :
      (id : Uuid) (r : StreamResponse) (x : Option ℤ)
      → Streamed id (number_of x) (parsed codec id r (int_or_raise codec x))
  numbered-Streamed id r none = (pos 0, refl)
  numbered-Streamed id r (some n) = feed_chunks-Streamed r.chunks r.end (start id (some n)) refl

  parsed-Streamed :
      (int_of : String → Option ℤ) (id : Uuid) (last_event_id : Option String) (r : StreamResponse)
      → Streamed id
          (resumed int_of last_event_id)
          (parsed codec id r (last_id_of codec int_of last_event_id))
  parsed-Streamed int_of id none r = feed_chunks-Streamed r.chunks r.end (start id none) refl
  parsed-Streamed int_of id (some text) r = numbered-Streamed id r (int_of text)

  checked-Streamed :
      (int_of : String → Option ℤ) (id : Uuid) (last_event_id : Option String) (r : StreamResponse)
      (x : Result (Unit {0}))
      → Streamed id (resumed int_of last_event_id) (checked codec int_of id last_event_id r x)
  checked-Streamed int_of id last_event_id r (raise e) = (resumed int_of last_event_id, refl)
  checked-Streamed int_of id last_event_id r (ok _) = parsed-Streamed int_of id last_event_id r

  streamed-Streamed :
      (int_of : String → Option ℤ) (id : Uuid) (last_event_id : Option String) (opened : Opened)
      → Streamed id (resumed int_of last_event_id) (streamed codec int_of id last_event_id opened)
  streamed-Streamed int_of id last_event_id (stream_timeout t) =
      (resumed int_of last_event_id, refl)
  streamed-Streamed int_of id last_event_id (stream_error t) = (resumed int_of last_event_id, refl)
  streamed-Streamed int_of id last_event_id (stream_response r) =
      checked-Streamed int_of id last_event_id r (stream_status codec r)

  -- However the stream opens, is cut into chunks and ends, what `events` yields are events of the job with
  -- numbers that grow strictly from the one the caller resumes at; and if `events` ends normally, then
  -- one of them ends the job.
  pub events-Streamed :
      (int_of : String → Option ℤ) (closed : Bool) (id : Uuid) (last_event_id : Option String)
      (opened : Opened)
      → Streamed id
          (resumed int_of last_event_id)
          (events codec int_of closed id last_event_id opened)
  unfolding events
  events-Streamed int_of true id last_event_id opened = (resumed int_of last_event_id, refl)
  events-Streamed int_of false id last_event_id opened =
      streamed-Streamed int_of id last_event_id opened
