-- ===== src/Sse/Limits.antt =====
-- `Parser.feed` of _sse.py: its result as a derivation of its loop, the limits behind it, and chunks that
-- are joined.
use mathlib.Core.List.{append_assoc}
use libjadx.Base.{
  suc, ◌+◌, ◌≤◌, true, false, Option, none, some, List, ◌++◌, length, ltb, ◌≡◌, refl, sym, ap, ◌∙◌,
  arith, Bool-cases, inl, inr, ◌⊎◌, length-append,
}
use libjadx.Errors.{ok, raise}
use libjadx.Wire.Codec.{Codec}
use libjadx.Wire.Job.{JobEvent}
use libjadx.Sse.{
  Bytes, split_at, Parser, max_line, max_frame, take_line, drain, receive, feed, Drained, finish,
}
use libjadx.Sse.Drains.{
  Drains, idle, quiet, last, more, take_line-Takes, drain-Drains, Drains-drain,
}
use libjadx.Sse.Chunks.{ends, Cut, drain-Cut, split_at-append_long}

-- The pending bytes, and those of the frame so far with them, are within the bounds.
pub record IsLimited (p : Parser) : Type 0 where
  pub line_fits : length p.pending ≤ max_line
  pub frame_fits : p.frame_bytes + length p.pending ≤ max_frame

finish_inv :
    (r : Drained) {es : List JobEvent} {s : Parser}
    → finish r ≡ ok (es, s)
    → (r ≡ ok (es, s)) × IsLimited s
finish_inv (raise e) h = cc
finish_inv (ok (es', t)) {es} {s} h = elim (Bool-cases (ltb max_line (length t.pending))) [
  | inl long ↦ cc (rw long at h)
  | inr fits ↦ elim (Bool-cases (ltb max_frame (t.frame_bytes + length t.pending))) [
    | inl large ↦ cc (rw (fits, large) at h)
    | inr small ↦
        let e : ◌≡◌ {A = Drained} (ok (es', t)) (ok (es, s)) = rw (fits, small) at h in
        let same : s ≡ t = cc in
        (e, rw same (record { line_fits = ground arith; frame_fits = ground arith }))
  ]
]

finish_intro : (es : List JobEvent) (s : Parser) → IsLimited s → finish (ok (es, s)) ≡ ok (es, s)
finish_intro es s l = ground arith

module _ (codec : Codec) where
  pub feed_inv :
      (xs : Bytes) (p : Parser) {es : List JobEvent} {s : Parser}
      → feed codec xs p ≡ ok (es, s)
      → Drains codec (receive xs p) es s × IsLimited s
  unfolding feed
  feed_inv xs p h =
      let (run, limited) =
        finish_inv (drain codec (suc (length (receive xs p).pending)) (receive xs p)) h in
      (
        drain-Drains codec (suc (length (receive xs p).pending)) (receive xs p) (omega arith) run,
        limited,
      )

  pub feed_intro :
      (xs : Bytes) (p : Parser) {es : List JobEvent} {s : Parser}
      → Drains codec (receive xs p) es s
      → IsLimited s
      → feed codec xs p ≡ ok (es, s)
  unfolding feed
  feed_intro xs p {es} {s} d l =
      rw (Drains-drain codec (suc (length (receive xs p).pending)) d (omega arith))
        (finish_intro es s l)

  -- A line behind `p` that was taken has met the limits for what was pending before it.
  IsLimited-of_line :
      (ys : Bytes) (p q : Parser) {x : Option JobEvent} {r : Parser} {line rest : Bytes}
      → split_at 10 p.pending ≡ none
      → q ≡ receive ys p
      → split_at 10 q.pending ≡ some (line, rest)
      → take_line codec line rest q ≡ ok (x, r)
      → IsLimited p
  IsLimited-of_line ys p q {line = line} {rest = rest} gone same found taken =
      let t = take_line-Takes codec line rest q taken in
      let bytes : q.frame_bytes ≡ p.frame_bytes = ap (λ (z : Parser). z.frame_bytes) same in
      let long : length p.pending ≤ length line =
        split_at-append_long 10 p.pending ys gone
          (sym (ap (λ (z : Parser). split_at 10 z.pending) same) ∙ found) in
      record { line_fits = omega (arith, t.1); frame_fits = omega (arith, t.2) }

  IsLimited-before :
      (ys : Bytes) (p : Parser) {q s : Parser} {es : List JobEvent}
      → split_at 10 p.pending ≡ none
      → q ≡ receive ys p
      → Drains codec q es s
      → IsLimited s
      → IsLimited p
  IsLimited-before ys p {q} gone same (idle _) l =
      let bytes : q.frame_bytes ≡ p.frame_bytes = ap (λ (z : Parser). z.frame_bytes) same in
      let size : length q.pending ≡ length (p.pending ++ ys) =
        ap (λ (z : Parser). length z.pending) same in
      record {
        line_fits = omega (arith, length-append p.pending ys);
        frame_fits = omega (arith, length-append p.pending ys);
      }
  IsLimited-before ys p (gone) same (quiet {p = q} found taken d) l =
      IsLimited-of_line ys p q gone same found taken
  IsLimited-before ys p gone same (last {p = q} found taken t) l =
      IsLimited-of_line ys p q gone same found taken
  IsLimited-before ys p gone same (more {p = q} found taken t d) l =
      IsLimited-of_line ys p q gone same found taken

  -- What a chunk `xs ++ ys` gives, said of the two chunks.
  pub record Joined (xs ys : Bytes) (p s : Parser) (es : List JobEvent) : Type 0 where
    pub first : List JobEvent
    pub middle : Parser
    pub fed : feed codec xs p ≡ ok (first, middle)
    pub rest :
        ((ends first ≡ true) × (es ≡ first) × (s ≡ receive ys middle))
        ⊎ ((ends first ≡ false)
            × ((second : List JobEvent) × (feed codec ys middle ≡ ok (second, s))
                × (es ≡ first ++ second)))

  IsLimited-middle :
      {ys : Bytes} {p s : Parser} {es : List JobEvent} (c : Cut codec ys p s es)
      → IsLimited s
      → IsLimited c.middle
  IsLimited-middle {ys} {s = s} c l = elim (Bool-cases (ends c.first)) [
    | inl t ↦
        let same = (c.ended t).1 in
        let m = c.middle in
        let bytes : s.frame_bytes ≡ m.frame_bytes = ap (λ (z : Parser). z.frame_bytes) same in
        let size : length s.pending ≡ length (m.pending ++ ys) =
          ap (λ (z : Parser). length z.pending) same in
        record {
          line_fits = omega (arith, length-append m.pending ys);
          frame_fits = omega (arith, length-append m.pending ys);
        }
    | inr f ↦ let (gone, (second, d, _)) = c.going f in IsLimited-before ys c.middle gone refl d l
  ]

  -- Chunks may be joined: if `feed` takes `xs ++ ys`, it takes `xs`; and if no event of `xs` ends the
  -- job, it then takes `ys`, with the same events in all and the same parser at the end. If one does,
  -- `ys` is left unread behind it.
  pub feed-append :
      (xs ys : Bytes) (p : Parser) {es : List JobEvent} {s : Parser}
      → feed codec (xs ++ ys) p ≡ ok (es, s)
      → Joined xs ys p s es
  feed-append xs ys p {es} {s} h =
      let (d, l) = feed_inv (xs ++ ys) p h in
      let n = suc (length (p.pending ++ (xs ++ ys))) in
      let run : drain codec n (receive ys (receive xs p)) ≡ ok (es, s) =
        rw (append_assoc p.pending xs ys) (Drains-drain codec n d (omega arith)) in
      let c =
        drain-Cut codec ys (suc (length (p.pending ++ xs))) n (receive xs p) (omega arith)
          (rw (append_assoc p.pending xs ys) (omega arith)) run in
      record {
        first = c.first;
        middle = c.middle;
        fed = feed_intro xs p c.run (IsLimited-middle c l);
        rest = elim (Bool-cases (ends c.first)) [
          | inl t ↦ let (same, left) = c.ended t in inl (t, same, left)
          | inr f ↦
              let (_, (second, d', same)) = c.going f in
              inr (f, (second, feed_intro ys c.middle d' l, same))
        ];
      }
