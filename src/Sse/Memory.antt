-- ===== src/Sse/Memory.antt =====
-- What a parser holds between two calls of `feed`.
use libjadx.Base.{
  ℕ, ◌+◌, ◌≤◌, Option, List, [], ◌∷◌, ◌++◌, length, ltb, ◌≡◌, arith, Bool-cases, Option-cases, inl,
  inr,
}
use libjadx.Errors.{ok}
use libjadx.Wire.Codec.{Codec}
use libjadx.Wire.Job.{JobEvent}
use libjadx.Sse.{
  Bytes, Codes, Parser, max_line, max_frame, take_line, feed, end_line, count_line, decode_utf8,
  rstrip_cr,
}
use libjadx.Sse.Text.Sizes.{decode_utf8-length, rstrip_cr-length}
use libjadx.Sse.Drains.{Drains, idle, quiet, last, more}
use libjadx.Sse.Limits.{feed_inv}

-- The code points that the lines of the open frame hold.
abbrev pub held : List Codes → ℕ
held [] = 0
held (l ∷ ls) = length l + held ls

held-append : (ls : List Codes) (l : Codes) → held (ls ++ l ∷ []) ≡ held ls + length l
held-append [] l = omega arith
held-append (k ∷ ls) l = omega (arith, held-append ls l)

module _ (codec : Codec) where
  end_line-held :
      (text : Codes) (p : Parser) {x : Option JobEvent} {q : Parser}
      → held p.lines + length text ≤ p.frame_bytes
      → end_line codec text p ≡ ok (x, q)
      → held q.lines ≤ q.frame_bytes
  unfolding end_line
  end_line-held [] p b h = ground arith
  end_line-held (c ∷ cs) p b h = ground (arith, held-append p.lines (c ∷ cs))

  take_line-held :
      (line rest : Bytes) (p : Parser) {x : Option JobEvent} {q : Parser}
      → held p.lines ≤ p.frame_bytes
      → take_line codec line rest p ≡ ok (x, q)
      → held q.lines ≤ q.frame_bytes
  unfolding take_line count_line
  take_line-held line rest p b h = elim (Bool-cases (ltb max_line (length line))) [
    | inl big ↦ ground arith
    | inr fits ↦ elim (Option-cases (decode_utf8 line)) [
      | inl bad ↦ ground arith
      | inr (text, decoded) ↦
          elim (Bool-cases (ltb max_frame (p.frame_bytes + (length line + 1)))) [
            | inl large ↦ cc (rw (fits, decoded, large) at h)
            | inr small ↦
                end_line-held (rstrip_cr text)
                  (record p { pending = rest; frame_bytes = p.frame_bytes + (length line + 1) })
                  (omega (arith, rstrip_cr-length text, decode_utf8-length line decoded))
                  (rw (fits, decoded, small) at h)
          ]
    ]
  ]

  Drains-held :
      {p s : Parser} {es : List JobEvent}
      → Drains codec p es s
      → held p.lines ≤ p.frame_bytes
      → held s.lines ≤ s.frame_bytes
  Drains-held (idle _) b = b
  Drains-held (quiet {p} {line = line} {rest = rest} found taken d) b =
      Drains-held d (take_line-held line rest p b taken)
  Drains-held (last {p} {line = line} {rest = rest} found taken t) b =
      take_line-held line rest p b taken
  Drains-held (more {p} {line = line} {rest = rest} found taken t d) b =
      Drains-held d (take_line-held line rest p b taken)

  -- If the lines of the open frame hold no more code points than the bytes counted for it, then they do
  -- so after a chunk that `feed` takes, and with the pending bytes they are at most `max_frame`.
  pub feed_bounded :
      (xs : Bytes) (p : Parser) {es : List JobEvent} {s : Parser}
      → held p.lines ≤ p.frame_bytes
      → feed codec xs p ≡ ok (es, s)
      → (held s.lines ≤ s.frame_bytes) × (held s.lines + length s.pending ≤ max_frame)
  feed_bounded xs p b h =
      let (d, l) = feed_inv codec xs p h in
      let after = Drains-held d b in (after, omega (arith, l.frame_fits))
