-- ===== src/Sse/Order.antt =====
-- The numbers, the job and the end of the events that `feed` gives.
use libjadx.Base.{
  ℕ, ◌+◌, Bool, false, ◌||◌, Option, none, some, List, [], ◌∷◌, ◌++◌, length, ltb, ◌≡◌, refl, sym,
  ap, ◌∙◌, arith, Bool-cases, Option-cases, inl, inr, ◌⊎◌, ℤ, pos,
}
use libjadx.Errors.{Exception, Result, ok, raise}
use libjadx.Wire.Codec.{Codec, Uuid}
use libjadx.Wire.Job.{JobEvent}
use libjadx.Sse.{
  Bytes, Codes, Parser, is_terminal, max_line, max_frame, take_line, feed, end_line, count_line,
  read_lines, event_of, Frame, no_fields, after_frame, decode_utf8, rstrip_cr,
}
use libjadx.Sse.Fields.Checked.{Follows, event_of-Follows}
use libjadx.Sse.Drains.{Drains, idle, quiet, last, more}
use libjadx.Sse.Chunks.{ends}
use libjadx.Sse.Limits.{feed_inv}

-- The events are numbered upwards from `before` to `after`, and are all of the job.
abbrev pub Numbered : Uuid → ℤ → List JobEvent → ℤ → Type 0
Numbered job before [] after = before ≡ after
Numbered job before (e ∷ es) after =
    (n : ℕ) × Follows job before n e × Numbered job (pos n) es after

-- No event but the last one ends the job.
abbrev pub OnlyLastEnds : List JobEvent → Type 0
OnlyLastEnds [] = Unit
OnlyLastEnds (e ∷ []) = Unit
OnlyLastEnds (e ∷ f ∷ es) = (is_terminal e.state ≡ false) × OnlyLastEnds (f ∷ es)

-- What one line does to the parser's number and to its flag.
abbrev Emits : Parser → Option JobEvent → Parser → Type 0
Emits p none q = (q.last_id ≡ p.last_id) × (q.terminal ≡ p.terminal) × (q.job_id ≡ p.job_id)
Emits p (some e) q =
    (n : ℕ) × Follows p.job_id p.last_id n e
    × (q.last_id ≡ pos n)
    × (q.terminal ≡ (is_terminal e.state || p.terminal))
    × (q.job_id ≡ p.job_id)

Emits-same :
    (p q : Parser) (bytes : Bytes) (n : ℕ) (x : Option JobEvent)
    → Emits (record p { pending = bytes; frame_bytes = n }) x q
    → Emits p x q
Emits-same p q bytes n none h = h
Emits-same p q bytes n (some e) h = h

Result-cases {ℓ} :
    {A : Type ℓ} (r : Result A) → ((e : Exception) × (r ≡ raise e)) ⊎ ((a : A) × (r ≡ ok a))
Result-cases (raise e) = inl (e, refl)
Result-cases (ok a) = inr (a, refl)

Numbered-same :
    (es : List JobEvent) (c : ℤ) {j k : Uuid} {a b : ℤ}
    → j ≡ k
    → a ≡ b
    → Numbered j a es c
    → Numbered k b es c
Numbered-same es c same_job same_id h = rw (← same_job, ← same_id) h

OnlyLastEnds-cons :
    (e : JobEvent) (es : List JobEvent)
    → is_terminal e.state ≡ false
    → OnlyLastEnds es
    → OnlyLastEnds (e ∷ es)
OnlyLastEnds-cons e [] t h = tt
OnlyLastEnds-cons e (f ∷ es) t h = (t, h)

ends_one : (t flag : Bool) → (t || flag) ≡ ((t || false) || flag)
ends_one t flag = ground arith

ends_more :
    (t later old : Bool) {flag : Bool}
    → t ≡ false
    → flag ≡ (t || old)
    → (later || flag) ≡ ((t || later) || old)
ends_more t later old h k = ground arith

module _ (codec : Codec) where
  frame-Emits :
      (p : Parser) (f : Frame) (found : Option (ℕ × JobEvent))
      → event_of codec p.job_id p.last_id f ≡ ok found
      → Emits p (after_frame found p).0 (after_frame found p).1
  frame-Emits p f none h = (refl, refl, refl)
  frame-Emits p f (some (n, e)) h =
      (n, event_of-Follows codec p.job_id p.last_id f h, refl, ground arith, refl)

  end_line-Emits :
      (text : Codes) (p : Parser) {x : Option JobEvent} {q : Parser}
      → end_line codec text p ≡ ok (x, q)
      → Emits p x q
  unfolding end_line
  end_line-Emits (c ∷ cs) p {x} {q} h =
      let a : x ≡ none = ground arith in
      let b : q ≡ record p { lines = p.lines ++ (c ∷ cs) ∷ [] } = ground arith in
      rw (a, b) (refl, refl, refl)
  end_line-Emits [] p {x} {q} h = elim (Result-cases (read_lines p.lines no_fields)) [
    | inl (e, failed) ↦ cc (rw (failed, end_line) at h)
    | inr (f, read) ↦ elim (Result-cases (event_of codec p.job_id p.last_id f)) [
      | inl (e, failed) ↦ cc (rw (read, failed, end_line) at h)
      | inr (found, made) ↦
          let same : ◌≡◌ {A = Result (Option JobEvent × Parser)} (ok (after_frame found p))
              (ok (x, q)) =
            rw (read, made, end_line) at h in
          let a : x ≡ (after_frame found p).0 = cc in
          let b : q ≡ (after_frame found p).1 = cc in rw (a, b) (frame-Emits p f found made)
    ]
  ]

  take_line-Emits :
      (line rest : Bytes) (p : Parser) {x : Option JobEvent} {q : Parser}
      → take_line codec line rest p ≡ ok (x, q)
      → Emits p x q
  unfolding take_line count_line
  take_line-Emits line rest p {x} {q} h = elim (Bool-cases (ltb max_line (length line))) [
    | inl big ↦ ground arith
    | inr fits ↦ elim (Option-cases (decode_utf8 line)) [
      | inl bad ↦ ground arith
      | inr (text, decoded) ↦
          elim (Bool-cases (ltb max_frame (p.frame_bytes + (length line + 1)))) [
            | inl large ↦ cc (rw (fits, decoded, large) at h)
            | inr small ↦ Emits-same p q rest (p.frame_bytes + (length line + 1)) x (
                end_line-Emits (rstrip_cr text)
                  (record p { pending = rest; frame_bytes = p.frame_bytes + (length line + 1) })
                  (rw (fits, decoded, small) at h))
          ]
    ]
  ]

  Drains-Numbered :
      {p s : Parser} {es : List JobEvent}
      → Drains codec p es s
      → Numbered p.job_id p.last_id es s.last_id
        × OnlyLastEnds es
        × (s.terminal ≡ (ends es || p.terminal))
  Drains-Numbered (idle _) = (refl, tt, refl)
  Drains-Numbered (quiet {p} {q} {s} {es} {line} {rest} found taken d) =
      let (id, flag, job) = take_line-Emits line rest p taken in
      let (numbered, only, ended) = Drains-Numbered d in
      (Numbered-same es s.last_id job id numbered, only, ended ∙ ap (λ t. ends es || t) flag)
  Drains-Numbered (last {p} {q} {e} {line} {rest} found taken t) =
      let (n, follows, id, flag, job) = take_line-Emits line rest p taken in
      ((n, follows, sym id), tt, flag ∙ ends_one (is_terminal e.state) p.terminal)
  Drains-Numbered (more {p} {q} {s} {e} {es} {line} {rest} found taken t d) =
      let (n, follows, id, flag, job) = take_line-Emits line rest p taken in
      let (numbered, only, ended) = Drains-Numbered d in
      (
        (n, follows, Numbered-same es s.last_id job id numbered),
        OnlyLastEnds-cons e es t only,
        ended ∙ ends_more (is_terminal e.state) (ends es) p.terminal t flag,
      )

  -- The events of a chunk that `feed` takes are of the parser's job, their sequence numbers grow
  -- strictly from the parser's `last_id`, whose new value is the number of the last one; no event but
  -- the last one is terminal; and the flag `terminal` is set exactly if one was, now or before.
  pub feed_order :
      (xs : Bytes) (p : Parser) {es : List JobEvent} {s : Parser}
      → feed codec xs p ≡ ok (es, s)
      → Numbered p.job_id p.last_id es s.last_id
        × OnlyLastEnds es
        × (s.terminal ≡ (ends es || p.terminal))
  feed_order xs p h = Drains-Numbered (feed_inv codec xs p h).0
