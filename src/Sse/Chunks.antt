-- ===== src/Sse/Chunks.antt =====
-- The loop of `feed` on two chunks and on the two joined.
use libjadx.Base.{
  ℕ, zero, suc, ◌+◌, ◌≤◌, ◌<◌, Bool, true, false, ◌||◌, Option, none, some, List, [], ◌∷◌, ◌++◌,
  length, ltb, ◌≡◌, refl, ap, ◌∙◌, arith, Bool-cases, Option-cases, inl, inr, ◌==◌, length-append,
}
use libjadx.Errors.{Result, ok, raise}
use libjadx.Wire.Codec.{Codec}
use libjadx.Wire.Job.{JobEvent}
use libjadx.Sse.{
  Bytes, Codes, split_at, Parser, is_terminal, max_line, max_frame, take_line, drain, receive,
  Drained, end_line, count_line, decode_utf8, rstrip_cr,
}
use libjadx.Sse.Drains.{
  Taken-cases, shorter, prepend_inv, Drains, idle, quiet, last, more, drain-Drains,
}

-- Does a list of events end the stream?
abbrev pub ends : List JobEvent → Bool
ends [] = false
ends (e ∷ es) = is_terminal e.state || ends es

-- More bytes behind the newline stay behind it.
split_at-append :
    (b : ℕ) (xs ys : Bytes) {line rest : Bytes}
    → split_at b xs ≡ some (line, rest)
    → split_at b (xs ++ ys) ≡ some (line, rest ++ ys)
unfolding split_at
split_at-append b [] ys h = cc
split_at-append b (x ∷ xs) ys h = elim (Bool-cases (x == b)) [
  | inl here ↦ ground arith
  | inr later ↦ elim (Option-cases (split_at b xs)) [
    | inl gone ↦ ground arith
    | inr ((l, r), found) ↦ ground (arith, split_at-append b xs ys found)
  ]
]

-- The line that a newline in `ys` ends is not shorter than what was pending.
pub split_at-append_long :
    (b : ℕ) (xs ys : Bytes) {line rest : Bytes}
    → split_at b xs ≡ none
    → split_at b (xs ++ ys) ≡ some (line, rest)
    → length xs ≤ length line
unfolding split_at
split_at-append_long b [] ys g h = omega arith
split_at-append_long b (x ∷ xs) ys g h = elim (Bool-cases (x == b)) [
  | inl here ↦ ground arith
  | inr later ↦ elim (Option-cases (split_at b (xs ++ ys))) [
    | inl gone ↦ ground arith
    | inr ((l, r), found) ↦ elim (Option-cases (split_at b xs)) [
      | inl none_here ↦ ground (arith, split_at-append_long b xs ys none_here found)
      | inr ((l', r'), some_here) ↦ ground arith
    ]
  ]
]

-- The result of a line, with more bytes behind it.
abbrev behind :
    (Parser → Parser) → Result (Option JobEvent × Parser) → Result (Option JobEvent × Parser)
behind f (ok (x, q)) = ok (x, f q)
behind f (raise e) = raise e

module _ (codec : Codec) where
  end_line-receive :
      (ys : Bytes) (text : Codes) (p : Parser)
      → end_line codec text (receive ys p) ≡ behind (receive ys) (end_line codec text p)
  unfolding end_line
  end_line-receive ys [] p = ground arith
  end_line-receive ys (c ∷ cs) p = refl

  take_line-receive :
      (ys line rest : Bytes) (p : Parser)
      → take_line codec line (rest ++ ys) (receive ys p)
        ≡ behind (receive ys) (take_line codec line rest p)
  unfolding take_line count_line
  take_line-receive ys line rest p = elim (Bool-cases (ltb max_line (length line))) [
    | inl big ↦ rw big
    | inr fits ↦ elim (Option-cases (decode_utf8 line)) [
      | inl bad ↦ rw (fits, bad)
      | inr (text, decoded) ↦
          elim (Bool-cases (ltb max_frame (p.frame_bytes + (length line + 1)))) [
            | inl large ↦ rw (fits, decoded, large)
            | inr small ↦ rw (fits, decoded, small) (end_line-receive ys (rstrip_cr text) _)
          ]
    ]
  ]

  -- A run over `p` with `ys` behind its bytes, cut where the bytes of `p` end.
  pub record Cut (ys : Bytes) (p s : Parser) (es : List JobEvent) : Type 0 where
    pub first : List JobEvent
    pub middle : Parser
    pub run : Drains codec p first middle
    pub ended : ends first ≡ true → (es ≡ first) × (s ≡ receive ys middle)
    pub going :
        ends first ≡ false
        → (split_at 10 middle.pending ≡ none)
          × ((second : List JobEvent) × Drains codec (receive ys middle) second s
              × (es ≡ first ++ second))

  module _ {ys : Bytes} {p q s : Parser} {line rest : Bytes}
      (found : split_at 10 p.pending ≡ some (line, rest)) where
    Cut-quiet :
        {es : List JobEvent}
        → take_line codec line rest p ≡ ok (none, q)
        → Cut ys q s es
        → Cut ys p s es
    Cut-quiet taken c = record {
      first = c.first;
      middle = c.middle;
      run = quiet found taken c.run;
      ended = c.ended;
      going = c.going;
    }

    Cut-last :
        {e : JobEvent} {es : List JobEvent}
        → take_line codec line rest p ≡ ok (some e, q)
        → is_terminal e.state ≡ true
        → ◌≡◌ {A = Drained} (ok (e ∷ [], receive ys q)) (ok (es, s))
        → Cut ys p s es
    Cut-last {e} taken t h = record {
      first = e ∷ [];
      middle = q;
      run = last found taken t;
      ended = λ _. (cc, cc);
      going = λ f. ground (arith);
    }

    Cut-more :
        {e : JobEvent} {es later : List JobEvent}
        → take_line codec line rest p ≡ ok (some e, q)
        → is_terminal e.state ≡ false
        → es ≡ e ∷ later
        → Cut ys q s later
        → Cut ys p s es
    Cut-more {e} {es} {later} taken f same c = record {
      first = e ∷ c.first;
      middle = c.middle;
      run = more found taken f c.run;
      ended = λ t. let (a, b) = c.ended (rw f at t) in (same ∙ ap (λ l. e ∷ l) a, b);
      going = λ g.
          let (a, (second, d, b)) = c.going (rw f at g) in
          (a, (second, d, same ∙ ap (λ l. e ∷ l) b));
    }

  take_line-behind :
      (ys line rest : Bytes) (p : Parser) {r : Result (Option JobEvent × Parser)}
      → take_line codec line rest p ≡ r
      → take_line codec line (rest ++ ys) (receive ys p) ≡ behind (receive ys) r
  take_line-behind ys line rest p taken =
      take_line-receive ys line rest p ∙ ap (behind (receive ys)) taken

  shorter_behind :
      (ys : Bytes) (p q : Parser) {x : Option JobEvent} {line rest : Bytes}
      → split_at 10 p.pending ≡ some (line, rest)
      → take_line codec line rest p ≡ ok (x, q)
      → length (q.pending ++ ys) < length (p.pending ++ ys)
  shorter_behind ys p q found taken =
      let less = shorter codec p found taken in
      omega (arith, length-append p.pending ys, length-append q.pending ys)

  pub drain-Cut :
      (ys : Bytes) (n m : ℕ) (p : Parser) {es : List JobEvent} {s : Parser}
      → length p.pending < n
      → length (p.pending ++ ys) < m
      → drain codec m (receive ys p) ≡ ok (es, s)
      → Cut ys p s es
  unfolding drain
  drain-Cut ys zero m p fuel fuel' h = absurd (omega arith)
  drain-Cut ys (suc n) zero p fuel fuel' h = absurd (omega arith)
  drain-Cut ys (suc n) (suc m) p {es} {s} fuel fuel' h =
      elim (Option-cases (split_at 10 p.pending)) [
        | inl gone ↦ record {
          first = [];
          middle = p;
          run = idle gone;
          ended = λ t. cc;
          going = λ f. (gone, (es, drain-Drains codec (suc m) (receive ys p) fuel' h, refl));
        }
        | inr ((line, rest), found) ↦
            let found' = split_at-append 10 p.pending ys found in
            elim (Taken-cases codec (take_line codec line rest p)) [
              | inl (e, failed) ↦
                  cc (rw (found', take_line-behind ys line rest p failed, drain) at h)
              | inr (inl (q, taken)) ↦ Cut-quiet found taken (
                  drain-Cut ys n m q (omega (arith, shorter codec p found taken))
                    (omega (arith, shorter_behind ys p q found taken))
                    (rw (found', take_line-behind ys line rest p taken, drain) at h))
              | inr (inr (e, q, taken)) ↦ elim (Bool-cases (is_terminal e.state)) [
                | inl t ↦
                    Cut-last found taken t
                      (rw (found', take_line-behind ys line rest p taken, t, drain) at h)
                | inr f ↦
                    let (later, after, same) =
                      prepend_inv codec e (drain codec m (receive ys q))
                        (rw (found', take_line-behind ys line rest p taken, f, drain) at h) in
                    Cut-more found taken f same (
                      drain-Cut ys n m q (omega (arith, shorter codec p found taken))
                        (omega (arith, shorter_behind ys p q found taken)) after)
              ]
            ]
      ]
