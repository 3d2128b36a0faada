-- ===== src/Sse/Drains.antt =====
-- The loop of `feed` as a relation: what one run of it took from the pending bytes.
use libjadx.Base.{
  ℕ, zero, suc, ◌+◌, ◌≤◌, ◌<◌, true, false, Option, none, some, List, [], ◌∷◌, length, ltb, ◌≡◌,
  refl, arith, Bool-cases, Option-cases, inl, inr, ◌⊎◌, ◌==◌,
}
use libjadx.Errors.{Exception, Result, ok, raise}
use libjadx.Wire.Codec.{Codec}
use libjadx.Wire.Job.{JobEvent}
use libjadx.Sse.{
  Bytes, Codes, split_at, Parser, is_terminal, max_line, max_frame, take_line, drain, Drained,
  prepend, end_line, count_line, decode_utf8, rstrip_cr,
}

-- What a newline leaves of the bytes.
pub split_at-length :
    (b : ℕ) (xs : Bytes) {line rest : Bytes}
    → split_at b xs ≡ some (line, rest)
    → length xs ≡ length line + 1 + length rest
unfolding split_at
split_at-length b [] h = cc
split_at-length b (x ∷ xs) h = elim (Bool-cases (x == b)) [
  | inl here ↦ ground arith
  | inr later ↦ elim (Option-cases (split_at b xs)) [
    | inl gone ↦ ground arith
    | inr ((l, r), found) ↦ ground (arith, split_at-length b xs found)
  ]
]

module _ (codec : Codec) where
  pub data Drains : Parser → List JobEvent → Parser → Type 0 where
    idle : {p : Parser} → split_at 10 p.pending ≡ none → Drains p [] p
    quiet :
        {p q s : Parser} {es : List JobEvent} {line rest : Bytes}
        → split_at 10 p.pending ≡ some (line, rest)
        → take_line codec line rest p ≡ ok (none, q)
        → Drains q es s
        → Drains p es s
    last :
        {p q : Parser} {e : JobEvent} {line rest : Bytes}
        → split_at 10 p.pending ≡ some (line, rest)
        → take_line codec line rest p ≡ ok (some e, q)
        → is_terminal e.state ≡ true
        → Drains p (e ∷ []) q
    more :
        {p q s : Parser} {e : JobEvent} {es : List JobEvent} {line rest : Bytes}
        → split_at 10 p.pending ≡ some (line, rest)
        → take_line codec line rest p ≡ ok (some e, q)
        → is_terminal e.state ≡ false
        → Drains q es s
        → Drains p (e ∷ es) s

  -- What a line does not change.
  pub record Takes (bytes : ℕ) (rest : Bytes) (p q : Parser) : Type 0 where
    pub rest_left : q.pending ≡ rest
    pub same_job : q.job_id ≡ p.job_id
    pub counted : q.frame_bytes ≤ bytes

  end_line-Takes :
      (text : Codes) (p : Parser) {x : Option JobEvent} {q : Parser}
      → end_line codec text p ≡ ok (x, q)
      → Takes p.frame_bytes p.pending p q
  unfolding end_line
  end_line-Takes [] p {x} {q} h = ground arith
  end_line-Takes (c ∷ cs) p h = ground arith

  count_line-Takes :
      (bytes : ℕ) (text : Codes) (p : Parser) {x : Option JobEvent} {q : Parser}
      → count_line codec bytes text p ≡ ok (x, q)
      → Takes bytes p.pending p q × (bytes ≤ max_frame)
  unfolding count_line
  count_line-Takes bytes text p h = elim (Bool-cases (ltb max_frame bytes)) [
    | inl big ↦ ground arith
    | inr fits ↦
        let t = end_line-Takes (rstrip_cr text) (record p { frame_bytes = bytes }) (rw fits at h) in
        (
          record { rest_left = t.rest_left; same_job = t.same_job; counted = t.counted },
          ground arith,
        )
  ]

  -- A line that was taken: what it left, and the limits that it met.
  pub take_line-Takes :
      (line rest : Bytes) (p : Parser) {x : Option JobEvent} {q : Parser}
      → take_line codec line rest p ≡ ok (x, q)
      → Takes (p.frame_bytes + (length line + 1)) rest p q
        × (length line ≤ max_line)
        × (p.frame_bytes + (length line + 1) ≤ max_frame)
  unfolding take_line
  take_line-Takes line rest p h = elim (Bool-cases (ltb max_line (length line))) [
    | inl big ↦ ground arith
    | inr fits ↦ elim (Option-cases (decode_utf8 line)) [
      | inl bad ↦ ground arith
      | inr (text, decoded) ↦
          let (t, small) =
            count_line-Takes (p.frame_bytes + (length line + 1)) text (record p { pending = rest })
              (rw (fits, decoded) at h) in
          (
            record { rest_left = t.rest_left; same_job = t.same_job; counted = t.counted },
            ground arith,
            small,
          )
    ]
  ]

  -- The ways in which a line ends.
  pub Taken-cases :
      (r : Result (Option JobEvent × Parser))
      → ((e : Exception) × (r ≡ raise e))
        ⊎ ((q : Parser) × (r ≡ ok (none, q)))
        ⊎ ((e : JobEvent) × (q : Parser) × (r ≡ ok (some e, q)))
  Taken-cases (raise e) = inl (e, refl)
  Taken-cases (ok (none, q)) = inr (inl (q, refl))
  Taken-cases (ok (some e, q)) = inr (inr (e, q, refl))

  idle_of :
      {p s : Parser} {es : List JobEvent}
      → split_at 10 p.pending ≡ none
      → ◌≡◌ {A = Drained} (ok ([], p)) (ok (es, s))
      → Drains p es s
  idle_of {p} {s} {es} gone h = let a : es ≡ [] = cc in let b : s ≡ p = cc in rw (a, b) (idle gone)

  last_of :
      {p q s : Parser} {e : JobEvent} {es : List JobEvent} {line rest : Bytes}
      → split_at 10 p.pending ≡ some (line, rest)
      → take_line codec line rest p ≡ ok (some e, q)
      → is_terminal e.state ≡ true
      → ◌≡◌ {A = Drained} (ok (e ∷ [], q)) (ok (es, s))
      → Drains p es s
  last_of {q = q} {s = s} {e} {es} found taken t h =
      let a : es ≡ e ∷ [] = cc in let b : s ≡ q = cc in rw (a, b) (last found taken t)

  pub shorter :
      (p : Parser) {q : Parser} {x : Option JobEvent} {line rest : Bytes}
      → split_at 10 p.pending ≡ some (line, rest)
      → take_line codec line rest p ≡ ok (x, q)
      → length q.pending < length p.pending
  shorter p {line = line} {rest = rest} found taken =
      let t = (take_line-Takes line rest p taken).0.rest_left in
      rw t (omega (arith, split_at-length 10 p.pending found))

  pub prepend_inv :
      (e : JobEvent) (r : Drained) {es : List JobEvent} {s : Parser}
      → prepend e r ≡ ok (es, s)
      → (later : List JobEvent) × (r ≡ ok (later, s)) × (es ≡ e ∷ later)
  prepend_inv e (ok (later, t)) h = (later, ground arith, cc)
  prepend_inv e (raise x) h = cc

  -- Enough fuel: a successful run of `drain` is a derivation.
  pub drain-Drains :
      (n : ℕ) (p : Parser) {es : List JobEvent} {s : Parser}
      → length p.pending < n
      → drain codec n p ≡ ok (es, s)
      → Drains p es s
  unfolding drain
  drain-Drains zero p fuel h = absurd (omega arith)
  drain-Drains (suc n) p {es} {s} fuel h = elim (Option-cases (split_at 10 p.pending)) [
    | inl gone ↦ idle_of gone (rw (gone, drain) at h)
    | inr ((line, rest), found) ↦ elim (Taken-cases (take_line codec line rest p)) [
      | inl (e, failed) ↦ cc (rw (found, failed, drain) at h)
      | inr (inl (q, taken)) ↦
          quiet found taken (
            drain-Drains n q (omega (arith, shorter p found taken)) (rw (found, taken, drain) at h))
      | inr (inr (e, q, taken)) ↦ elim (Bool-cases (is_terminal e.state)) [
        | inl t ↦ last_of found taken t (rw (found, taken, t, drain) at h)
        | inr f ↦
            let (es', later, same) =
              prepend_inv e (drain codec n q) (rw (found, taken, f, drain) at h) in
            rw same
              (more found taken f (drain-Drains n q (omega (arith, shorter p found taken)) later))
      ]
    ]
  ]

  -- A derivation is a successful run, whatever the fuel if it is enough.
  pub Drains-drain :
      (n : ℕ) {p s : Parser} {es : List JobEvent}
      → Drains p es s
      → length p.pending < n
      → drain codec n p ≡ ok (es, s)
  unfolding drain
  Drains-drain zero d fuel = absurd (omega arith)
  Drains-drain (suc n) (idle gone) fuel = rw (gone, drain)
  Drains-drain (suc n) (quiet {p} found taken d) fuel =
      rw (found, taken, drain) (Drains-drain n d (omega (arith, shorter p found taken)))
  Drains-drain (suc n) (last found taken t) fuel = rw (found, taken, t, drain)
  Drains-drain (suc n) (more {p} {q} found taken f d) fuel =
      let ih = Drains-drain n d (omega (arith, shorter p found taken)) in
      rw (found, taken, f, ih, drain)

  -- The loop is over before its fuel is: any two amounts that exceed the pending bytes give the same,
  -- whether it returns or raises.
  pub drain_enough :
      (n m : ℕ) (p : Parser)
      → length p.pending < n
      → length p.pending < m
      → drain codec n p ≡ drain codec m p
  unfolding drain
  drain_enough zero m p f g = absurd (omega arith)
  drain_enough (suc n) zero p f g = absurd (omega arith)
  drain_enough (suc n) (suc m) p f g = elim (Option-cases (split_at 10 p.pending)) [
    | inl gone ↦ rw (gone, drain) refl
    | inr ((line, rest), found) ↦ elim (Taken-cases (take_line codec line rest p)) [
      | inl (e, failed) ↦ rw (found, failed, drain) refl
      | inr (inl (q, taken)) ↦
          let ih =
            drain_enough n m q (omega (arith, shorter p found taken))
              (omega (arith, shorter p found taken)) in
          rw (found, taken, drain) ih
      | inr (inr (e, q, taken)) ↦
          let ih =
            drain_enough n m q (omega (arith, shorter p found taken))
              (omega (arith, shorter p found taken)) in
          rw (found, taken, drain, ih) refl
    ]
  ]
