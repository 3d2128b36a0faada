-- ===== src/Client/Poll/Rule.antt =====
-- The invariant rule of the polling loop.
use libjadx.Base.{ℕ, zero, suc, Option, none, some, leb, ◌≡◌, inl, inr, Bool-cases, sym, ◌∙◌, refl}
use libjadx.Errors.{Exception, Result, raise}
use libjadx.Client.{System, Client}
use libjadx.Client.Poll.{Round, finished, again, poll, now, read_clock, sleep}
use libjadx.Client.Poll.Ends.{
  Round-cases, poll_finished, poll_late, poll_on, poll_unlimited, paused,
}

module _ {S A : Type 0} where
  -- What a round must give: `Q` of a result, or `P` of the state it goes on with.
  abbrev pub Keeps : (S → Client → Type 0) → (Result A → S → Client → Type 0) → Round S A → Type 0
  Keeps P Q (finished x s c) = Q x s c
  Keeps P Q (again s c) = P s c

  -- A property of one outcome of a poll is one of the other, if they are equal.
  pub Q_of :
      (Q : Result A → S → Client → Type 0) {x y : Result A} {s t : S} {c d : Client}
      → ◌≡◌ {A = Option (Result A × S × Client)} (some (x, s, c)) (some (y, t, d))
      → Q x s c
      → Q y t d
  Q_of Q {x} {y} {s} {t} {c} {d} h q =
      let a : y ≡ x = cc in let b : t ≡ s = cc in let e : d ≡ c = cc in rw (a, b, e) q

module _ (sys : System) {S A : Type 0} (round : S → Client → Round S A) (late : Exception)
    (P R : S → Client → Type 0) (Q : Result A → S → Client → Type 0)
    (keep : (s : S) (c : Client) → P s c → Keeps R Q (round s c))
    (pauses : (s : S) (c d : Client) → d.sent ≡ c.sent → R s c → P s d)
    (gives_up : (s : S) (c d : Client) → d.sent ≡ c.sent → R s c → Q (raise late) s d) where
  poll_inv_none :
      (n interval : ℕ) (s : S) (c : Client) {x : Result A} {s' : S} {c' : Client}
      → P s c
      → poll sys round late n none interval s c ≡ some (x, s', c')
      → Q x s' c'
  unfolding poll
  poll_inv_none zero interval s c p h = cc
  poll_inv_none (suc n) interval s c p h = elim (Round-cases (round s c)) [
    | inl (x, s', c', done) ↦
        Q_of Q (sym (poll_finished sys round late n interval s c none done) ∙ h)
          (rw done at (keep s c p))
    | inr (s', c', on) ↦
        poll_inv_none n interval s' (sleep interval c')
          (pauses s' c' (sleep interval c') refl (rw on at (keep s c p)))
          (sym (poll_unlimited sys round late n interval s c on) ∙ h)
  ]

  poll_inv_some :
      (n deadline interval : ℕ) (s : S) (c : Client) {x : Result A} {s' : S} {c' : Client}
      → P s c
      → poll sys round late n (some deadline) interval s c ≡ some (x, s', c')
      → Q x s' c'
  unfolding poll
  poll_inv_some zero deadline interval s c p h = cc
  poll_inv_some (suc n) deadline interval s c p h = elim (Round-cases (round s c)) [
    | inl (x, s', c', done) ↦
        Q_of Q (sym (poll_finished sys round late n interval s c (some deadline) done) ∙ h)
          (rw done at (keep s c p))
    | inr (s', c', on) ↦
        let p' : R s' c' = rw on at (keep s c p) in
        elim (Bool-cases (leb deadline (now sys c'))) [
          | inl t ↦
              Q_of Q (sym (poll_late sys round late n interval s c deadline on t) ∙ h)
                (gives_up s' c' (read_clock sys c') refl p')
          | inr f ↦
              poll_inv_some n deadline interval s' (paused sys round late deadline interval c')
                (pauses s' c' (paused sys round late deadline interval c') refl p')
                (sym (poll_on sys round late n interval s c deadline on f) ∙ h)
        ]
  ]

  -- If `P` holds before the first round, a round from `P` ends with `Q` or goes on in `R`, and from `R`
  -- a pause gives `P` again and giving up gives `Q`, then the poll ends with `Q`.
  pub poll_inv :
      (n : ℕ) (deadline : Option ℕ) (interval : ℕ) (s : S) (c : Client) {x : Result A} {s' : S}
      {c' : Client}
      → P s c
      → poll sys round late n deadline interval s c ≡ some (x, s', c')
      → Q x s' c'
  poll_inv n none interval s c p h = poll_inv_none n interval s c p h
  poll_inv n (some deadline) interval s c p h = poll_inv_some n deadline interval s c p h
