-- ===== src/Client/Poll/Ends.antt =====
-- The polling loop of Client/Poll with a deadline: its steps, when it ends, and the time that it sleeps.
use libjadx.Base.{
  ℕ, zero, suc, ◌+◌, ◌-◌, ◌≤◌, ◌<◌, min, Bool, true, false, Option, none, some, leb, ◌==◌, pos, ℤ,
  ◌||◌, ◌≡◌, ◌≢◌, ◌⊎◌, inl, inr, refl, sym, ap, ◌∙◌, arith, Bool-cases, if_true, if_false,
}
use mathlib.Core.Path.{ap₂}
use libjadx.Errors.{Exception, value_error, Result, ok, raise}
use libjadx.Client.{System, Client}
use libjadx.Client.Poll.{
  is_nonpositive, is_negative, deadline_of, polling, Round, finished, again, poll, now, read_clock,
  sleep,
}

-- The clock does not go back, and it goes on by at least the time slept between two readings.
pub record IsSteady (sys : System) : Type 0 where
  pub goes_on : (m n s t : ℕ) → m ≤ n → s ≤ t → sys.monotonic m s + (t - s) ≤ sys.monotonic n t

-- The client at the end of a round.
abbrev pub client_of : {S A : Type 0} → Round S A → Client
client_of (finished x s c) = c
client_of (again s c) = c

-- A round reads no clock and does not sleep.
pub record IsTimeless {S A : Type 0} (round : S → Client → Round S A) : Type 0 where
  pub readings : (s : S) (c : Client) → (client_of (round s c)).readings ≡ c.readings
  pub slept : (s : S) (c : Client) → (client_of (round s c)).slept ≡ c.slept

-- What `polling` lets through.
pub polling_ok :
    (timeout interval : ℕ)
    → 0 < interval
    → polling (some (pos timeout)) (pos interval) ≡ ok (some timeout, interval)
unfolding polling
polling_ok timeout interval i = let e : (interval == 0) ≡ false = ground arith in rw e refl

-- What `polling` raises.
abbrev pub is_value_error : Exception → Bool
is_value_error (value_error t) = true
is_value_error _ = false

abbrev pub FailsAsCheck : {A : Type 0} → Result A → Type 0
FailsAsCheck (ok a) = Unit
FailsAsCheck (raise e) = is_value_error e ≡ true

pub polling_fails : (timeout : Option ℤ) (interval : ℤ) → FailsAsCheck (polling timeout interval)
unfolding polling
polling_fails timeout interval =
    elim (Bool-cases (is_nonpositive interval || is_negative timeout)) [
      | inl t ↦ rw t refl
      | inr f ↦ rw f tt
    ]

-- Reading the clock sends nothing.
pub clock_sent :
    (sys : System) (limit : Option ℕ) (c : Client) → (deadline_of sys limit c).1.sent ≡ c.sent
unfolding deadline_of
clock_sent sys none c = refl
clock_sent sys (some t) c = refl

-- How a computed round ends.
pub Round-cases :
    {S A : Type 0} (r : Round S A)
    → ((x : Result A) × (s : S) × (c : Client) × (r ≡ finished x s c))
      ⊎ ((s : S) × (c : Client) × (r ≡ again s c))
Round-cases (finished x s c) = inl (x, s, c, refl)
Round-cases (again s c) = inr (s, c, refl)

pub same_client :
    {S A : Type 0} {x y : Result A} {s t : S} {c d : Client}
    → ◌≡◌ {A = Option (Result A × S × Client)} (some (x, s, c)) (some (y, t, d))
    → d ≡ c
same_client h = cc

module _ (sys : System) {S A : Type 0} (round : S → Client → Round S A) (late : Exception) where
  -- The client behind the pause.
  abbrev pub paused : ℕ → ℕ → Client → Client
  paused deadline interval c = sleep (min interval (deadline - now sys c)) (read_clock sys c)

  module _ (n interval : ℕ) (s : S) (c : Client) where
    pub poll_finished :
        (deadline : Option ℕ) {x : Result A} {s' : S} {c' : Client}
        → round s c ≡ finished x s' c'
        → poll sys round late (suc n) deadline interval s c ≡ some (x, s', c')
    unfolding poll
    poll_finished none h = rw (h, poll)
    poll_finished (some d) h = rw (h, poll)

    pub poll_late :
        (deadline : ℕ) {s' : S} {c' : Client}
        → round s c ≡ again s' c'
        → leb deadline (now sys c') ≡ true
        → poll sys round late (suc n) (some deadline) interval s c
          ≡ some (raise late, s', read_clock sys c')
    unfolding poll
    poll_late deadline h t = rw (h, poll) (if_true _ _ _ t)

    pub poll_on :
        (deadline : ℕ) {s' : S} {c' : Client}
        → round s c ≡ again s' c'
        → leb deadline (now sys c') ≡ false
        → poll sys round late (suc n) (some deadline) interval s c
          ≡ poll sys round late n (some deadline) interval s' (paused deadline interval c')
    unfolding poll
    poll_on deadline h t = rw (h, poll) (if_false _ _ _ t)

    pub poll_unlimited :
        {s' : S} {c' : Client}
        → round s c ≡ again s' c'
        → poll sys round late (suc n) none interval s c
          ≡ poll sys round late n none interval s' (sleep interval c')
    unfolding poll
    poll_unlimited h = rw (h, poll)

  module _ (steady : IsSteady sys) (timeless : IsTimeless round) where
    slept_again :
        (s : S) (c : Client) {s' : S} {c' : Client} → round s c ≡ again s' c' → c'.slept ≡ c.slept
    slept_again s c h = sym (ap (λ r. (client_of r).slept) h) ∙ timeless.slept s c

    now_again :
        (s : S) (c : Client) {s' : S} {c' : Client}
        → round s c ≡ again s' c'
        → now sys c' ≡ now sys c
    now_again s c h =
        sym (ap (λ r. now sys (client_of r)) h)
        ∙ ap₂ sys.monotonic (timeless.readings s c) (timeless.slept s c)

    now-paused :
        (deadline interval : ℕ) (c : Client)
        → now sys c + min interval (deadline - now sys c) ≤ now sys (paused deadline interval c)
    now-paused deadline interval c =
        let t = min interval (deadline - now sys c) in
        omega (
          arith,
          steady.goes_on c.readings (c.readings + 1) c.slept (c.slept + t) (omega arith)
              (omega arith),
        )

    pub poll_ends :
        (n deadline interval : ℕ) (s : S) (c : Client)
        → 0 < interval
        → 0 < n
        → deadline < now sys c + n
        → poll sys round late n (some deadline) interval s c ≢ none
    poll_ends zero deadline interval s c i z m = absurd (omega arith)
    poll_ends (suc n) deadline interval s c i z m = elim (Round-cases (round s c)) [
      | inl (x, s', c', done) ↦ rw (poll_finished n interval s c (some deadline) done) (λ e. cc)
      | inr (s', c', on) ↦ elim (Bool-cases (leb deadline (now sys c'))) [
        | inl t ↦ rw (poll_late n interval s c deadline on t) (λ e. cc)
        | inr f ↦
            let before : now sys c' < deadline = ground arith in
            rw (poll_on n interval s c deadline on f) (
              poll_ends n deadline interval s' (paused deadline interval c') i
                (omega (arith, now_again s c on))
                (omega (arith, now_again s c on, now-paused deadline interval c')))
      ]
    ]

    pub poll_slept :
        (n deadline interval : ℕ) (s : S) (c : Client) {x : Result A} {s' : S} {c' : Client}
        → poll sys round late n (some deadline) interval s c ≡ some (x, s', c')
        → c'.slept ≤ c.slept + (deadline - now sys c)
    unfolding poll
    poll_slept zero deadline interval s c h = cc
    poll_slept (suc n) deadline interval s c {c' = z} h = elim (Round-cases (round s c)) [
      | inl (x, s', c', done) ↦
          let e : z ≡ c' =
            same_client (sym (poll_finished n interval s c (some deadline) done) ∙ h) in
          let k : c'.slept ≡ c.slept =
            sym (ap (λ r. (client_of r).slept) done) ∙ timeless.slept s c in
          rw (e, k) (omega arith)
      | inr (s', c', on) ↦ elim (Bool-cases (leb deadline (now sys c'))) [
        | inl t ↦
            let e : z ≡ read_clock sys c' =
              same_client (sym (poll_late n interval s c deadline on t) ∙ h) in
            rw e (omega (arith, slept_again s c on))
        | inr f ↦
            let ih =
              poll_slept n deadline interval s' (paused deadline interval c')
                (sym (poll_on n interval s c deadline on f) ∙ h) in
            let before : now sys c' < deadline = ground arith in
            omega (arith, slept_again s c on, now_again s c on, now-paused deadline interval c')
      ]
    ]
