-- ===== src/Client/Poll.antt =====
-- The loop that `wait_ready`, `Job.wait` and `Job.poll_updates` share, `while True` with a deadline:
-- a round that ends it or goes on, then a pause. `polling` of _common.py checks its arguments.
pub mod Ends
pub mod Rule
use libjadx.Base.{
  ℕ, zero, suc, ◌+◌, ◌-◌, min, Bool, true, false, ◌||◌, Option, none, some, leb, ◌==◌,
  if◌then◌else◌, ℤ, pos, negsuc,
}
use libjadx.Errors.{Exception, value_error, Result, ok, raise}
use libjadx.Client.{System, Client}

-- How a round ends: with a result, or with the loop's state for the next round.
pub data Round (S A : Type 0) : Type 0 where
  finished : Result A → S → Client → Round S A
  again : S → Client → Round S A

-- `interval <= 0`, and `timeout is not None and timeout < 0`
abbrev is_nonpositive : ℤ → Bool
is_nonpositive (pos n) = n == 0
is_nonpositive (negsuc n) = true

abbrev pub is_negative : Option ℤ → Bool
is_negative (some (negsuc n)) = true
is_negative _ = false

abbrev natural : ℤ → ℕ
natural (pos n) = n
natural (negsuc n) = 0

abbrev pub natural? : Option ℤ → Option ℕ
natural? none = none
natural? (some t) = some (natural t)

-- `polling`; what it lets through is a timeout and an interval that are natural numbers.
unfoldable pub polling : Option ℤ → ℤ → Result (Option ℕ × ℕ)
polling timeout interval =
    if is_nonpositive interval || is_negative timeout
    then raise (value_error "poll_interval must be positive and timeout nonnegative")
    else ok (natural? timeout, natural interval)

-- `time.sleep(t)`
abbrev pub sleep : ℕ → Client → Client
sleep t c = record c { slept = c.slept + t }

module _ (sys : System) where
  -- What `time.monotonic()` returns now, and the client behind the call.
  abbrev pub now : Client → ℕ
  now c = sys.monotonic c.readings c.slept

  abbrev pub read_clock : Client → Client
  read_clock c = record c { readings = c.readings + 1 }

  -- `None if timeout is None else time.monotonic() + timeout`
  unfoldable pub deadline_of : Option ℕ → Client → Option ℕ × Client
  deadline_of none c = (none, c)
  deadline_of (some t) c = (some (now c + t), read_clock c)

  module _ {S A : Type 0} (round : S → Client → Round S A) (late : Exception) where
    -- The loop, with fuel for its rounds; `none` if the fuel runs out.
    unfoldable pub poll : ℕ → Option ℕ → ℕ → S → Client → Option (Result A × S × Client)
    poll zero deadline interval s c = none
    poll (suc n) none interval s c = elim (round s c) [
      | finished r s' c' ↦ some (r, s', c')
      | again s' c' ↦ poll n none interval s' (sleep interval c')
    ]
    poll (suc n) (some deadline) interval s c = elim (round s c) [
      | finished r s' c' ↦ some (r, s', c')
      | again s' c' ↦
          let later =
            poll n (some deadline) interval s'
              (sleep (min interval (deadline - now c')) (read_clock c')) in
          if leb deadline (now c') then some (raise late, s', read_clock c') else later
    ]
