-- ===== src/Async/Poll.antt =====
-- The polling loop of the asynchronous SDK: the loop that `AsyncClient.wait_ready`, `AsyncJob.wait` and
-- `AsyncJob.poll_updates` share, which pauses by `asyncio.sleep`.
use libjadx.Base.{
  ℕ, zero, suc, ◌-◌, min, Option, none, some, leb, if◌then◌else◌, ◌≡◌, refl, sym, Bool-cases, inl,
  inr,
}
use libjadx.Errors.{Exception, Result, raise}
use libjadx.Client.{System, Client}
use libjadx.Client.Poll.{Round, finished, again, poll, now, read_clock, sleep}
use libjadx.Async.{Step, returned, sleeps, and_then, run_alone, continued, run_alone-and_then}

-- How a round ends: with a result, or with the loop's state for the next round.
pub data Turn (S A : Type 0) : Type 0 where
  over : Result A → S → Turn S A
  next : S → Turn S A

module _ (sys : System) {S A : Type 0} (late : Exception) where
  -- Behind a round: the pause and what is left of the loop, or the exception of the timeout.
  abbrev pub pause :
      (S → Client → Step (Option (Result A × S)))
      → Option ℕ
      → ℕ
      → Turn S A
      → Client
      → Step (Option (Result A × S))
  pause more deadline interval (over r s) c = returned (some (r, s)) c
  pause more none interval (next s) c = sleeps interval c (more s)
  pause more (some deadline) interval (next s) c =
      if leb deadline (now sys c)
      then returned (some (raise late, s)) (read_clock sys c)
      else sleeps (min interval (deadline - now sys c)) (read_clock sys c) (more s)

  -- The loop, with fuel for its rounds; `none` if the fuel runs out.
  unfoldable pub async_poll :
      (S → Client → Step (Turn S A)) → ℕ → Option ℕ → ℕ → S → Client → Step (Option (Result A × S))
  async_poll round zero deadline interval s c = returned none c
  async_poll round (suc n) deadline interval s c =
      and_then (round s c) (pause (async_poll round n deadline interval) deadline interval)

abbrev pub turned : {S A : Type 0} → Turn S A × Client → Round S A
turned (over r s, c) = finished r s c
turned (next s, c) = again s c

abbrev pub regroup : {S A : Type 0} → Option (A × S) × Client → Option (A × S × Client)
regroup (none, c) = none
regroup (some (a, s), c) = some (a, s, c)

module _ (sys : System) {S A : Type 0} (late : Exception)
    (more : S → Client → Step (Option (Result A × S)))
    (later : S → Client → Option (Result A × S × Client))
    (same : (s : S) (c : Client) → regroup (run_alone sys (more s c)) ≡ later s c) where
  pause_unlimited :
      (interval : ℕ) (x : Turn S A × Client)
      → regroup (continued sys (pause sys late more none interval) x) ≡ elim (turned x) [
        | finished r s c ↦ some (r, s, c)
        | again s c ↦ later s (sleep interval c)
      ]
  unfolding run_alone
  pause_unlimited interval (over r s, c) = refl
  pause_unlimited interval (next s, c) = same s (sleep interval c)

  pause_limited :
      (deadline interval : ℕ) (x : Turn S A × Client)
      → regroup (continued sys (pause sys late more (some deadline) interval) x) ≡ elim (turned x) [
        | finished r s c ↦ some (r, s, c)
        | again s c ↦
            if leb deadline (now sys c)
            then some (raise late, s, read_clock sys c)
            else later s (sleep (min interval (deadline - now sys c)) (read_clock sys c))
      ]
  unfolding run_alone
  pause_limited deadline interval (over r s, c) = refl
  pause_limited deadline interval (next s, c) = elim (Bool-cases (leb deadline (now sys c))) [
    | inl out ↦ rw out refl
    | inr left ↦ rw left (same s _)
  ]

module _ (sys : System) {S A : Type 0} (late : Exception) (round : S → Client → Step (Turn S A))
    (direct : S → Client → Round S A)
    (rounds : (s : S) (c : Client) → turned (run_alone sys (round s c)) ≡ direct s c) where
  -- Alone, the loop does what `poll` does, if its rounds do.
  pub async_poll-poll :
      (n : ℕ) (deadline : Option ℕ) (interval : ℕ) (s : S) (c : Client)
      → regroup (run_alone sys (async_poll sys late round n deadline interval s c))
        ≡ poll sys direct late n deadline interval s c
  unfolding async_poll run_alone poll
  async_poll-poll zero deadline interval s c = refl
  async_poll-poll (suc n) none interval s c =
      rw
        (
          run_alone-and_then sys (round s c)
              (pause sys late (async_poll sys late round n none interval) none interval),
          poll,
          sym (rounds s c),
        )
        (pause_unlimited sys late (async_poll sys late round n none interval)
          (poll sys direct late n none interval) (async_poll-poll n none interval) interval
          (run_alone sys (round s c)))
  async_poll-poll (suc n) (some deadline) interval s c =
      rw
        (
          run_alone-and_then sys (round s c) (
              pause sys late (async_poll sys late round n (some deadline) interval) (some deadline)
                interval),
          poll,
          sym (rounds s c),
        )
        (pause_limited sys late (async_poll sys late round n (some deadline) interval)
          (poll sys direct late n (some deadline) interval)
          (async_poll-poll n (some deadline) interval) deadline interval
          (run_alone sys (round s c)))
