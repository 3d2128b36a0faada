-- ===== src/Async.antt =====
-- The asynchronous SDK (python/src/libjadx/async_client.py and the `Async…` classes of project.py,
-- jobs.py, search.py and symbols.py): coroutines that run until they wait for a response or a pause,
-- and go on with whatever the client is by then. The event loop is asyncio's.
pub mod Project
pub mod Reads
pub mod Alone
pub mod Poll
pub mod Jobs
pub mod Service
pub mod Loops
pub mod Pages
pub mod Pool
use libjadx.Base.{
  ℕ, Bool, Bool-cases, inl, inr, true, false, Option, none, some, List, [], ◌∷◌, ◌++◌, length,
  if◌then◌else◌, ◌≡◌, refl, ◌∙◌,
}
use libjadx.Errors.{transport_error, Result, ok, raise}
use libjadx.Client.{Request, Exchange, System, Client, Exec, Expects, settle, invoke}
use libjadx.Client.Poll.{sleep}

-- What a coroutine does next, with the client at that point: it returns, or it waits for the response
-- to a request, or for a time to pass.
pub data Step (A : Type 0) : Type 0 where
  returned : A → Client → Step A
  awaits : Request → Client → (Exchange → Client → Step A) → Step A
  sleeps : ℕ → Client → (Client → Step A) → Step A

-- A coroutine that returns a value or raises.
abbrev pub Async : Type 0 → Type 0
Async A = Client → Step (Result A)

-- `await`, and then the rest of the caller.
unfoldable pub and_then : {A B : Type 0} → Step A → (A → Client → Step B) → Step B
and_then (returned a c) k = k a c
and_then (awaits request c more) k = awaits request c (λ x c'. and_then (more x c') k)
and_then (sleeps t c more) k = sleeps t c (λ c'. and_then (more c') k)

abbrev pub yields : {A : Type 0} → A × Client → Step A
yields (a, c) = returned a c

-- The client behind the sending of a request.
abbrev pub send : Request → Client → Client
send request c = record c { sent = c.sent ++ request ∷ [] }

module _ (sys : System) where
  -- `AsyncClient._invoke`
  unfoldable pub async_invoke : {A : Type 0} → Expects A → Request → Async A
  unfolding settle
  async_invoke expects request c =
      if c.closed
      then returned (raise (transport_error "Client is closed")) c
      else awaits request c (λ x c'. yields (settle sys expects x c'))

  -- A coroutine that runs alone on its client.
  unfoldable pub run_alone : {A : Type 0} → Step A → A × Client
  run_alone (returned a c) = (a, c)
  run_alone (awaits request c more) =
      run_alone (more (sys.exchange (length c.sent) request) (send request c))
  run_alone (sleeps t c more) = run_alone (more (sleep t c))

  abbrev pub continued : {A B : Type 0} → (A → Client → Step B) → A × Client → B × Client
  continued k (a, c) = run_alone (k a c)

  pub run_alone-and_then :
      {A B : Type 0} (s : Step A) (k : A → Client → Step B)
      → run_alone (and_then s k) ≡ continued k (run_alone s)
  unfolding run_alone and_then
  run_alone-and_then (returned a c) k = refl
  run_alone-and_then (awaits request c more) k =
      run_alone-and_then (more (sys.exchange (length c.sent) request) (send request c)) k
  run_alone-and_then (sleeps t c more) k = run_alone-and_then (more (sleep t c)) k

  pub run_alone-async_invoke :
      {A : Type 0} (expects : Expects A) (request : Request) (c : Client)
      → run_alone (async_invoke expects request c) ≡ invoke sys expects request c
  unfolding run_alone async_invoke invoke
  run_alone-async_invoke expects request c = elim (Bool-cases c.closed) [
    | inl shut ↦ rw shut refl
    | inr open_ ↦ rw open_ refl
  ]
