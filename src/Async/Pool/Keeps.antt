-- ===== src/Async/Pool/Keeps.antt =====
-- What the steps of a coroutine of the asynchronous SDK keep: a relation between the client when the
-- coroutine goes on and the client when it waits again.
use libjadx.Base.{
  String, ℕ, zero, suc, Bool, true, false, Option, none, some, List, [], ◌∷◌, Bool-cases,
  Option-cases, inl, inr, if◌then◌else◌, leb, member, ◌+◌,
}
use libjadx.Errors.{Exception, Result, ok, raise}
use libjadx.Revisions.{Observable, observe}
use libjadx.Client.{
  Request, Exchange, System, Client, Expects, settle, observed, unwrap, response, timeout_exception,
  http_error, undecodable,
}
use libjadx.Client.Poll.{sleep, now}
use libjadx.Pages.{is_reached}
use libjadx.Async.{Step, returned, awaits, sleeps, and_then, async_invoke, send}
use libjadx.Async.Poll.{Turn, over, next, pause, async_poll}
use libjadx.Async.Pages.{Collected, next_page, async_walk, first_page, async_walk_all}

module _ (P : Client → Client → Type 0) where
  -- What a coroutine does from here on, on a client that was `b` when it went on: when it waits or
  -- returns, the client is related to that, whatever the client is when it goes on again.
  pub data Keeps {A : Type 0} : Client → Step A → Type 0 where
    at_end : {b c : Client} {a : A} → P b c → Keeps b (returned a c)
    at_request :
        {b c : Client} {request : Request} {more : Exchange → Client → Step A}
        → P b (send request c)
        → ((x : Exchange) (d e : Client) → P d e → Keeps d (more x e))
        → Keeps b (awaits request c more)
    at_pause :
        {b c : Client} {t : ℕ} {more : Client → Step A}
        → P b c
        → ((d e : Client) → P d e → Keeps d (more e))
        → Keeps b (sleeps t c more)

  pub and_then-Keeps :
      {A B : Type 0} {b : Client} {s : Step A} {k : A → Client → Step B}
      → Keeps b s
      → ((d e : Client) (a : A) → P d e → Keeps d (k a e))
      → Keeps b (and_then s k)
  unfolding and_then
  and_then-Keeps {k} (at_end {b} {c} {a} p) h = h b c a p
  and_then-Keeps (at_request p more) h = at_request p (λ x d e q. and_then-Keeps (more x d e q) h)
  and_then-Keeps (at_pause p more) h = at_pause p (λ d e q. and_then-Keeps (more d e q) h)

  pub if-Keeps :
      {A : Type 0} {b : Client} (test : Bool) {s t : Step A}
      → Keeps b s
      → Keeps b t
      → Keeps b (if test then s else t)
  if-Keeps true h k = h
  if-Keeps false h k = k

  -- A relation to an earlier client that every operation of the SDK keeps, if each request that is
  -- sent has `Q`.
  pub record IsKept (Q : Request → Type 0) : Type 0 where
    pub stays : (c : Client) → P c c
    pub observes :
        (r : Observable) (b c : Client)
        → P b c
        → P b (record c { revisions = observe r c.revisions })
    pub sends : (request : Request) (b c : Client) → Q request → P b c → P b (send request c)
    pub reads : (b c : Client) → P b c → P b (record c { readings = c.readings + 1 })
    pub pauses : (t : ℕ) (b c : Client) → P b c → P b (sleep t c)
    pub closes : (b c : Client) → P b c → P b (record c { closed = true })

module _ (sys : System) {P : Client → Client → Type 0} {Q : Request → Type 0}
    (kept : IsKept P Q) where
  open kept use {observes, sends, reads}

  settle-kept :
      {b : Client} {A : Type 0} (expects : Expects A) (x : Exchange) (c : Client)
      → P b c
      → P b (settle sys expects x c).1
  unfolding settle
  settle-kept expects (timeout_exception text) c p = p
  settle-kept expects (http_error text) c p = p
  settle-kept expects undecodable c p = p
  settle-kept {b} expects (response r) c p = go (unwrap sys.codec expects r)
    where
      go : (y : Result _) → P b (observed sys expects r.parsed y c).1
      go (ok a) = observes _ b c p
      go (raise e) = p

  pub async_invoke-Keeps :
      {b : Client} {A : Type 0} (expects : Expects A) (request : Request) (c : Client)
      → Q request
      → P b c
      → Keeps P b (async_invoke sys expects request c)
  unfolding async_invoke
  async_invoke-Keeps expects request c q p =
      if-Keeps P c.closed (at_end p)
        (at_request (sends request _ c q p) (λ x d e r. at_end (settle-kept expects x e r)))

  module _ {S A : Type 0} (late : Exception) where
    pause-Keeps :
        {more : S → Client → Step (Option (Result A × S))}
        → ((d e : Client) (s : S) → P d e → Keeps P d (more s e))
        → (deadline : Option ℕ) (interval : ℕ) (b c : Client) (t : Turn S A) → P b c
        → Keeps P b (pause sys late more deadline interval t c)
    pause-Keeps h deadline interval b c (over r s) p = at_end p
    pause-Keeps h none interval b c (next s) p = at_pause p (λ d e q. h d e s q)
    pause-Keeps h (some deadline) interval b c (next s) p =
        elim (Bool-cases (leb deadline (now sys c))) [
          | inl out ↦ rw out (at_end (reads b c p))
          | inr left ↦ rw left (at_pause (reads b c p) (λ d e q. h d e s q))
        ]

    module _ (round : S → Client → Step (Turn S A))
        (rounds : (d e : Client) (s : S) → P d e → Keeps P d (round s e)) where
      pub async_poll-Keeps :
          {b : Client} (n : ℕ) (deadline : Option ℕ) (interval : ℕ) (s : S) (c : Client)
          → P b c
          → Keeps P b (async_poll sys late round n deadline interval s c)
      unfolding async_poll
      async_poll-Keeps zero deadline interval s c p = at_end p
      async_poll-Keeps (suc n) deadline interval s c p =
          and_then-Keeps P (rounds _ c s p) (
            pause-Keeps (λ d e s' q. async_poll-Keeps n deadline interval s' e q) deadline interval)

  module _ {Page : Type 0} (expects : Expects Page) (request : String → Request)
      (next_of : Page → Option String) (repeated : Exception) (limit : Option ℕ)
      (fine : (cursor : String) → Q (request cursor)) where
    next_page-Keeps :
        {more : Page → Client → Step (Collected Page)} (page : Page)
        → ((d e : Client) (page' : Page) → P d e → Keeps P d (more page' e))
        → (b c : Client) (r : Result Page) → P b c
        → Keeps P b (next_page sys expects request next_of repeated limit more page r c)
    next_page-Keeps page h b c (raise e) p = at_end p
    next_page-Keeps page h b c (ok page') p = and_then-Keeps P (h b c page' p) (λ d e x q. at_end q)

    pub async_walk-Keeps :
        {b : Client} (n : ℕ) (seen : List String) (pages : ℕ) (page : Page) (c : Client)
        → P b c
        → Keeps P b (async_walk sys expects request next_of repeated limit n seen pages page c)
    unfolding async_walk
    async_walk-Keeps zero seen pages page c p = at_end p
    async_walk-Keeps (suc n) seen pages page c p = elim (Option-cases (next_of page)) [
      | inl last ↦ rw (async_walk, last) (at_end p)
      | inr (cursor, e) ↦ elim (Bool-cases (is_reached limit (pages + 1))) [
        | inl full ↦ rw (async_walk, e, full) (at_end p)
        | inr room ↦ elim (Bool-cases (member cursor seen)) [
          | inl again ↦ rw (async_walk, e, room, again) (at_end p)
          | inr new ↦
              rw (async_walk, e, room, new)
                (and_then-Keeps P (async_invoke-Keeps expects (request cursor) c (fine cursor) p) (
                  next_page-Keeps page
                    (λ d e page' q. async_walk-Keeps n (cursor ∷ seen) (pages + 1) page' e q)))
        ]
      ]
    ]

    first_page-Keeps :
        (n : ℕ) (b c : Client) (r : Result Page)
        → P b c
        → Keeps P b (first_page sys expects request next_of repeated limit n r c)
    first_page-Keeps n b c (raise e) p = at_end p
    first_page-Keeps n b c (ok page) p = async_walk-Keeps n [] 0 page c p

    pub async_walk_all-Keeps :
        {b : Client} (n : ℕ) (first : Request) (c : Client)
        → Q first
        → P b c
        → Keeps P b (async_walk_all sys expects request next_of repeated limit n first c)
    unfolding async_walk_all
    async_walk_all-Keeps n first c q p =
        and_then-Keeps P (async_invoke-Keeps expects first c q p) (first_page-Keeps n)
