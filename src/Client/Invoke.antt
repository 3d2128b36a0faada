-- ===== src/Client/Invoke.antt =====
-- The outcomes of `Client._invoke` of client.py.
use libjadx.Base.{
  ℕ, Bool, true, false, Option, some, [], ◌∷◌, ◌++◌, length, ◌≡◌, ◌↔◌, inl, inr, refl, arith, ◌≤◌,
  ◌<◌, Bool-cases, if_true, if_false, sym, ◌∙◌,
}
use libjadx.Errors.{Exception, Headers, Result, ok, raise, transport_error}
use libjadx.Wire.Codec.{Codec}
use libjadx.Revisions.Session.{IsValid, observe-IsValid}
use libjadx.Client.{
  Request, Payload, error_envelope, Response, Exchange, response, timeout_exception, http_error,
  undecodable, System, Client, Expects, observable, accept, observed, unwrap, invoke, settle,
}

-- Is the payload an `ErrorEnvelope`?
abbrev pub is_error : Payload → Bool
is_error (error_envelope e) = true
is_error _ = false

-- `response` is one from which `unwrap` returns `a`: success, no error body, the expected class.
pub record Delivers {A : Type 0} (expects : Expects A) (r : Response) (a : A) : Type 0 where
  pub low : 200 ≤ r.status_code
  pub high : r.status_code < 300
  pub no_error : is_error r.parsed ≡ false
  pub parsed : expects r.parsed ≡ some a

accept_iff :
    {A : Type 0} (status : ℕ) (cast : Option A) (a : A)
    → (accept status cast ≡ ok a) ↔ ((200 ≤ status) × (status < 300) × (cast ≡ some a))
unfolding accept
accept_iff status cast a = ground arith

module _ {A : Type 0} (codec : Codec) (expects : Expects A) where
  accept-Delivers :
      (r : Response) (a : A)
      → is_error r.parsed ≡ false
      → ((accept r.status_code (expects r.parsed) ≡ ok a) ↔ Delivers expects r a)
  accept-Delivers r a clean = (
    λ h.
        let (low, high, cast) = (accept_iff r.status_code (expects r.parsed) a).0 h in
        record { low = low; high = high; no_error = clean; parsed = cast },
    λ d. (accept_iff r.status_code (expects r.parsed) a).1 (d.low, d.high, d.parsed),
  )

  with_parsed_iff :
      (status : ℕ) (headers : Headers) (p : Payload) (a : A)
      → (unwrap codec expects (record { status_code = status; headers = headers; parsed = p })
          ≡ ok a)
        ↔ Delivers expects (record { status_code = status; headers = headers; parsed = p }) a
  unfolding unwrap
  with_parsed_iff status headers (error_envelope e) a = (λ h. cc, λ d. cc d.no_error)
  with_parsed_iff status headers p a =
      accept-Delivers (record { status_code = status; headers = headers; parsed = p }) a refl

  pub unwrap_iff : (r : Response) (a : A) → (unwrap codec expects r ≡ ok a) ↔ Delivers expects r a
  unwrap_iff r a = with_parsed_iff r.status_code r.headers r.parsed a

module _ (sys : System) {A : Type 0} (expects : Expects A) where
  settle_keeps :
      (x : Exchange) (c : Client)
      → ((settle sys expects x c).1.closed ≡ c.closed)
        × ((settle sys expects x c).1.sent ≡ c.sent)
        × ((settle sys expects x c).1.readings ≡ c.readings)
        × ((settle sys expects x c).1.slept ≡ c.slept)
  unfolding settle
  settle_keeps (timeout_exception t) c = (refl, refl, refl, refl)
  settle_keeps (http_error t) c = (refl, refl, refl, refl)
  settle_keeps undecodable c = (refl, refl, refl, refl)
  settle_keeps (response r) c = observed_keeps (unwrap sys.codec expects r)
    where
      observed_keeps :
          (x : Result A)
          → ((observed sys expects r.parsed x c).1.closed ≡ c.closed)
            × ((observed sys expects r.parsed x c).1.sent ≡ c.sent)
            × ((observed sys expects r.parsed x c).1.readings ≡ c.readings)
            × ((observed sys expects r.parsed x c).1.slept ≡ c.slept)
      observed_keeps (ok a) = (refl, refl, refl, refl)
      observed_keeps (raise e) = (refl, refl, refl, refl)

  settle_ok_iff :
      (x : Exchange) (c : Client) (a : A)
      → ((settle sys expects x c).0 ≡ ok a)
        ↔ ((r : Response) × (x ≡ response r) × Delivers expects r a)
  unfolding settle
  settle_ok_iff (timeout_exception t) c a = (λ h. cc, λ d. cc d.1)
  settle_ok_iff (http_error t) c a = (λ h. cc, λ d. cc d.1)
  settle_ok_iff undecodable c a = (λ h. cc, λ d. cc d.1)
  settle_ok_iff (response r) c a = (
    λ h. (
      r,
      refl,
      (unwrap_iff sys.codec expects r a).0 (observed_result (unwrap sys.codec expects r) ∙ h),
    ),
    λ d.
        let same : d.0 ≡ r = cc d.1 in
        sym (observed_result (unwrap sys.codec expects r))
        ∙ (unwrap_iff sys.codec expects r a).1 (rw same at d.2),
  )
    where
      observed_result : (x : Result A) → x ≡ (observed sys expects r.parsed x c).0
      observed_result (ok b) = refl
      observed_result (raise e) = refl

  settle_revisions :
      (x : Exchange) (c : Client)
      → (IsValid c.revisions → IsValid (settle sys expects x c).1.revisions)
        × ((e : Exception)
            → (settle sys expects x c).0 ≡ raise e
            → (settle sys expects x c).1.revisions ≡ c.revisions)
  unfolding settle
  settle_revisions (timeout_exception t) c = (λ v. v, λ e h. refl)
  settle_revisions (http_error t) c = (λ v. v, λ e h. refl)
  settle_revisions undecodable c = (λ v. v, λ e h. refl)
  settle_revisions (response r) c = observed_revisions (unwrap sys.codec expects r)
    where
      observed_revisions :
          (x : Result A)
          → (IsValid c.revisions → IsValid (observed sys expects r.parsed x c).1.revisions)
            × ((e : Exception)
                → (observed sys expects r.parsed x c).0 ≡ raise e
                → (observed sys expects r.parsed x c).1.revisions ≡ c.revisions)
      observed_revisions (ok a) =
          (λ v. observe-IsValid (observable r.parsed) c.revisions v, λ e h. cc)
      observed_revisions (raise e) = (λ v. v, λ e' h. refl)

  -- The client after a call that made the exchange for `request`.
  abbrev pub after_sending : Request → Client → Client
  after_sending request c = record c { sent = c.sent ++ request ∷ [] }

  invoke_shut :
      (request : Request) (c : Client)
      → c.closed ≡ true
      → invoke sys expects request c ≡ (raise (transport_error "Client is closed"), c)
  unfolding invoke
  invoke_shut request c h = if_true c.closed _ _ h

  invoke_open :
      (request : Request) (c : Client)
      → c.closed ≡ false
      → invoke sys expects request c
        ≡ settle sys expects (sys.exchange (length c.sent) request) (after_sending request c)
  unfolding invoke
  invoke_open request c h = if_false c.closed _ _ h

  -- A closed client sends nothing and stays as it is. An open one sends the request once, whatever
  -- comes of it, and `closed`, the clock and the time slept are as before.
  pub invoke_sends :
      (request : Request) (c : Client)
      → (c.closed ≡ true → (invoke sys expects request c).1 ≡ c)
        × (c.closed ≡ false → (invoke sys expects request c).1.sent ≡ c.sent ++ request ∷ [])
        × ((invoke sys expects request c).1.closed ≡ c.closed)
        × ((invoke sys expects request c).1.readings ≡ c.readings)
        × ((invoke sys expects request c).1.slept ≡ c.slept)
  invoke_sends request c =
      let k = settle_keeps (sys.exchange (length c.sent) request) (after_sending request c) in
      elim (Bool-cases c.closed) [
        | inl shut ↦ rw (invoke_shut request c shut) (λ _. refl, λ f. cc, refl, refl, refl)
        | inr open_ ↦ rw (invoke_open request c open_) (λ f. cc, λ _. k.1, k.0, k.2, k.3)
      ]

  -- The result of `_invoke` is `a` exactly if the client is open and the exchange is a response with a
  -- success status, no error body, and a payload of the expected class that is `a`.
  pub invoke_ok_iff :
      (request : Request) (c : Client) (a : A)
      → ((invoke sys expects request c).0 ≡ ok a) ↔ (
          (c.closed ≡ false)
          × ((r : Response) × (sys.exchange (length c.sent) request ≡ response r)
              × Delivers expects r a))
  invoke_ok_iff request c a = elim (Bool-cases c.closed) [
    | inl shut ↦ rw (invoke_shut request c shut) (λ h. cc, λ d. cc d.0)
    | inr open_ ↦ rw (invoke_open request c open_) (
      λ h. (
        open_,
        (settle_ok_iff (sys.exchange (length c.sent) request) (after_sending request c) a).0 h,
      ),
      λ d. (settle_ok_iff (sys.exchange (length c.sent) request) (after_sending request c) a).1 d.1,
    )
  ]

  invoke_revisions :
      (request : Request) (c : Client)
      → (IsValid c.revisions → IsValid (invoke sys expects request c).1.revisions)
        × ((e : Exception)
            → (invoke sys expects request c).0 ≡ raise e
            → (invoke sys expects request c).1.revisions ≡ c.revisions)
  invoke_revisions request c = elim (Bool-cases c.closed) [
    | inl shut ↦ rw (invoke_shut request c shut) (λ v. v, λ e h. refl)
    | inr open_ ↦
        rw (invoke_open request c open_)
          (settle_revisions (sys.exchange (length c.sent) request) (after_sending request c))
  ]

  -- Whatever its outcome, a call leaves a valid revision cache valid.
  pub invoke-IsValid :
      (request : Request) (c : Client)
      → IsValid c.revisions
      → IsValid (invoke sys expects request c).1.revisions
  invoke-IsValid request c v = (invoke_revisions request c).0 v

  -- A call that raises, for whatever reason, changes nothing in the revision cache.
  pub invoke_raised :
      (request : Request) (c : Client) {e : Exception}
      → (invoke sys expects request c).0 ≡ raise e
      → (invoke sys expects request c).1.revisions ≡ c.revisions
  invoke_raised request c {e} h = (invoke_revisions request c).1 e h
