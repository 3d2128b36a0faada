-- ===== src/Client/Errors.antt =====
-- The exceptions of `Client._invoke` of client.py.
use libjadx.Base.{
  ℕ, Bool, true, false, Option, none, some, leb, ltb, not, ◌&&◌, ◌≡◌, inl, inr, refl, Bool-cases,
}
use libjadx.Wire.Codec.{Codec}
use libjadx.Errors.{
  Exception, transport_error, request_timeout_error, unexpected_response_error, unexpected_status,
  api, Headers, Result, ok, raise, or_raise,
}
use libjadx.Client.{
  Request, Payload, error_envelope, Exchange, response, timeout_exception, http_error, undecodable,
  System, Client, Expects, accept, unwrap, observed, settle, invoke,
}

-- A failed call: the transport's, the response's, or the server's error.
abbrev pub is_call_error : Exception → Bool
is_call_error (transport_error t) = true
is_call_error (request_timeout_error t) = true
is_call_error (unexpected_response_error t) = true
is_call_error (unexpected_status n) = true
is_call_error (api f) = true
is_call_error _ = false

-- A result, if it is an exception, is a failed call.
abbrev pub FailsAsCall : {A : Type 0} → Result A → Type 0
FailsAsCall (ok a) = Unit
FailsAsCall (raise e) = is_call_error e ≡ true

accept_fails : {A : Type 0} (status : ℕ) (cast : Option A) → FailsAsCall (accept status cast)
unfolding accept
accept_fails {A = A} status cast = elim (Bool-cases (not (leb 200 status && ltb status 300))) [
  | inl t ↦ rw t refl
  | inr f ↦ rw f (or_raise_fails cast)
]
  where
    or_raise_fails : (x : Option A) → FailsAsCall (or_raise x (unexpected_status status))
    or_raise_fails none = refl
    or_raise_fails (some a) = tt

module _ (codec : Codec) {A : Type 0} (expects : Expects A) where
  unwrap_fails :
      (status : ℕ) (headers : Headers) (p : Payload)
      → FailsAsCall
          (unwrap codec expects (record { status_code = status; headers = headers; parsed = p }))
  unfolding unwrap
  unwrap_fails status headers (error_envelope e) = refl
  unwrap_fails status headers p = accept_fails status (expects p)

module _ (sys : System) {A : Type 0} (expects : Expects A) where
  settle_fails : (x : Exchange) (c : Client) → FailsAsCall (settle sys expects x c).0
  unfolding settle
  settle_fails (timeout_exception t) c = refl
  settle_fails (http_error t) c = refl
  settle_fails undecodable c = refl
  settle_fails (response r) c =
      observed_fails (unwrap sys.codec expects r)
        (unwrap_fails sys.codec expects r.status_code r.headers r.parsed)
    where
      observed_fails :
          (x : Result A) → FailsAsCall x → FailsAsCall (observed sys expects r.parsed x c).0
      observed_fails (ok a) h = tt
      observed_fails (raise e) h = h

  -- If `_invoke` raises, then what it raises is an error of the transport, of the response or of the
  -- server: no exception of httpx or of the decoding gets through.
  pub invoke_fails : (request : Request) (c : Client) → FailsAsCall (invoke sys expects request c).0
  unfolding invoke
  invoke_fails request c = elim (Bool-cases c.closed) [
    | inl t ↦ rw t refl
    | inr f ↦ rw f (settle_fails _ _)
  ]
