-- ===== src/Transport/Refused.antt =====
-- The error responses of python/src/libjadx/_generated/api, through `Client._invoke`.
use libjadx.Base.{
  ℕ, Bool, true, false, Option, none, some, List, [], ◌∷◌, ◌++◌, length, ◌==◌, ◌||◌, ◌≡◌, ◌⊎◌, inl,
  inr, refl, ◌∙◌, ap, Bool-cases,
}
use libjadx.Wire.Json.{Json}
use libjadx.Wire.ApiError
use libjadx.Wire.Codec.{Codec}
use libjadx.Errors.{raise, api, failure_of}
use libjadx.Client.{Payload, Request, Response, Exchange, Expects, invoke, settle, unwrap}
use libjadx.Client
use libjadx.Transport.{
  Class, FromDict, HttpResponse, responded, Sender, by_status, decoded, build_response, received,
  is_http_status, error_envelope,
}
use libjadx.Transport.Tables.{
  find_class, error_statuses, default_class, as_errors, parse_of-table, perform-received,
}
use libjadx.Transport.Perform.{kwargs_of, parse_of, over_http, successes}

abbrev pub has_status : ℕ → List ℕ → Bool
has_status s [] = false
has_status s (t ∷ ts) = s == t || has_status s ts

-- The status is one that the operation documents as an error, or every status but its successes is.
pub record IsRefusal (r : Request) (status : ℕ) : Type 0 where
  pub known : is_http_status status ≡ true
  pub no_success : find_class status (successes r) ≡ none
  pub documented :
      (has_status status (error_statuses r) ≡ true) ⊎ (default_class r ≡ some error_envelope)

module _ (from_dict : FromDict) where
  errors_decoded :
      (ss : List ℕ) (d : Option Class) (x : HttpResponse)
      → (has_status x.status_code ss ≡ true) ⊎ (d ≡ some error_envelope)
      → by_status from_dict (as_errors ss) d x ≡ decoded from_dict error_envelope x.json
  unfolding by_status
  errors_decoded [] none x h = elim h [ inl a ↦ absurd (cc) | inr b ↦ absurd (cc) ]
  errors_decoded [] (some k) x h = elim h [
    | inl a ↦ absurd (cc)
    | inr b ↦ let q : k ≡ error_envelope = cc in ap (λ j. decoded from_dict j x.json) q
  ]
  errors_decoded (s ∷ ss) d x h = elim (Bool-cases (x.status_code == s)) [
    | inl here ↦ rw here refl
    | inr later ↦ rw later (errors_decoded ss d x (rw later at h))
  ]

  refusal_decoded :
      (table : List (ℕ × Class)) (ss : List ℕ) (d : Option Class) (x : HttpResponse)
      → find_class x.status_code table ≡ none
      → (has_status x.status_code ss ≡ true) ⊎ (d ≡ some error_envelope)
      → by_status from_dict (table ++ as_errors ss) d x ≡ decoded from_dict error_envelope x.json
  unfolding by_status
  refusal_decoded [] ss d x f h = errors_decoded ss d x h
  refusal_decoded ((s, k) ∷ table) ss d x f h = elim (Bool-cases (x.status_code == s)) [
    | inl here ↦ absurd (let g : some k ≡ none = rw here at f in cc)
    | inr later ↦ rw later (refusal_decoded table ss d x (rw later at f) h)
  ]

  -- On an open client, over a service that httpx reaches: a response with a status that the operation
  -- documents as an error, and with a body that is an error envelope, makes a call raise the API error
  -- of that body, with that status and the headers of the response, whatever the call expects.
  pub invoke_refused :
      {A : Type 0} (codec : Codec) (http : ℕ → Sender) (clock : ℕ → ℕ → ℕ) (expects : Expects A)
      (r : Request) (c : Client.Client) (x : HttpResponse) (json : Json) (e : ApiError.ApiError)
      → c.closed ≡ false
      → http (length c.sent) (kwargs_of r) ≡ responded x
      → x.json ≡ some json
      → IsRefusal r x.status_code
      → from_dict error_envelope json ≡ some (Client.error_envelope e)
      → (invoke (over_http codec from_dict http clock) expects r c).0
        ≡ raise (api (failure_of codec.lower e (some x.status_code) x.headers))
  unfolding invoke settle unwrap received build_response
  invoke_refused codec http clock expects r c x json e o sent has refusal reads =
      let parsed : parse_of r from_dict x ≡ some (Client.error_envelope e) =
        parse_of-table r from_dict x
        ∙ (refusal_decoded (successes r) (error_statuses r) (default_class r) x refusal.no_success
              refusal.documented
            ∙ rw (has, reads) refl) in
      rw (o, perform-received (http (length c.sent)) from_dict r, sent, refusal.known, parsed) refl
