-- ===== src/Transport/Typed.antt =====
-- The types of the responses of python/src/libjadx/_generated/api, and what becomes of a response in
-- `Client._invoke`.
use libjadx.Base.{
  ℕ, true, false, Option, none, some, List, [], ◌∷◌, ◌++◌, length, ◌==◌, ◌≡◌, ◌⊎◌, inl, inr, refl,
  sym, ◌∙◌, ap, Bool-cases,
}
use libjadx.Wire.Json.{Json}
use libjadx.Wire.Codec.{Codec}
use libjadx.Client.{Expects, invoke, Payload, absent, Request, Response, Exchange, response}
use libjadx.Client
use libjadx.Transport.{
  Class, FromDict, HttpResponse, Outcome, responded, timed_out, failed, Sender, by_status, decoded,
  build_response, received, is_http_status, with_payload, returned, error_envelope,
}
use libjadx.Errors.{ok}
use libjadx.Client.Invoke.{invoke_ok_iff, is_error}
use libjadx.Transport.Tables.{
  payload_class, GivesInstances, find_class, error_statuses, default_class, as_errors,
  parse_of-table, perform-received, default-cases,
}
use libjadx.Transport.Perform.{perform, kwargs_of, parse_of, over_http, successes}

-- What a payload is, for the status of its response: an instance of the class that the operation has
-- for that status, an error body, or nothing.
pub data Answer (table : List (ℕ × Class)) (status : ℕ) (p : Payload) : Type 0 where
  succeeded :
      (k : Class)
      → find_class status table ≡ some k
      → payload_class p ≡ some k
      → Answer table status p
  refused :
      find_class status table ≡ none → payload_class p ≡ some error_envelope → Answer table status p
  unknown : find_class status table ≡ none → p ≡ absent → Answer table status p

error-payload_class : (p : Payload) → payload_class p ≡ some error_envelope → is_error p ≡ true
error-payload_class (Client.error_envelope e) h = refl
error-payload_class absent h = absurd (cc)
error-payload_class (Client.job _) h = absurd (cc)
error-payload_class (Client.class_page _) h = absurd (cc)
error-payload_class (Client.reference_page _) h = absurd (cc)
error-payload_class (Client.search_page _) h = absurd (cc)
error-payload_class (Client.search_index_status _) h = absurd (cc)
error-payload_class (Client.symbol_resolution _) h = absurd (cc)
error-payload_class (Client.service_status _) h = absurd (cc)
error-payload_class (Client.instance_of Client.liveness _) h = absurd (cc)
error-payload_class (Client.instance_of Client.capabilities _) h = absurd (cc)
error-payload_class (Client.instance_of Client.shutdown_accepted _) h = absurd (cc)
error-payload_class (Client.instance_of Client.fixed_project _) h = absurd (cc)
error-payload_class (Client.instance_of Client.project_settings _) h = absurd (cc)
error-payload_class (Client.instance_of Client.pending_edits _) h = absurd (cc)
error-payload_class (Client.instance_of Client.mapping_export_receipt _) h = absurd (cc)
error-payload_class (Client.instance_of Client.mapping_import_receipt _) h = absurd (cc)
error-payload_class (Client.instance_of Client.edit_batch_result _) h = absurd (cc)
error-payload_class (Client.instance_of Client.decompile_result _) h = absurd (cc)
error-payload_class (Client.instance_of Client.control_flow_result _) h = absurd (cc)

module _ (from_dict : FromDict) (typed : GivesInstances from_dict) where
  payload_class-decoded :
      (k : Class) (json : Option Json) (p : Payload)
      → decoded from_dict k json ≡ some p
      → payload_class p ≡ some k
  payload_class-decoded k none p e = absurd (cc)
  payload_class-decoded k (some json) p e = typed k json p e

  -- Behind the statuses of the successes.
  errors-payload_class :
      (ss : List ℕ) (d : Option Class) (x : HttpResponse) (p : Payload)
      → (d ≡ none) ⊎ (d ≡ some error_envelope)
      → by_status from_dict (as_errors ss) d x ≡ some p
      → (payload_class p ≡ some error_envelope) ⊎ (p ≡ absent)
  unfolding by_status
  errors-payload_class [] none x p h e = inr (let q : some absent ≡ some p = e in cc)
  errors-payload_class [] (some k) x p h e = elim h [
    | inl missing ↦ absurd (cc)
    | inr there ↦
        let q : k ≡ error_envelope = cc in inl (rw (sym q) (payload_class-decoded k x.json p e))
  ]
  errors-payload_class (s ∷ ss) d x p h e = elim (Bool-cases (x.status_code == s)) [
    | inl here ↦ inl (payload_class-decoded error_envelope x.json p (rw here at e))
    | inr later ↦ errors-payload_class ss d x p h (rw later at e)
  ]

  by_status-Answer :
      (table : List (ℕ × Class)) (ss : List ℕ) (d : Option Class) (x : HttpResponse) (p : Payload)
      → (d ≡ none) ⊎ (d ≡ some error_envelope)
      → by_status from_dict (table ++ as_errors ss) d x ≡ some p
      → Answer table x.status_code p
  unfolding by_status
  by_status-Answer [] ss d x p h e = elim (errors-payload_class ss d x p h e) [
    | inl bad ↦ refused refl bad
    | inr gone ↦ unknown refl gone
  ]
  by_status-Answer ((s, k) ∷ table) ss d x p h e = elim (Bool-cases (x.status_code == s)) [
    | inl here ↦ succeeded k (rw here refl) (payload_class-decoded k x.json p (rw here at e))
    | inr later ↦ elim (by_status-Answer table ss d x p h (rw later at e)) [
      | succeeded k' f c ↦ succeeded k' (rw later f) c
      | refused f c ↦ refused (rw later f) c
      | unknown f c ↦ unknown (rw later f) c
    ]
  ]

  returned-response :
      (x : HttpResponse) (p : Option Payload) (y : Response)
      → returned (with_payload x p) ≡ response y
      → (p ≡ some y.parsed) × (y.status_code ≡ x.status_code)
  returned-response x none y e = absurd (cc)
  returned-response x (some p) y e =
      let q : record { status_code = x.status_code; headers = x.headers; parsed = p } ≡ y = cc in
      (ap (λ z. some z.parsed) q, ap (λ z. z.status_code) (sym q))

  received-response :
      (parse : HttpResponse → Option Payload) (o : Outcome) (y : Response)
      → received parse o ≡ response y
      → (x : HttpResponse) × (o ≡ responded x)
        × (parse x ≡ some y.parsed)
        × (y.status_code ≡ x.status_code)
  unfolding received build_response
  received-response parse (responded x) y e = elim (Bool-cases (is_http_status x.status_code)) [
    | inl known ↦ let (q, s) = returned-response x (parse x) y (rw known at e) in (x, refl, q, s)
    | inr odd ↦ absurd (let f : returned none ≡ response y = rw odd at e in cc)
  ]
  received-response parse (timed_out text) y e = absurd (cc)
  received-response parse (failed text) y e = absurd (cc)

  -- If each `from_dict` gives instances of its class, then every response that an operation hands on
  -- is typed as the operation declares: for a status that is one of its successes the payload is an
  -- instance of the class of that status, and for any other it is an error body or there is none.
  pub perform-Answer :
      (send : Sender) (r : Request) (y : Response)
      → perform send from_dict r ≡ response y
      → Answer (successes r) y.status_code y.parsed
  perform-Answer send r y e =
      let (x, o, q, s) =
        received-response (parse_of r from_dict) (send (kwargs_of r)) y
          (sym (perform-received send from_dict r) ∙ e) in
      rw s (
        by_status-Answer (successes r) (error_statuses r) (default_class r) x y.parsed
          (default-cases r) (sym (parse_of-table r from_dict x) ∙ q))

  -- Over a service that httpx reaches, and if each `from_dict` gives instances of its class: a call that
  -- expects something of a response, and returns it, has sent its request over an open client and got
  -- a response with a status that is one of the operation's successes, and what it returns is what was
  -- expected of an instance of the class of that status.
  pub invoke_success :
      {A : Type 0} (codec : Codec) (http : ℕ → Sender) (clock : ℕ → ℕ → ℕ) (expects : Expects A)
      (r : Request) (c : Client.Client) (a : A)
      → expects absent ≡ none
      → (invoke (over_http codec from_dict http clock) expects r c).0 ≡ ok a
      → (x : HttpResponse) × (k : Class) × (p : Payload) × (c.closed ≡ false)
        × (http (length c.sent) (kwargs_of r) ≡ responded x)
        × (find_class x.status_code (successes r) ≡ some k)
        × (payload_class p ≡ some k)
        × (expects p ≡ some a)
  invoke_success codec http clock expects r c a nothing h =
      let (live, (y, e, d)) =
        (invoke_ok_iff (over_http codec from_dict http clock) expects r c a).0 h in
      let send = http (length c.sent) in
      let (x, o, _, s) =
        received-response (parse_of r from_dict) (send (kwargs_of r)) y
          (sym (perform-received send from_dict r) ∙ e) in
      elim (perform-Answer send r y e) [
        | succeeded k f g ↦
            (x, k, y.parsed, live, o, ap (λ n. find_class n (successes r)) (sym s) ∙ f, g, d.parsed)
        | refused f g ↦ absurd (cc (error-payload_class y.parsed g, d.no_error))
        | unknown f g ↦ absurd (cc (nothing, d.parsed, g))
      ]
