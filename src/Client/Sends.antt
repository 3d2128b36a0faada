-- ===== src/Client/Sends.antt =====
-- The requests that a client has sent between two moments.
use libjadx.Base.{
  Bool, true, List, [], ◌∷◌, ◌++◌, ◌≡◌, inl, inr, sym, ap, ◌∙◌, Bool-cases, All, All-append,
}
use mathlib.Core.List.{append_assoc, append-nil}
use libjadx.Client.{Request, System, Client, Expects, invoke}
use libjadx.Client.Invoke.{invoke_sends}

-- From `before` to `after`, the client has sent requests of this kind and nothing else.
pub record OnlySends (kind : Request → Bool) (before after : Client) : Type 0 where
  pub requests : List Request
  pub sent : after.sent ≡ before.sent ++ requests
  pub of_kind : All (λ r. kind r ≡ true) requests

module _ (kind : Request → Bool) where
  pub none_sent : (c d : Client) → d.sent ≡ c.sent → OnlySends kind c d
  none_sent c d e = record { requests = []; sent = e ∙ sym (append-nil c.sent); of_kind = tt }

  pub then_sent : (b c d : Client) → OnlySends kind b c → OnlySends kind c d → OnlySends kind b d
  then_sent b c d x y = record {
    requests = x.requests ++ y.requests;
    sent = y.sent ∙ ap (λ l. l ++ y.requests) x.sent ∙ append_assoc b.sent x.requests y.requests;
    of_kind = All-append (λ r. kind r ≡ true) x.requests y.requests x.of_kind y.of_kind;
  }

  pub pause_sent : (b c d : Client) → d.sent ≡ c.sent → OnlySends kind b c → OnlySends kind b d
  pause_sent b c d e x = then_sent b c d x (none_sent c d e)

  pub invoke_sent :
      (sys : System) {A : Type 0} (expects : Expects A) (r : Request) (c : Client)
      → kind r ≡ true
      → OnlySends kind c (invoke sys expects r c).1
  invoke_sent sys expects r c k =
      let (shut, opened, _, _, _) = invoke_sends sys expects r c in
      elim (Bool-cases c.closed) [
        | inl t ↦ none_sent c (invoke sys expects r c).1 (ap (λ d. d.sent) (shut t))
        | inr f ↦ record { requests = r ∷ []; sent = opened f; of_kind = (k, tt) }
      ]
