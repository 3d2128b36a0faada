-- ===== src/Service/Closed.antt =====
-- `Client.close` of client.py, and the calls behind it.
use libjadx.Base.{true, ◌≡◌, refl, inl, inr, Bool-cases, if_true}
use libjadx.Errors.{raise, transport_error}
use libjadx.Client.{System, Client, Request, Expects, invoke}
use libjadx.Service.{close, enter}

close_closed : (c : Client) → (close c).closed ≡ true
unfolding close
close_closed c = elim (Bool-cases c.closed) [ inl t ↦ rw t refl | inr f ↦ rw f refl ]

close_shut : (c : Client) → c.closed ≡ true → close c ≡ c
unfolding close
close_shut c t = if_true c.closed _ _ t

close_keeps : (c : Client) → ((close c).sent ≡ c.sent) × ((close c).revisions ≡ c.revisions)
unfolding close
close_keeps c = elim (Bool-cases c.closed) [ inl t ↦ rw t (refl, refl) | inr f ↦ rw f (refl, refl) ]

-- A client that has been closed sends nothing more: every call raises and leaves it as it is, it cannot
-- be entered, and closing it again does nothing.
pub close_silences :
    (sys : System) {A : Type 0} (expects : Expects A) (request : Request) (c : Client)
    → (invoke sys expects request (close c) ≡ (raise (transport_error "Client is closed"), close c))
      × (enter (close c) ≡ (raise (transport_error "Client is closed"), close c))
      × (close (close c) ≡ close c)
      × ((close c).sent ≡ c.sent)
      × ((close c).revisions ≡ c.revisions)
unfolding invoke enter
close_silences sys expects request c =
    let k = close_closed c in
    let (sent, revisions) = close_keeps c in
    (
      if_true (close c).closed _ _ k,
      if_true (close c).closed _ _ k,
      close_shut (close c) k,
      sent,
      revisions,
    )
