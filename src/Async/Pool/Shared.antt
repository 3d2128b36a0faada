-- ===== src/Async/Pool/Shared.antt =====
-- What holds of one client that several coroutines of the asynchronous SDK share.
use libjadx.Base.{
  String, true, some, List, [], ◌∷◌, ◌++◌, All, All-append, ◌≡◌, ◌≢◌, refl, sym, ◌∙◌, ap, member,
  Bool-cases, inl, inr, if_true, if_false,
}
use libjadx.Revisions.{Observable, RevisionCache, observe, observe_all}
use libjadx.Revisions.Session.{IsValid, observe_all-IsValid, retired_never_returns}
use libjadx.Client.{Request, Exchange, System, Client}
use libjadx.Client.Poll.{sleep}
use libjadx.Async.{Step, send}
use libjadx.Async.Service.{aclose}
use libjadx.Async.Pool.{
  Task, pending, asleep, Pool, fresh, suspend, Moves, starts, answered, wakes, closes, Later, now,
  moved,
}
use libjadx.Async.Pool.Keeps.{Keeps, at_end, at_request, at_pause, IsKept}
use libjadx.Async.Pool.Calls.{IsWhole}
use libjadx.Async.Pool.Every.{coroutine-Keeps}

-- Between two points in time, the cache has observed some responses, and some requests with whole
-- pairs were sent.
pub record Advances (b c : Client) : Type 0 where
  pub responses : List Observable
  pub requests : List Request
  pub observed : c.revisions ≡ observe_all responses b.revisions
  pub sent : c.sent ≡ b.sent ++ requests
  pub whole : All IsWhole requests

observe_all-append :
    (rs ss : List Observable) (c : RevisionCache)
    → observe_all (rs ++ ss) c ≡ observe_all ss (observe_all rs c)
unfolding observe_all
observe_all-append [] ss c = refl
observe_all-append (r ∷ rs) ss c = observe_all-append rs ss (observe r c)

append_nil {ℓ} : {A : Type ℓ} (xs : List A) → xs ++ [] ≡ xs
append_nil [] = refl
append_nil (x ∷ xs) = ap (λ ys. x ∷ ys) (append_nil xs)

append_assoc {ℓ} : {A : Type ℓ} (xs ys zs : List A) → (xs ++ ys) ++ zs ≡ xs ++ (ys ++ zs)
append_assoc [] ys zs = refl
append_assoc (x ∷ xs) ys zs = ap (λ ws. x ∷ ws) (append_assoc xs ys zs)

Advances-trans : {b c d : Client} → Advances b c → Advances c d → Advances b d
Advances-trans {b} {c} {d} h k = record {
  responses = h.responses ++ k.responses;
  requests = h.requests ++ k.requests;
  observed =
      k.observed
      ∙ (ap (observe_all k.responses) h.observed
          ∙ sym (observe_all-append h.responses k.responses b.revisions));
  sent = k.sent ∙ (ap (λ xs. xs ++ k.requests) h.sent ∙ append_assoc b.sent h.requests k.requests);
  whole = All-append IsWhole h.requests k.requests h.whole k.whole;
}

-- A step that leaves the cache and the requests alone.
Advances-same :
    {b c d : Client} → d.revisions ≡ c.revisions → d.sent ≡ c.sent → Advances b c → Advances b d
Advances-same r s h = record {
  responses = h.responses;
  requests = h.requests;
  observed = r ∙ h.observed;
  sent = s ∙ h.sent;
  whole = h.whole;
}

Advances-refl : (c : Client) → Advances c c
unfolding observe_all
Advances-refl c = record {
  responses = [];
  requests = [];
  observed = refl;
  sent = sym (append_nil c.sent);
  whole = tt;
}

Advances-observe :
    (r : Observable) (c : Client) → Advances c (record c { revisions = observe r c.revisions })
unfolding observe_all
Advances-observe r c = record {
  responses = r ∷ [];
  requests = [];
  observed = refl;
  sent = sym (append_nil c.sent);
  whole = tt;
}

Advances-send : (request : Request) (c : Client) → IsWhole request → Advances c (send request c)
unfolding observe_all
Advances-send request c q = record {
  responses = [];
  requests = request ∷ [];
  observed = refl;
  sent = refl;
  whole = (q, tt);
}

Advances-IsKept : IsKept Advances IsWhole
Advances-IsKept = record {
  stays = Advances-refl;
  observes = λ r b c h. Advances-trans h (Advances-observe r c);
  sends = λ request b c q h. Advances-trans h (Advances-send request c q);
  reads = λ b c h. Advances-same refl refl h;
  pauses = λ t b c h. Advances-same refl refl h;
  closes = λ b c h. Advances-same refl refl h;
}

-- A task that waits goes on in steps that only advance the client.
abbrev GoesOn : Task → Type 0
GoesOn (pending n request more) =
    (x : Exchange) (d e : Client) → Advances d e → Keeps Advances d (more x e)
GoesOn (asleep t more) = (d e : Client) → Advances d e → Keeps Advances d (more e)

-- From the client `b`, a pool whose client is further and whose tasks go on so.
record IsSound (b : Client) (p : Pool) : Type 0 where
  pub further : Advances b p.client
  pub waiting : All GoesOn p.tasks

suspend-IsSound :
    {b : Client} (s : Step (Unit {0})) (tasks : List Task)
    → Keeps Advances b s
    → All GoesOn tasks
    → IsSound b (suspend s tasks)
suspend-IsSound s tasks (at_end p) h = record { further = p; waiting = h }
suspend-IsSound s tasks (at_request p more) h = record {
  further = p;
  waiting = All-append GoesOn tasks _ h (more, tt);
}
suspend-IsSound s tasks (at_pause p more) h = record {
  further = p;
  waiting = All-append GoesOn tasks _ h (more, tt);
}

-- One task out of those that wait.
picked :
    (before after : List Task) (t : Task)
    → All GoesOn (before ++ t ∷ after)
    → GoesOn t × All GoesOn (before ++ after)
picked [] after t (h, hs) = (h, hs)
picked (b ∷ before) after t (h, hs) = let (k, ks) = picked before after t hs in (k, (h, ks))

module _ (sys : System) where
  aclose-Advances : (c : Client) → Advances c (aclose c)
  unfolding aclose
  aclose-Advances c = elim (Bool-cases c.closed) [
    | inl shut ↦ rw (if_true c.closed c (record c { closed = true }) shut) (Advances-refl c)
    | inr live ↦
        rw (if_false c.closed c (record c { closed = true }) live)
          (Advances-same refl refl (Advances-refl c))
  ]

  Moves-IsSound : {p q : Pool} → Moves sys p q → All GoesOn p.tasks → IsSound p.client q
  Moves-IsSound {p} (starts call) h =
      suspend-IsSound _ _
        (coroutine-Keeps sys Advances-IsKept call p.client (Advances-refl p.client)) h
  Moves-IsSound {p} (answered before after n request more e) h =
      let (k, ks) = picked before after (pending n request more) (rw (sym e) h) in
      suspend-IsSound _ _ (k (sys.exchange n request) p.client p.client (Advances-refl p.client)) ks
  Moves-IsSound {p} (wakes before after t more e) h =
      let (k, ks) = picked before after (asleep t more) (rw (sym e) h) in
      suspend-IsSound _ _
        (k p.client (sleep t p.client) (Advances-same refl refl (Advances-refl p.client))) ks
  Moves-IsSound {p} closes h = record { further = aclose-Advances p.client; waiting = h }

  Later-IsSound : {p q : Pool} → Later sys p q → All GoesOn p.tasks → IsSound p.client q
  Later-IsSound {p} now h = record { further = Advances-refl p.client; waiting = h }
  Later-IsSound (moved l m) h =
      let i = Later-IsSound l h in
      let j = Moves-IsSound m i.waiting in
      record { further = Advances-trans i.further j.further; waiting = j.waiting }

  -- Of coroutines of the asynchronous SDK that share a client on which nothing was running at first,
  -- however they are interleaved and in whatever order responses arrive: between any two points in
  -- time the cache has observed some responses, each in one step, and nothing else has happened to it,
  -- and every request that was sent in between carries a whole pair of preconditions or none, and a
  -- pair if an edit in it needs one.
  pub Later-Advances :
      (c : Client) {p q : Pool} → Later sys (fresh c) p → Later sys p q → Advances p.client q.client
  Later-Advances c l m = (Later-IsSound m (Later-IsSound l tt).waiting).further

  -- Of coroutines that share a client whose cache was valid when none was running: a session that was
  -- retired at some time is never the current session at a later time, even if a response that was
  -- asked for before it was retired arrives after that; and the cache is valid at both times.
  pub shared_never_returns :
      (c : Client) {p q : Pool} (s : String)
      → IsValid c.revisions
      → Later sys (fresh c) p
      → Later sys p q
      → member s p.client.revisions.retired ≡ true
      → IsValid p.client.revisions
        × IsValid q.client.revisions
        × (q.client.revisions.session_id ≢ some s)
  shared_never_returns c {p} {q} s v l m r =
      let a = Later-Advances c now l in
      let b = Later-Advances c l m in
      let vp : IsValid p.client.revisions =
        rw a.observed (observe_all-IsValid a.responses c.revisions v) in
      (
        vp,
        rw b.observed (observe_all-IsValid b.responses p.client.revisions vp),
        rw b.observed (retired_never_returns s b.responses p.client.revisions vp r),
      )
