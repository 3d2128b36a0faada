-- ===== src/Pages/Asks.antt =====
-- The requests of an iteration over pages.
use libjadx.Base.{
  ℕ, String, false, Option, List, [], ◌∷◌, ◌++◌, map, member, str_eq, ◌≡◌, sym, ap, ◌∙◌, arith, All,
}
use mathlib.Core.List.{append_assoc, append-nil}
use libjadx.Errors.{Exception, Result}
use libjadx.Client.{Request, Expects, System, Client, invoke}
use libjadx.Client.Invoke.{invoke_sends}
use libjadx.Pages.Walks.{Walks, last, enough, repeats, fails, follows}

-- No text stands twice in the list.
abbrev pub Distinct : List String → Type 0
Distinct [] = Unit
Distinct (x ∷ xs) = All (λ y. str_eq x y ≡ false) xs × Distinct xs

-- Between `before` and `after`, the client has sent the requests for the pages at some cursors, which
-- are distinct and not among those seen, and nothing else.
pub record AsksOnce (request : String → Request) (seen : List String) (before after : Client)
    : Type 0 where
  pub cursors : List String
  pub distinct : Distinct cursors
  pub unseen : All (λ x. member x seen ≡ false) cursors
  pub sent : after.sent ≡ before.sent ++ map request cursors

pub asks_nothing :
    (request : String → Request) (seen : List String) (c : Client) → AsksOnce request seen c c
asks_nothing request seen c = record {
  cursors = [];
  distinct = tt;
  unseen = tt;
  sent = sym (append-nil c.sent);
}

unseen_tail :
    (cursor : String) (seen xs : List String)
    → All (λ x. member x (cursor ∷ seen) ≡ false) xs
    → All (λ x. str_eq cursor x ≡ false) xs × All (λ x. member x seen ≡ false) xs
unseen_tail cursor seen [] h = (tt, tt)
unseen_tail cursor seen (x ∷ xs) (p, h) =
    let (a, b) = unseen_tail cursor seen xs h in ((ground (arith, p), a), (ground (arith, p), b))

asks_next :
    (request : String → Request) (cursor : String) (seen : List String) (c d e : Client)
    → member cursor seen ≡ false
    → d.sent ≡ c.sent ++ request cursor ∷ []
    → AsksOnce request (cursor ∷ seen) d e
    → AsksOnce request seen c e
asks_next request cursor seen c d e fresh sent more =
    let (others, unseen) = unseen_tail cursor seen more.cursors more.unseen in
    record {
      cursors = cursor ∷ more.cursors;
      distinct = (others, more.distinct);
      unseen = (fresh, unseen);
      sent =
          more.sent
          ∙ ap (λ l. l ++ map request more.cursors) sent
          ∙ append_assoc c.sent (request cursor ∷ []) (map request more.cursors);
    }

module _ (sys : System) {Page : Type 0} (expects : Expects Page) (request : String → Request)
    (next_of : Page → Option String) (repeated : Exception) (limit : Option ℕ) where
  -- An exchange of an open client sends its request and leaves the client open; a client that an
  -- exchange leaves open was open.
  pub sends :
      (r : Request) (c : Client) {x : Result Page} {d : Client}
      → c.closed ≡ false
      → invoke sys expects r c ≡ (x, d)
      → (d.sent ≡ c.sent ++ r ∷ []) × (d.closed ≡ false)
  sends r c o h =
      let (_, opened, closed, _, _) = invoke_sends sys expects r c in
      (sym (ap (λ y. y.1.sent) h) ∙ opened o, sym (ap (λ y. y.1.closed) h) ∙ closed ∙ o)

  pub asks_once :
      {seen : List String} {pages : ℕ} {page : Page} {c : Client} {ys : List Page}
      {x : Result (Unit {0})} {d : Client}
      → Walks sys expects request next_of repeated limit seen pages page c ys x d
      → c.closed ≡ false
      → AsksOnce request seen c d
  asks_once (last {seen} {pages} {page} {c} h) o = asks_nothing request seen c
  asks_once (enough {seen} {pages} {page} {c} h k) o = asks_nothing request seen c
  asks_once (repeats {seen} {pages} {page} {c} h k m) o = asks_nothing request seen c
  asks_once (fails {seen} {pages} {page} {c} {d} {cursor} h k m e) o =
      asks_next request cursor seen c d d m (sends (request cursor) c o e).0
        (asks_nothing request (cursor ∷ seen) d)
  asks_once (follows {seen} {pages} {page} {c} {d} {s} {cursor} h k m e w) o =
      let (sent, still) = sends (request cursor) c o e in
      asks_next request cursor seen c d s m sent (asks_once w still)
