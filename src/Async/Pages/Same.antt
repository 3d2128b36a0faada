-- ===== src/Async/Pages/Same.antt =====
-- The asynchronous iterators, running alone.
use libjadx.Base.{
  ℕ, zero, suc, ◌+◌, String, Option, none, some, List, [], ◌∷◌, member, ◌≡◌, refl, Bool-cases,
  Option-cases, inl, inr, ◌∙◌,
}
use libjadx.Wire.Json.{Json}
use libjadx.Wire.Pages.{ClassPage, SearchPage}
use libjadx.Wire.Requests.{ReferenceQuery}
use libjadx.Errors.{Exception, Result, ok, raise}
use libjadx.Client.{Request, Expects, System, Client, invoke}
use libjadx.Pages.{
  Walked, walk, walk_all, fetched, received, yield_first, is_reached, is_below_one, name_domains,
  ClassQuery, SearchCursor, items_of, class_pages, classes, is_clonable, reference_pages,
  search_pages, iterate, each_item, iterated,
}
use libjadx.Async.Pages.{
  Collected, prepending, rejoined, next_page, async_walk, first_page, async_walk_all, gathered,
  async_class_pages, async_classes, async_reference_pages, async_search_pages, async_iterated,
  async_iterate,
}
use libjadx.Async.{
  Step, returned, async_invoke, run_alone, run_alone-async_invoke, run_alone-and_then, continued,
}

-- The result of an iteration over hits, with the client behind it.
abbrev pub with_client :
    Option (List Json × Result (Unit {0}) × SearchCursor) × Client
    → Option (List Json × Result (Unit {0}) × SearchCursor × Client)
with_client (none, c) = none
with_client (some (hits, end, cursor), c) = some (hits, end, cursor, c)

module _ (sys : System) {Page : Type 0} (expects : Expects Page) (request : String → Request)
    (next_of : Page → Option String) (repeated : Exception) (limit : Option ℕ) where
  rejoined-prepend :
      (page : Page) (x : Collected Page × Client)
      → rejoined (continued sys (prepending page) x) ≡ yield_first page (rejoined x)
  unfolding run_alone
  rejoined-prepend page (none, c) = refl
  rejoined-prepend page (some (pages, end), c) = refl

  next_fetched :
      (more : Page → Client → Step (Collected Page)) (later : Page → Client → Option (Walked Page))
      (page : Page) (x : Result Page × Client)
      → ((p : Page) (c : Client) → rejoined (run_alone sys (more p c)) ≡ later p c)
      → rejoined (continued sys (next_page sys expects request next_of repeated limit more page) x)
        ≡ fetched sys expects request next_of repeated limit later page x
  unfolding run_alone
  next_fetched more later page (raise e, c) h = refl
  next_fetched more later page (ok next, c) h =
      rw (run_alone-and_then sys (more next c) (prepending page))
        (rejoined-prepend page (run_alone sys (more next c)) ∙ rw (h next c) refl)

  walk_same :
      (n : ℕ) (seen : List String) (pages : ℕ) (page : Page) (c : Client)
      → rejoined (
          run_alone sys (async_walk sys expects request next_of repeated limit n seen pages page c))
        ≡ walk sys expects request next_of repeated limit n seen pages page c
  unfolding async_walk walk run_alone
  walk_same zero seen pages page c = refl
  walk_same (suc n) seen pages page c = elim (Option-cases (next_of page)) [
    | inl last ↦ rw (async_walk, walk, last) refl
    | inr (cursor, e) ↦ elim (Bool-cases (is_reached limit (pages + 1))) [
      | inl full ↦ rw (async_walk, walk, e, full) refl
      | inr room ↦ elim (Bool-cases (member cursor seen)) [
        | inl again ↦ rw (async_walk, walk, e, room, again) refl
        | inr new ↦
            rw
              (
                async_walk,
                walk,
                e,
                room,
                new,
                run_alone-and_then sys (async_invoke sys expects (request cursor) c) (
                    next_page sys expects request next_of repeated limit
                      (async_walk sys expects request next_of repeated limit n (cursor ∷ seen)
                        (pages + 1))
                      page),
                run_alone-async_invoke sys expects (request cursor) c,
              )
              (next_fetched
                (async_walk sys expects request next_of repeated limit n (cursor ∷ seen)
                  (pages + 1))
                (walk sys expects request next_of repeated limit n (cursor ∷ seen) (pages + 1)) page
                (invoke sys expects (request cursor) c) (walk_same n (cursor ∷ seen) (pages + 1)))
      ]
    ]
  ]

  first_received :
      (fuel : ℕ) (x : Result Page × Client)
      → rejoined (continued sys (first_page sys expects request next_of repeated limit fuel) x)
        ≡ received sys expects request next_of repeated limit fuel x
  unfolding run_alone
  first_received fuel (raise e, c) = refl
  first_received fuel (ok page, c) = walk_same fuel [] 0 page c

  walk_all_same :
      (fuel : ℕ) (first : Request) (c : Client)
      → rejoined
          (run_alone sys (async_walk_all sys expects request next_of repeated limit fuel first c))
        ≡ walk_all sys expects request next_of repeated limit fuel first c
  unfolding async_walk_all walk_all
  walk_all_same fuel first c =
      rw
        (
          run_alone-and_then sys (async_invoke sys expects first c)
              (first_page sys expects request next_of repeated limit fuel),
          run_alone-async_invoke sys expects first c,
        )
        (first_received fuel (invoke sys expects first c))

module _ (sys : System) where
  rejoined-async_class_pages :
      (fuel : ℕ) (q : ClassQuery) (c : Client)
      → rejoined (run_alone sys (async_class_pages sys fuel q c)) ≡ class_pages sys fuel q c
  unfolding async_class_pages class_pages run_alone
  rejoined-async_class_pages fuel q c = elim (Bool-cases (is_below_one q.max_pages)) [
    | inl low ↦ rw low refl
    | inr fine ↦ elim (Bool-cases (member q.name_domain name_domains)) [
      | inl known ↦ rw (fine, known) (walk_all_same sys _ _ _ _ _ fuel _ c)
      | inr unknown ↦ rw (fine, unknown) refl
    ]
  ]

  gathered_each :
      (x : Collected ClassPage × Client)
      → rejoined (continued sys (λ y c. returned (gathered (items_of sys) y) c) x)
        ≡ each_item sys (rejoined x)
  unfolding run_alone
  gathered_each (none, c) = refl
  gathered_each (some (pages, end), c) = refl

  rejoined-async_classes :
      (fuel : ℕ) (q : ClassQuery) (c : Client)
      → rejoined (run_alone sys (async_classes sys fuel q c)) ≡ classes sys fuel q c
  unfolding async_classes classes
  rejoined-async_classes fuel q c =
      rw
        (run_alone-and_then sys (async_class_pages sys fuel q c)
          (λ y c. returned (gathered (items_of sys) y) c))
        (gathered_each (run_alone sys (async_class_pages sys fuel q c))
          ∙ rw (rejoined-async_class_pages fuel q c) refl)

  rejoined-async_reference_pages :
      (fuel : ℕ) (query : ReferenceQuery) (c : Client)
      → rejoined (run_alone sys (async_reference_pages sys fuel query c))
        ≡ reference_pages sys fuel query c
  unfolding async_reference_pages reference_pages run_alone
  rejoined-async_reference_pages fuel query c = elim (Bool-cases (is_clonable query)) [
    | inl fine ↦ rw fine (walk_all_same sys _ _ _ _ _ fuel _ c)
    | inr bad ↦ rw bad refl
  ]

  rejoined-async_search_pages :
      (fuel : ℕ) (cursor : SearchCursor) (c : Client)
      → rejoined (run_alone sys (async_search_pages sys fuel cursor c))
        ≡ search_pages sys fuel cursor c
  unfolding async_search_pages search_pages run_alone
  rejoined-async_search_pages fuel cursor c = elim (Bool-cases cursor.started) [
    | inl used ↦ rw used refl
    | inr fresh ↦ rw fresh (walk_same sys _ _ _ _ _ fuel [] 0 cursor.raw c)
  ]

  iterated_each :
      (cursor : SearchCursor) (x : Collected SearchPage × Client)
      → with_client (continued sys (λ y c. returned (async_iterated sys cursor y) c) x)
        ≡ iterated sys cursor (rejoined x)
  unfolding run_alone
  iterated_each cursor (none, c) = refl
  iterated_each cursor (some (pages, end), c) = refl

  with_client-async_iterate :
      (fuel : ℕ) (cursor : SearchCursor) (c : Client)
      → with_client (run_alone sys (async_iterate sys fuel cursor c)) ≡ iterate sys fuel cursor c
  unfolding async_iterate iterate
  with_client-async_iterate fuel cursor c =
      rw
        (run_alone-and_then sys (async_search_pages sys fuel cursor c)
          (λ y c. returned (async_iterated sys cursor y) c))
        (iterated_each cursor (run_alone sys (async_search_pages sys fuel cursor c))
          ∙ rw (rejoined-async_search_pages fuel cursor c) refl)

  -- Alone, each asynchronous iterator yields what its synchronous one yields, ends in the same way and
  -- leaves the same client, whatever its arguments and its fuel.
  pub iterators_same :
      (fuel : ℕ) (q : ClassQuery) (query : ReferenceQuery) (cursor : SearchCursor) (c : Client)
      → (rejoined (run_alone sys (async_class_pages sys fuel q c)) ≡ class_pages sys fuel q c)
        × (rejoined (run_alone sys (async_classes sys fuel q c)) ≡ classes sys fuel q c)
        × (rejoined (run_alone sys (async_reference_pages sys fuel query c))
            ≡ reference_pages sys fuel query c)
        × (with_client (run_alone sys (async_iterate sys fuel cursor c))
            ≡ iterate sys fuel cursor c)
  iterators_same fuel q query cursor c = (
    rejoined-async_class_pages fuel q c,
    rejoined-async_classes fuel q c,
    rejoined-async_reference_pages fuel query c,
    with_client-async_iterate fuel cursor c,
  )
