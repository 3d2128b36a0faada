-- ===== src/Connection/Normal.antt =====
-- The base URLs that `base_url` of python/src/libjadx/_common.py gives, and the HTTP clients that fit them.
use libjadx.Base.{
  ℕ, zero, suc, ==_iff, true, false, Option, some, List, [], ◌∷◌, ◌++◌, codes, ◌≡◌, refl, sym, ◌∙◌,
  ap, arith, Bool-cases, Option-cases, inl, inr,
}
use mathlib.Core.List.{append_assoc}
use libjadx.Errors.{ok}
use libjadx.Connection.{
  SplitUrl, is_empty, same_text, strip_slashes, api, is_http, is_refused, is_elsewhere, at_api,
  normalized, new_client, base_url, connect,
}

abbrev pub slashes : ℕ → List ℕ
slashes zero = []
slashes (suc n) = 47 ∷ slashes n

same_text_refl : (a : List ℕ) → same_text a a ≡ true
same_text_refl [] = refl
same_text_refl (c ∷ cs) = rw ((==_iff c c).1 refl, same_text_refl cs) refl

strip_slashes-slashes : (n : ℕ) → strip_slashes (slashes n) ≡ []
strip_slashes-slashes zero = refl
strip_slashes-slashes (suc n) = rw (strip_slashes-slashes n) refl

-- A text behind which something is left when the slashes are stripped keeps what stands before.
strip_slashes-append :
    (a b : List ℕ) (c : ℕ) (cs : List ℕ)
    → strip_slashes b ≡ c ∷ cs
    → strip_slashes (a ++ b) ≡ a ++ (c ∷ cs)
strip_slashes-append [] b c cs h = h
strip_slashes-append (x ∷ []) b c cs h = rw h refl
strip_slashes-append (x ∷ y ∷ ys) b c cs h = rw (strip_slashes-append (y ∷ ys) b c cs h) refl

strip_slashes-api : (n : ℕ) → strip_slashes (api ++ slashes n) ≡ api
strip_slashes-api n = rw (strip_slashes-slashes n) refl

normalized_ok :
    (p : SplitUrl) (v : List ℕ) → normalized p ≡ ok v → (is_refused p ≡ false) × (at_api p ≡ v)
unfolding normalized
normalized_ok p v h = elim (Bool-cases (is_refused p)) [
  | inl refused ↦ absurd (let q = rw refused at h in cc)
  | inr fine ↦ elim (Bool-cases (is_elsewhere p)) [
    | inl elsewhere ↦ absurd (let q = rw (fine, elsewhere) at h in cc)
    | inr here ↦ (fine, let q : ok (at_api p) ≡ ok v = rw (fine, here) at h in ground arith)
  ]
]

-- What is left of a base URL with slashes behind it.
at_api-stripped : (p : SplitUrl) (n : ℕ) → strip_slashes (at_api p ++ slashes n) ≡ at_api p
at_api-stripped p n =
    ap strip_slashes (ap (λ x. x ++ slashes n) (sym front) ∙ append_assoc before api (slashes n))
    ∙ (strip_slashes-append before (api ++ slashes n) _ _ (strip_slashes-api n) ∙ front)
  where
    before : List ℕ
    before = p.scheme ++ (codes "://" ++ p.netloc)

    front : before ++ api ≡ at_api p
    front =
        append_assoc p.scheme (codes "://" ++ p.netloc) api
        ∙ ap (λ x. p.scheme ++ x) (append_assoc (codes "://") p.netloc api)

parts :
    (p : SplitUrl) → is_refused p ≡ false → (is_http p.scheme ≡ true) × (is_empty p.netloc ≡ false)
parts p fine = elim (Bool-cases (is_http p.scheme)) [
  | inl http ↦ elim (Bool-cases (is_empty p.netloc)) [
    | inl nowhere ↦ absurd (let q = rw (http, nowhere) at fine in cc)
    | inr somewhere ↦ (http, somewhere)
  ]
  | inr other ↦ absurd (let q = rw other at fine in cc)
]

-- `urlsplit` of a base URL gives its parts, where the scheme and the place come from `urlsplit`.
abbrev pub at_root : SplitUrl → SplitUrl
at_root p = record p { path = api; query = []; fragment = [] }

normalized-at_root : (p : SplitUrl) → is_refused p ≡ false → normalized (at_root p) ≡ ok (at_api p)
unfolding normalized
normalized-at_root p fine = let (http, somewhere) = parts p fine in rw (http, somewhere) refl

module _ (urlsplit : List ℕ → Option SplitUrl)
    (splits : (u : List ℕ) (p : SplitUrl)
      → urlsplit u ≡ some p
      → is_http p.scheme ≡ true
      → is_empty p.netloc ≡ false
      → urlsplit (at_api p) ≡ some (at_root p)) where
  at_api_of : (u v : List ℕ) → base_url urlsplit u ≡ ok v → (p : SplitUrl) × (at_api p ≡ v)
  unfolding base_url
  at_api_of u v h = elim (Option-cases (urlsplit u)) [
    | inl refused ↦ absurd (let q = rw refused at h in cc)
    | inr (p, is) ↦ (p, (normalized_ok p v (rw is at h)).1)
  ]

  base_url_again : (u v : List ℕ) → base_url urlsplit u ≡ ok v → base_url urlsplit v ≡ ok v
  unfolding base_url
  base_url_again u v h = elim (Option-cases (urlsplit u)) [
    | inl refused ↦ absurd (let q = rw refused at h in cc)
    | inr (p, is) ↦
        let (fine, e) = normalized_ok p v (rw is at h) in
        let (http, somewhere) = parts p fine in
        rw (sym e, splits u p is http somewhere, normalized-at_root p fine) refl
  ]

  -- A base URL that `base_url` gave is its own base URL, and the client that is made of it takes an HTTP
  -- client with that base URL, whatever slashes are behind it, and is open with an empty cache; where
  -- `urlsplit` splits the base URL into the scheme and the place that it found, and /api/v1.
  pub connect_again :
      (u v : List ℕ) (n : ℕ)
      → base_url urlsplit u ≡ ok v
      → (base_url urlsplit v ≡ ok v)
        × (connect urlsplit v (some (v ++ slashes n)) ≡ ok (v, new_client))
  unfolding connect
  connect_again u v n h =
      let again : base_url urlsplit v ≡ ok v = base_url_again u v h in
      let (p, e) = at_api_of u v h in
      let fits : strip_slashes (v ++ slashes n) ≡ v = rw (sym e) (at_api-stripped p n) in
      (again, rw (again, fits, same_text_refl v) refl)
