-- ===== src/Revisions/History.antt =====
-- What `RevisionCache` of _common.py stands for: the history of the revisions that were observed,
-- the last one first, and the cache as a view of it.
use libjadx.Base.{
  ℕ, String, true, false, Option, none, some, List, [], ◌∷◌, str_eq, member, ◌||◌, ◌≡◌, refl, ap,
  arith, eq_iff, eq_refl, Bool-cases, inl, inr, ◌∙◌, sym, if◌then◌else◌,
}
use libjadx.Revisions.{
  Observable, RevisionCache, empty, attributes, logical_of, index_of, raise_to, advance, advance?,
  observe, observe_all,
}
use libjadx.Revisions.Session.{IsValid, observe-IsValid}

-- A response that names a session and a logical revision.
pub record Fact : Type 0 where
  pub session : String
  pub logical : ℕ
  pub index : Option ℕ

abbrev note? : Option String → Option ℕ → Option ℕ → List Fact → List Fact
note? (some s) (some l) i h = record { session = s; logical = l; index = i } ∷ h
note? _ _ i h = h

unfoldable pub note : Observable → List Fact → List Fact
note r h = let a = attributes r in note? a.session_id (logical_of a) (index_of a) h

unfoldable pub note_all : List Observable → List Fact → List Fact
note_all [] h = h
note_all (r ∷ rs) h = note_all rs (note r h)

-- The sessions of a history in the order in which they first appeared, the newest first.
unfoldable pub sessions : List Fact → List String
sessions [] = []
sessions (f ∷ h) = let seen = sessions h in if member f.session seen then seen else f.session ∷ seen

-- The largest of the numbers that are known, if any is.
unfoldable pub highest : List (Option ℕ) → Option ℕ
highest [] = none
highest (n ∷ ns) = raise_to (highest ns) n

-- What a session's facts say.
unfoldable pub of_session {ℓ} : {A : Type ℓ} → (Fact → A) → String → List Fact → List A
of_session tell s [] = []
of_session tell s (f ∷ h) =
    let rest = of_session tell s h in if str_eq s f.session then tell f ∷ rest else rest

-- The cache that a history stands for: the session that appeared last is the current one, with the
-- largest revisions that were ever observed of it; all the others are retired.
abbrev pub cache_of : List String → List Fact → RevisionCache
cache_of [] h = empty
cache_of (s ∷ retired) h = record {
  retired = retired;
  session_id = some s;
  logical_revision = highest (of_session (λ f. some f.logical) s h);
  index_revision = highest (of_session (λ f. f.index) s h);
}

unfoldable pub view : List Fact → RevisionCache
view h = cache_of (sessions h) h

str_eq_comm : (s t : String) → str_eq s t ≡ false → str_eq t s ≡ false
str_eq_comm s t h = elim (Bool-cases (str_eq t s)) [
  | inl same ↦ let q : t ≡ s = (eq_iff t s).0 same in cc
  | inr other ↦ other
]

-- A session that has appeared is none that has not.
other_of_seen :
    (s t : String) (seen : List String)
    → member s seen ≡ false
    → member t seen ≡ true
    → str_eq s t ≡ false
other_of_seen s t seen out has = elim (Bool-cases (str_eq s t)) [
  | inl same ↦ let q : s ≡ t = (eq_iff s t).0 same in cc
  | inr other ↦ other
]

module _ (f : Fact) (h : List Fact) where
  sessions_old : member f.session (sessions h) ≡ true → sessions (f ∷ h) ≡ sessions h
  unfolding sessions
  sessions_old old = rw old

  sessions_new : member f.session (sessions h) ≡ false → sessions (f ∷ h) ≡ f.session ∷ sessions h
  unfolding sessions
  sessions_new new = rw new

  module _ {ℓ} {A : Type ℓ} (tell : Fact → A) (s : String) where
    of_session_same :
        str_eq s f.session ≡ true → of_session tell s (f ∷ h) ≡ tell f ∷ of_session tell s h
    unfolding of_session
    of_session_same same = rw same

    of_session_other : str_eq s f.session ≡ false → of_session tell s (f ∷ h) ≡ of_session tell s h
    unfolding of_session
    of_session_other other = rw other

-- A session that has not appeared has no facts.
none_of_session {ℓ} :
    {A : Type ℓ} (tell : Fact → A) (s : String) (h : List Fact)
    → member s (sessions h) ≡ false
    → of_session tell s h ≡ []
unfolding of_session
none_of_session tell s [] k = refl
none_of_session tell s (f ∷ h) k = elim (Bool-cases (member f.session (sessions h))) [
  | inl old ↦
      let k' : member s (sessions h) ≡ false = sym (ap (member s) (sessions_old f h old)) ∙ k in
      of_session_other f h tell s (other_of_seen s f.session (sessions h) k' old)
      ∙ none_of_session tell s h k'
  | inr new ↦
      let k' : (str_eq f.session s || member s (sessions h)) ≡ false =
        sym (ap (member s) (sessions_new f h new)) ∙ k in
      of_session_other f h tell s (str_eq_comm f.session s (ground arith))
      ∙ none_of_session tell s h (ground arith)
]

highest_one : (i : Option ℕ) → highest (i ∷ []) ≡ i
unfolding highest
highest_one none = refl
highest_one (some i) = ground arith

module _ (f : Fact) (h : List Fact) where
  -- The view of a longer history, for the sessions that it has.
  view_of : (seen : List String) → sessions (f ∷ h) ≡ seen → view (f ∷ h) ≡ cache_of seen (f ∷ h)
  unfolding view
  view_of seen e = ap (λ xs. cache_of xs (f ∷ h)) e

  view_new :
      member f.session (sessions h) ≡ false
      → view (f ∷ h) ≡ record {
        retired = sessions h;
        session_id = some f.session;
        logical_revision = some f.logical;
        index_revision = f.index;
      }
  view_new new =
      view_of (f.session ∷ sessions h) (sessions_new f h new)
      ∙ rw
          (
            of_session_same f h (λ g. some g.logical) f.session (eq_refl f.session),
            of_session_same f h (λ g. g.index) f.session (eq_refl f.session),
            none_of_session (λ g. some g.logical) f.session h new,
            none_of_session (λ g. g.index) f.session h new,
            highest_one (some f.logical),
            highest_one f.index,
          )
          refl

advance-cache_of :
    (f : Fact) (h : List Fact) (seen : List String)
    → sessions h ≡ seen
    → IsValid (cache_of seen h)
    → advance f.session f.logical f.index (cache_of seen h) ≡ view (f ∷ h)
unfolding advance highest
advance-cache_of f h [] e v = sym (view_new f h (rw e refl) ∙ rw e refl)
advance-cache_of f h (t ∷ old) e v = elim (Bool-cases (member f.session old)) [
  | inl gone ↦
      let has : member f.session (sessions h) ≡ true = rw (e, gone) (ground arith) in
      let apart : str_eq t f.session ≡ false =
        other_of_seen t f.session old (v.current t refl) gone in
      rw gone (
        sym (
          view_of f h (t ∷ old) (sessions_old f h has ∙ e)
          ∙ rw
              (
                of_session_other f h (λ g. some g.logical) t apart,
                of_session_other f h (λ g. g.index) t apart,
              )
              refl))
  | inr new ↦ elim (Bool-cases (str_eq t f.session)) [
    | inl same ↦
        let q : t ≡ f.session = (eq_iff t f.session).0 same in
        let has : member f.session (sessions h) ≡ true = rw (e, sym q, eq_refl t) refl in
        rw (new, same)
          (sym (
            view_of f h (t ∷ old) (sessions_old f h has ∙ e)
            ∙ rw
                (
                  of_session_same f h (λ g. some g.logical) t same,
                  of_session_same f h (λ g. g.index) t same,
                )
                refl))
    | inr other ↦
        let out : member f.session (sessions h) ≡ false = rw (e, other, new) refl in
        rw (new, other) (sym (view_new f h out ∙ rw e refl))
  ]
]

view-note :
    (r : Observable) (h : List Fact) → IsValid (view h) → observe r (view h) ≡ view (note r h)
unfolding observe note view
view-note r h v = go _ _ _
  where
    go : (s : Option String) (l i : Option ℕ) → advance? s l i (view h) ≡ view (note? s l i h)
    go (some s) (some l) i =
        advance-cache_of (record { session = s; logical = l; index = i }) h (sessions h) refl v
    go (some s) none i = refl
    go none l i = refl

view-note_all_from :
    (rs : List Observable) (h : List Fact)
    → IsValid (view h)
    → observe_all rs (view h) ≡ view (note_all rs h)
unfolding observe_all note_all
view-note_all_from [] h v = refl
view-note_all_from (r ∷ rs) h v =
    let e = view-note r h v in
    let w : IsValid (view (note r h)) = rw (sym e) (observe-IsValid r (view h) v) in
    rw e (view-note_all_from rs (note r h) w)

pub empty-IsValid : IsValid empty
empty-IsValid = record { current = λ s e. cc; together = λ s e. cc; alone = λ _. refl }

-- A cache that starts empty and observes some responses is the view of their history: the retired
-- sessions and the current one are those of the history in the order in which they first appeared,
-- and the revisions are the largest ones ever observed of the current session, however the responses
-- of the sessions were interleaved.
pub view-note_all : (rs : List Observable) → observe_all rs empty ≡ view (note_all rs [])
unfolding view sessions
view-note_all rs = view-note_all_from rs [] empty-IsValid
