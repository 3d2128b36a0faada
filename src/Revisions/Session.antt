-- ===== src/Revisions/Session.antt =====
-- `RevisionCache.observe` of _common.py over a run of observations: sessions and revisions.
use libjadx.Base.{
  ℕ, ◌≤◌, String, true, false, Option, none, some, List, [], ◌∷◌, member, get_or, ◌≡◌, ◌≢◌, refl,
  arith, eq_iff, Bool-cases, inl, inr, ◌∙◌,
}
use libjadx.Revisions.{
  Observable, RevisionCache, is_session, retire, raise_to, advance, advance?, observe, observe_all,
}

-- The current session has not been retired, and it comes with a logical revision.
pub record IsValid (c : RevisionCache) : Type 0 where
  pub current : (s : String) → c.session_id ≡ some s → member s c.retired ≡ false
  pub together : (s : String) → c.session_id ≡ some s → c.logical_revision ≢ none
  pub alone : c.session_id ≡ none → c.logical_revision ≡ none

member-retire :
    (s : String) (o : Option String) (r : List String)
    → member s r ≡ false
    → is_session o s ≡ false
    → member s (retire o r) ≡ false
member-retire s none r h k = h
member-retire s (some t) r h k = rw (k, h)

member-retire_old :
    (s : String) (o : Option String) (r : List String)
    → member s r ≡ true
    → member s (retire o r) ≡ true
member-retire_old s none r h = h
member-retire_old s (some t) r h = ground arith

advance-IsValid :
    (s : String) (l : ℕ) (i : Option ℕ) (c : RevisionCache) → IsValid c → IsValid (advance s l i c)
unfolding advance
advance-IsValid s l i c v = elim (Bool-cases (member s c.retired)) [
  | inl old ↦ rw old v
  | inr new ↦ elim (Bool-cases (is_session c.session_id s)) [
    | inl same ↦
        rw (new, same)
          (record { current = v.current; together = λ t e. cc; alone = λ e. ground (arith) })
    | inr other ↦
        rw (new, other)
          (record {
            current = λ t e.
                let q : t ≡ s = cc in rw q (member-retire s c.session_id c.retired new other);
            together = λ t e. cc;
            alone = λ e. cc;
          })
  ]
]

-- What one step does to the session: it keeps it, with revisions that do not fall, or retires it.
pub data Moves (c d : RevisionCache) : Type 0 where
  stays :
      d.session_id ≡ c.session_id
      → d.retired ≡ c.retired
      → get_or c.logical_revision 0 ≤ get_or d.logical_revision 0
      → get_or c.index_revision 0 ≤ get_or d.index_revision 0
      → Moves c d
  leaves :
      d.retired ≡ retire c.session_id c.retired
      → ((s : String) → c.session_id ≡ some s → d.session_id ≢ some s)
      → Moves c d

raise_to-le : (old i : Option ℕ) → get_or old 0 ≤ get_or (raise_to old i) 0
raise_to-le old none = omega arith
raise_to-le old (some i) = omega arith

ne_of_other :
    (o : Option String) (s t : String) → is_session o s ≡ false → o ≡ some t → some s ≢ some t
ne_of_other none s t h e k = cc
ne_of_other (some u) s t h e k = ground (arith, eq_iff u s)

advance-Moves : (s : String) (l : ℕ) (i : Option ℕ) (c : RevisionCache) → Moves c (advance s l i c)
unfolding advance
advance-Moves s l i c = elim (Bool-cases (member s c.retired)) [
  | inl old ↦ rw old (stays refl refl (omega arith) (omega arith))
  | inr new ↦ elim (Bool-cases (is_session c.session_id s)) [
    | inl same ↦ rw (new, same) (stays refl refl (omega arith) (raise_to-le c.index_revision i))
    | inr other ↦ rw (new, other) (leaves refl (λ t e. ne_of_other c.session_id s t other e))
  ]
]

pub Moves-observe : (r : Observable) (c : RevisionCache) → Moves c (observe r c)
unfolding observe
Moves-observe r c = Moves-advance? _ _ _
  where
    Moves-advance? : (s : Option String) (l i : Option ℕ) → Moves c (advance? s l i c)
    Moves-advance? (some s) (some l) i = advance-Moves s l i c
    Moves-advance? (some s) none i = stays refl refl (omega arith) (omega arith)
    Moves-advance? none l i = stays refl refl (omega arith) (omega arith)

pub observe-IsValid : (r : Observable) (c : RevisionCache) → IsValid c → IsValid (observe r c)
unfolding observe
observe-IsValid r c v = advance?-IsValid _ _ _
  where
    advance?-IsValid : (s : Option String) (l i : Option ℕ) → IsValid (advance? s l i c)
    advance?-IsValid (some s) (some l) i = advance-IsValid s l i c v
    advance?-IsValid (some s) none i = v
    advance?-IsValid none l i = v

-- Whatever is observed, a valid cache stays valid: its session is not among the retired ones, and
-- the logical revision is known exactly when the session is.
pub observe_all-IsValid :
    (rs : List Observable) (c : RevisionCache) → IsValid c → IsValid (observe_all rs c)
unfolding observe_all
observe_all-IsValid [] c v = v
observe_all-IsValid (r ∷ rs) c v = observe_all-IsValid rs (observe r c) (observe-IsValid r c v)

retired-observe_of :
    (s : String) {c d : RevisionCache}
    → Moves c d
    → member s c.retired ≡ true
    → member s d.retired ≡ true
retired-observe_of s (stays _ same _ _) h = rw same h
retired-observe_of s {c} (leaves more _) h = rw more (member-retire_old s c.session_id c.retired h)

-- From a valid cache, a session that was retired is never the current one again, whatever is observed
-- afterwards.
pub retired_never_returns :
    (s : String) (rs : List Observable) (c : RevisionCache)
    → IsValid c
    → member s c.retired ≡ true
    → (observe_all rs c).session_id ≢ some s
unfolding observe_all
retired_never_returns s [] c v h = λ e. cc (v.current s e)
retired_never_returns s (r ∷ rs) c v h =
    retired_never_returns s rs (observe r c) (observe-IsValid r c v)
      (retired-observe_of s (Moves-observe r c) h)

abbrev Grows : RevisionCache → RevisionCache → Type 0
Grows c d =
    (get_or c.logical_revision 0 ≤ get_or d.logical_revision 0)
    × (get_or c.index_revision 0 ≤ get_or d.index_revision 0)

member-retire_self :
    (s : String) (o : Option String) (r : List String) → o ≡ some s → member s (retire o r) ≡ true
member-retire_self s none r e = cc
member-retire_self s (some t) r e = ground (arith, eq_iff t s)

-- One observation, then a run that grows if it starts in the session `s`.
Grows-step :
    (s : String) (rs : List Observable) {c d : RevisionCache}
    → IsValid d
    → c.session_id ≡ some s
    → (observe_all rs d).session_id ≡ some s
    → (d.session_id ≡ some s → Grows d (observe_all rs d))
    → Moves c d
    → Grows c (observe_all rs d)
Grows-step s rs v at end_at ih (stays same _ l i) =
    let (l', i') = ih (same ∙ at) in (omega arith, omega arith)
Grows-step s rs {c} {d} v at end_at ih (leaves more away) = absurd (
    retired_never_returns s rs d v (rw more (member-retire_self s c.session_id c.retired at))
      end_at)

-- If the session at the end of a run of observations from a valid cache is the session at its start,
-- neither revision has fallen in between (a revision not yet known counts as 0).
pub revisions_monotone :
    (s : String) (rs : List Observable) (c : RevisionCache)
    → IsValid c
    → c.session_id ≡ some s
    → (observe_all rs c).session_id ≡ some s
    → (get_or c.logical_revision 0 ≤ get_or (observe_all rs c).logical_revision 0)
      × (get_or c.index_revision 0 ≤ get_or (observe_all rs c).index_revision 0)
unfolding observe_all
revisions_monotone s [] c v at end_at = (omega arith, omega arith)
revisions_monotone s (r ∷ rs) c v at end_at =
    let w = observe-IsValid r c v in
    Grows-step s rs w at end_at (λ at'. revisions_monotone s rs (observe r c) w at' end_at)
      (Moves-observe r c)
