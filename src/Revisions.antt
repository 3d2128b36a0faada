-- ===== src/Revisions.antt =====
-- `RevisionCache` of python/src/libjadx/_common.py: the session and the revisions that the SDK has
-- seen, which it sends as preconditions. `None` is `none`; a set of texts is a list without order.
-- Revisions are the nonnegative integers of the contract (openapi/openapi.yaml, minimum 0).
pub mod Session
pub mod Expected
pub mod History
pub mod Defaults
use libjadx.Base.{
  ℕ, max, String, Bool, true, false, Option, none, some, List, [], ◌∷◌, str_eq, member, get_or,
  if◌then◌else◌,
}

-- What `getattr` finds on a response, by attribute name.
pub record Attributes : Type 0 where
  pub session_id : Option String
  pub logical_revision : Option ℕ
  pub logical_revision_after : Option ℕ
  pub after_logical_revision : Option ℕ
  pub index_revision : Option ℕ
  pub index_revision_after : Option ℕ
  pub after_index_revision : Option ℕ

-- A response: its attribute `revisions`, if it has one, and its own attributes.
pub record Observable : Type 0 where
  pub revisions : Option Attributes
  pub own : Attributes

pub record RevisionCache : Type 0 where
  pub retired : List String
  pub session_id : Option String
  pub logical_revision : Option ℕ
  pub index_revision : Option ℕ

abbrev pub empty : RevisionCache
empty = record { retired = []; session_id = none; logical_revision = none; index_revision = none }

-- `if x is None: x = y`
abbrev pub or_else {ℓ} : {A : Type ℓ} → Option A → Option A → Option A
or_else (some a) y = some a
or_else none y = y

abbrev pub attributes : Observable → Attributes
attributes r = get_or r.revisions r.own

abbrev pub logical_of : Attributes → Option ℕ
logical_of a =
    or_else a.logical_revision (or_else a.logical_revision_after a.after_logical_revision)

abbrev pub index_of : Attributes → Option ℕ
index_of a = or_else a.index_revision (or_else a.index_revision_after a.after_index_revision)

-- `self.session_id == s`, false on `None`
abbrev pub is_session : Option String → String → Bool
is_session none s = false
is_session (some t) s = str_eq t s

-- `if self.session_id is not None: self._retired.add(self.session_id)`
abbrev pub retire : Option String → List String → List String
retire none r = r
retire (some s) r = s ∷ r

-- `max(self.index_revision or 0, index)` where `index` is not `None`
abbrev pub raise_to : Option ℕ → Option ℕ → Option ℕ
raise_to old none = old
raise_to old (some i) = some (max (get_or old 0) i)

-- The part of `observe` under the lock.
unfoldable pub advance : String → ℕ → Option ℕ → RevisionCache → RevisionCache
advance session logical index c =
    if member session c.retired
    then c
    else if is_session c.session_id session
    then record c {
      logical_revision = some (max (get_or c.logical_revision 0) logical);
      index_revision = raise_to c.index_revision index;
    }
    else record {
      retired = retire c.session_id c.retired;
      session_id = some session;
      logical_revision = some logical;
      index_revision = index;
    }

abbrev pub advance? : Option String → Option ℕ → Option ℕ → RevisionCache → RevisionCache
advance? (some session) (some logical) index c = advance session logical index c
advance? _ _ index c = c

unfoldable pub observe : Observable → RevisionCache → RevisionCache
observe r c = let a = attributes r in advance? a.session_id (logical_of a) (index_of a) c

unfoldable pub observe_all : List Observable → RevisionCache → RevisionCache
observe_all [] c = c
observe_all (r ∷ rs) c = observe_all rs (observe r c)
