-- ===== src/Tests/Cache.antt =====
-- The revision cache and the preconditions that come from it.
use libjadx.Base.{ℕ, ◌≤◌, String, true, none, some, List, [], ◌∷◌, get_or, ◌≡◌, ◌≢◌, refl}
use libjadx.Wire.Json.{given}
use libjadx.Errors.{ok}
use libjadx.Revisions.{empty, Observable, observe, observe_all, advance}
use libjadx.Revisions.Session.{retired_never_returns, revisions_monotone}
use libjadx.Revisions.History.{view, note_all, note, sessions, view-note_all}
use libjadx.Revisions.Defaults.{largest, defaults, expected-observe_all}
use libjadx.Revisions.Expected.{no_preconditions, expected}
use libjadx.Samples.{codec, cache, cache-IsValid}

abbrev pub seen : String → ℕ → Observable
seen session revision = record {
  revisions = none;
  own = record {
    session_id = some session;
    logical_revision = some revision;
    logical_revision_after = none;
    after_logical_revision = none;
    index_revision = some 9;
    index_revision_after = none;
    after_index_revision = none;
  };
}

abbrev pub a : String
a = "00000000-0000-4000-8000-00000000000a"

abbrev pub b : String
b = "00000000-0000-4000-8000-00000000000b"

-- A late answer of the old session, and a newer one of the current session.
abbrev answers : List Observable
answers = seen b 40 ∷ seen a 8 ∷ seen b 41 ∷ []

view-note_all_example : observe_all answers empty ≡ view (note_all answers [])
view-note_all_example = view-note_all answers

answers_history : (view (note_all answers [])).retired ≡ b ∷ []
unfolding view note_all note sessions
answers_history = refl

retired_never_returns_example : (observe_all answers cache).session_id ≢ some b
retired_never_returns_example = retired_never_returns b answers cache cache-IsValid refl

answers_session : (observe_all answers cache).session_id ≡ some a
unfolding observe_all observe advance
answers_session = refl

revisions_monotone_example :
    (get_or cache.logical_revision 0 ≤ get_or (observe_all answers cache).logical_revision 0)
    × (get_or cache.index_revision 0 ≤ get_or (observe_all answers cache).index_revision 0)
revisions_monotone_example = revisions_monotone a answers cache cache-IsValid refl answers_session

expected-observe_all_example :
    expected codec no_preconditions true (observe_all answers empty)
    ≡ defaults codec true (sessions (note_all answers [])) (note_all answers [])
expected-observe_all_example = expected-observe_all codec true answers

-- The pair that it is.
answers_pair :
    defaults codec true (sessions (note_all answers [])) (note_all answers [])
    ≡ ok (given (record { canonical = a }), given (largest a (note_all answers [])))
unfolding note_all note sessions
answers_pair = refl
