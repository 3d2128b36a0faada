-- ===== src/Connection.antt =====
-- The construction of a client: `base_url` and `connection` of python/src/libjadx/_common.py and the
-- constructor of `Client` in client.py. Texts are lists of code points; `urllib.parse.urlsplit`, which may
-- raise `ValueError`, is an argument.
pub mod Normal
use libjadx.Base.{
  ℕ, zero, suc, ◌==◌, Bool, true, false, not, ◌&&◌, ◌||◌, Option, none, some, List, [], ◌∷◌, ◌++◌,
  codes, if◌then◌else◌,
}
use libjadx.Errors.{Result, ok, raise, value_error, or_raise, ◌>>=◌}
use libjadx.Revisions.{RevisionCache}
use libjadx.Client.{Client}

pub record SplitUrl : Type 0 where
  pub scheme : List ℕ
  pub netloc : List ℕ
  pub path : List ℕ
  pub query : List ℕ
  pub fragment : List ℕ

abbrev pub is_empty : List ℕ → Bool
is_empty [] = true
is_empty (c ∷ cs) = false

abbrev pub same_text : List ℕ → List ℕ → Bool
same_text [] [] = true
same_text (a ∷ xs) (b ∷ ys) = (a == b) && same_text xs ys
same_text _ _ = false

-- `text.rstrip("/")`
abbrev unless_slash : ℕ → List ℕ → List ℕ
unless_slash c [] = if c == 47 then [] else c ∷ []
unless_slash c (d ∷ ds) = c ∷ d ∷ ds

abbrev pub strip_slashes : List ℕ → List ℕ
strip_slashes [] = []
strip_slashes (c ∷ cs) = unless_slash c (strip_slashes cs)

abbrev pub api : List ℕ
api = codes "/api/v1"

abbrev pub is_http : List ℕ → Bool
is_http scheme = same_text scheme (codes "http") || same_text scheme (codes "https")

abbrev pub is_refused : SplitUrl → Bool
is_refused p =
    not (is_http p.scheme)
    || is_empty p.netloc
    || not (is_empty p.query)
    || not (is_empty p.fragment)

abbrev pub is_elsewhere : SplitUrl → Bool
is_elsewhere p = let path = strip_slashes p.path in not (is_empty path || same_text path api)

abbrev pub at_api : SplitUrl → List ℕ
at_api p = p.scheme ++ (codes "://" ++ (p.netloc ++ api))

unfoldable pub normalized : SplitUrl → Result (List ℕ)
normalized p =
    if is_refused p
    then raise (value_error "Expected HTTP service origin or /api/v1 URL")
    else if is_elsewhere p
    then raise (value_error "Expected service origin or /api/v1 URL")
    else ok (at_api p)

abbrev pub new_client : Client
new_client = record {
  closed = false;
  revisions = record {
    retired = [];
    session_id = none;
    logical_revision = none;
    index_revision = none;
  };
  sent = [];
  readings = 0;
  slept = 0;
}

module _ (urlsplit : List ℕ → Option SplitUrl) where
  unfoldable pub base_url : List ℕ → Result (List ℕ)
  base_url url = or_raise (urlsplit url) (value_error "Invalid URL") >>= normalized

  -- The base URL to which requests go, and the client; `injected` is the base URL of the HTTP client that
  -- the caller supplies.
  unfoldable pub connect : List ℕ → Option (List ℕ) → Result (List ℕ × Client)
  connect url none = base_url url >>= λ base. ok (base, new_client)
  connect url (some injected) = base_url url >>= λ base.
      if not (same_text (strip_slashes injected) base)
      then raise (value_error "Injected HTTP client's base_url must match normalized /api/v1 URL")
      else ok (base, new_client)
