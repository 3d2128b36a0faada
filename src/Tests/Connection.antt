-- ===== src/Tests/Connection.antt =====
-- A client at a concrete URL.
use libjadx.Base.{
  ℕ, true, false, Option, none, some, List, [], ◌∷◌, ◌++◌, codes, ◌≡◌, refl, sym, arith,
}
use libjadx.Errors.{ok}
use libjadx.Connection.{
  SplitUrl, is_http, is_empty, at_api, normalized, new_client, base_url, connect,
}
use libjadx.Connection.Normal.{slashes, at_root, connect_again}

abbrev local_parts : SplitUrl
local_parts = record {
  scheme = codes "http";
  netloc = codes "localhost:8080";
  path = codes "/api/v1";
  query = [];
  fragment = [];
}

-- A splitter that takes every text but the empty one for that URL.
abbrev split_local : List ℕ → Option SplitUrl
split_local [] = none
split_local (c ∷ cs) = some local_parts

split_local_root :
    (u : List ℕ) (p : SplitUrl)
    → split_local u ≡ some p
    → is_http p.scheme ≡ true
    → is_empty p.netloc ≡ false
    → split_local (at_api p) ≡ some (at_root p)
split_local_root [] p h http somewhere = absurd (cc)
split_local_root (c ∷ cs) p h http somewhere =
    let e : local_parts ≡ p = ground arith in rw (sym e) refl

local_base : base_url split_local (codes "http://localhost:8080/") ≡ ok (at_api local_parts)
unfolding base_url normalized
local_base = refl

connect_again_example :
    (base_url split_local (at_api local_parts) ≡ ok (at_api local_parts))
    × (connect split_local (at_api local_parts) (some (at_api local_parts ++ slashes 1))
        ≡ ok (at_api local_parts, new_client))
connect_again_example =
    connect_again split_local split_local_root (codes "http://localhost:8080/") (at_api local_parts)
      1 local_base
