-- ===== src/Wire/Codec.antt =====
-- The parts of Python's standard library that turn texts into values. The SDK calls them on text
-- from outside; the model takes them as a parameter, whatever they accept.
use libjadx.Base.{ℕ, String, Option, List, str_eq, Bool}
use libjadx.Wire.Json.{Json}

-- `uuid.UUID`, by the text that `str` gives.
pub record Uuid : Type 0 where
  pub canonical : String

-- `datetime.datetime`, by the text that `isoformat` gives.
pub record DateTime : Type 0 where
  pub iso : String

abbrev pub uuid_eq : Uuid → Uuid → Bool
uuid_eq a b = str_eq a.canonical b.canonical

-- `UUID(text)`, `datetime.fromisoformat(text)`, `json.loads(text)` (`none` where they raise), and
-- `str.lower`.
pub record Codec : Type 0 where
  pub uuid_of : String → Option Uuid
  pub datetime_of : String → Option DateTime
  pub loads : List ℕ → Option Json
  pub lower : String → String
