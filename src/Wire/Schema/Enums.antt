-- ===== src/Wire/Schema/Enums.antt =====
-- Enumerations of python/src/libjadx/_generated/models that the classes of several files use.
use libjadx.Base.{String, List, [], ◌∷◌}

abbrev pub source_availability_values : List String
source_availability_values = "EXACT" ∷ "PARTIAL" ∷ "UNAVAILABLE" ∷ "UNKNOWN" ∷ []
