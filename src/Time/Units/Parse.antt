-- ===== src/Time/Units/Parse.antt =====
-- `to_time_unit` reads the unit behind a number.
use ticktock.Prelude.{ℕ, ◌≤◌, List, [], ◌∷◌}
use ticktock.Time.Units.{TimeUnit, ms, sec, minute, hour, day, week, month, year, unknown}

-- The decimal digits.
abbrev pub IsDigits : List ℕ → Type 0
IsDigits [] = Unit {0}
IsDigits (c ∷ cs) = (b'0' ≤ c) × (c ≤ b'9') × IsDigits cs

-- The string representations of include/type.h.
abbrev pub unit_name : TimeUnit → List ℕ
unit_name ms = b'm' ∷ b's' ∷ []
unit_name sec = b's' ∷ []
unit_name minute = b'm' ∷ []
unit_name hour = b'h' ∷ []
unit_name day = b'd' ∷ []
unit_name week = b'w' ∷ []
unit_name month = b'n' ∷ []
unit_name year = b'y' ∷ []
unit_name unknown = []
