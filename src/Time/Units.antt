-- ===== src/Time/Units.antt =====
-- TimeUnit of include/type.h, and `to_time_unit` and `convert_time` of src/utils/utils.cpp. A text is the
-- list of its bytes. Products wrap around at 64 bits.
pub mod Convert
pub mod Parse
use ticktock.Prelude.{
  ℕ, ◌+◌, ◌*◌, ◌/◌, ◌%◌, ◌^◌, Bool, true, false, ◌&&◌, leb, ◌==◌, if◌then◌else◌, List, [], ◌∷◌,
}

pub data TimeUnit : Type 0 where
  ms sec minute hour day week month year unknown : TimeUnit

-- Multiplication of 64-bit numbers.
infixl 70 ◌*u64◌
abbrev pub ◌*u64◌ : ℕ → ℕ → ℕ
a *u64 b = a * b % 2 ^ 64

-- `case TimeUnit::MS:` with the cases that fall through written out.
from_ms : ℕ → TimeUnit → ℕ
from_ms time year = time / (365 * 24 * 3600000)
from_ms time month = time / (30 * 24 * 3600000)
from_ms time week = time / 7 / 24 / 60 / 60 / 1000
from_ms time day = time / 24 / 60 / 60 / 1000
from_ms time hour = time / 60 / 60 / 1000
from_ms time minute = time / 60 / 1000
from_ms time sec = time / 1000
from_ms time _ = time

from_sec : ℕ → TimeUnit → ℕ
from_sec time year = time / (365 * 24 * 3600)
from_sec time month = time / (30 * 24 * 3600)
from_sec time week = time / 7 / 24 / 60 / 60
from_sec time day = time / 24 / 60 / 60
from_sec time hour = time / 60 / 60
from_sec time minute = time / 60
from_sec time ms = time *u64 1000
from_sec time _ = time

from_minute : ℕ → TimeUnit → ℕ
from_minute time year = time / (365 * 24 * 60)
from_minute time month = time / (30 * 24 * 60)
from_minute time week = time / 7 / 24 / 60
from_minute time day = time / 24 / 60
from_minute time hour = time / 60
from_minute time ms = time *u64 1000 *u64 60
from_minute time sec = time *u64 60
from_minute time _ = time

from_hour : ℕ → TimeUnit → ℕ
from_hour time year = time / (365 * 24)
from_hour time month = time / (30 * 24)
from_hour time week = time / 7 / 24
from_hour time day = time / 24
from_hour time ms = time *u64 1000 *u64 60 *u64 60
from_hour time sec = time *u64 60 *u64 60
from_hour time minute = time *u64 60
from_hour time _ = time

from_day : ℕ → TimeUnit → ℕ
from_day time year = time / 365
from_day time month = time / 30
from_day time week = time / 7
from_day time ms = time *u64 1000 *u64 60 *u64 60 *u64 24
from_day time sec = time *u64 60 *u64 60 *u64 24
from_day time minute = time *u64 60 *u64 24
from_day time hour = time *u64 24
from_day time _ = time

from_week : ℕ → TimeUnit → ℕ
from_week time year = (time *u64 7) / 365
from_week time month = (time *u64 7) / 30
from_week time ms = time *u64 1000 *u64 60 *u64 60 *u64 24 *u64 7
from_week time sec = time *u64 60 *u64 60 *u64 24 *u64 7
from_week time minute = time *u64 60 *u64 24 *u64 7
from_week time hour = time *u64 24 *u64 7
from_week time day = time *u64 7
from_week time _ = time

from_month : ℕ → TimeUnit → ℕ
from_month time year = (time *u64 30) / 365
from_month time ms = time *u64 1000 *u64 60 *u64 60 *u64 24 *u64 30
from_month time sec = time *u64 60 *u64 60 *u64 24 *u64 30
from_month time minute = time *u64 60 *u64 24 *u64 30
from_month time hour = time *u64 24 *u64 30
from_month time day = time *u64 30
from_month time week = (time *u64 30) / 7
from_month time _ = time

from_year : ℕ → TimeUnit → ℕ
from_year time ms = time *u64 1000 *u64 60 *u64 60 *u64 24 *u64 365
from_year time sec = time *u64 60 *u64 60 *u64 24 *u64 365
from_year time minute = time *u64 60 *u64 24 *u64 365
from_year time hour = time *u64 24 *u64 365
from_year time day = time *u64 365
from_year time week = (time *u64 365) / 7
from_year time month = (time *u64 365) / 30
from_year time _ = time

pub convert_time : ℕ → TimeUnit → TimeUnit → ℕ
unfolding from_ms from_sec from_minute from_hour from_day from_week from_month from_year
convert_time time ms to_unit = from_ms time to_unit
convert_time time sec to_unit = from_sec time to_unit
convert_time time minute to_unit = from_minute time to_unit
convert_time time hour to_unit = from_hour time to_unit
convert_time time day to_unit = from_day time to_unit
convert_time time week to_unit = from_week time to_unit
convert_time time month to_unit = from_month time to_unit
convert_time time year to_unit = from_year time to_unit
convert_time time unknown to_unit = time

-- std::tolower of an ASCII character.
abbrev pub tolower : ℕ → ℕ
tolower c = if leb b'A' c && leb c b'Z' then c + 32 else c

-- `case 'm':`, by the character behind the 'm'.
unit_of_m : List ℕ → TimeUnit
unit_of_m [] = minute
unit_of_m (c ∷ _) =
    let ch = tolower c in
    if ch == b'i' then minute else if ch == b'o' then month else if ch == b's' then ms else minute

unit_at : ℕ → List ℕ → TimeUnit
unfolding unit_of_m
unit_at c rest =
    let ch = tolower c in
    if ch == b'd'
    then day
    else if ch == b'h'
    then hour
    else if ch == b'm'
    then unit_of_m rest
    else if ch == b'n'
    then month
    else if ch == b's'
    then sec
    else if ch == b'w'
    then week
    else if ch == b'y'
    then year
    else unknown

-- The loop looks for the first letter from 'd' to 'y'.
pub to_time_unit : List ℕ → TimeUnit
unfolding unit_at
to_time_unit [] = unknown
to_time_unit (c ∷ rest) =
    if leb b'd' (tolower c) && leb (tolower c) b'y' then unit_at c rest else to_time_unit rest
