-- ===== src/Time/Units/Convert.antt =====
-- `convert_time` against the lengths of the units.
use ticktock.Prelude.{ℕ, ◌*◌, ◌/◌, ◌^◌, ◌<◌, ◌≡◌, ◌≢◌, refl, arith}
use ticktock.Time.Units.{
  TimeUnit, ms, sec, minute, hour, day, week, month, year, unknown, convert_time,
}

-- How many milliseconds a unit lasts; a month has 30 days and a year 365.
abbrev pub millis : TimeUnit → ℕ
millis ms = 1
millis sec = 1000
millis minute = 60 * 1000
millis hour = 60 * 60 * 1000
millis day = 24 * 60 * 60 * 1000
millis week = 7 * 24 * 60 * 60 * 1000
millis month = 30 * 24 * 60 * 60 * 1000
millis year = 365 * 24 * 60 * 60 * 1000
millis unknown = 0

from_ms-eq :
    (t : ℕ) (to : TimeUnit)
    → to ≢ unknown
    → t * millis ms < 2 ^ 64
    → convert_time t ms to ≡ t * millis ms / millis to
unfolding convert_time
from_ms-eq t ms k h = omega arith
from_ms-eq t sec k h = omega arith
from_ms-eq t minute k h = omega arith
from_ms-eq t hour k h = omega arith
from_ms-eq t day k h = omega arith
from_ms-eq t week k h = omega arith
from_ms-eq t month k h = omega arith
from_ms-eq t year k h = omega arith
from_ms-eq t unknown k h = absurd (k refl)

from_sec-eq :
    (t : ℕ) (to : TimeUnit)
    → to ≢ unknown
    → t * millis sec < 2 ^ 64
    → convert_time t sec to ≡ t * millis sec / millis to
unfolding convert_time
from_sec-eq t ms k h = omega arith
from_sec-eq t sec k h = omega arith
from_sec-eq t minute k h = omega arith
from_sec-eq t hour k h = omega arith
from_sec-eq t day k h = omega arith
from_sec-eq t week k h = omega arith
from_sec-eq t month k h = omega arith
from_sec-eq t year k h = omega arith
from_sec-eq t unknown k h = absurd (k refl)

from_minute-eq :
    (t : ℕ) (to : TimeUnit)
    → to ≢ unknown
    → t * millis minute < 2 ^ 64
    → convert_time t minute to ≡ t * millis minute / millis to
unfolding convert_time
from_minute-eq t ms k h = omega arith
from_minute-eq t sec k h = omega arith
from_minute-eq t minute k h = omega arith
from_minute-eq t hour k h = omega arith
from_minute-eq t day k h = omega arith
from_minute-eq t week k h = omega arith
from_minute-eq t month k h = omega arith
from_minute-eq t year k h = omega arith
from_minute-eq t unknown k h = absurd (k refl)

from_hour-eq :
    (t : ℕ) (to : TimeUnit)
    → to ≢ unknown
    → t * millis hour < 2 ^ 64
    → convert_time t hour to ≡ t * millis hour / millis to
unfolding convert_time
from_hour-eq t ms k h = omega arith
from_hour-eq t sec k h = omega arith
from_hour-eq t minute k h = omega arith
from_hour-eq t hour k h = omega arith
from_hour-eq t day k h = omega arith
from_hour-eq t week k h = omega arith
from_hour-eq t month k h = omega arith
from_hour-eq t year k h = omega arith
from_hour-eq t unknown k h = absurd (k refl)

from_day-eq :
    (t : ℕ) (to : TimeUnit)
    → to ≢ unknown
    → t * millis day < 2 ^ 64
    → convert_time t day to ≡ t * millis day / millis to
unfolding convert_time
from_day-eq t ms k h = omega arith
from_day-eq t sec k h = omega arith
from_day-eq t minute k h = omega arith
from_day-eq t hour k h = omega arith
from_day-eq t day k h = omega arith
from_day-eq t week k h = omega arith
from_day-eq t month k h = omega arith
from_day-eq t year k h = omega arith
from_day-eq t unknown k h = absurd (k refl)

from_week-eq :
    (t : ℕ) (to : TimeUnit)
    → to ≢ unknown
    → t * millis week < 2 ^ 64
    → convert_time t week to ≡ t * millis week / millis to
unfolding convert_time
from_week-eq t ms k h = omega arith
from_week-eq t sec k h = omega arith
from_week-eq t minute k h = omega arith
from_week-eq t hour k h = omega arith
from_week-eq t day k h = omega arith
from_week-eq t week k h = omega arith
from_week-eq t month k h = omega arith
from_week-eq t year k h = omega arith
from_week-eq t unknown k h = absurd (k refl)

from_month-eq :
    (t : ℕ) (to : TimeUnit)
    → to ≢ unknown
    → t * millis month < 2 ^ 64
    → convert_time t month to ≡ t * millis month / millis to
unfolding convert_time
from_month-eq t ms k h = omega arith
from_month-eq t sec k h = omega arith
from_month-eq t minute k h = omega arith
from_month-eq t hour k h = omega arith
from_month-eq t day k h = omega arith
from_month-eq t week k h = omega arith
from_month-eq t month k h = omega arith
from_month-eq t year k h = omega arith
from_month-eq t unknown k h = absurd (k refl)

from_year-eq :
    (t : ℕ) (to : TimeUnit)
    → to ≢ unknown
    → t * millis year < 2 ^ 64
    → convert_time t year to ≡ t * millis year / millis to
unfolding convert_time
from_year-eq t ms k h = omega arith
from_year-eq t sec k h = omega arith
from_year-eq t minute k h = omega arith
from_year-eq t hour k h = omega arith
from_year-eq t day k h = omega arith
from_year-eq t week k h = omega arith
from_year-eq t month k h = omega arith
from_year-eq t year k h = omega arith
from_year-eq t unknown k h = absurd (k refl)

-- Between any two known units, the 56 proper conversions and the 8 trivial ones, `convert_time` is
-- exact integer conversion by the lengths of the units, rounded down once, as long as the time in
-- milliseconds fits 64 bits.
pub convert_time_lem :
    (t : ℕ) (from to : TimeUnit)
    → from ≢ unknown
    → to ≢ unknown
    → t * millis from < 2 ^ 64
    → convert_time t from to ≡ t * millis from / millis to
convert_time_lem t ms to j k h = from_ms-eq t to k h
convert_time_lem t sec to j k h = from_sec-eq t to k h
convert_time_lem t minute to j k h = from_minute-eq t to k h
convert_time_lem t hour to j k h = from_hour-eq t to k h
convert_time_lem t day to j k h = from_day-eq t to k h
convert_time_lem t week to j k h = from_week-eq t to k h
convert_time_lem t month to j k h = from_month-eq t to k h
convert_time_lem t year to j k h = from_year-eq t to k h
convert_time_lem t unknown to j k h = absurd (j refl)
