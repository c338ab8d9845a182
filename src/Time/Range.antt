-- ===== src/Time/Range.antt =====
-- TimeRange of include/range.h and src/utils/range.cpp: the timestamps from `from` up to, not
-- including, `to`. Differences of timestamps wrap around at 64 bits.
use ticktock.Prelude.{
  ℕ, ◌+◌, ◌-◌, ◌/◌, ◌%◌, ◌^◌, ◌≤◌, ◌<◌, ◌≡◌, ◌↔◌, ℤ, pos, negsuc, Bool, true, ◌&&◌, ltb, leb, ◌==◌,
  min, max, if◌then◌else◌, arith, List, [], ◌∷◌,
}
use ticktock.Time.Resolution.{to_sec}

pub record TimeRange : Type 0 where
  pub from : ℕ
  pub to : ℕ

-- TimeRange::MIN and TimeRange::MAX.
abbrev pub min_range : TimeRange
min_range = record { from = 2 ^ 64 - 1; to = 0 }

abbrev pub max_range : TimeRange
max_range = record { from = 0; to = 2 ^ 64 - 1 }

pub merge : TimeRange → TimeRange → TimeRange
merge r other = record { from = min r.from other.from; to = max r.to other.to }

pub intersect : TimeRange → TimeRange → TimeRange
intersect r other = record { from = max r.from other.from; to = min r.to other.to }

-- `tstamp++` wraps around.
pub add_time : TimeRange → ℕ → TimeRange
add_time r tstamp =
    let from = if ltb tstamp r.from then tstamp else r.from in
    let next = (tstamp + 1) % 2 ^ 64 in
    record { from = from; to = if ltb r.to next then next else r.to }

-- 0 in the range, -1 left of it, 1 right of it.
pub in_range : TimeRange → ℕ → ℤ
in_range r tstamp = if ltb tstamp r.from then negsuc 0 else if leb r.to tstamp then pos 1 else pos 0

pub has_intersection : TimeRange → TimeRange → Bool
has_intersection r range = ltb r.from range.to && ltb range.from r.to

pub contains : TimeRange → TimeRange → Bool
contains r range = leb r.from range.from && leb range.to r.to

pub equals : TimeRange → TimeRange → Bool
equals r range = r.from == range.from && range.to == r.to

pub get_middle : TimeRange → ℕ
get_middle r = (r.from + (r.to + 2 ^ 64 - r.from) % 2 ^ 64 / 2) % 2 ^ 64

unfoldable pub get_duration : TimeRange → ℕ
get_duration r = (r.to + 2 ^ 64 - r.from) % 2 ^ 64

pub get_duration_sec : TimeRange → ℕ
unfolding to_sec
get_duration_sec r = (to_sec r.to + 2 ^ 64 - to_sec r.from) % 2 ^ 64

pub older_than_sec : TimeRange → ℕ → Bool
unfolding to_sec
older_than_sec r tstamp = leb (to_sec r.to) tstamp

-- The set of timestamps of a range.
abbrev pub Within : ℕ → TimeRange → Type 0
Within t r = (r.from ≤ t) × (t < r.to)

-- `in_range` tells on which side of the range a timestamp of a proper range lies.
pub in_range_lem :
    (r : TimeRange) (t : ℕ)
    → r.from ≤ r.to
    → ((in_range r t ≡ pos 0) ↔ Within t r)
      × ((in_range r t ≡ negsuc 0) ↔ (t < r.from))
      × ((in_range r t ≡ pos 1) ↔ (r.to ≤ t))
unfolding in_range
in_range_lem r t h = ground arith

-- The intersection holds the timestamps of both ranges, and no others.
pub intersect-Within :
    (r s : TimeRange) (t : ℕ) → Within t (intersect r s) ↔ (Within t r × Within t s)
unfolding intersect
intersect-Within r s t = (λ h. omega arith, λ h. omega arith)

-- Two ranges that each hold a timestamp have one in common exactly when `has_intersection` says so.
pub has_intersection_lem :
    (r s : TimeRange)
    → r.from < r.to
    → s.from < s.to
    → (has_intersection r s ≡ true) ↔ ((t : ℕ) × Within t (intersect r s))
unfolding has_intersection intersect
has_intersection_lem r s hr hs = (λ h. (max r.from s.from, ground arith), λ w. ground (arith, w.1))

-- `merge` is the least range around both: it contains each of them, and another range contains it
-- exactly when that range contains both.
pub merge-contains :
    (r s u : TimeRange)
    → (contains (merge r s) r ≡ true)
      × (contains (merge r s) s ≡ true)
      × (contains u (merge r s) ≡ (contains u r && contains u s))
unfolding merge contains
merge-contains r s u = (ground arith, ground arith, ground arith)

-- A range that grows by the timestamps of a list.
abbrev pub add_times : TimeRange → List ℕ → TimeRange
add_times r [] = r
add_times r (t ∷ ts) = add_times (add_time r t) ts

abbrev pub AllWithin : List ℕ → TimeRange → Type 0
AllWithin [] r = Unit {0}
AllWithin (t ∷ ts) r = Within t r × AllWithin ts r

-- Each timestamp is one that `tstamp++` does not wrap.
abbrev pub AllBelow : List ℕ → Type 0
AllBelow [] = Unit {0}
AllBelow (t ∷ ts) = (t < 2 ^ 64 - 1) × AllBelow ts

add_times-contains : (r : TimeRange) (ts : List ℕ) (t : ℕ) → Within t r → Within t (add_times r ts)
unfolding add_time
add_times-contains r [] t h = h
add_times-contains r (s ∷ ts) t h = add_times-contains (add_time r s) ts t (ground arith)

-- Every timestamp that was added to a range, and that the increment does not wrap, lies in the
-- range in the end.
pub add_times-AllWithin :
    (r : TimeRange) (ts : List ℕ) → AllBelow ts → AllWithin ts (add_times r ts)
unfolding add_time
add_times-AllWithin r [] h = tt
add_times-AllWithin r (t ∷ ts) (lt, h) =
    (add_times-contains (add_time r t) ts t (ground arith), add_times-AllWithin (add_time r t) ts h)

-- The middle of a range of 64-bit timestamps lies in it, and halves it.
pub get_middle_lem :
    (r : TimeRange)
    → r.from ≤ r.to
    → r.to < 2 ^ 64
    → (r.from ≤ get_middle r)
      × (get_middle r ≤ r.to)
      × (get_middle r - r.from ≤ r.to - get_middle r)
      × (r.to - get_middle r ≤ get_middle r - r.from + 1)
unfolding get_middle
get_middle_lem r h k = ground arith
