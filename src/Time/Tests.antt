-- ===== src/Time/Tests.antt =====
-- The theorems about time at inputs that they apply to.
use ticktock.Prelude.{ℕ, ◌≡◌, ◌↔◌, ◌&&◌, arith, true, false}
use ticktock.Time.Units.{week, sec, convert_time}
use ticktock.Time.Units.Convert.{convert_time_lem}
use ticktock.Time.Resolution.{
  is_sec, validate_resolution, validate_resolution_lem, validate_resolution-is_sec,
}
use ticktock.Time.Range.{
  TimeRange, merge, intersect, has_intersection, contains, Within, min_range, intersect-Within,
  has_intersection_lem, merge-contains,
}

convert_time_lem_example : convert_time 3 week sec ≡ 1814400
convert_time_lem_example = convert_time_lem 3 week sec (λ e. cc) (λ e. cc) (omega arith)

validate_resolution_lem_example :
    (validate_resolution true 1633418206 ≡ 1633418206000)
    × (validate_resolution false 1633418206 ≡ 1633418206)
validate_resolution_lem_example = validate_resolution_lem 1633418206

validate_resolution-is_sec_example : is_sec (validate_resolution false 1633418206123456789) ≡ true
validate_resolution-is_sec_example = validate_resolution-is_sec 1633418206123456789 (omega arith)

abbrev morning : TimeRange
morning = record { from = 100; to = 200 }

abbrev noon : TimeRange
noon = record { from = 150; to = 260 }

intersect-Within_example :
    Within 170 (intersect morning noon) ↔ (Within 170 morning × Within 170 noon)
intersect-Within_example = intersect-Within morning noon 170

has_intersection_lem_example :
    (has_intersection morning noon ≡ true) ↔ ((t : ℕ) × Within t (intersect morning noon))
has_intersection_lem_example = has_intersection_lem morning noon (omega arith) (omega arith)

merge-contains_example :
    (contains (merge morning noon) morning ≡ true)
    × (contains (merge morning noon) noon ≡ true)
    × (contains min_range (merge morning noon)
        ≡ (contains min_range morning && contains min_range noon))
merge-contains_example = merge-contains morning noon min_range
