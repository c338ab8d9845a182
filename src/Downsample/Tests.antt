-- ===== src/Downsample/Tests.antt =====
-- Runs of the downsamplers over numbers in place of doubles.
use ticktock.Prelude.{inl, inr, List, ℕ, ◌+◌, ◌≡◌, refl, arith, true, false, ltb, [], ◌∷◌}
use ticktock.Time.Range.{TimeRange, get_duration}
use ticktock.Time.Resolution.{validate_resolution, to_sec}
use ticktock.Downsample.{
  Numbers, Config, DataPoints, is_none, initialize, resolution, count, max_of, sum, dfp_none,
  dfp_zero, invalid_timestamp, fill_rest, downsample,
}
use ticktock.Downsample.Reference.{intervals, results}
use ticktock.Downsample.Intervals.{AllBefore, downsample-results}
use ticktock.Downsample.Slots.{IsExact}
use ticktock.Downsample.Rollup.{
  RollupEntry, count_rolled, downsample_entries, entry_points, in_place, downsample_entries-results,
}
use ticktock.Downsample.Query.{IsValid, Ordered, initialize-IsValid}
use ticktock.Downsample.NoGaps.{HasData, Covers, downsample-NoGaps}

abbrev numbers : Numbers
numbers = record {
  Double = ℕ;
  zero_value = 0;
  one = 1;
  nan = 999;
  plus = λ x y. x + y;
  less = ltb;
  of_unsigned = λ n. n;
}

abbrev hour : TimeRange
hour = record { from = 1005; to = 1060 }

abbrev by_ten : Config
unfolding initialize
by_ten = initialize false 10 dfp_zero hour false

abbrev dps : DataPoints numbers
dps = (1003, 9) ∷ (1012, 5) ∷ (1017, 7) ∷ (1030, 2) ∷ (1039, 1) ∷ []

sums :
    downsample numbers sum by_ten dps
    ≡ (1010, 12) ∷ (1020, 0) ∷ (1030, 3) ∷ (1040, 0) ∷ (1050, 0) ∷ (1060, 0) ∷ []
unfolding downsample initialize to_sec
sums = refl

maxima :
    downsample numbers max_of (initialize false 10 dfp_none hour false) dps
    ≡ (1010, 7) ∷ (1030, 2) ∷ []
unfolding downsample initialize to_sec
maxima = refl

counts : downsample numbers count (initialize true 0 dfp_zero hour false) dps ≡ (1005, 5) ∷ []
unfolding downsample initialize to_sec get_duration
counts = refl

by_ten-IsValid : IsValid by_ten
unfolding by_ten initialize
by_ten-IsValid = initialize-IsValid false 10 dfp_zero hour false (omega arith) (omega arith)

by_ten-IsExact : IsExact by_ten
unfolding resolution by_ten initialize to_sec
by_ten-IsExact t after before = ground arith

dps-Ordered : Ordered numbers by_ten 0 dps
unfolding Ordered by_ten initialize
dps-Ordered = omega arith

dps-AllBefore : AllBefore numbers invalid_timestamp dps
unfolding AllBefore
dps-AllBefore = omega arith

by_ten-fills : is_none by_ten.fill ≡ false
unfolding by_ten initialize
by_ten-fills = refl

downsample-results_example :
    downsample numbers sum by_ten dps
    ≡ fill_rest numbers by_ten
        (results numbers sum by_ten invalid_timestamp (intervals numbers by_ten dps))
unfolding by_ten initialize
downsample-results_example = downsample-results numbers sum by_ten dps (omega arith) dps-AllBefore

dps-HasData : HasData numbers by_ten dps
unfolding HasData by_ten initialize
dps-HasData = inr (inl (omega arith))

downsample-NoGaps_example : Covers numbers by_ten (downsample numbers sum by_ten dps)
downsample-NoGaps_example =
    downsample-NoGaps numbers sum by_ten dps by_ten-IsValid by_ten-IsExact by_ten-fills dps-Ordered
      dps-HasData

abbrev entries : List (RollupEntry numbers)
entries =
    record { cnt = 4; min = 1; max = 9; sum = 20; tstamp = 1012 }
    ∷ (record { cnt = 2; min = 3; max = 5; sum = 8; tstamp = 1019000 } ∷ [])

entries-AllBefore :
    AllBefore numbers invalid_timestamp (entry_points numbers count_rolled false entries)
unfolding AllBefore entry_points validate_resolution
entries-AllBefore = omega arith

downsample_entries-results_example :
    downsample_entries numbers count_rolled false by_ten entries
    ≡ fill_rest numbers by_ten (
        results numbers
          (in_place numbers count_rolled)
          by_ten
          invalid_timestamp
          (intervals numbers by_ten (entry_points numbers count_rolled false entries)))
unfolding by_ten initialize
downsample_entries-results_example =
    downsample_entries-results numbers count_rolled false by_ten entries (omega arith)
      entries-AllBefore
