-- ===== src/Downsample/Rollup.antt =====
-- The downsampling of rollup entries, by the other add_data_point of Count, Max, Min and Sum in src/agg/down.cpp.
use ticktock.Prelude.{ℕ, ◌==◌, ◌<◌, ◌≡◌, refl, ap, ◌∙◌, Bool, ltb, if◌then◌else◌, List, [], ◌∷◌}
use ticktock.Time.Resolution.{validate_resolution}
use ticktock.Downsample.Reference.{results, intervals}
use ticktock.Downsample.Intervals.{AllBefore, downsample-results}
use ticktock.Downsample.{
  invalid_timestamp, Numbers, Config, DataPoints, InPlace, max_of, min_of, sum, max_double,
  min_double, Progress, set_back, begin_interval, step_down, fill_to, fill_rest, update_back,
  resolution, add_max, add_min, add_sum, add_data_point, add_all, recycled, downsample,
}

-- The classes that take rollup entries in place.
pub data Rolled : Type 0 where
  count_rolled : Rolled
  max_rolled : Rolled
  min_rolled : Rolled
  sum_rolled : Rolled

module _ (d : Numbers) where
  pub record RollupEntry : Type 0 where
    pub cnt : ℕ
    pub min : d.Double
    pub max : d.Double
    pub sum : d.Double
    pub tstamp : ℕ

  pub add_count_entry : Bool → Config → RollupEntry → Progress d → Progress d
  unfolding step_down fill_to update_back resolution
  add_count_entry resolution_ms c entry p =
      let curr_tstamp = step_down c (validate_resolution resolution_ms entry.tstamp) in
      if ltb curr_tstamp c.start
      then p
      else if curr_tstamp == p.last_tstamp
      then set_back d (λ x. d.plus x (d.of_unsigned entry.cnt)) p
      else begin_interval d c curr_tstamp (d.of_unsigned entry.cnt) p

  pub add_max_entry : Bool → Config → RollupEntry → Progress d → Progress d
  unfolding step_down fill_to update_back resolution
  add_max_entry resolution_ms c entry p =
      let curr_tstamp = step_down c (validate_resolution resolution_ms entry.tstamp) in
      if ltb curr_tstamp c.start
      then p
      else if curr_tstamp == p.last_tstamp
      then set_back d (λ x. max_double d x entry.max) p
      else begin_interval d c curr_tstamp entry.max p

  pub add_min_entry : Bool → Config → RollupEntry → Progress d → Progress d
  unfolding step_down fill_to update_back resolution
  add_min_entry resolution_ms c entry p =
      let curr_tstamp = step_down c (validate_resolution resolution_ms entry.tstamp) in
      if ltb curr_tstamp c.start
      then p
      else if curr_tstamp == p.last_tstamp
      then set_back d (λ x. min_double d x entry.min) p
      else begin_interval d c curr_tstamp entry.min p

  pub add_sum_entry : Bool → Config → RollupEntry → Progress d → Progress d
  unfolding step_down fill_to update_back resolution
  add_sum_entry resolution_ms c entry p =
      let curr_tstamp = step_down c (validate_resolution resolution_ms entry.tstamp) in
      if ltb curr_tstamp c.start
      then p
      else if curr_tstamp == p.last_tstamp
      then set_back d (λ x. d.plus x entry.sum) p
      else begin_interval d c curr_tstamp entry.sum p

  pub add_entry : Rolled → Bool → Config → RollupEntry → Progress d → Progress d
  unfolding add_count_entry add_max_entry add_min_entry add_sum_entry
  add_entry count_rolled resolution_ms c entry p = add_count_entry resolution_ms c entry p
  add_entry max_rolled resolution_ms c entry p = add_max_entry resolution_ms c entry p
  add_entry min_rolled resolution_ms c entry p = add_min_entry resolution_ms c entry p
  add_entry sum_rolled resolution_ms c entry p = add_sum_entry resolution_ms c entry p

  pub add_entries : Rolled → Bool → Config → List RollupEntry → Progress d → Progress d
  unfolding add_entry
  add_entries kind resolution_ms c [] p = p
  add_entries kind resolution_ms c (entry ∷ entries) p =
      add_entries kind resolution_ms c entries (add_entry kind resolution_ms c entry p)

  -- A series of rollup entries, and fill_if_needed.
  pub downsample_entries : Rolled → Bool → Config → List RollupEntry → DataPoints d
  unfolding add_entries fill_rest
  downsample_entries kind resolution_ms c entries =
      fill_rest d c (add_entries kind resolution_ms c entries (recycled d)).dps

  -- The class that treats data points alike, and the value of an entry.
  unfoldable pub in_place : Rolled → InPlace
  in_place count_rolled = sum
  in_place max_rolled = max_of
  in_place min_rolled = min_of
  in_place sum_rolled = sum

  unfoldable pub entry_value : Rolled → RollupEntry → d.Double
  entry_value count_rolled entry = d.of_unsigned entry.cnt
  entry_value max_rolled entry = entry.max
  entry_value min_rolled entry = entry.min
  entry_value sum_rolled entry = entry.sum

  unfoldable pub entry_points : Rolled → Bool → List RollupEntry → DataPoints d
  entry_points kind resolution_ms [] = []
  entry_points kind resolution_ms (entry ∷ entries) =
      (validate_resolution resolution_ms entry.tstamp, entry_value kind entry)
      ∷ entry_points kind resolution_ms entries

  add_entry-add_data_point :
      (kind : Rolled) (resolution_ms : Bool) (c : Config) (entry : RollupEntry) (p : Progress d)
      → add_entry kind resolution_ms c entry p
        ≡ add_data_point d
            (in_place kind)
            c
            (validate_resolution resolution_ms entry.tstamp, entry_value kind entry)
            p
  unfolding add_entry add_count_entry add_max_entry add_min_entry add_sum_entry in_place entry_value
      add_data_point add_max add_min add_sum
  add_entry-add_data_point count_rolled resolution_ms c entry p = refl
  add_entry-add_data_point max_rolled resolution_ms c entry p = refl
  add_entry-add_data_point min_rolled resolution_ms c entry p = refl
  add_entry-add_data_point sum_rolled resolution_ms c entry p = refl

  add_entries-add_all :
      (kind : Rolled) (resolution_ms : Bool) (c : Config) (entries : List RollupEntry)
      (p : Progress d)
      → add_entries kind resolution_ms c entries p
        ≡ add_all d (in_place kind) c (entry_points kind resolution_ms entries) p
  unfolding add_entries entry_points add_all
  add_entries-add_all kind resolution_ms c [] p = refl
  add_entries-add_all kind resolution_ms c (entry ∷ entries) p =
      ap (λ (q : Progress d). add_entries kind resolution_ms c entries q)
        (add_entry-add_data_point kind resolution_ms c entry p)
      ∙ add_entries-add_all kind resolution_ms c entries (
          add_data_point d (in_place kind) c
            (validate_resolution resolution_ms entry.tstamp, entry_value kind entry) p)

  pub downsample_entries-downsample :
      (kind : Rolled) (resolution_ms : Bool) (c : Config) (entries : List RollupEntry)
      → downsample_entries kind resolution_ms c entries
        ≡ downsample d (in_place kind) c (entry_points kind resolution_ms entries)
  unfolding downsample_entries downsample
  downsample_entries-downsample kind resolution_ms c entries =
      ap (λ (q : Progress d). fill_rest d c q.dps)
        (add_entries-add_all kind resolution_ms c entries (recycled d))

  -- Rollup entries, whose timestamps in the resolution of the server and the start are not the largest of 64 bits, give
  -- one data point for each maximal run of entries in the same interval, not before the start of the query: their counts or
  -- sums are summed, of their maxima or minima the greatest or least is taken, with the fills between an interval and
  -- the next, and those behind the last.
  pub downsample_entries-results :
      (kind : Rolled) (resolution_ms : Bool) (c : Config) (entries : List RollupEntry)
      → c.start < invalid_timestamp
      → AllBefore d invalid_timestamp (entry_points kind resolution_ms entries)
      → downsample_entries kind resolution_ms c entries
        ≡ fill_rest d c (
            results d
              (in_place kind)
              c
              invalid_timestamp
              (intervals d c (entry_points kind resolution_ms entries)))
  downsample_entries-results kind resolution_ms c entries h all =
      downsample_entries-downsample kind resolution_ms c entries
      ∙ downsample-results d (in_place kind) c (entry_points kind resolution_ms entries) h all
