-- ===== src/Downsample/Reference.antt =====
-- A description of what a downsampler computes: the data points of one interval after the other.
use ticktock.Prelude.{ℕ, ltb, ◌==◌, if◌then◌else◌, List, [], ◌∷◌, ◌++◌}
use ticktock.Downsample.{
  Numbers, Config, InPlace, DataPoints, is_none, step_down, resolution, fill_loop, fill_start,
  max_double, min_double, count, first, last, max_of, min_of, sum,
}

module _ (d : Numbers) where
  -- The value of a new interval.
  unfoldable pub begin : InPlace → d.Double → d.Double
  begin count v = d.one
  begin first v = v
  begin last v = v
  begin max_of v = v
  begin min_of v = v
  begin sum v = v

  -- The value with one more data point of its interval.
  unfoldable pub join : InPlace → d.Double → d.Double → d.Double
  join count x v = d.plus x d.one
  join first x v = x
  join last x v = v
  join max_of x v = max_double d x v
  join min_of x v = min_double d x v
  join sum x v = d.plus x v

  -- An interval, and the values of the data points in it, one at least.
  pub record Interval : Type 0 where
    pub key : ℕ
    pub value : d.Double
    pub more : List d.Double

  -- A data point in front of intervals.
  unfoldable pub prepend : ℕ → d.Double → List Interval → List Interval
  prepend k v [] = record { key = k; value = v; more = [] } ∷ []
  prepend k v (i ∷ is) =
      if k == i.key
      then record { key = k; value = v; more = i.value ∷ i.more } ∷ is
      else record { key = k; value = v; more = [] } ∷ (i ∷ is)

  -- Neighbours that fall into the same interval are put together, and those that fall into one before the start of
  -- the query are left out.
  unfoldable pub intervals : Config → DataPoints d → List Interval
  intervals c [] = []
  intervals c (dp ∷ dps) =
      if ltb (step_down c dp.0) c.start
      then intervals c dps
      else prepend (step_down c dp.0) dp.1 (intervals c dps)

  unfoldable pub fold : InPlace → d.Double → List d.Double → d.Double
  fold kind x [] = x
  fold kind x (v ∷ vs) = fold kind (join kind x v) vs

  -- The fills between an interval and the next.
  unfoldable pub gap : Config → ℕ → ℕ → DataPoints d
  gap c last_tstamp to =
      if is_none c.fill then [] else fill_loop d to c (fill_start d c last_tstamp) to

  -- One data point for each interval.
  unfoldable pub results : InPlace → Config → ℕ → List Interval → DataPoints d
  results kind c last_tstamp [] = []
  results kind c last_tstamp (i ∷ is) =
      gap c last_tstamp i.key
      ++ ((resolution c i.key, fold kind (begin kind i.value) i.more) ∷ results kind c i.key is)
