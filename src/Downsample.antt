-- ===== src/Downsample.antt =====
-- Downsamplers of include/down.h and src/agg/down.cpp that keep the value of an interval in place, as the value of
-- the last data point of the results: Count, First, Last, Max, Min and Sum. The double arithmetic
-- is a parameter.
pub mod Reference
pub mod Intervals
pub mod Slots
pub mod Query
pub mod NoGaps
pub mod Rollup
mod Tests
use ticktock.Prelude.{
  ℕ, zero, suc, ◌+◌, ◌-◌, ◌%◌, ◌^◌, Bool, true, false, ltb, leb, ◌==◌, not, if◌then◌else◌, List, [],
  ◌∷◌, ◌++◌, length,
}
use ticktock.Time.Range.{TimeRange, get_duration}
use ticktock.Time.Resolution.{to_ms, to_sec}

-- `less` is <, `of_unsigned` the cast of a uint32_t.
pub record Numbers : Type 1 where
  pub Double : Type 0
  pub zero_value : Double
  pub one : Double
  pub nan : Double
  pub plus : Double → Double → Double
  pub less : Double → Double → Bool
  pub of_unsigned : ℕ → Double

pub data DownsampleFillPolicy : Type 0 where
  dfp_none : DownsampleFillPolicy
  dfp_nan : DownsampleFillPolicy
  dfp_null : DownsampleFillPolicy
  dfp_zero : DownsampleFillPolicy

abbrev pub is_none : DownsampleFillPolicy → Bool
is_none dfp_none = true
is_none _ = false

abbrev pub invalid_timestamp : ℕ
invalid_timestamp = 2 ^ 64 - 1

-- The members that do not change once a downsampler is initialized; m_start is the start of the query
-- and `from` that of m_time_range, which has been stepped down.
pub record Config : Type 0 where
  pub start : ℕ
  pub from : ℕ
  pub to : ℕ
  pub interval : ℕ
  pub fill : DownsampleFillPolicy
  pub ms : Bool
  pub all : Bool

pub step_down : Config → ℕ → ℕ
step_down d tstamp = if d.all then d.start else tstamp - tstamp % d.interval

pub resolution : Config → ℕ → ℕ
resolution d tstamp = if d.ms then to_ms tstamp else to_sec tstamp

-- `initialize` behind the parsing of its strings, which give whether the interval is 'all', its length
-- and the fill policy.
pub initialize : Bool → ℕ → DownsampleFillPolicy → TimeRange → Bool → Config
unfolding step_down
initialize all interval fill range ms =
    let c : Config = record {
      start = range.from;
      from = range.from;
      to = range.to;
      interval = if interval == 0 then 1 else interval;
      fill = fill;
      ms = ms;
      all = all;
    } in
    let from = step_down c range.from in
    record c {
      from = from;
      interval =
          if all
          then (get_duration (record { from = from; to = range.to }) + 1) % 2 ^ 64
          else c.interval;
    }

-- The classes, between which the virtual add_data_point chooses.
pub data InPlace : Type 0 where
  count : InPlace
  first : InPlace
  last : InPlace
  max_of : InPlace
  min_of : InPlace
  sum : InPlace

module _ (d : Numbers) where
  abbrev pub DataPoints : Type 0
  DataPoints = List (ℕ × d.Double)

  pub fill_value : DownsampleFillPolicy → d.Double
  fill_value dfp_none = d.zero_value
  fill_value dfp_nan = d.nan
  fill_value dfp_null = d.nan
  fill_value dfp_zero = d.zero_value

  -- `for (tstamp = ...; tstamp < end; tstamp += m_interval)`, with rounds as its fuel.
  pub fill_loop : ℕ → Config → ℕ → ℕ → DataPoints
  unfolding resolution fill_value
  fill_loop zero c tstamp end = []
  fill_loop (suc rounds) c tstamp end =
      let rest = fill_loop rounds c ((tstamp + c.interval) % 2 ^ 64) end in
      if ltb tstamp end then (resolution c tstamp, fill_value c.fill) ∷ rest else []

  -- Where fill_to begins, behind the interval `last_tstamp`.
  pub fill_start : Config → ℕ → ℕ
  fill_start c last_tstamp =
      if last_tstamp == invalid_timestamp
      then (if ltb c.from c.start then (c.from + c.interval) % 2 ^ 64 else c.from)
      else (last_tstamp + c.interval) % 2 ^ 64

  pub fill_to : Config → ℕ → ℕ → DataPoints → DataPoints
  unfolding fill_loop fill_start
  fill_to c last_tstamp to dps =
      if is_none c.fill then dps else dps ++ fill_loop to c (fill_start c last_tstamp) to

  -- The end of fill_if_needed, behind add_last_point.
  abbrev pub last_of : ℕ → DataPoints → ℕ
  last_of from [] = from
  last_of from ((t, v) ∷ dps) = last_of t dps

  pub fill_rest : Config → DataPoints → DataPoints
  unfolding fill_loop
  fill_rest c dps =
      if is_none c.fill
      then dps
      else dps ++ fill_loop (c.to + 1) c ((last_of c.from dps + c.interval) % 2 ^ 64) (c.to + 1)

  -- `std::max` and `std::min`.
  abbrev pub max_double : d.Double → d.Double → d.Double
  max_double x y = if d.less x y then y else x

  abbrev pub min_double : d.Double → d.Double → d.Double
  min_double x y = if d.less y x then y else x

  -- `dps.back()`; there is one.
  pub update_back : (d.Double → d.Double) → DataPoints → DataPoints
  update_back f [] = []
  update_back f ((t, v) ∷ []) = (t, f v) ∷ []
  update_back f ((t, v) ∷ (dp ∷ dps)) = (t, v) ∷ update_back f (dp ∷ dps)

  -- m_last_tstamp and the results.
  pub record Progress : Type 0 where
    pub last_tstamp : ℕ
    pub dps : DataPoints

  -- A new interval: the fills up to it, and its first value behind them.
  abbrev pub begin_interval : Config → ℕ → d.Double → Progress → Progress
  begin_interval c curr_tstamp v p = record {
    last_tstamp = curr_tstamp;
    dps = fill_to c p.last_tstamp curr_tstamp p.dps ++ (resolution c curr_tstamp, v) ∷ [];
  }

  abbrev pub set_back : (d.Double → d.Double) → Progress → Progress
  set_back f p = record p { dps = update_back f p.dps }

  pub add_count : Config → ℕ × d.Double → Progress → Progress
  unfolding step_down fill_to update_back resolution
  add_count c dp p =
      let curr_tstamp = step_down c dp.0 in
      if ltb curr_tstamp c.start
      then p
      else if curr_tstamp == p.last_tstamp
      then set_back (λ x. d.plus x d.one) p
      else begin_interval c curr_tstamp d.one p

  pub add_last : Config → ℕ × d.Double → Progress → Progress
  unfolding step_down fill_to update_back resolution
  add_last c dp p =
      let curr_tstamp = step_down c dp.0 in
      if ltb curr_tstamp c.start
      then p
      else if curr_tstamp == p.last_tstamp
      then set_back (λ x. dp.1) p
      else begin_interval c curr_tstamp dp.1 p

  pub add_max : Config → ℕ × d.Double → Progress → Progress
  unfolding step_down fill_to update_back resolution
  add_max c dp p =
      let curr_tstamp = step_down c dp.0 in
      if ltb curr_tstamp c.start
      then p
      else if curr_tstamp == p.last_tstamp
      then set_back (λ x. max_double x dp.1) p
      else begin_interval c curr_tstamp dp.1 p

  pub add_min : Config → ℕ × d.Double → Progress → Progress
  unfolding step_down fill_to update_back resolution
  add_min c dp p =
      let curr_tstamp = step_down c dp.0 in
      if ltb curr_tstamp c.start
      then p
      else if curr_tstamp == p.last_tstamp
      then set_back (λ x. min_double x dp.1) p
      else begin_interval c curr_tstamp dp.1 p

  pub add_sum : Config → ℕ × d.Double → Progress → Progress
  unfolding step_down fill_to update_back resolution
  add_sum c dp p =
      let curr_tstamp = step_down c dp.0 in
      if ltb curr_tstamp c.start
      then p
      else if curr_tstamp == p.last_tstamp
      then set_back (λ x. d.plus x dp.1) p
      else begin_interval c curr_tstamp dp.1 p

  pub add_first : Config → ℕ × d.Double → Progress → Progress
  unfolding step_down fill_to resolution
  add_first c dp p =
      let curr_tstamp = step_down c dp.0 in
      if ltb curr_tstamp c.start
      then p
      else if not (curr_tstamp == p.last_tstamp)
      then begin_interval c curr_tstamp dp.1 p
      else p

  pub add_data_point : InPlace → Config → ℕ × d.Double → Progress → Progress
  unfolding add_count add_first add_last add_max add_min add_sum
  add_data_point count c dp p = add_count c dp p
  add_data_point first c dp p = add_first c dp p
  add_data_point last c dp p = add_last c dp p
  add_data_point max_of c dp p = add_max c dp p
  add_data_point min_of c dp p = add_min c dp p
  add_data_point sum c dp p = add_sum c dp p

  abbrev pub recycled : Progress
  recycled = record { last_tstamp = invalid_timestamp; dps = [] }

  pub add_all : InPlace → Config → DataPoints → Progress → Progress
  unfolding add_data_point
  add_all kind c [] p = p
  add_all kind c (dp ∷ dps) p = add_all kind c dps (add_data_point kind c dp p)

  -- A whole series, and fill_if_needed.
  pub downsample : InPlace → Config → DataPoints → DataPoints
  unfolding add_all fill_rest
  downsample kind c dps = fill_rest c (add_all kind c dps recycled).dps
