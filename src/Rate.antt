-- ===== src/Rate.antt =====
-- RateCalculator of include/rate.h and src/agg/rate.cpp. The double arithmetic is a parameter. The
-- results overwrite the data points from the front, always behind the one that is read, so they are
-- a list of their own here.
pub mod Timestamps
mod Tests
use ticktock.Prelude.{ℕ, ◌-◌, ◌%◌, ◌+◌, ◌^◌, ◌==◌, Bool, ◌&&◌, not, if◌then◌else◌, List, [], ◌∷◌}

-- `of_unsigned` is the cast of a uint64_t, `thousandth` the quotient by 1000.0, `less` is <.
pub record Arithmetic : Type 1 where
  pub Double : Type 0
  pub zero_value : Double
  pub of_unsigned : ℕ → Double
  pub thousandth : Double → Double
  pub plus : Double → Double → Double
  pub minus : Double → Double → Double
  pub divide : Double → Double → Double
  pub less : Double → Double → Bool

pub record RateCalculator : Type 0 where
  pub counter : Bool
  pub drop_resets : Bool
  pub counter_max : ℕ
  pub reset_value : ℕ

pub init : Bool → Bool → ℕ → ℕ → RateCalculator
init counter drop_resets counter_max reset_value = record {
  counter = counter;
  drop_resets = drop_resets;
  counter_max = counter_max;
  reset_value = reset_value;
}

module _ (d : Arithmetic) where
  pub record DataPoint : Type 0 where
    pub tstamp : ℕ
    pub value : d.Double

  -- (double)(t1 - t0), in seconds; `resolution_ms` is g_tstamp_resolution_ms.
  pub seconds : Bool → ℕ → ℕ → d.Double
  seconds resolution_ms t0 t1 =
      let delta = d.of_unsigned ((t1 + 2 ^ 64 - t0) % 2 ^ 64) in
      if resolution_ms then d.thousandth delta else delta

  -- The counter has gone back, and is taken to have wrapped around.
  pub wrapped_rate : RateCalculator → d.Double → d.Double → d.Double → d.Double
  wrapped_rate c secs v0 v1 =
      let rate = d.divide (d.plus (d.minus (d.of_unsigned c.counter_max) v0) v1) secs in
      if not (c.reset_value == 0) && d.less (d.of_unsigned c.reset_value) rate
      then d.zero_value
      else rate

  -- The loop, from the data point before.
  pub calculate_from : RateCalculator → Bool → DataPoint → List DataPoint → List DataPoint
  unfolding seconds wrapped_rate
  calculate_from c resolution_ms dp0 [] = []
  calculate_from c resolution_ms dp0 (dp1 ∷ dps) =
      let rest = calculate_from c resolution_ms dp1 dps in
      let secs = seconds resolution_ms dp0.tstamp dp1.tstamp in
      let val_delta = d.minus dp1.value dp0.value in
      if c.counter && d.less val_delta d.zero_value
      then (if c.drop_resets
          then rest
          else record { tstamp = dp1.tstamp; value = wrapped_rate c secs dp0.value dp1.value }
            ∷ rest)
      else record { tstamp = dp1.tstamp; value = d.divide val_delta secs } ∷ rest

  pub calculate : RateCalculator → Bool → List DataPoint → List DataPoint
  calculate c resolution_ms [] = []
  calculate c resolution_ms (dp ∷ dps) = calculate_from c resolution_ms dp dps
