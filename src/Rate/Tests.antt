-- ===== src/Rate/Tests.antt =====
-- Runs of the rate calculator over whole numbers in place of doubles, and its theorems at them.
use ticktock.Prelude.{
  ℕ, ◌+◌, ◌-◌, ◌/◌, ◌≡◌, refl, true, false, ltb, List, [], ◌∷◌, drop, map, not, ◌&&◌,
}
use ticktock.Rate.{Arithmetic, RateCalculator, DataPoint, init, calculate, calculate_from}
use ticktock.Rate.Timestamps.{
  tstamps, neighbours, goes_back, filter, slope, calculate-drops, calculate-tstamps,
}

-- A number n stands for n - 1000.
abbrev whole : Arithmetic
whole = record {
  Double = ℕ;
  zero_value = 1000;
  of_unsigned = λ n. n + 1000;
  thousandth = λ x. (x - 1000) / 1000 + 1000;
  plus = λ x y. x + y - 1000;
  minus = λ x y. x + 1000 - y;
  divide = λ x y. (x - 1000) / (y - 1000) + 1000;
  less = ltb;
}

abbrev dp : ℕ → ℕ → DataPoint whole
dp t v = record { tstamp = t; value = v + 1000 }

abbrev wraps : List (DataPoint whole)
wraps = dp 0 10 ∷ dp 10 60 ∷ dp 20 5 ∷ []

-- A counter up to 100 that wraps around between 60 and 5.
wrap_runs : calculate whole (init true false 100 0) false wraps ≡ dp 10 5 ∷ dp 20 4 ∷ []
unfolding calculate calculate_from init
wrap_runs = refl

drop_runs : calculate whole (init true true 100 0) false wraps ≡ dp 10 5 ∷ []
unfolding calculate calculate_from init
drop_runs = refl

abbrev dropping : RateCalculator
dropping = record { counter = true; drop_resets = true; counter_max = 100; reset_value = 0 }

calculate-drops_example :
    calculate whole dropping false wraps
    ≡ map
        (slope whole false)
        (filter whole (λ p. not (true && goes_back whole p)) (neighbours whole wraps))
calculate-drops_example = calculate-drops whole dropping false wraps refl

calculate-tstamps_example :
    tstamps whole (
      calculate whole
        (record { counter = true; drop_resets = false; counter_max = 100; reset_value = 0 })
        false
        wraps)
    ≡ tstamps whole (drop 1 wraps)
calculate-tstamps_example =
    calculate-tstamps whole
      (record { counter = true; drop_resets = false; counter_max = 100; reset_value = 0 }) false
      wraps refl
