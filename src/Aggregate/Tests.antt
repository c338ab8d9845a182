-- ===== src/Aggregate/Tests.antt =====
-- Runs of the aggregators over numbers in place of doubles.
use ticktock.Prelude.{ℕ, ◌+◌, ◌-◌, ◌*◌, ◌/◌, ◌==◌, ◌≡◌, refl, arith, ltb, List, [], ◌∷◌, some}
use ticktock.Aggregate.{
  Arithmetic, Aggregator, Series, aggregator_avg, aggregator_count, aggregator_max, aggregator_min,
  aggregator_sum, stddev, merge,
}
use ticktock.Aggregate.Least.{AllAscending, Ascending, all_values_at}
use ticktock.Aggregate.Merge.{find, aggregate_values, merge-find}

abbrev numbers : Arithmetic
numbers = record {
  Double = ℕ;
  zero_value = 0;
  lowest = 0;
  highest = 1000;
  plus = λ x y. x + y;
  divide = λ x y. x / y;
  less = ltb;
  of_int = λ n. n;
  minus = λ x y. x - y;
  times = λ x y. x * y;
  square_root = λ x. x;
  nan = 999;
  is_nan = λ x. x == 999;
}

abbrev sums : Aggregator
sums = aggregator_sum numbers

abbrev series : List (List (ℕ × ℕ))
series = ((10, 1) ∷ (30, 2) ∷ []) ∷ ([] ∷ (((10, 5) ∷ (20, 6) ∷ (30, 7) ∷ []) ∷ []))

series_sums : merge (aggregator_sum numbers) series ≡ some ((10, 6) ∷ (20, 6) ∷ (30, 9) ∷ [])
unfolding merge
series_sums = refl

series_averages : merge (aggregator_avg numbers) series ≡ some ((10, 3) ∷ (20, 6) ∷ (30, 4) ∷ [])
unfolding merge
series_averages = refl

series_counts : merge (aggregator_count numbers) series ≡ some ((10, 2) ∷ (20, 1) ∷ (30, 2) ∷ [])
unfolding merge
series_counts = refl

series_maxima : merge (aggregator_max numbers) series ≡ some ((10, 5) ∷ (20, 6) ∷ (30, 7) ∷ [])
unfolding merge
series_maxima = refl

series_minima : merge (aggregator_min numbers) series ≡ some ((10, 1) ∷ (20, 6) ∷ (30, 2) ∷ [])
unfolding merge
series_minima = refl

deviation : stddev numbers (1 ∷ 4 ∷ 10 ∷ []) ≡ 18
unfolding stddev
deviation = refl

series-AllAscending : AllAscending sums 0 series
unfolding AllAscending Ascending
series-AllAscending = omega arith

merge-find_example :
    (dst : Series sums) × (merge sums series ≡ some dst)
    × (find sums 30 dst ≡ aggregate_values sums (all_values_at sums 30 series))
    × Ascending sums 0 dst
merge-find_example = merge-find sums series 30 series-AllAscending (omega arith)
