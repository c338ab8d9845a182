-- ===== src/Aggregate.antt =====
-- Aggregators of include/aggregate.h and `merge` of src/agg/aggregate.cpp. A series of the source
-- is the list of its data points from idx[i] on: what merge assigns through `dp` goes to the data point in front
-- of idx[i], which it does not read again.
pub mod Least
pub mod Merge
mod Tests
use ticktock.Prelude.{
  ℕ, zero, suc, ◌+◌, ◌-◌, ◌^◌, ◌≡◌, refl, arith, Bool, true, false, ltb, ◌==◌, not, if◌then◌else◌,
  List, [], ◌∷◌, ◌++◌, length, Option, some, none,
}

abbrev pub invalid_timestamp : ℕ
invalid_timestamp = 2 ^ 64 - 1

-- The protected interface of an aggregator, `aggregated` being the value that add_aggregated puts into
-- the results.
pub record Aggregator : Type 1 where
  pub Double : Type 0
  pub State : Type 0
  pub init : State
  pub add_data_point : Double → State → State
  pub has_data : State → Bool
  pub aggregated : State → Double
  pub has_data-add_data_point : (v : Double) (s : State) → has_data (add_data_point v s) ≡ true

-- `lowest` and `highest` are those of std::numeric_limits, `less` is <, `of_int` a cast.
pub record Arithmetic : Type 1 where
  pub Double : Type 0
  pub zero_value : Double
  pub lowest : Double
  pub highest : Double
  pub plus : Double → Double → Double
  pub divide : Double → Double → Double
  pub less : Double → Double → Bool
  pub of_int : ℕ → Double
  pub minus : Double → Double → Double
  pub times : Double → Double → Double
  pub square_root : Double → Double
  pub nan : Double
  pub is_nan : Double → Bool

pub counted : (n : ℕ) → ltb 0 (n + 1) ≡ true
counted n = ground arith

module _ (d : Arithmetic) where
  -- m_count counts series, which an int does.
  pub record Average : Type 0 where
    pub count : ℕ
    pub sum : d.Double

  abbrev pub aggregator_avg : Aggregator
  aggregator_avg = record {
    Double = d.Double;
    State = Average;
    init = record { count = 0; sum = d.zero_value };
    add_data_point = λ v s. record { count = s.count + 1; sum = d.plus s.sum v };
    has_data = λ s. ltb 0 s.count;
    aggregated = λ s. d.divide s.sum (d.of_int s.count);
    has_data-add_data_point = λ v s. counted s.count;
  }

  abbrev pub aggregator_count : Aggregator
  aggregator_count = record {
    Double = d.Double;
    State = ℕ;
    init = 0;
    add_data_point = λ v n. n + 1;
    has_data = λ n. ltb 0 n;
    aggregated = λ n. d.of_int n;
    has_data-add_data_point = λ v n. counted n;
  }

  -- A value, and m_has_data.
  pub record Found : Type 0 where
    pub value : d.Double
    pub found : Bool

  abbrev pub aggregator_max : Aggregator
  aggregator_max = record {
    Double = d.Double;
    State = Found;
    init = record { value = d.lowest; found = false };
    add_data_point =
        λ v s. record { value = if d.less s.value v then v else s.value; found = true };
    has_data = λ s. s.found;
    aggregated = λ s. s.value;
    has_data-add_data_point = λ v s. refl;
  }

  abbrev pub aggregator_min : Aggregator
  aggregator_min = record {
    Double = d.Double;
    State = Found;
    init = record { value = d.highest; found = false };
    add_data_point =
        λ v s. record { value = if d.less v s.value then v else s.value; found = true };
    has_data = λ s. s.found;
    aggregated = λ s. s.value;
    has_data-add_data_point = λ v s. refl;
  }

  abbrev pub aggregator_sum : Aggregator
  aggregator_sum = record {
    Double = d.Double;
    State = Found;
    init = record { value = d.zero_value; found = false };
    add_data_point = λ v s. record { value = d.plus s.value v; found = true };
    has_data = λ s. s.found;
    aggregated = λ s. s.value;
    has_data-add_data_point = λ v s. refl;
  }

  -- The loop of `stddev` from n on, whose values are behind.
  pub stddev_loop : ℕ → d.Double → d.Double → List d.Double → d.Double
  stddev_loop n old_mean m2 [] = d.square_root (d.divide m2 (d.of_int n))
  stddev_loop n old_mean m2 (x ∷ xs) =
      let new_mean = d.plus old_mean (d.divide (d.minus x old_mean) (d.of_int (n + 1))) in
      stddev_loop (n + 1) new_mean (d.plus m2 (d.times (d.minus x old_mean) (d.minus x new_mean)))
        xs

  pub stddev : List d.Double → d.Double
  unfolding stddev_loop
  stddev [] = d.nan
  stddev (v ∷ []) = d.zero_value
  stddev (v ∷ (w ∷ vs)) = stddev_loop 1 v d.zero_value (w ∷ vs)

  -- The values that are numbers, and m_has_data.
  pub record Collected : Type 0 where
    pub values : List d.Double
    pub found : Bool

  pub collect : d.Double → Collected → Collected
  collect v s = record {
    values = if d.is_nan v then s.values else s.values ++ v ∷ [];
    found = true;
  }

  pub aggregator_dev : Aggregator
  unfolding stddev collect
  aggregator_dev = record {
    Double = d.Double;
    State = Collected;
    init = record { values = []; found = false };
    add_data_point = collect;
    has_data = λ s. s.found;
    aggregated = λ s. stddev s.values;
    has_data-add_data_point = λ v s. refl;
  }

module _ (a : Aggregator) where
  abbrev pub Series : Type 0
  Series = List (ℕ × a.Double)

  -- `if (ts > dp.first) ts = dp.first` for the next data point of a series.
  pub lower : Series → ℕ → ℕ
  lower [] ts = ts
  lower (dp ∷ dps) ts = if ltb dp.0 ts then dp.0 else ts

  -- The first loop over the fronts of the series.
  pub least : List Series → ℕ → ℕ
  unfolding lower
  least [] ts = ts
  least (v ∷ vs) ts = least vs (lower v ts)

  -- The state, next_ts and the series behind a round over all series.
  pub record Round : Type 0 where
    pub state : a.State
    pub next_ts : ℕ
    pub rest : List Series

  pub visit : ℕ → List Series → a.State → ℕ → Round
  unfolding lower
  visit ts [] s next_ts = record { state = s; next_ts = next_ts; rest = [] }
  visit ts ([] ∷ vs) s next_ts = let r = visit ts vs s next_ts in record r { rest = [] ∷ r.rest }
  visit ts ((dp ∷ dps) ∷ vs) s next_ts =
      let same = dp.0 == ts in
      let left = if same then dps else dp ∷ dps in
      let r = visit ts vs (if same then a.add_data_point dp.1 s else s) (lower left next_ts) in
      record r { rest = left ∷ r.rest }

  -- The loop, with rounds as its fuel; `none` where that is spent.
  pub merge_loop : ℕ → ℕ → List Series → Option Series
  unfolding visit
  merge_loop zero ts src = none
  merge_loop (suc rounds) ts src = elim (ts == invalid_timestamp) [
    | true ↦ some []
    | false ↦
        let r = visit ts src a.init invalid_timestamp in
        elim (a.has_data r.state) [
          | false ↦ some []
          | true ↦ elim (merge_loop rounds r.next_ts r.rest) [
            | none ↦ none
            | some dst ↦ some ((ts, a.aggregated r.state) ∷ dst)
          ]
        ]
  ]

  pub total : List Series → ℕ
  total [] = 0
  total (v ∷ vs) = length v + total vs

  -- Each round reads a data point at least.
  pub merge : List Series → Option Series
  unfolding merge_loop least total
  merge src = merge_loop (total src + 1) (least src invalid_timestamp) src
