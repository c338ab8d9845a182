-- ===== src/Rate/Timestamps.antt =====
-- Which rates there are, and at which timestamps.
use ticktock.Prelude.{
  ℕ, ◌≡◌, refl, ap, Bool, Bool-cases, inl, inr, true, false, ◌&&◌, not, if◌then◌else◌, List, [],
  ◌∷◌, drop, map,
}
use ticktock.Rate.{Arithmetic, RateCalculator, DataPoint, seconds, calculate_from, calculate}

module _ (d : Arithmetic) where
  pub tstamps : List (DataPoint d) → List ℕ
  tstamps [] = []
  tstamps (dp ∷ dps) = dp.tstamp ∷ tstamps dps

  -- Each data point with the one before it.
  unfoldable pub neighbours : List (DataPoint d) → List (DataPoint d × DataPoint d)
  neighbours [] = []
  neighbours (dp0 ∷ []) = []
  neighbours (dp0 ∷ (dp1 ∷ dps)) = (dp0, dp1) ∷ neighbours (dp1 ∷ dps)

  unfoldable pub goes_back : DataPoint d × DataPoint d → Bool
  goes_back p = d.less (d.minus p.1.value p.0.value) d.zero_value

  unfoldable pub filter :
      (DataPoint d × DataPoint d → Bool)
      → List (DataPoint d × DataPoint d)
      → List (DataPoint d × DataPoint d)
  filter f [] = []
  filter f (p ∷ ps) = if f p then p ∷ filter f ps else filter f ps

  unfoldable pub slope : Bool → DataPoint d × DataPoint d → DataPoint d
  slope ms p = record {
    tstamp = p.1.tstamp;
    value = d.divide (d.minus p.1.value p.0.value) (seconds d ms p.0.tstamp p.1.tstamp);
  }

  -- Where resets are dropped, the rates are the slopes between neighbours, in their order, all of them for a gauge, and
  -- for a counter those where it does not go back.
  pub calculate-drops :
      (c : RateCalculator) (ms : Bool) (dps : List (DataPoint d))
      → c.drop_resets ≡ true
      → calculate d c ms dps
        ≡ map (slope ms) (filter (λ p. not (c.counter && goes_back p)) (neighbours dps))
  unfolding calculate calculate_from neighbours filter goes_back slope
  calculate-drops c ms [] drops = refl
  calculate-drops c ms (dp0 ∷ []) drops = refl
  calculate-drops c ms (dp0 ∷ (dp1 ∷ dps)) drops =
      let ih = calculate-drops c ms (dp1 ∷ dps) drops in
      elim (Bool-cases (c.counter && d.less (d.minus dp1.value dp0.value) d.zero_value)) [
        | inl back ↦ rw (back, drops) ih
        | inr up ↦ rw up (ap (λ (l : List (DataPoint d)). slope ms (dp0, dp1) ∷ l) ih)
      ]

  calculate_from-tstamps :
      (c : RateCalculator) (ms : Bool) (dp : DataPoint d) (dps : List (DataPoint d))
      → (c.counter && c.drop_resets) ≡ false
      → tstamps (calculate_from d c ms dp dps) ≡ tstamps dps
  unfolding tstamps calculate_from
  calculate_from-tstamps c ms dp0 [] h = refl
  calculate_from-tstamps c ms dp0 (dp1 ∷ dps) h =
      let ih = ap (λ (t : List ℕ). dp1.tstamp ∷ t) (calculate_from-tstamps c ms dp1 dps h) in
      elim (Bool-cases c.counter) [
        | inr gauge ↦ rw gauge ih
        | inl counter ↦ elim (Bool-cases (d.less (d.minus dp1.value dp0.value) d.zero_value)) [
          | inr up ↦ rw (counter, up) ih
          | inl down ↦
              let wrapped : c.drop_resets ≡ false = rw counter at h in
              rw (counter, down, wrapped) ih
        ]
      ]

  -- Unless resets of a counter are dropped, there is one rate for each data point but the first, at
  -- its timestamp.
  pub calculate-tstamps :
      (c : RateCalculator) (ms : Bool) (dps : List (DataPoint d))
      → (c.counter && c.drop_resets) ≡ false
      → tstamps (calculate d c ms dps) ≡ tstamps (drop 1 dps)
  unfolding calculate
  calculate-tstamps c ms [] h = refl
  calculate-tstamps c ms (dp ∷ dps) h = calculate_from-tstamps c ms dp dps h
