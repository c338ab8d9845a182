-- ===== src/Aggregate/Least.antt =====
-- The least timestamp of the fronts of ascending series, and the values that they have at a timestamp.
use ticktock.Prelude.{
  ℕ, ◌+◌, ◌≤◌, ◌<◌, ◌≡◌, ◌⊎◌, inl, inr, refl, sym, ◌∙◌, subst, arith, Bool-cases, true, false, ltb,
  ◌==◌, if◌then◌else◌, List, [], ◌∷◌, ◌++◌, length,
}
use ticktock.Aggregate.{Aggregator, Series, lower, least}

module _ (a : Aggregator) where
  -- The values of a series at t, and of all series in their order.
  unfoldable pub values_at : ℕ → Series a → List a.Double
  values_at t [] = []
  values_at t (dp ∷ dps) = if dp.0 == t then dp.1 ∷ values_at t dps else values_at t dps

  unfoldable pub all_values_at : ℕ → List (Series a) → List a.Double
  all_values_at t [] = []
  all_values_at t (v ∷ vs) = values_at t v ++ all_values_at t vs

  -- Strictly ascending timestamps from `lo` on.
  unfoldable pub Ascending : ℕ → Series a → Type 0
  Ascending lo [] = Unit {0}
  Ascending lo (dp ∷ dps) = (lo ≤ dp.0) × Ascending (dp.0 + 1) dps

  unfoldable pub AllAscending : ℕ → List (Series a) → Type 0
  AllAscending lo [] = Unit {0}
  AllAscending lo (v ∷ vs) = Ascending lo v × AllAscending lo vs

  pub values_at-below : (t lo : ℕ) (v : Series a) → t < lo → Ascending lo v → values_at t v ≡ []
  unfolding values_at Ascending
  values_at-below t lo [] lt h = refl
  values_at-below t lo (dp ∷ dps) lt h =
      let other : (dp.0 == t) ≡ false = let le = h.0 in ground arith in
      rw other (values_at-below t (dp.0 + 1) dps (omega (arith, lt, h.0)) h.1)

  pub all_values_at-below :
      (t lo : ℕ) (vs : List (Series a)) → t < lo → AllAscending lo vs → all_values_at t vs ≡ []
  unfolding all_values_at AllAscending
  all_values_at-below t lo [] lt h = refl
  all_values_at-below t lo (v ∷ vs) lt h =
      rw (values_at-below t lo v lt h.0) (all_values_at-below t lo vs lt h.1)

  lower-le : (v : Series a) (n : ℕ) → lower a v n ≤ n
  unfolding lower
  lower-le [] n = omega arith
  lower-le (dp ∷ dps) n = ground arith

  pub least-le : (vs : List (Series a)) (n : ℕ) → least a vs n ≤ n
  unfolding least
  least-le [] n = omega arith
  least-le (v ∷ vs) n = omega (arith, least-le vs (lower a v n), lower-le v n)

  Ascending-lower : (v : Series a) (lo m n : ℕ) → m ≤ lower a v n → Ascending lo v → Ascending m v
  unfolding lower Ascending
  Ascending-lower [] lo m n le h = h
  Ascending-lower (dp ∷ dps) lo m n le h = (ground arith, h.1)

  -- All series begin at the least timestamp or later.
  pub least-AllAscending :
      (vs : List (Series a)) (lo n : ℕ) → AllAscending lo vs → AllAscending (least a vs n) vs
  unfolding least AllAscending
  least-AllAscending [] lo n h = h
  least-AllAscending (v ∷ vs) lo n h = (
    Ascending-lower v lo (least a vs (lower a v n)) n (least-le vs (lower a v n)) h.0,
    least-AllAscending vs lo (lower a v n) h.1,
  )

  lower-above : (v : Series a) (lo n : ℕ) → lo ≤ n → Ascending lo v → lo ≤ lower a v n
  unfolding lower Ascending
  lower-above [] lo n le h = le
  lower-above (dp ∷ dps) lo n le h = let le' = h.0 in ground arith

  pub least-above :
      (vs : List (Series a)) (lo n : ℕ) → lo ≤ n → AllAscending lo vs → lo ≤ least a vs n
  unfolding least AllAscending
  least-above [] lo n le h = le
  least-above (v ∷ vs) lo n le h = least-above vs lo (lower a v n) (lower-above v lo n le h.0) h.1

  abbrev pub IsSome : List a.Double → Type 0
  IsSome l = 1 ≤ length l

  IsSome-append : (l l' : List a.Double) → IsSome l' → IsSome (l ++ l')
  IsSome-append [] l' h = h
  IsSome-append (x ∷ l) l' h = omega arith

  IsSome-front : (l l' : List a.Double) → IsSome l → IsSome (l ++ l')
  IsSome-front [] l' h = absurd (omega (arith, h))
  IsSome-front (x ∷ l) l' h = omega arith

  lower_attained : (v : Series a) (n : ℕ) → (lower a v n ≡ n) ⊎ IsSome (values_at (lower a v n) v)
  unfolding lower values_at
  lower_attained [] n = inl refl
  lower_attained (dp ∷ dps) n = elim (Bool-cases (ltb dp.0 n)) [
    | inl e ↦ let same : (dp.0 == dp.0) ≡ true = ground arith in rw (e, same) (inr (omega arith))
    | inr e ↦ rw e (inl refl)
  ]

  -- Some series has a data point at the least timestamp.
  pub least_attained :
      (vs : List (Series a)) (n : ℕ) → (least a vs n ≡ n) ⊎ IsSome (all_values_at (least a vs n) vs)
  unfolding least all_values_at
  least_attained [] n = inl refl
  least_attained (v ∷ vs) n =
      let m = least a vs (lower a v n) in
      elim (least_attained vs (lower a v n)) [
        | inr some_later ↦ inr (IsSome-append (values_at m v) (all_values_at m vs) some_later)
        | inl e ↦ elim (lower_attained v n) [
          | inl same ↦ inl (e ∙ same)
          | inr found ↦ inr (
              IsSome-front (values_at m v) (all_values_at m vs)
                (subst (λ (t : ℕ). IsSome (values_at t v)) (sym e) found))
        ]
      ]
