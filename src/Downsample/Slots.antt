-- ===== src/Downsample/Slots.antt =====
-- Timestamps on the grid of the intervals, and the loops that fill in the ones that are missing.
use native.Mathlib.Nat.{mod-eq_of_lt, mod-lt, mod-add-mod, mod-eq-sub-mod, add-mod_right}
use ticktock.Prelude.{
  ℕ, zero, suc, false, ◌+◌, ◌-◌, ◌%◌, ◌^◌, ◌≤◌, ◌<◌, ◌≡◌, refl, sym, ap, ◌∙◌, subst, arith, inl,
  inr, Bool-cases, ltb, [], ◌∷◌, ◌++◌,
}
use ticktock.Downsample.{Numbers, Config, DataPoints, resolution, fill_loop}

abbrev pub SameGrid : ℕ → ℕ → ℕ → Type 0
SameGrid interval a b = a % interval ≡ b % interval

-- Less than an interval above a timestamp, there is no other one of its grid.
pub SameGrid-near :
    (interval a b : ℕ) → 1 ≤ interval → a ≤ b → b < a + interval → SameGrid interval a b → a ≡ b
SameGrid-near interval a b pos le near same =
    let e = a % interval in
    let r = b - a in
    let small : e < interval = mod-lt a (omega (arith, pos)) in
    let sum : (e + r) % interval ≡ e =
      mod-add-mod a interval r ∙ ap (λ (n : ℕ). n % interval) (omega (arith, le)) ∙ sym same in
    elim (Bool-cases (ltb (e + r) interval)) [
      | inl below ↦
          let whole : (e + r) % interval ≡ e + r = mod-eq_of_lt (ground arith) in omega arith
      | inr above ↦
          let far : interval ≤ e + r = ground arith in
          let rest : (e + r) % interval ≡ (e + r - interval) % interval = mod-eq-sub-mod far in
          let rest' : (e + r - interval) % interval ≡ e + r - interval =
            mod-eq_of_lt (omega arith) in
          omega arith
    ]

-- The next one of the grid is an interval above.
pub SameGrid-next :
    (interval a b : ℕ) → 1 ≤ interval → a < b → SameGrid interval a b → a + interval ≤ b
SameGrid-next interval a b pos lt same = elim (Bool-cases (ltb b (a + interval))) [
  | inl near ↦
      let e = SameGrid-near interval a b pos (omega (arith, lt)) (ground arith) same in omega arith
  | inr far ↦ ground arith
]

-- Every timestamp of the query is the same in the resolution of the output.
abbrev pub IsExact : Config → Type 0
IsExact c = (t : ℕ) → c.from ≤ t → t ≤ c.to → resolution c t ≡ t

module _ (d : Numbers) where
  -- Data points at a, and at every interval from there up to b, without b.
  unfoldable pub Slots : ℕ → ℕ → DataPoints d → ℕ → Type 0
  Slots interval a [] b = a ≡ b
  Slots interval a (dp ∷ dps) b = (dp.0 ≡ a) × Slots interval (a + interval) dps b

  pub Slots-append :
      (interval a b e : ℕ) (l l' : DataPoints d)
      → Slots interval a l b
      → Slots interval b l' e
      → Slots interval a (l ++ l') e
  unfolding Slots
  Slots-append interval a b e [] l' h h' = subst (λ (n : ℕ). Slots interval n l' e) (sym h) h'
  Slots-append interval a b e (dp ∷ l) l' h h' =
      (h.0, Slots-append interval (a + interval) b e l l' h.1 h')

  -- As long as the timestamps do not wrap around, every number of rounds that is enough gives the same.
  fill_loop_enough :
      (c : Config) (rounds more t end : ℕ)
      → 1 ≤ c.interval
      → end + c.interval ≤ 2 ^ 64
      → end ≤ rounds + t
      → end ≤ more + t
      → fill_loop d rounds c t end ≡ fill_loop d more c t end
  unfolding fill_loop
  fill_loop_enough c zero zero t end pos fits enough enough' = refl
  fill_loop_enough c zero (suc more) t end pos fits enough enough' =
      let done : ltb t end ≡ false = ground arith in rw done refl
  fill_loop_enough c (suc rounds) zero t end pos fits enough enough' =
      let done : ltb t end ≡ false = ground arith in rw done refl
  fill_loop_enough c (suc rounds) (suc more) t end pos fits enough enough' =
      elim (Bool-cases (ltb t end)) [
        | inl below ↦
            let whole : (t + c.interval) % 2 ^ 64 ≡ t + c.interval = ground arith in
            let rest =
              fill_loop_enough c rounds more (t + c.interval) end pos fits
                (omega (arith, enough, pos)) (omega (arith, enough', pos)) in
            rw (below, whole, rest) refl
        | inr done ↦ rw done refl
      ]

  -- The loops fill every slot, with enough rounds, and stop at the first that is not below the end.
  pub fill_loop-Slots :
      (c : Config) (rounds t end : ℕ)
      → IsExact c
      → 1 ≤ c.interval
      → c.to + c.interval < 2 ^ 64
      → end ≤ c.to + 1
      → c.from ≤ t
      → t < end + c.interval
      → end ≤ rounds + t
      → (b : ℕ) × Slots c.interval t (fill_loop d rounds c t end) b
        × (end ≤ b)
        × (b < end + c.interval)
        × SameGrid c.interval t b
  unfolding fill_loop Slots
  fill_loop-Slots c zero t end exact pos fits below above near enough =
      (t, refl, omega (arith, enough), near, refl)
  fill_loop-Slots c (suc rounds) t end exact pos fits below above near enough =
      elim (Bool-cases (ltb t end)) [
        | inl more ↦
            let whole : (t + c.interval) % 2 ^ 64 ≡ t + c.interval = ground arith in
            let r =
              fill_loop-Slots c rounds (t + c.interval) end exact pos fits below
                (omega (arith, above)) (ground arith) (omega (arith, enough, pos)) in
            let at : resolution c t ≡ t = exact t above (ground arith) in
            rw (more, whole) (r.0, (at, r.1), r.2, r.3, sym (add-mod_right t c.interval) ∙ r.4)
        | inr done ↦ rw done (t, refl, ground arith, near, refl)
      ]
