-- ===== src/Downsample/Query.antt =====
-- The intervals of a query, on its grid and in the order of time.
use mathlib.Core.Bool.{false≢true}
use native.Mathlib.Nat.{div-add-mod, mul-mod_right, mod-lt}
use ticktock.Prelude.{
  ℕ, ◌+◌, ◌-◌, ◌*◌, ◌/◌, ◌%◌, ◌^◌, ◌≤◌, ◌<◌, ◌≡◌, refl, sym, ap, ◌∙◌, subst, arith, inl, inr, Bool,
  Bool-cases, true, false, ltb, ◌==◌, if◌then◌else◌, List, [], ◌∷◌,
}
use ticktock.Time.Range.{TimeRange, get_duration}
use ticktock.Downsample.{Numbers, Config, DataPoints, DownsampleFillPolicy, initialize, step_down}
use ticktock.Downsample.Reference.{Interval, prepend, intervals}
use ticktock.Downsample.Slots.{SameGrid, SameGrid-next}

-- What `initialize` makes of a query.
pub record IsValid (c : Config) : Type 0 where
  pub positive : 1 ≤ c.interval
  pub begins : c.from ≤ c.start
  pub near : c.start < c.from + c.interval
  pub ordered : c.start ≤ c.to
  pub addressed : c.to + c.interval < 2 ^ 64
  pub whole : c.all ≡ true → c.from ≡ c.start
  pub grid : c.all ≡ false → c.from % c.interval ≡ 0

rounded : (t n : ℕ) → (t - t % n) % n ≡ 0
rounded t n =
    let e : t - t % n ≡ n * (t / n) = omega (arith, div-add-mod t n) in
    ap (λ (k : ℕ). k % n) e ∙ mul-mod_right n (t / n)

pub step_down-SameGrid :
    (c : Config) (t : ℕ) → IsValid c → SameGrid c.interval c.from (step_down c t)
unfolding step_down
step_down-SameGrid c t h = elim (Bool-cases c.all) [
  | inl all ↦ rw all (ap (λ (k : ℕ). k % c.interval) (h.whole all))
  | inr part ↦ rw part (h.grid part ∙ sym (rounded t c.interval))
]

pub step_down-le : (c : Config) (t : ℕ) → IsValid c → t ≤ c.to → step_down c t ≤ c.to
unfolding step_down
step_down-le c t h le = let o = h.ordered in ground arith

pub step_down-monotone : (c : Config) (s t : ℕ) → IsValid c → s ≤ t → step_down c s ≤ step_down c t
unfolding step_down
step_down-monotone c s t h le = elim (Bool-cases c.all) [
  | inl all ↦ rw all (omega arith)
  | inr part ↦ rw part (elim (Bool-cases (ltb (t - t % c.interval) (s - s % c.interval))) [
    | inl lt ↦
        let pos = h.positive in
        let next =
          SameGrid-next c.interval (t - t % c.interval) (s - s % c.interval) pos (ground arith)
            (rounded t c.interval ∙ sym (rounded s c.interval)) in
        let small : t % c.interval < c.interval = mod-lt t (omega (arith, pos)) in omega arith
    | inr ge ↦ ground arith
  ])
]

-- What `initialize` makes of a query is valid.
pub initialize-IsValid :
    (all : Bool) (interval : ℕ) (fill : DownsampleFillPolicy) (range : TimeRange) (ms : Bool)
    → range.from ≤ range.to
    → range.to + interval + 1 < 2 ^ 63
    → IsValid (initialize all interval fill range ms)
unfolding initialize step_down get_duration
initialize-IsValid true interval fill range ms le fits = record {
  positive = omega arith;
  begins = omega arith;
  near = omega arith;
  ordered = le;
  addressed = omega arith;
  whole = λ e. refl;
  grid = λ e. absurd (false≢true (sym e));
}
initialize-IsValid false interval fill range ms le fits =
    let n = if interval == 0 then 1 else interval in
    let pos : 1 ≤ n = ground arith in
    let small : range.from % n < n = mod-lt range.from (omega (arith, pos)) in
    let short : n ≤ interval + 1 = ground arith in
    record {
      positive = pos;
      begins = omega arith;
      near = omega arith;
      ordered = le;
      addressed = omega arith;
      whole = λ e. absurd (false≢true e);
      grid = λ e. rounded range.from n;
    }

module _ (d : Numbers) where
  -- Intervals on the grid of the query, from `lo` on, one after the other.
  unfoldable pub Ascending : Config → ℕ → List (Interval d) → Type 0
  Ascending c lo [] = Unit {0}
  Ascending c lo (i ∷ is) =
      (lo ≤ i.key)
      × (c.start ≤ i.key)
      × (i.key ≤ c.to)
      × SameGrid c.interval c.from i.key
      × Ascending c (i.key + 1) is

  -- Data points from `lo` on, in the order of their timestamps, none behind the query.
  unfoldable pub Ordered : Config → ℕ → DataPoints d → Type 0
  Ordered c lo [] = Unit {0}
  Ordered c lo (dp ∷ dps) = (lo ≤ dp.0) × (dp.0 ≤ c.to) × Ordered c dp.0 dps

  weaken :
      (c : Config) (lo lo' : ℕ) (is : List (Interval d))
      → lo' ≤ lo
      → Ascending c lo is
      → Ascending c lo' is
  unfolding Ascending
  weaken c lo lo' [] le h = h
  weaken c lo lo' (i ∷ is) le h = (omega (arith, h.0, le), h.1, h.2, h.3, h.4)

  prepend-Ascending :
      (c : Config) (k : ℕ) (v : d.Double) (is : List (Interval d))
      → c.start ≤ k
      → k ≤ c.to
      → SameGrid c.interval c.from k
      → Ascending c k is
      → Ascending c k (prepend d k v is)
  unfolding Ascending prepend
  prepend-Ascending c k v [] late le same h = (omega arith, late, le, same, h)
  prepend-Ascending c k v (i ∷ is) late le same h = elim (Bool-cases (k == i.key)) [
    | inl e ↦
        let e' : i.key + 1 ≡ k + 1 = ground arith in
        rw e (omega arith, late, le, same, subst (λ (n : ℕ). Ascending c n is) e' h.4)
    | inr e ↦ let lo = h.0 in rw e (omega arith, late, le, same, (ground arith, h.1, h.2, h.3, h.4))
  ]

  pub intervals-Ascending :
      (c : Config) (lo : ℕ) (dps : DataPoints d)
      → IsValid c
      → Ordered c lo dps
      → Ascending c (step_down c lo) (intervals d c dps)
  unfolding Ordered intervals
  intervals-Ascending c lo [] h o = unfold Ascending in o
  intervals-Ascending c lo (dp ∷ dps) h o =
      let later = intervals-Ascending c dp.0 dps h o.2 in
      let down = step_down-monotone c lo dp.0 h o.0 in
      elim (Bool-cases (ltb (step_down c dp.0) c.start)) [
        | inl early ↦
            rw early (weaken c (step_down c dp.0) (step_down c lo) (intervals d c dps) down later)
        | inr late ↦ rw late (
            weaken c (step_down c dp.0) (step_down c lo)
              (prepend d (step_down c dp.0) dp.1 (intervals d c dps)) down
              (prepend-Ascending c (step_down c dp.0) dp.1 (intervals d c dps) (ground arith)
                (step_down-le c dp.0 h o.1) (step_down-SameGrid c dp.0 h) later))
      ]
