-- ===== src/Aggregate/Merge.antt =====
-- What `merge` makes of ascending series.
use ticktock.Prelude.{
  ℕ, zero, suc, ◌+◌, ◌≤◌, ◌<◌, ◌≡◌, inl, inr, refl, sym, ap, ◌∙◌, subst, arith, Bool-cases, true,
  false, ◌==◌, ==_iff, if◌then◌else◌, List, [], ◌∷◌, length, length-append, Option, some, none,
}
use ticktock.Aggregate.{
  Aggregator, Series, Round, invalid_timestamp, lower, least, visit, merge_loop, total, merge,
}
use ticktock.Aggregate.Least.{
  values_at, all_values_at, Ascending, AllAscending, IsSome, all_values_at-below, least-le,
  least-AllAscending, least-above, least_attained, values_at-below,
}

module _ (a : Aggregator) where
  unfoldable pub add_all : List a.Double → a.State → a.State
  add_all [] s = s
  add_all (v ∷ vs) s = add_all vs (a.add_data_point v s)

  unfoldable pub aggregate_values : List a.Double → Option a.Double
  aggregate_values [] = none
  aggregate_values (v ∷ vs) = some (a.aggregated (add_all (v ∷ vs) a.init))

  unfoldable pub find : ℕ → Series a → Option a.Double
  find t [] = none
  find t (dp ∷ dps) = if dp.0 == t then some dp.1 else find t dps

  -- The series behind the data points at a timestamp.
  behind : ℕ → Series a → Series a
  behind t [] = []
  behind t (dp ∷ dps) = if dp.0 == t then dps else dp ∷ dps

  all_behind : ℕ → List (Series a) → List (Series a)
  all_behind t [] = []
  all_behind t (v ∷ vs) = behind t v ∷ all_behind t vs

  behind-Ascending : (t : ℕ) (v : Series a) → Ascending a t v → Ascending a (t + 1) (behind t v)
  unfolding behind Ascending
  behind-Ascending t [] h = h
  behind-Ascending t (dp ∷ dps) h = elim (Bool-cases (dp.0 == t)) [
    | inl same ↦
        let e : dp.0 + 1 ≡ t + 1 = ground arith in
        rw same (subst (λ (n : ℕ). Ascending a n dps) e h.1)
    | inr other ↦ let le = h.0 in rw other (ground arith, h.1)
  ]

  all_behind-AllAscending :
      (t : ℕ) (vs : List (Series a))
      → AllAscending a t vs
      → AllAscending a (t + 1) (all_behind t vs)
  unfolding all_behind AllAscending
  all_behind-AllAscending t [] h = h
  all_behind-AllAscending t (v ∷ vs) h =
      (behind-Ascending t v h.0, all_behind-AllAscending t vs h.1)

  -- An ascending series has its values at t in front.
  values_at-behind :
      (t : ℕ) (v : Series a)
      → Ascending a t v
      → length (behind t v) + length (values_at a t v) ≡ length v
  unfolding behind Ascending values_at
  values_at-behind t [] h = refl
  values_at-behind t (dp ∷ dps) h =
      let rest = values_at-below a t (dp.0 + 1) dps (omega (arith, h.0)) h.1 in
      elim (Bool-cases (dp.0 == t)) [
        | inl same ↦ rw (same, rest) (omega arith)
        | inr other ↦ rw (other, rest) (omega arith)
      ]

  total-behind :
      (t : ℕ) (vs : List (Series a))
      → AllAscending a t vs
      → total a (all_behind t vs) + length (all_values_at a t vs) ≡ total a vs
  unfolding all_behind AllAscending all_values_at total
  total-behind t [] h = refl
  total-behind t (v ∷ vs) h = omega (
    arith,
    total-behind t vs h.1,
    values_at-behind t v h.0,
    length-append (values_at a t v) (all_values_at a t vs),
  )

  -- Values at other timestamps stay.
  all_values_at-behind :
      (t s : ℕ) (vs : List (Series a))
      → (s == t) ≡ false
      → all_values_at a t (all_behind s vs) ≡ all_values_at a t vs
  unfolding all_behind all_values_at behind values_at
  all_values_at-behind t s [] e = refl
  all_values_at-behind t s ([] ∷ vs) e = all_values_at-behind t s vs e
  all_values_at-behind t s ((dp ∷ dps) ∷ vs) e = elim (Bool-cases (dp.0 == s)) [
    | inl same ↦
        let other : (dp.0 == t) ≡ false = ground arith in
        rw (same, other, all_values_at-behind t s vs e) refl
    | inr left ↦ rw (left, all_values_at-behind t s vs e) refl
  ]

  visit_lem :
      (t : ℕ) (vs : List (Series a)) (s : a.State) (n : ℕ)
      → AllAscending a t vs
      → visit a t vs s n ≡ record {
        state = add_all (all_values_at a t vs) s;
        next_ts = least a (all_behind t vs) n;
        rest = all_behind t vs;
      }
  unfolding visit add_all all_values_at all_behind behind values_at least lower AllAscending
      Ascending
  visit_lem t [] s n h = refl
  visit_lem t ([] ∷ vs) s n h = rw (visit_lem t vs s n h.1) refl
  visit_lem t ((dp ∷ dps) ∷ vs) s n h =
      let rest = values_at-below a t (dp.0 + 1) dps (omega (arith, h.0.0)) h.0.1 in
      elim (Bool-cases (dp.0 == t)) [
        | inl same ↦
            rw (same, rest, visit_lem t vs (a.add_data_point dp.1 s) (lower a dps n) h.1) refl
        | inr other ↦ rw (other, rest, visit_lem t vs s (lower a (dp ∷ dps) n) h.1) refl
      ]

  add_all-has_data :
      (v : a.Double) (vs : List a.Double) (s : a.State) → a.has_data (add_all (v ∷ vs) s) ≡ true
  unfolding add_all
  add_all-has_data v [] s = a.has_data-add_data_point v s
  add_all-has_data v (w ∷ vs) s = add_all-has_data w vs (a.add_data_point v s)

  -- What a round finds at a timestamp that some series has.
  found :
      (l : List a.Double)
      → IsSome a l
      → (a.has_data (add_all l a.init) ≡ true)
        × (aggregate_values l ≡ some (a.aggregated (add_all l a.init)))
  unfolding aggregate_values
  found [] h = absurd (omega (arith, h))
  found (v ∷ vs) h = (add_all-has_data v vs a.init, refl)

  Ascending-from : (lo lo' : ℕ) (v : Series a) → lo' ≤ lo → Ascending a lo v → Ascending a lo' v
  unfolding Ascending
  Ascending-from lo lo' [] le h = h
  Ascending-from lo lo' (dp ∷ dps) le h = (omega (arith, le, h.0), h.1)

  -- What `merge_loop` gives, seen from one timestamp.
  record Merged (vs : List (Series a)) (t : ℕ) (r : Option (Series a)) : Type 0 where
    dst : Series a
    returned : r ≡ some dst
    at : find t dst ≡ aggregate_values (all_values_at a t vs)
    ascending : Ascending a (least a vs invalid_timestamp) dst

  loop-end :
      (rounds ts : ℕ) (vs : List (Series a))
      → (ts == invalid_timestamp) ≡ true
      → merge_loop a (suc rounds) ts vs ≡ some []
  unfolding merge_loop
  loop-end rounds ts vs e = rw (merge_loop, e) refl

  loop-round :
      (rounds ts : ℕ) (vs : List (Series a)) (r : Round a) (dst : Series a)
      → (ts == invalid_timestamp) ≡ false
      → visit a ts vs a.init invalid_timestamp ≡ r
      → a.has_data r.state ≡ true
      → merge_loop a rounds r.next_ts r.rest ≡ some dst
      → merge_loop a (suc rounds) ts vs ≡ some ((ts, a.aggregated r.state) ∷ dst)
  unfolding merge_loop
  loop-round rounds ts vs r dst valid run filled later =
      rw (merge_loop, valid, run, filled, run, later, run) refl

  merge_loop-end :
      (rounds : ℕ) (vs : List (Series a)) (lo t : ℕ)
      → AllAscending a lo vs
      → t < invalid_timestamp
      → (least a vs invalid_timestamp == invalid_timestamp) ≡ true
      → Merged vs t (merge_loop a (suc rounds) (least a vs invalid_timestamp) vs)
  merge_loop-end rounds vs lo t h valid e =
      let e' = (==_iff (least a vs invalid_timestamp) invalid_timestamp).0 e in
      let from =
        subst (λ (n : ℕ). AllAscending a n vs) e'
          (least-AllAscending a vs lo invalid_timestamp h) in
      record {
        dst = [];
        returned = loop-end rounds (least a vs invalid_timestamp) vs e;
        at =
            unfold find aggregate_values in
            rw (all_values_at-below a t invalid_timestamp vs valid from) refl;
        ascending = unfold Ascending in tt;
      }

  find-front : (t : ℕ) (x : a.Double) (dst : Series a) → find t ((t, x) ∷ dst) ≡ some x
  unfolding find
  find-front t x dst = let e : (t == t) ≡ true = ground arith in rw e refl

  find-behind :
      (t s : ℕ) (x : a.Double) (dst : Series a)
      → (s == t) ≡ false
      → find t ((s, x) ∷ dst) ≡ find t dst
  unfolding find
  find-behind t s x dst e = rw e refl

  merge_loop-round :
      (rounds : ℕ) (vs : List (Series a)) (t : ℕ)
      → let ts = least a vs invalid_timestamp in
        AllAscending a ts vs
        → (ts == invalid_timestamp) ≡ false
        → IsSome a (all_values_at a ts vs)
        → Merged
            (all_behind ts vs)
            t
            (merge_loop a rounds (least a (all_behind ts vs) invalid_timestamp) (all_behind ts vs))
        → Merged vs t (merge_loop a (suc rounds) ts vs)
  merge_loop-round rounds vs t h valid some_value m =
      let ts = least a vs invalid_timestamp in
      let s = add_all (all_values_at a ts vs) a.init in
      let f = found (all_values_at a ts vs) some_value in
      let r : Round a = record {
        state = s;
        next_ts = least a (all_behind ts vs) invalid_timestamp;
        rest = all_behind ts vs;
      } in
      let le = least-le a vs invalid_timestamp in
      let later =
        least-above a (all_behind ts vs) (ts + 1) invalid_timestamp (ground arith)
          (all_behind-AllAscending ts vs h) in
      record {
        dst = (ts, a.aggregated s) ∷ m.dst;
        returned =
            loop-round rounds ts vs r m.dst valid (visit_lem ts vs a.init invalid_timestamp h) f.0
              m.returned;
        at = elim (Bool-cases (ts == t)) [
          | inl same ↦
              let e = (==_iff ts t).0 same in
              subst
                (λ (n : ℕ).
                  find n ((ts, a.aggregated s) ∷ m.dst) ≡ aggregate_values (all_values_at a n vs))
                e (find-front ts (a.aggregated s) m.dst ∙ sym f.1)
          | inr other ↦
              find-behind t ts (a.aggregated s) m.dst other
              ∙ m.at
              ∙ ap (λ (l : List a.Double). aggregate_values l) (all_values_at-behind t ts vs other)
        ];
        ascending =
            unfold Ascending in
            (
              omega arith,
              Ascending-from (least a (all_behind ts vs) invalid_timestamp) (ts + 1) m.dst later
                  m.ascending,
            );
      }

  merge_loop-Merged :
      (rounds : ℕ) (vs : List (Series a)) (lo t : ℕ)
      → AllAscending a lo vs
      → t < invalid_timestamp
      → total a vs < rounds
      → Merged vs t (merge_loop a rounds (least a vs invalid_timestamp) vs)
  merge_loop-Merged zero vs lo t h valid enough = absurd (omega (arith, enough))
  merge_loop-Merged (suc rounds) vs lo t h valid enough =
      let ts = least a vs invalid_timestamp in
      let from = least-AllAscending a vs lo invalid_timestamp h in
      elim (Bool-cases (ts == invalid_timestamp)) [
        | inl e ↦ merge_loop-end rounds vs lo t h valid e
        | inr e ↦ elim (least_attained a vs invalid_timestamp) [
          | inl none_left ↦ absurd (ground arith)
          | inr some_value ↦
              let sum = total-behind ts vs from in
              merge_loop-round rounds vs t from e some_value (
                merge_loop-Merged rounds (all_behind ts vs) (ts + 1) t
                  (all_behind-AllAscending ts vs from) valid (omega arith))
        ]
      ]

  -- Series are merged whose timestamps ascend strictly in each of them. Then merge returns, the timestamps of its result ascend
  -- strictly, and at each timestamp below the largest of 64 bits stands what the aggregator makes of the values of
  -- all series there, in the order of the series, and nothing when there are none.
  pub merge-find :
      (src : List (Series a)) (t : ℕ)
      → AllAscending a 0 src
      → t < invalid_timestamp
      → (dst : Series a) × (merge a src ≡ some dst)
        × (find t dst ≡ aggregate_values (all_values_at a t src))
        × Ascending a 0 dst
  unfolding merge
  merge-find src t h valid =
      let m = merge_loop-Merged (total a src + 1) src 0 t h valid (omega arith) in
      (
        m.dst,
        m.returned,
        m.at,
        Ascending-from (least a src invalid_timestamp) 0 m.dst (omega arith) m.ascending,
      )
