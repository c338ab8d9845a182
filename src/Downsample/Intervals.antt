-- ===== src/Downsample/Intervals.antt =====
-- The downsamplers in place compute what their description says.
use ticktock.Prelude.{
  ℕ, ◌<◌, ◌≡◌, refl, sym, ap, ◌∙◌, arith, inl, inr, Bool, Bool-cases, true, false, ltb, ◌==◌,
  ==_iff, if◌then◌else◌, List, [], ◌∷◌, ◌++◌,
}
use ticktock.Downsample.Reference.{Interval, begin, join, prepend, intervals, fold, gap, results}
use mathlib.Core.List.{append_assoc}
use ticktock.Downsample.{
  Numbers, Config, InPlace, DataPoints, is_none, invalid_timestamp, step_down, resolution,
  fill_loop, fill_start, fill_to, fill_rest, update_back, begin_interval, set_back, add_count,
  add_first, add_last, add_max, add_min, add_sum, count, first, last, max_of, min_of, sum, Progress,
  add_data_point, add_all, recycled, downsample,
}

module _ (d : Numbers) where
  -- What follows when an interval has the value x so far.
  continue : InPlace → Config → ℕ → d.Double → List (Interval d) → DataPoints d
  continue kind c k x [] = (resolution c k, x) ∷ []
  continue kind c k x (i ∷ is) =
      if k == i.key
      then (resolution c k, fold d kind (join d kind x i.value) i.more) ∷ results d kind c k is
      else (resolution c k, x) ∷ results d kind c k (i ∷ is)

  update_back-append :
      (f : d.Double → d.Double) (done : DataPoints d) (t : ℕ) (x : d.Double)
      → update_back d f (done ++ (t, x) ∷ []) ≡ done ++ (t, f x) ∷ []
  unfolding update_back
  update_back-append f [] t x = refl
  update_back-append f ((s, v) ∷ []) t x = refl
  update_back-append f ((s, v) ∷ (dp ∷ dps)) t x =
      ap (λ (l : DataPoints d). (s, v) ∷ l) (update_back-append f (dp ∷ dps) t x)

  continue-prepend_same :
      (kind : InPlace) (c : Config) (k : ℕ) (x v : d.Double) (is : List (Interval d))
      → continue kind c k x (prepend d k v is) ≡ continue kind c k (join d kind x v) is
  unfolding continue prepend fold results
  continue-prepend_same kind c k x v [] = let e : (k == k) ≡ true = ground arith in rw e refl
  continue-prepend_same kind c k x v (i ∷ is) =
      let e : (k == k) ≡ true = ground arith in
      elim (Bool-cases (k == i.key)) [
        | inl same ↦ rw (same, e) refl
        | inr other ↦ rw (other, e) refl
      ]

  -- An interval that is another one than k.
  continue-prepend_other :
      (kind : InPlace) (c : Config) (k k' : ℕ) (x v : d.Double) (is : List (Interval d))
      → (k == k') ≡ false
      → continue kind c k x (prepend d k' v is)
        ≡ (resolution c k, x) ∷ (gap d c k k' ++ continue kind c k' (begin d kind v) is)
  unfolding continue prepend fold results
  continue-prepend_other kind c k k' x v [] e = rw e refl
  continue-prepend_other kind c k k' x v (i ∷ is) e = elim (Bool-cases (k' == i.key)) [
    | inl same ↦ let same' : i.key ≡ k' = sym ((==_iff k' i.key).0 same) in rw (same, e) refl
    | inr other ↦ rw (other, e) refl
  ]

  results-prepend :
      (kind : InPlace) (c : Config) (l k : ℕ) (v : d.Double) (is : List (Interval d))
      → results d kind c l (prepend d k v is) ≡ gap d c l k ++ continue kind c k (begin d kind v) is
  unfolding continue prepend fold results
  results-prepend kind c l k v [] = refl
  results-prepend kind c l k v (i ∷ is) = elim (Bool-cases (k == i.key)) [
    | inl same ↦ rw same refl
    | inr other ↦ rw other refl
  ]

  regroup :
      (b : Bool) (done f z : DataPoints d) (dp : ℕ × d.Double)
      → (if b then done ++ dp ∷ [] else (done ++ dp ∷ []) ++ f) ++ z
        ≡ done ++ (dp ∷ ((if b then [] else f) ++ z))
  regroup true done f z dp = append_assoc done (dp ∷ []) z
  regroup false done f z dp =
      append_assoc (done ++ dp ∷ []) f z ∙ append_assoc done (dp ∷ []) (f ++ z)

  -- The three branches of add_data_point, and what the data point does to the intervals.
  add-early :
      (kind : InPlace) (c : Config) (dp : ℕ × d.Double) (p : Progress d)
      → ltb (step_down c dp.0) c.start ≡ true
      → add_data_point d kind c dp p ≡ p
  unfolding add_data_point add_count add_first add_last add_max add_min add_sum
  add-early count c dp p early = rw early refl
  add-early first c dp p early = rw early refl
  add-early last c dp p early = rw early refl
  add-early max_of c dp p early = rw early refl
  add-early min_of c dp p early = rw early refl
  add-early sum c dp p early = rw early refl

  update_back-same : (dps : DataPoints d) → update_back d (λ x. x) dps ≡ dps
  unfolding update_back
  update_back-same [] = refl
  update_back-same ((t, v) ∷ []) = refl
  update_back-same ((t, v) ∷ (dp ∷ dps)) =
      ap (λ (l : DataPoints d). (t, v) ∷ l) (update_back-same (dp ∷ dps))

  add-same :
      (kind : InPlace) (c : Config) (dp : ℕ × d.Double) (p : Progress d)
      → ltb (step_down c dp.0) c.start ≡ false
      → (step_down c dp.0 == p.last_tstamp) ≡ true
      → add_data_point d kind c dp p ≡ set_back d (λ x. join d kind x dp.1) p
  unfolding add_data_point add_count add_first add_last add_max add_min add_sum join
  add-same count c dp p late same = rw (late, same) refl
  add-same first c dp p late same =
      rw (late, same)
        (ap (λ (l : DataPoints d). record p { dps = l }) (sym (update_back-same p.dps)))
  add-same last c dp p late same = rw (late, same) refl
  add-same max_of c dp p late same = rw (late, same) refl
  add-same min_of c dp p late same = rw (late, same) refl
  add-same sum c dp p late same = rw (late, same) refl

  add-other :
      (kind : InPlace) (c : Config) (dp : ℕ × d.Double) (p : Progress d)
      → ltb (step_down c dp.0) c.start ≡ false
      → (step_down c dp.0 == p.last_tstamp) ≡ false
      → add_data_point d kind c dp p ≡ begin_interval d c (step_down c dp.0) (begin d kind dp.1) p
  unfolding add_data_point add_count add_first add_last add_max add_min add_sum begin
  add-other count c dp p late other = rw (late, other) refl
  add-other first c dp p late other = rw (late, other) refl
  add-other last c dp p late other = rw (late, other) refl
  add-other max_of c dp p late other = rw (late, other) refl
  add-other min_of c dp p late other = rw (late, other) refl
  add-other sum c dp p late other = rw (late, other) refl

  intervals-early :
      (c : Config) (dp : ℕ × d.Double) (dps : DataPoints d)
      → ltb (step_down c dp.0) c.start ≡ true
      → intervals d c (dp ∷ dps) ≡ intervals d c dps
  unfolding intervals
  intervals-early c dp dps early = rw early refl

  intervals-late :
      (c : Config) (dp : ℕ × d.Double) (dps : DataPoints d)
      → ltb (step_down c dp.0) c.start ≡ false
      → intervals d c (dp ∷ dps) ≡ prepend d (step_down c dp.0) dp.1 (intervals d c dps)
  unfolding intervals
  intervals-late c dp dps late = rw late refl

  fill_to-append :
      (c : Config) (l k : ℕ) (done z : DataPoints d) (dp : ℕ × d.Double)
      → fill_to d c l k (done ++ dp ∷ []) ++ z ≡ done ++ (dp ∷ (gap d c l k ++ z))
  unfolding fill_to gap
  fill_to-append c l k done z dp =
      regroup (is_none c.fill) done (fill_loop d k c (fill_start d c l) k) z dp

  fill_to-gap : (c : Config) (l k : ℕ) → fill_to d c l k [] ≡ gap d c l k
  unfolding fill_to gap
  fill_to-gap c l k = elim (Bool-cases (is_none c.fill)) [ inl e ↦ rw e refl | inr e ↦ rw e refl ]

  add_all-continue :
      (kind : InPlace) (c : Config) (dps done : DataPoints d) (k : ℕ) (x : d.Double)
      → (add_all d kind c dps
          (record { last_tstamp = k; dps = done ++ (resolution c k, x) ∷ [] })).dps
        ≡ done ++ continue kind c k x (intervals d c dps)
  unfolding add_all
  add_all-continue kind c [] done k x = unfold continue intervals in refl
  add_all-continue kind c (dp ∷ dps) done k x =
      let k' = step_down c dp.0 in
      let p : Progress d = record { last_tstamp = k; dps = done ++ (resolution c k, x) ∷ [] } in
      let go = λ (q : Progress d). (add_all d kind c dps q).dps in
      let to = λ (is : List (Interval d)). done ++ continue kind c k x is in
      elim (Bool-cases (ltb k' c.start)) [
        | inl early ↦
            ap go (add-early kind c dp p early)
            ∙ add_all-continue kind c dps done k x
            ∙ sym (ap to (intervals-early c dp dps early))
        | inr late ↦ elim (Bool-cases (k' == k)) [
          | inl same ↦
              let same' : k' ≡ k = (==_iff k' k).0 same in
              let joined = update_back-append (λ y. join d kind y dp.1) done (resolution c k) x in
              ap go (add-same kind c dp p late same)
              ∙ ap (λ (l : DataPoints d). go (record { last_tstamp = k; dps = l })) joined
              ∙ add_all-continue kind c dps done k (join d kind x dp.1)
              ∙ sym (
                  ap (λ (l : DataPoints d). done ++ l)
                    (continue-prepend_same kind c k x dp.1 (intervals d c dps)))
              ∙ sym (
                  ap to (
                    intervals-late c dp dps late
                    ∙ ap (λ (n : ℕ). prepend d n dp.1 (intervals d c dps)) same'))
          | inr other ↦
              let turned : (k == k') ≡ false = ground arith in
              let z = continue kind c k' (begin d kind dp.1) (intervals d c dps) in
              ap go (add-other kind c dp p late other)
              ∙ add_all-continue kind c dps (fill_to d c k k' (done ++ (resolution c k, x) ∷ [])) k'
                  (begin d kind dp.1)
              ∙ fill_to-append c k k' done z (resolution c k, x)
              ∙ sym (
                  ap (λ (l : DataPoints d). done ++ l)
                    (continue-prepend_other kind c k k' x dp.1 (intervals d c dps) turned))
              ∙ sym (ap to (intervals-late c dp dps late))
        ]
      ]

  -- No data point, and no start, has the timestamp that stands for none.
  unfoldable pub AllBefore : ℕ → DataPoints d → Type 0
  AllBefore end [] = Unit {0}
  AllBefore end (dp ∷ dps) = (dp.0 < end) × AllBefore end dps

  step_down-before :
      (c : Config) (t end : ℕ) → c.start < end → t < end → (step_down c t == end) ≡ false
  unfolding step_down
  step_down-before c t end h h' = ground arith

  add_all-results :
      (kind : InPlace) (c : Config) (dps : DataPoints d)
      → c.start < invalid_timestamp
      → AllBefore invalid_timestamp dps
      → (add_all d kind c dps (recycled d)).dps
        ≡ results d kind c invalid_timestamp (intervals d c dps)
  unfolding add_all AllBefore
  add_all-results kind c [] h all = unfold results intervals in refl
  add_all-results kind c (dp ∷ dps) h all =
      let k = step_down c dp.0 in
      let go = λ (q : Progress d). (add_all d kind c dps q).dps in
      let to = λ (is : List (Interval d)). results d kind c invalid_timestamp is in
      elim (Bool-cases (ltb k c.start)) [
        | inl early ↦
            ap go (add-early kind c dp (recycled d) early)
            ∙ add_all-results kind c dps h all.1
            ∙ sym (ap to (intervals-early c dp dps early))
        | inr late ↦
            ap go (
              add-other kind c dp (recycled d) late
                (step_down-before c dp.0 invalid_timestamp h all.0))
            ∙ add_all-continue kind c dps (fill_to d c invalid_timestamp k []) k (begin d kind dp.1)
            ∙ ap
                (λ (l : DataPoints d).
                  l ++ continue kind c k (begin d kind dp.1) (intervals d c dps))
                (fill_to-gap c invalid_timestamp k)
            ∙ sym (results-prepend kind c invalid_timestamp k dp.1 (intervals d c dps))
            ∙ sym (ap to (intervals-late c dp dps late))
      ]

  -- A series, whose timestamps and start are not the largest of 64 bits, is given to a downsampler that keeps what it has in
  -- place. What it makes of it is one data point for each maximal run of data points in the same interval, not before the
  -- start of the query: the function applied to the run, with the fills between an interval and the next, and
  -- the fills behind the last.
  pub downsample-results :
      (kind : InPlace) (c : Config) (dps : DataPoints d)
      → c.start < invalid_timestamp
      → AllBefore invalid_timestamp dps
      → downsample d kind c dps
        ≡ fill_rest d c (results d kind c invalid_timestamp (intervals d c dps))
  unfolding downsample
  downsample-results kind c dps h all =
      ap (λ (l : DataPoints d). fill_rest d c l) (add_all-results kind c dps h all)
