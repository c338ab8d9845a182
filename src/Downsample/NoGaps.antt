-- ===== src/Downsample/NoGaps.antt =====
-- With a fill policy, the results of a downsampler have no gaps.
use native.Mathlib.Nat.{add-mod_right}
use ticktock.Prelude.{
  ℕ, ◌+◌, ◌%◌, ◌^◌, ◌≤◌, ◌<◌, ◌≡◌, refl, sym, ap, ◌∙◌, subst, arith, inl, inr, ◌⊎◌, ◌==◌,
  Bool-cases, false, ltb, if◌then◌else◌, List, [], ◌∷◌, ◌++◌,
}
use ticktock.Downsample.{
  Numbers, Config, InPlace, DataPoints, is_none, invalid_timestamp, step_down, resolution,
  fill_loop, fill_start, fill_rest, last_of, downsample,
}
use ticktock.Downsample.Reference.{Interval, begin, prepend, intervals, fold, gap, results}
use ticktock.Downsample.Intervals.{AllBefore, downsample-results}
use ticktock.Downsample.Query.{IsValid, Ascending, Ordered, intervals-Ascending}
use ticktock.Downsample.Slots.{
  SameGrid, SameGrid-near, SameGrid-next, IsExact, Slots, Slots-append, fill_loop-Slots,
}

module _ (d : Numbers) where
  -- The fills between l and an interval further up, with the data point of that interval behind.
  gap-Slots :
      (c : Config) (l k first : ℕ)
      → IsValid c
      → IsExact c
      → is_none c.fill ≡ false
      → fill_start d c l ≡ first
      → c.from ≤ first
      → first ≤ k
      → k ≤ c.to
      → SameGrid c.interval first k
      → Slots d c.interval first (gap d c l k) k
  unfolding gap
  gap-Slots c l k first h exact fill start above le le' same =
      let pos = h.positive in
      let f =
        fill_loop-Slots d c k first k exact pos h.addressed (omega (arith, le')) above
          (omega (arith, le, pos)) (omega arith) in
      let e : k ≡ f.0 = SameGrid-near c.interval k f.0 pos f.2 f.3 (sym same ∙ f.4) in
      rw (fill, start)
        (subst (λ (n : ℕ). Slots d c.interval first (fill_loop d k c first k) n) (sym e) f.1)

  single :
      (c : Config) (k : ℕ) (x : d.Double) (l : DataPoints d) (b : ℕ)
      → resolution c k ≡ k
      → Slots d c.interval (k + c.interval) l b
      → Slots d c.interval k ((resolution c k, x) ∷ l) b
  unfolding Slots
  single c k x l b e h = (e, h)

  last_of-append :
      (l l' : DataPoints d) (t : ℕ) (dp : ℕ × d.Double)
      → last_of d t (l ++ dp ∷ l') ≡ last_of d dp.0 l'
  last_of-append [] l' t dp = refl
  last_of-append (q ∷ l) l' t dp = last_of-append l l' q.0 dp

  -- Where the results stop: `last` is the last interval.
  record Stops (c : Config) (first l : ℕ) (dps : DataPoints d) : Type 0 where
    last : ℕ
    slots : Slots d c.interval first dps (last + c.interval)
    is_last : last_of d l dps ≡ last
    in_query : last ≤ c.to
    above : c.from ≤ last

  fill_start-after : (c : Config) (l : ℕ) → IsValid c → l ≤ c.to → fill_start d c l ≡ l + c.interval
  unfolding fill_start
  fill_start-after c l h le = let fits = h.addressed in let pos = h.positive in ground arith

  one_interval :
      (kind : InPlace) (c : Config) (l first : ℕ) (i : Interval d) (later : DataPoints d) (t : ℕ)
      → IsValid c
      → IsExact c
      → is_none c.fill ≡ false
      → fill_start d c l ≡ first
      → c.from ≤ first
      → first ≤ i.key
      → i.key ≤ c.to
      → SameGrid c.interval first i.key
      → (x : d.Double) → Stops c (i.key + c.interval) i.key later
      → Stops c first t (gap d c l i.key ++ (resolution c i.key, x) ∷ later)
  one_interval kind c l first i later t h exact fill start above le le' same x s =
      let at : resolution c i.key ≡ i.key = exact i.key (omega (arith, above, le)) le' in
      record {
        last = s.last;
        slots =
            Slots-append d c.interval first i.key (s.last + c.interval) (gap d c l i.key)
              ((resolution c i.key, x) ∷ later)
              (gap-Slots c l i.key first h exact fill start above le le' same)
              (single c i.key x later (s.last + c.interval) at s.slots);
        is_last =
            last_of-append (gap d c l i.key) later t (resolution c i.key, x)
            ∙ ap (λ (n : ℕ). last_of d n later) at
            ∙ s.is_last;
        in_query = s.in_query;
        above = s.above;
      }

  results-Stops :
      (kind : InPlace) (c : Config) (l : ℕ) (i : Interval d) (is : List (Interval d)) (first t : ℕ)
      → IsValid c
      → IsExact c
      → is_none c.fill ≡ false
      → fill_start d c l ≡ first
      → c.from ≤ first
      → first ≤ i.key
      → SameGrid c.interval c.from first
      → Ascending d c i.key (i ∷ is)
      → Stops c first t (results d kind c l (i ∷ is))
  unfolding results Ascending
  results-Stops kind c l i [] first t h exact fill start above le grid asc =
      one_interval kind c l first i [] t h exact fill start above le asc.2 (sym grid ∙ asc.3)
        (fold d kind (begin d kind i.value) i.more)
        (record {
          last = i.key;
          slots = unfold Slots in refl;
          is_last = refl;
          in_query = asc.2;
          above = omega (arith, above, le);
        })
  results-Stops kind c l i (j ∷ is) first t h exact fill start above le grid asc =
      let pos = h.positive in
      let next =
        SameGrid-next c.interval i.key j.key pos (omega (arith, asc.4.0)) (sym asc.3 ∙ asc.4.3) in
      one_interval kind c l first i (results d kind c i.key (j ∷ is)) t h exact fill start above le
        asc.2 (sym grid ∙ asc.3) (fold d kind (begin d kind i.value) i.more)
        (results-Stops kind c i.key j is (i.key + c.interval) i.key h exact fill
          (fill_start-after c i.key h asc.2) (omega (arith, above, le)) next
          (asc.3 ∙ sym (add-mod_right i.key c.interval))
          (omega arith, asc.4.1, asc.4.2, asc.4.3, asc.4.4))

  -- Where fill_to begins when there are no results yet.
  first_slot : Config → ℕ
  first_slot c = if ltb c.from c.start then c.from + c.interval else c.from

  fill_start-first : (c : Config) → IsValid c → fill_start d c invalid_timestamp ≡ first_slot c
  unfolding fill_start first_slot
  fill_start-first c h =
      let fits = h.addressed in let le = h.ordered in let le' = h.begins in ground arith

  first_slot-SameGrid : (c : Config) → SameGrid c.interval c.from (first_slot c)
  unfolding first_slot
  first_slot-SameGrid c = elim (Bool-cases (ltb c.from c.start)) [
    | inl late ↦ rw late (sym (add-mod_right c.from c.interval))
    | inr e ↦ rw e refl
  ]

  first_slot-le :
      (c : Config) (i : Interval d)
      → IsValid c
      → c.start ≤ i.key
      → SameGrid c.interval c.from i.key
      → first_slot c ≤ i.key
  unfolding first_slot
  first_slot-le c i h le same = elim (Bool-cases (ltb c.from c.start)) [
    | inl late ↦
        let pos = h.positive in
        rw late (SameGrid-next c.interval c.from i.key pos (ground arith) same)
    | inr e ↦ rw e (omega (arith, h.begins, le))
  ]

  all_results-Stops :
      (kind : InPlace) (c : Config) (i : Interval d) (is : List (Interval d)) (lo : ℕ)
      → IsValid c
      → IsExact c
      → is_none c.fill ≡ false
      → Ascending d c lo (i ∷ is)
      → Stops c (first_slot c) c.from (results d kind c invalid_timestamp (i ∷ is))
  unfolding Ascending
  all_results-Stops kind c i is lo h exact fill asc =
      results-Stops kind c invalid_timestamp i is (first_slot c) c.from h exact fill
        (fill_start-first c h) (unfold first_slot in ground arith) (first_slot-le c i h asc.1 asc.3)
        (first_slot-SameGrid c) (omega arith, asc.1, asc.2, asc.3, asc.4)

  fill_rest-Slots :
      (c : Config) (first : ℕ) (l : DataPoints d)
      → IsValid c
      → IsExact c
      → is_none c.fill ≡ false
      → Stops c first c.from l
      → (end : ℕ) × Slots d c.interval first (fill_rest d c l) end
        × (c.to < end)
        × (end ≤ c.to + c.interval)
  unfolding fill_rest
  fill_rest-Slots c first l h exact fill s =
      let fits = h.addressed in
      let pos = h.positive in
      let le = s.in_query in
      let at : (last_of d c.from l + c.interval) % 2 ^ 64 ≡ s.last + c.interval =
        omega (arith, s.is_last) in
      let f =
        fill_loop-Slots d c (c.to + 1) (s.last + c.interval) (c.to + 1) exact pos fits (omega arith)
          (omega (arith, s.above)) (omega arith) (omega arith) in
      rw (fill, at)
        (
          f.0,
          Slots-append d c.interval first (s.last + c.interval) f.0 l
              (fill_loop d (c.to + 1) c (s.last + c.interval) (c.to + 1)) s.slots f.1,
          omega (arith, f.2),
          omega (arith, f.3),
        )

  Ordered-AllBefore :
      (c : Config) (lo end : ℕ) (dps : DataPoints d)
      → c.to < end
      → Ordered d c lo dps
      → AllBefore d end dps
  unfolding Ordered AllBefore
  Ordered-AllBefore c lo end [] h o = o
  Ordered-AllBefore c lo end (dp ∷ dps) h o =
      (omega (arith, o.1, h), Ordered-AllBefore c dp.0 end dps h o.2)

  -- Some data point lies in an interval that is not before the start of the query.
  unfoldable pub HasData : Config → DataPoints d → Type 0
  HasData c [] = ⊥
  HasData c (dp ∷ dps) = (c.start ≤ step_down c dp.0) ⊎ HasData c dps

  IsSome : List (Interval d) → Type 0
  IsSome is = (i : Interval d) × (rest : List (Interval d)) × (is ≡ i ∷ rest)

  prepend-IsSome : (k : ℕ) (v : d.Double) (is : List (Interval d)) → IsSome (prepend d k v is)
  unfolding IsSome prepend
  prepend-IsSome k v [] = (record { key = k; value = v; more = [] }, [], refl)
  prepend-IsSome k v (i ∷ is) = elim (Bool-cases (k == i.key)) [
    | inl e ↦ rw e (record { key = k; value = v; more = i.value ∷ i.more }, is, refl)
    | inr e ↦ rw e (record { key = k; value = v; more = [] }, i ∷ is, refl)
  ]

  intervals-IsSome : (c : Config) (dps : DataPoints d) → HasData c dps → IsSome (intervals d c dps)
  unfolding HasData intervals
  intervals-IsSome c [] h = absurd h
  intervals-IsSome c (dp ∷ dps) h = elim (Bool-cases (ltb (step_down c dp.0) c.start)) [
    | inl early ↦
        rw early
          (elim h [ inl late ↦ absurd (ground arith) | inr later ↦ intervals-IsSome c dps later ])
    | inr late ↦ rw late (prepend-IsSome (step_down c dp.0) dp.1 (intervals d c dps))
  ]

  -- The results stand at every interval of the query: from the first slot that is not before its start, one interval after
  -- the other, each once, until the next one would be behind its end.
  pub Covers : Config → DataPoints d → Type 0
  Covers c l =
      (first : ℕ) × (end : ℕ) × Slots d c.interval first l end
      × SameGrid c.interval c.from first
      × (c.start ≤ first)
      × (first < c.start + c.interval)
      × (c.to < end)
      × (end ≤ c.to + c.interval)

  -- A query with a fill policy has ordered data points, none behind its end and one at least in an interval that is not
  -- before its start, and the resolution of the output is that of the query. Then its results stand at
  -- every interval from the first that does not begin before the start of the query up to its end, at each once
  -- and in order.
  pub downsample-NoGaps :
      (kind : InPlace) (c : Config) (dps : DataPoints d)
      → IsValid c
      → IsExact c
      → is_none c.fill ≡ false
      → Ordered d c 0 dps
      → HasData c dps
      → Covers c (downsample d kind c dps)
  unfolding Covers first_slot IsSome
  downsample-NoGaps kind c dps h exact fill o data_points =
      let fits = h.addressed in
      let pos = h.positive in
      let within = h.ordered in
      let begins = h.begins in
      let near = h.near in
      let is = intervals d c dps in
      let found = intervals-IsSome c dps data_points in
      let computed =
        downsample-results d kind c dps (omega arith)
          (Ordered-AllBefore c 0 invalid_timestamp dps (omega arith) o)
        ∙ ap (λ (l : List (Interval d)). fill_rest d c (results d kind c invalid_timestamp l))
            found.2 in
      let asc =
        subst (λ (l : List (Interval d)). Ascending d c (step_down c 0) l) found.2
          (intervals-Ascending d c 0 dps h o) in
      let stops = all_results-Stops kind c found.0 found.1 (step_down c 0) h exact fill asc in
      let g =
        fill_rest-Slots c (first_slot c) (results d kind c invalid_timestamp (found.0 ∷ found.1)) h
          exact fill stops in
      (
        first_slot c,
        g.0,
        subst (λ (l : DataPoints d). Slots d c.interval (first_slot c) l g.0) (sym computed) g.1,
        first_slot-SameGrid c,
        ground arith,
        ground arith,
        g.2,
        g.3,
      )
