-- ===== src/Compress/V0/Sorted.antt =====
-- Compressor_v0 keeps the data points sorted, none lost and none made up.
use ticktock.Prelude.{
  ℕ, ◌+◌, ◌≤◌, ◌≡◌, refl, ap, arith, length-append, leb→le, Bool, Bool-cases, inl, inr, true, false,
  ltb, leb, ◌==◌, ◌||◌, List, [], ◌∷◌, ◌++◌, length,
}
use ticktock.Compress.V0.{
  DataPointPair, Compressor, is_full, is_empty, get_last_tstamp, back_tstamp, insert, compress,
}

module _ (Value : Type 0) where
  abbrev Dp : Type 0
  Dp = DataPointPair Value

  -- Timestamps do not decrease, from a bound on.
  unfoldable pub IsSortedFrom : ℕ → List Dp → Type 0
  IsSortedFrom from [] = Unit {0}
  IsSortedFrom from (dp ∷ dps) = (from ≤ dp.tstamp) × IsSortedFrom dp.tstamp dps

  insert-IsSortedFrom :
      (from : ℕ) (dp : Dp) (xs : List Dp)
      → from ≤ dp.tstamp
      → IsSortedFrom from xs
      → IsSortedFrom from (insert Value dp xs)
  unfolding insert IsSortedFrom
  insert-IsSortedFrom from dp [] le h = (le, tt)
  insert-IsSortedFrom from dp (x ∷ xs) le h = elim (Bool-cases (ltb dp.tstamp x.tstamp)) [
    | inl lt ↦ rw lt (le, (ground arith, h.1))
    | inr ge ↦ rw ge (h.0, insert-IsSortedFrom x.tstamp dp xs (ground arith) h.1)
  ]

  append-IsSortedFrom :
      (from start : ℕ) (dp : Dp) (xs : List Dp)
      → from ≤ dp.tstamp
      → back_tstamp Value xs start ≤ dp.tstamp
      → IsSortedFrom from xs
      → IsSortedFrom from (xs ++ dp ∷ [])
  unfolding back_tstamp IsSortedFrom
  append-IsSortedFrom from start dp [] le last h = (le, tt)
  append-IsSortedFrom from start dp (x ∷ xs) le last h =
      (h.0, append-IsSortedFrom x.tstamp x.tstamp dp xs (after x xs last h.1) last h.1)
    where
      after :
          (x : Dp) (xs : List Dp)
          → back_tstamp Value xs x.tstamp ≤ dp.tstamp
          → IsSortedFrom x.tstamp xs
          → x.tstamp ≤ dp.tstamp
      after x [] le h = le
      after x (y ∷ ys) le h = let g = after y ys le h.1 in let k = h.0 in omega arith

  behind-IsSortedFrom :
      (start : ℕ) (dp : Dp) (xs : List Dp)
      → (leb (back_tstamp Value xs start) dp.tstamp || (length xs == 0)) ≡ true
      → IsSortedFrom 0 xs
      → IsSortedFrom 0 (xs ++ dp ∷ [])
  unfolding IsSortedFrom
  behind-IsSortedFrom start dp [] last h = (omega arith, tt)
  behind-IsSortedFrom start dp (x ∷ xs) last h =
      append-IsSortedFrom 0 start dp (x ∷ xs) (omega arith) (ground arith) h

  -- The second list is the first with `dp` at some place of it.
  pub Inserted : Dp → List Dp → List Dp → Type 0
  Inserted dp xs ys =
      (before : List Dp) × (after : List Dp) × (xs ≡ before ++ after) × (ys ≡ before ++ dp ∷ after)

  insert-Inserted : (dp : Dp) (xs : List Dp) → Inserted dp xs (insert Value dp xs)
  unfolding insert Inserted
  insert-Inserted dp [] = ([], [], refl, refl)
  insert-Inserted dp (x ∷ xs) =
      let ih = insert-Inserted dp xs in
      elim (Bool-cases (ltb dp.tstamp x.tstamp)) [
        | inl lt ↦ rw lt ([], x ∷ xs, refl, refl)
        | inr ge ↦
            rw ge
              (x ∷ ih.0, ih.1, ap (λ (t : List Dp). x ∷ t) ih.2, ap (λ (t : List Dp). x ∷ t) ih.3)
      ]

  append-nil : (xs : List Dp) → xs ≡ xs ++ []
  append-nil [] = refl
  append-nil (x ∷ xs) = ap (λ (t : List Dp). x ∷ t) (append-nil xs)

  length-insert : (dp : Dp) (xs : List Dp) → length (insert Value dp xs) ≡ length xs + 1
  unfolding insert
  length-insert dp [] = refl
  length-insert dp (x ∷ xs) =
      let ih = length-insert dp xs in
      elim (Bool-cases (ltb dp.tstamp x.tstamp)) [
        | inl lt ↦ rw lt (omega arith)
        | inr ge ↦ rw ge (omega (arith, ih))
      ]

  -- What `compress` makes of the data points.
  pub record Adds (dp : Dp) (c c' : Compressor Value) : Type 0 where
    pub sorted : IsSortedFrom 0 c'.dps
    pub inserted : Inserted dp c.dps c'.dps
    pub count : length c'.dps ≡ length c.dps + 1
    pub room : length c'.dps ≤ c'.size

  abbrev pub CompressOutcome : Dp → Compressor Value → Compressor Value → Bool → Type 0
  CompressOutcome dp c c' true = Adds dp c c'
  CompressOutcome dp c c' false = (c' ≡ c) × (c.size ≤ length c.dps)

  -- On data points in order of time, `compress` has two outcomes. Below the capacity it stores the
  -- new data point among the others, all of which it keeps in their order, so that there is one more,
  -- no more than the capacity, and all are in order of time again. At the capacity it returns
  -- false and changes nothing.
  pub compress-CompressOutcome :
      (c : Compressor Value) (tstamp : ℕ) (value : Value)
      → IsSortedFrom 0 c.dps
      → let o = compress Value tstamp value c in
        CompressOutcome (record { tstamp = tstamp; value = value }) c o.compressor o.stored
  unfolding compress is_full is_empty get_last_tstamp Inserted
  compress-CompressOutcome c tstamp value h = elim (Bool-cases (leb c.size (length c.dps))) [
    | inl full ↦ rw full (refl, leb→le c.size (length c.dps) full)
    | inr free ↦
        elim (Bool-cases
          (leb (back_tstamp Value c.dps c.start_tstamp) tstamp || (length c.dps == 0))) [
            | inl last ↦ rw (free, last) (behind free last)
            | inr between ↦
                rw (free, between)
                  (record {
                    sorted = insert-IsSortedFrom 0 dp c.dps (omega arith) h;
                    inserted = insert-Inserted dp c.dps;
                    count = length-insert dp c.dps;
                    room = let l = length-insert dp c.dps in ground arith;
                  })
          ]
  ]
    where
      dp : Dp
      dp = record { tstamp = tstamp; value = value }

      behind :
          leb c.size (length c.dps) ≡ false
          → (leb (back_tstamp Value c.dps c.start_tstamp) tstamp || (length c.dps == 0)) ≡ true
          → Adds dp c (record c { dps = c.dps ++ dp ∷ [] })
      behind free last = record {
        sorted = behind-IsSortedFrom c.start_tstamp dp c.dps last h;
        inserted = (c.dps, [], append-nil c.dps, refl);
        count = length-append c.dps (dp ∷ []);
        room = let l = length-append c.dps (dp ∷ []) in ground arith;
      }
