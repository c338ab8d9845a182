-- ===== src/Compress/V3/Next.antt =====
-- A data point behind others: `compress` of Compressor_v3 as a step of the series.
use ticktock.Prelude.{
  ℕ, ◌+◌, ◌-◌, ◌%◌, ◌^◌, ◌≤◌, ◌<◌, ◌≡◌, refl, ◌∙◌, sym, subst, inl, inr, arith, Bool-cases, true,
  false, ltb, ◌==◌, List, [], ◌∷◌, length, length-append, none, ℤ, to_signed,
}
use ticktock.BitSet.{BitSet, Result, ok, out_of_range, out_of_fuel, size_in_bits, save_check_point}
use ticktock.BitSet.Bits.{IsBytes}
use ticktock.BitSet.CheckPoint.{
  Field, append_all, append_all-RunOutcome, RunOutcome, Extends, RunOutcome-trans, IsValid-saved,
}
use ticktock.BitSet.Fields.{Writes, Written, append_all-Writes}
use ticktock.Compress.V3.{
  Floating, Compressor, compress, compress_next, compress_value, roll_back, accept, int_fields,
  float_fields,
}
use ticktock.Compress.V3.Store.{int_fields-AllBytes, float_fields-AllBytes}
use ticktock.Compress.V3.FloatCode.{decoded}
use ticktock.Compress.V3.Series.{Series, store}
use ticktock.Compress.V3.Represents.{
  int_fields-long, float_fields-long, Represents, store-Decodes, StoreResult, Decodes-same,
  rolled_back,
}

module _ (f : Floating) (stack : List ℕ) (room : 8 ≤ length stack) (hs : IsBytes stack) where
  module _ (c : Compressor f) (s : Series f) (rep : Represents f stack room hs c s) (tstamp : ℕ)
      (x : f.Double) (order : s.tstamp ≤ tstamp) (small : tstamp < 2 ^ 64)
      (page : length c.bitset.bits ≤ 2 ^ 14) where
    dod : ℤ
    dod = to_signed (2 ^ 63) ((tstamp - s.tstamp + 2 ^ 64 - s.delta) % 2 ^ 64)

    b0 : BitSet
    b0 = save_check_point c.bitset

    next_series : Series f
    next_series = store f tstamp x s

    accepted :
        (b1 b2 : BitSet)
        → Extends b0 b1
        → size_in_bits b0 ≤ size_in_bits b1
        → Extends b1 b2
        → size_in_bits b1 ≤ size_in_bits b2
        → Writes b1 (size_in_bits b0) (int_fields dod) (size_in_bits b1)
        → Writes b2 (size_in_bits b1) (float_fields f (f.minus x s.last_value)) (size_in_bits b2)
        → StoreResult f stack room hs c s next_series (accept f b2 c tstamp (tstamp - s.tstamp) x)
    unfolding StoreResult b0 dod next_series save_check_point size_in_bits store
    accepted b1 b2 e1 le1 e2 le2 wi wf =
        let long1 = int_fields-long b1 (size_in_bits c.bitset) dod (size_in_bits b1) wi in
        let long2 = float_fields-long f stack room hs b2 (size_in_bits b1) _ (size_in_bits b2) wf in
        let new : ltb tstamp s.tstamp ≡ false = ground arith in
        let z = rep.size in
        let n = rep.count in
        let in_buffer = e2.valid.in_buffer in
        let l1 = e1.frame.length_eq in
        let l2 = e2.frame.length_eq in
        let value = f.plus s.read_value (decoded f (f.minus x s.last_value)) in
        let l = length-append s.dps ((tstamp, value) ∷ []) in
        let d =
          store-Decodes f stack room hs c.bitset b1 b2 c.start_tstamp tstamp s x rep.decodes e1.kept
            le1 e2.kept le2 order small rep.delta_small wi wf in
        (
          refl,
          l2 ∙ l1,
          record {
            valid = e2.valid;
            decodes = d;
            count = rw new (omega arith);
            some_dps = rw new (omega arith);
            size = rw new (omega arith);
            tstamp_eq = rw new refl;
            delta_eq = rw new refl;
            value_eq = rw new refl;
            tstamp_small = rw new small;
            delta_small = rw new (omega arith);
          },
        )

    after_value :
        (b1 : BitSet)
        → Extends b0 b1
        → size_in_bits b0 ≤ size_in_bits b1
        → Writes b1 (size_in_bits b0) (int_fields dod) (size_in_bits b1)
        → StoreResult f stack room hs c s next_series
            (compress_value f b1 tstamp (tstamp - s.tstamp) x c)
    unfolding compress_value save_check_point b0
    after_value b1 e1 le1 wi =
        subst
          (λ (t : f.Double).
            StoreResult f stack room hs c s next_series
              (elim (append_all (float_fields f (f.minus x t)) b1) [
                | ok b' ↦ accept f b' c tstamp (tstamp - s.tstamp) x
                | out_of_range b' ↦ roll_back f b' (dropped c)
                | out_of_fuel ↦ none
              ]))
          (sym rep.value_eq)
          (by_outcome (append_all fs b1)
            (append_all-RunOutcome fs b1 (float_fields-AllBytes f _) e1.valid)
            (RunOutcome-trans b0 b1 (append_all fs b1) e1 le1
              (append_all-RunOutcome fs b1 (float_fields-AllBytes f _) e1.valid))
            (append_all-Writes fs b1 (float_fields-AllBytes f _) e1.valid))
      where
        dropped : Compressor f → Compressor f
        dropped c = record c { prev_tstamp = tstamp; prev_delta = tstamp - s.tstamp }

        fs : List Field
        fs = float_fields f (f.minus x s.last_value)

        by_outcome :
            (r : Result BitSet)
            → RunOutcome b1 r
            → RunOutcome b0 r
            → Written b1 fs r
            → StoreResult f stack room hs c s next_series (elim r [
              | ok b' ↦ accept f b' c tstamp (tstamp - s.tstamp) x
              | out_of_range b' ↦ roll_back f b' (dropped c)
              | out_of_fuel ↦ none
            ])
        by_outcome (ok b2) o1 o0 w = accepted b1 b2 e1 le1 o1.0 o1.1 wi w
        by_outcome (out_of_range b2) o1 o0 w =
            rolled_back f stack room hs c (dropped c) s next_series b2 rep refl refl refl o0
        by_outcome out_of_fuel o1 o0 w = absurd o1

    after_next : StoreResult f stack room hs c s next_series (compress_next f b0 tstamp x c)
    unfolding compress_next save_check_point b0 dod
    after_next =
        subst (λ (d : ℕ). goal c.prev_tstamp d) (sym rep.delta_eq)
          (subst (λ (t : ℕ). goal t s.delta) (sym rep.tstamp_eq)
            (by_outcome (append_all (int_fields dod) b0)
              (append_all-RunOutcome (int_fields dod) b0 (int_fields-AllBytes dod)
                (IsValid-saved c.bitset rep.valid))
              (append_all-Writes (int_fields dod) b0 (int_fields-AllBytes dod)
                (IsValid-saved c.bitset rep.valid))))
      where
        goal : ℕ → ℕ → Type 0
        goal t d =
            StoreResult f stack room hs c s next_series
              (elim (append_all
                (int_fields (to_signed (2 ^ 63) ((tstamp - t + 2 ^ 64 - d) % 2 ^ 64))) b0) [
                  | ok b' ↦ compress_value f b' tstamp (tstamp - t) x c
                  | out_of_range b' ↦ roll_back f b' c
                  | out_of_fuel ↦ none
                ])

        by_outcome :
            (r : Result BitSet)
            → RunOutcome b0 r
            → Written b0 (int_fields dod) r
            → StoreResult f stack room hs c s next_series (elim r [
              | ok b' ↦ compress_value f b' tstamp (tstamp - s.tstamp) x c
              | out_of_range b' ↦ roll_back f b' c
              | out_of_fuel ↦ none
            ])
        by_outcome (ok b1) o w = after_value b1 o.0 o.1 w
        by_outcome (out_of_range b1) o w =
            rolled_back f stack room hs c c s next_series b1 rep refl refl refl o
        by_outcome out_of_fuel o w = absurd o

  -- A compressor whose bits stand for a series of one data point or more, in a page of at most 16 KB, is given a
  -- further data point with a timestamp that fits. When `compress` returns true, its bits stand for the series with
  -- that data point, or for the same series when it is older than the last. When it returns false, the
  -- bits that are left are still read back as the series it had. The start
  -- and the page's size stay, and no restore fails.
  pub compress-store :
      (c : Compressor f) (s : Series f) (tstamp : ℕ) (x : f.Double)
      → Represents f stack room hs c s
      → tstamp < 2 ^ 64
      → length c.bitset.bits ≤ 2 ^ 14
      → StoreResult f stack room hs c s (store f tstamp x s) (compress f tstamp x c)
  unfolding compress store next_series save_check_point b0 StoreResult size_in_bits
  compress-store c s tstamp x rep small page =
      let n = rep.count in
      let m = rep.some_dps in
      let t = rep.tstamp_eq in
      let later : (c.dp_count == 0) ≡ false = ground arith in
      elim (Bool-cases (ltb tstamp c.prev_tstamp)) [
        | inl old ↦
            let older : ltb tstamp s.tstamp ≡ true = ground arith in
            rw (later, old, older)
              (
                refl,
                refl,
                record {
                  valid = IsValid-saved c.bitset rep.valid;
                  decodes =
                      Decodes-same f stack room hs c.bitset (save_check_point c.bitset)
                        c.start_tstamp s (λ k h. refl) refl rep.decodes;
                  count = rep.count;
                  some_dps = rep.some_dps;
                  size = rep.size;
                  tstamp_eq = rep.tstamp_eq;
                  delta_eq = rep.delta_eq;
                  value_eq = rep.value_eq;
                  tstamp_small = rep.tstamp_small;
                  delta_small = rep.delta_small;
                },
              )
        | inr new ↦ rw (later, new) (after_next c s rep tstamp x (ground arith) small page)
      ]
