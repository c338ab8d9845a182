-- ===== src/Compress/V3/Begin.antt =====
-- The first data point of Compressor_v3.
use ticktock.Prelude.{
  ℕ, ◌+◌, ◌-◌, ◌%◌, ◌^◌, ◌≤◌, ◌<◌, ◌≡◌, refl, ap, ◌∙◌, sym, subst, arith, true, false, ◌==◌,
  if◌then◌else◌, List, [], ◌∷◌, length, Option, some, none,
}
use ticktock.BitSet.{BitSet, Result, ok, out_of_range, out_of_fuel, size_in_bits, save_check_point}
use ticktock.BitSet.Bits.{IsBytes, IsValid}
use ticktock.BitSet.CheckPoint.{
  Field, append_all, append_all-RunOutcome, RunOutcome, Extends, IsValid-saved, RollsBack,
  rolls_back,
}
use ticktock.BitSet.Fields.{Writes, Writes-Kept, Written, append_all-Writes}
use ticktock.Compress.V3.{
  Floating, Compressor, Compressed, compress, compress1, roll_back, accept, first_fields,
}
use ticktock.Compress.V3.Store.{first_fields-AllBytes}
use ticktock.Compress.V3.FloatCode.{first-first_fields}
use ticktock.Compress.V3.Series.{Series, begin, here}
use ticktock.Compress.V3.Represents.{Decodes, Represents}

module _ (f : Floating) (stack : List ℕ) (room : 8 ≤ length stack) (hs : IsBytes stack) where
  -- A compressor without data points.
  pub record IsFresh (c : Compressor f) : Type 0 where
    pub valid : IsValid c.bitset
    pub none_stored : c.dp_count ≡ 0
    pub no_bits : size_in_bits c.bitset ≡ 0

  unfoldable pub BeginResult : Compressor f → Series f → Option (Compressed f) → Type 0
  BeginResult c s none = ⊥
  BeginResult c s (some o) =
      (o.compressor.start_tstamp ≡ c.start_tstamp)
      × (length o.compressor.bitset.bits ≡ length c.bitset.bits)
      × (if o.accepted then Represents f stack room hs o.compressor s else IsFresh o.compressor)

  module _ (c : Compressor f) (fresh : IsFresh c) (tstamp : ℕ) (x : f.Double)
      (after : c.start_tstamp ≤ tstamp) (near : tstamp < c.start_tstamp + 2 ^ 32)
      (small : tstamp < 2 ^ 64) where
    first_delta : ℕ
    first_delta = (tstamp + 2 ^ 64 - c.start_tstamp) % 2 ^ 32

    first_series : Series f
    first_series = begin f c.start_tstamp tstamp x

    first_accepted :
        (b : BitSet)
        → Extends (save_check_point c.bitset) b
        → Writes b (size_in_bits c.bitset) (first_fields f first_delta x) (size_in_bits b)
        → BeginResult c first_series (accept f b c tstamp first_delta x)
    unfolding BeginResult Decodes first_delta first_series begin first_fields Writes
        save_check_point
    first_accepted b e w =
        let n = fresh.none_stored in
        let total : size_in_bits c.bitset + 32 + 64 ≡ size_in_bits b = w.1.1 in
        let same : first_delta ≡ tstamp - c.start_tstamp = omega arith in
        let from : Writes b 0 (first_fields f first_delta x) (size_in_bits b) =
          subst (λ (p : ℕ). Writes b p (first_fields f first_delta x) (size_in_bits b))
            fresh.no_bits w in
        (
          refl,
          e.frame.length_eq,
          record {
            valid = e.valid;
            decodes = λ b' keeps.
                let size = keeps.size in
                let r =
                  first-first_fields f b' keeps.valid c.start_tstamp first_delta (size_in_bits b) x
                    (omega arith) size
                    (Writes-Kept b b' 0 (first_fields f first_delta x) (size_in_bits b) keeps.kept
                      (omega arith) from) in
                let at : (c.start_tstamp + first_delta) % 2 ^ 64 ≡ tstamp = omega arith in
                (
                  r.0,
                  r.0,
                  r.1,
                  r.2,
                  here,
                  record {
                    at = r.3;
                    in_byte = r.4;
                    dps_eq = r.5 ∙ ap (λ (t : ℕ). (t, x) ∷ []) at;
                    delta_eq = r.6 ∙ same;
                    tstamp_eq = r.7 ∙ at;
                    value_eq = r.8;
                  },
                );
            count = omega arith;
            some_dps = omega arith;
            size = omega arith;
            tstamp_eq = refl;
            delta_eq = same;
            value_eq = refl;
            tstamp_small = small;
            delta_small = omega arith;
          },
        )

    first_refused :
        (b : BitSet)
        → Extends (save_check_point c.bitset) b
        → BeginResult c first_series (roll_back f b c)
    unfolding BeginResult roll_back RollsBack
    first_refused b e =
        let r = rolls_back c.bitset b fresh.valid e in
        subst
          (λ (o : Option BitSet). BeginResult c first_series (elim o [
            | none ↦ none
            | some b ↦
                some (record {
                  compressor = record c { bitset = b; is_full = true };
                  accepted = false;
                })
          ]))
          (sym r.1)
          (
            refl,
            r.3,
            record { valid = r.5; none_stored = fresh.none_stored; no_bits = r.2 ∙ fresh.no_bits },
          )

    -- The first data point, from the start of the file on: it is stored exactly, or refused and the
    -- compressor is still without data points.
    pub compress-begin : BeginResult c (begin f c.start_tstamp tstamp x) (compress f tstamp x c)
    unfolding compress compress1 first_delta first_series save_check_point size_in_bits
    compress-begin =
        let zero : (c.dp_count == 0) ≡ true = let n = fresh.none_stored in ground arith in
        rw zero (
          by_outcome (append_all fs b0)
            (append_all-RunOutcome fs b0 (first_fields-AllBytes f first_delta x)
              (IsValid-saved c.bitset fresh.valid))
            (append_all-Writes fs b0 (first_fields-AllBytes f first_delta x)
              (IsValid-saved c.bitset fresh.valid)))
      where
        b0 : BitSet
        b0 = save_check_point c.bitset

        fs : List Field
        fs = first_fields f first_delta x

        by_outcome :
            (r : Result BitSet)
            → RunOutcome b0 r
            → Written b0 fs r
            → BeginResult c first_series (elim r [
              | ok b' ↦ accept f b' c tstamp first_delta x
              | out_of_range b' ↦ roll_back f b' c
              | out_of_fuel ↦ none
            ])
        by_outcome (ok b) o w = first_accepted b o.0 w
        by_outcome (out_of_range b) o w = first_refused b o
        by_outcome out_of_fuel o w = absurd o
