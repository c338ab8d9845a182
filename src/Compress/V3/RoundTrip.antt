-- ===== src/Compress/V3/RoundTrip.antt =====
-- What Compressor_v3 stores by calls of `compress`, `uncompress` reads.
use ticktock.Prelude.{
  ℕ, ◌+◌, ◌*◌, ◌^◌, ◌≤◌, ◌<◌, ◌≡◌, refl, ap, ◌∙◌, subst, inl, inr, arith, Bool-cases, false,
  if◌then◌else◌, List, [], ◌∷◌, length, Option, some, none,
}
use ticktock.BitSet.{size_in_bits, is_empty}
use mathlib.Core.Option.{some-injective, none-ne-some}
use ticktock.BitSet.Bits.{IsBytes}
use ticktock.Compress.V3.{
  Floating, Compressor, Compressed, Reader, finished, to_uncompressed, compress, read_all,
  uncompress,
}
use ticktock.Compress.V3.Series.{
  Series, begin, store, read_all_end, compress_all, store_all, AllSmall,
}
use ticktock.Compress.V3.Uncompress.{UncompressOutcome, uncompress-UncompressOutcome}
use ticktock.Compress.V3.Represents.{Decodes, Represents, StoreResult}
use ticktock.Compress.V3.Next.{compress-store}
use ticktock.Compress.V3.Begin.{IsFresh, BeginResult, compress-begin}

module _ (f : Floating) (stack : List ℕ) (room : 8 ≤ length stack) (hs : IsBytes stack) where
  -- A compressor that holds a series is read as that series: `uncompress` ends with its data points.
  pub uncompress-Represents :
      (fuel : ℕ) (c : Compressor f) (s : Series f)
      → Represents f stack room hs c s
      → 8 * length c.bitset.bits < fuel
      → (r : Reader f) × (uncompress f fuel stack c ≡ finished r) × (r.dps ≡ s.dps)
  unfolding uncompress Decodes is_empty size_in_bits
  uncompress-Represents fuel c s rep enough =
      let ends = uncompress-UncompressOutcome f fuel stack c rep.valid room hs enough in
      let d =
        rep.decodes c.bitset
          (record { valid = rep.valid; kept = λ k h. refl; size = omega arith }) in
      let z = rep.size in
      let m = rep.some_dps in
      let filled : is_empty c.bitset ≡ false = ground arith in
      let start : uncompress f fuel stack c
          ≡ to_uncompressed f (read_all f fuel c.bitset stack d.0) =
        rw (filled, d.3, uncompress) refl in
      elim (read_all_end f c.bitset rep.valid stack room hs d.0 d.1 s fuel d.4 d.5) [
        | inl out ↦
            absurd (subst (UncompressOutcome f c.bitset) (start ∙ ap (to_uncompressed f) out) ends)
        | inr on ↦ (d.1, start ∙ ap (to_uncompressed f) on, d.5.dps_eq)
      ]

  compress_all-Represents :
      (dps : List (ℕ × f.Double)) (c c' : Compressor f) (s : Series f)
      → Represents f stack room hs c s
      → AllSmall f dps
      → length c.bitset.bits ≤ 2 ^ 14
      → compress_all f dps c ≡ some c'
      → Represents f stack room hs c' (store_all f dps s)
        × (length c'.bitset.bits ≡ length c.bitset.bits)
  unfolding compress_all store_all AllSmall StoreResult
  compress_all-Represents [] c c' s rep small page e =
      subst
        (λ (t : Compressor f).
          Represents f stack room hs t s × (length t.bitset.bits ≡ length c.bitset.bits))
        (some-injective c c' e) (rep, refl)
  compress_all-Represents (dp ∷ dps) c c' s rep small page e =
      by_result (compress f dp.0 dp.1 c)
        (compress-store f stack room hs c s dp.0 dp.1 rep small.0 page) e
        (λ d. compress_all-Represents dps d c' (store f dp.0 dp.1 s))
    where
      by_result :
          (r : Option (Compressed f))
          → StoreResult f stack room hs c s (store f dp.0 dp.1 s) r
          → (elim r [
            | none ↦ none
            | some o ↦
                let rest = compress_all f dps o.compressor in if o.accepted then rest else none
          ])
            ≡ some c'
          → ((d : Compressor f)
              → Represents f stack room hs d (store f dp.0 dp.1 s)
              → AllSmall f dps
              → length d.bitset.bits ≤ 2 ^ 14
              → compress_all f dps d ≡ some c'
              → Represents f stack room hs c' (store_all f dps (store f dp.0 dp.1 s))
                × (length c'.bitset.bits ≡ length d.bitset.bits))
          → Represents f stack room hs c' (store_all f dps (store f dp.0 dp.1 s))
            × (length c'.bitset.bits ≡ length c.bitset.bits)
      by_result none h e next = absurd h
      by_result (some o) h e next = elim (Bool-cases o.accepted) [
        | inl taken ↦
            let h : (o.compressor.start_tstamp ≡ c.start_tstamp)
                × (length o.compressor.bitset.bits ≡ length c.bitset.bits)
                × Represents f stack room hs o.compressor (store f dp.0 dp.1 s) =
              rw taken at h in
            let l = h.1 in
            let g = next o.compressor h.2 small.1 (omega arith) (rw taken at e) in (g.0, g.1 ∙ l)
        | inr refused ↦ absurd (none-ne-some c' (rw refused at e))
      ]

  -- A series of data points, put into an empty compressor one after another without a refusal: then
  -- `uncompress` ends, and gives back the first data point exactly and each further one that is not
  -- older than the one before it at its exact timestamp, its value being what was read before it and
  -- the decoded difference of the two values given. This needs timestamps that fit, a page of at
  -- most 16 KB, whose data points the counter can count, and fuel for the bits of the page.
  pub uncompress-compress_all :
      (fuel : ℕ) (dp : ℕ × f.Double) (dps : List (ℕ × f.Double)) (c c' : Compressor f)
      → IsFresh f stack room hs c
      → c.start_tstamp ≤ dp.0
      → dp.0 < c.start_tstamp + 2 ^ 32
      → AllSmall f (dp ∷ dps)
      → length c.bitset.bits ≤ 2 ^ 14
      → 8 * length c.bitset.bits < fuel
      → compress_all f (dp ∷ dps) c ≡ some c'
      → (r : Reader f) × (uncompress f fuel stack c' ≡ finished r)
        × (r.dps ≡ (store_all f dps (begin f c.start_tstamp dp.0 dp.1)).dps)
  unfolding compress_all BeginResult AllSmall
  uncompress-compress_all fuel dp dps c c' fresh after near small page enough e =
      by_result (compress f dp.0 dp.1 c)
        (compress-begin f stack room hs c fresh dp.0 dp.1 after near small.0) e
    where
      s : Series f
      s = begin f c.start_tstamp dp.0 dp.1

      by_result :
          (r : Option (Compressed f))
          → BeginResult f stack room hs c s r
          → (elim r [
            | none ↦ none
            | some o ↦
                let rest = compress_all f dps o.compressor in if o.accepted then rest else none
          ])
            ≡ some c'
          → (r : Reader f) × (uncompress f fuel stack c' ≡ finished r)
            × (r.dps ≡ (store_all f dps s).dps)
      by_result none h e = absurd h
      by_result (some o) h e = elim (Bool-cases o.accepted) [
        | inl taken ↦
            let h : (o.compressor.start_tstamp ≡ c.start_tstamp)
                × (length o.compressor.bitset.bits ≡ length c.bitset.bits)
                × Represents f stack room hs o.compressor s =
              rw taken at h in
            let l = h.1 in
            let g =
              compress_all-Represents dps o.compressor c' s h.2 small.1 (omega arith)
                (rw taken at e) in
            let l' = g.1 in uncompress-Represents fuel c' (store_all f dps s) g.0 (omega arith)
        | inr refused ↦ absurd (none-ne-some c' (rw refused at e))
      ]
