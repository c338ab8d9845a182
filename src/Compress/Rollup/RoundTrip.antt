-- ===== src/Compress/Rollup/RoundTrip.antt =====
-- What RollupCompressor_v1 writes, it reads back.
use ticktock.Prelude.{
  ℕ, zero, suc, bit_or, ◌+◌, ◌*◌, ◌^◌, ◌≤◌, ◌<◌, ◌≡◌, refl, arith, ltb, false, ◌==◌, if◌then◌else◌,
  List, ◌∷◌, ◌++◌, length, length-append, drop, drop_at,
}
use mathlib.Core.List.{append_assoc}
use ticktock.Prelude.Bits.{bit_or-zero}
use ticktock.Compress.Rollup.{Rounding, Entry, done, compress, uncompress}
use ticktock.Compress.Rollup.Flags.{flags, flags_lem}
use ticktock.Compress.Rollup.Codes.{
  tid_code, tid_bytes, cnt_code, cnt_bytes, min_code, min_bytes, sum_code, sum_bytes, tid_code-lt,
  cnt_code-lt, min_code-lt, sum_code-lt, length-tid, length-cnt, length-min, length-sum,
}
use ticktock.Compress.Rollup.Stages.{
  compress_tid_lem, compress_cnt_lem, compress_min_lem, compress_max_lem, compress_sum_lem,
  uncompress_tid_lem, uncompress_cnt_lem, uncompress_min_lem, uncompress_max_lem,
  uncompress_sum_lem,
}

-- Where each field of a written entry starts.
module _ (f : ℕ) (tb cb mb xb sb rest : List ℕ) where
  abbrev whole : List ℕ
  whole = f ∷ (((((tb ++ cb) ++ mb) ++ xb) ++ sb) ++ rest)

  at_tid : drop 1 whole ≡ tb ++ (cb ++ (mb ++ (xb ++ (sb ++ rest))))
  at_tid = simp append_assoc

  at_cnt : drop (1 + length tb) whole ≡ cb ++ (mb ++ (xb ++ (sb ++ rest)))
  at_cnt = drop_at (f ∷ tb) _ whole _ (simp append_assoc) (omega arith)

  at_min : drop (1 + length tb + length cb) whole ≡ mb ++ (xb ++ (sb ++ rest))
  at_min =
      drop_at (f ∷ (tb ++ cb)) _ whole _ (simp append_assoc) (omega (arith, length-append tb cb))

  at_max : drop (1 + length tb + length cb + length mb) whole ≡ xb ++ (sb ++ rest)
  at_max =
      drop_at (f ∷ (tb ++ (cb ++ mb))) _ whole _ (simp append_assoc)
        (omega (arith, length-append tb (cb ++ mb), length-append cb mb))

  at_sum : drop (1 + length tb + length cb + length mb + length xb) whole ≡ sb ++ rest
  at_sum = drop_at (f ∷ (tb ++ (cb ++ (mb ++ xb)))) _ whole _ (simp append_assoc) (
      omega (
        arith,
        length-append tb (cb ++ (mb ++ xb)),
        length-append cb (mb ++ xb),
        length-append mb xb,
      ))

length-fields :
    (f : ℕ) (tb cb mb xb sb : List ℕ)
    → length (f ∷ ((((tb ++ cb) ++ mb) ++ xb) ++ sb))
      ≡ 1 + length tb + length cb + length mb + length xb + length sb
length-fields f tb cb mb xb sb = omega (
  arith,
  length-append (((tb ++ cb) ++ mb) ++ xb) sb,
  length-append ((tb ++ cb) ++ mb) xb,
  length-append (tb ++ cb) mb,
  length-append tb cb,
)

module _ (p : Rounding) where
  -- The entry that is read back: the statistics are rounded to the precision, and are not touched
  -- where the count is zero.
  abbrev pub restored : ℕ → ℕ → p.Double → p.Double → p.Double → Entry p.Double → Entry p.Double
  restored tid cnt min max sum e = if cnt == 0 then record e { tid = tid; cnt = cnt } else record {
    tid = tid;
    cnt = cnt;
    min = p.unscale (p.scale min);
    max = p.unscale (p.scale max);
    sum = p.unscale (p.scale sum);
  }

  compress_full :
      (tid cnt : ℕ) (min max sum : p.Double)
      → (cnt == 0) ≡ false
      → compress p tid cnt min max sum
        ≡ flags
            (tid_code tid)
            (cnt_code cnt)
            (min_code (p.scale min))
            (sum_code (p.scale max))
            (sum_code (p.scale sum))
          ∷ ((((tid_bytes tid ++ cnt_bytes cnt) ++ min_bytes (p.scale min))
                ++ sum_bytes (p.scale max))
              ++ sum_bytes (p.scale sum))
  unfolding compress
  compress_full tid cnt min max sum h =
      rw
        (
          h,
          compress_tid_lem tid,
          compress_cnt_lem cnt,
          compress_min_lem (p.scale min),
          compress_max_lem (p.scale max),
          compress_sum_lem (p.scale sum),
        )
        refl

  uncompress_full :
      (tid cnt : ℕ) (min max sum : p.Double) (rest : List ℕ) (size : ℕ) (e : Entry p.Double)
      → tid < 2 ^ 32
      → cnt < 2 ^ 32
      → (cnt == 0) ≡ false
      → length (compress p tid cnt min max sum) ≤ size
      → uncompress p (compress p tid cnt min max sum ++ rest) size e
        ≡ done (restored tid cnt min max sum e) (length (compress p tid cnt min max sum))
  unfolding uncompress
  uncompress_full tid cnt min max sum rest size e ht hc h room =
      let n = p.scale min in
      let x = p.scale max in
      let s = p.scale sum in
      let tb = tid_bytes tid in
      let cb = cnt_bytes cnt in
      let mb = min_bytes n in
      let xb = sum_bytes x in
      let sb = sum_bytes s in
      let f = flags (tid_code tid) (cnt_code cnt) (min_code n) (sum_code x) (sum_code s) in
      let full = compress_full tid cnt min max sum h in
      let fl =
        flags_lem (tid_code tid) (cnt_code cnt) (min_code n) (sum_code x) (sum_code s)
          (tid_code-lt tid) (cnt_code-lt cnt) (min_code-lt n) (sum_code-lt x) (sum_code-lt s) in
      let lens = length-fields f tb cb mb xb sb in
      let lt = length-tid tid in
      let lc = length-cnt cnt in
      let lm = length-min n in
      let lx = length-sum x in
      let ls = length-sum s in
      let room' = rw full at room in
      let six : ltb size 6 ≡ false = ground arith in
      let buff = whole f tb cb mb xb sb rest in
      let e1 : Entry p.Double = record e { tid = tid } in
      let e2 : Entry p.Double = record e1 { cnt = cnt } in
      let e3 : Entry p.Double = record e2 { min = p.unscale n } in
      let e4 : Entry p.Double = record e3 { max = p.unscale x } in
      rw
        (
          full,
          six,
          uncompress_tid_lem buff size f e _ tid ht fl.0 (at_tid f tb cb mb xb sb rest),
          uncompress_cnt_lem buff size f e1 _ (1 + length tb) cnt hc fl.1
              (at_cnt f tb cb mb xb sb rest) (omega arith),
          h,
          uncompress_min_lem p buff size f e2 (1 + length tb + length cb) n _ (p.scale_fits min)
              fl.2 (at_min f tb cb mb xb sb rest) (omega arith),
          uncompress_max_lem p buff size f e3 (1 + length tb + length cb + length mb) x _
              (p.scale_fits max) fl.3 (at_max f tb cb mb xb sb rest) (omega arith) (omega arith),
          uncompress_sum_lem p buff size f e4 (1 + length tb + length cb + length mb + length xb) s
              _ (p.scale_fits sum) fl.4 (at_sum f tb cb mb xb sb rest) (omega arith),
          lens,
        )
        refl

  compress_empty :
      (tid : ℕ) (min max sum : p.Double)
      → compress p tid 0 min max sum
        ≡ flags (tid_code tid) (cnt_code 0) 0 0 0 ∷ (tid_bytes tid ++ cnt_bytes 0)
  unfolding compress
  compress_empty tid min max sum =
      let f = bit_or (tid_code tid * 0x80) (cnt_code 0 * 0x40) in
      rw (compress_tid_lem tid, compress_cnt_lem 0, bit_or-zero f, bit_or-zero f, bit_or-zero f)
        refl

  uncompress_empty :
      (tid : ℕ) (min max sum : p.Double) (rest : List ℕ) (size : ℕ) (e : Entry p.Double)
      → tid < 2 ^ 32
      → length (compress p tid 0 min max sum) ≤ size
      → uncompress p (compress p tid 0 min max sum ++ rest) size e
        ≡ done (restored tid 0 min max sum e) (length (compress p tid 0 min max sum))
  unfolding uncompress
  uncompress_empty tid min max sum rest size e ht room =
      let tb = tid_bytes tid in
      let cb = cnt_bytes 0 in
      let f = flags (tid_code tid) (cnt_code 0) 0 0 0 in
      let empty = compress_empty tid min max sum in
      let fl =
        flags_lem (tid_code tid) (cnt_code 0) 0 0 0 (tid_code-lt tid) (cnt_code-lt 0) (omega arith)
          (omega arith) (omega arith) in
      let lens = length-append tb cb in
      let lt = length-tid tid in
      let lc = length-cnt 0 in
      let room' = rw empty at room in
      let six : ltb size 6 ≡ false = ground arith in
      let buff = f ∷ ((tb ++ cb) ++ rest) in
      let e1 : Entry p.Double = record e { tid = tid } in
      let at_tid : drop 1 buff ≡ tb ++ (cb ++ rest) = simp append_assoc in
      let at_cnt : drop (1 + length tb) buff ≡ cb ++ rest =
        drop_at (f ∷ tb) _ buff _ (simp append_assoc) (omega arith) in
      let processed : 1 + length tb + length cb ≡ suc (length (tb ++ cb)) = omega arith in
      rw
        (
          empty,
          six,
          uncompress_tid_lem buff size f e _ tid ht fl.0 at_tid,
          uncompress_cnt_lem buff size f e1 _ (1 + length tb) 0 (omega arith) fl.1 at_cnt
              (omega arith),
          processed,
        )
        refl

  -- Decoding what was encoded gives the entry back, and the number of bytes that were written,
  -- whatever follows in the buffer, as long as the size covers the encoding. The identifier and the
  -- count are exact, and each statistic is the one that `scale` and `unscale` round it to; where
  -- the count is zero the statistics of the entry keep their values.
  pub uncompress-compress :
      (tid cnt : ℕ) (min max sum : p.Double) (rest : List ℕ) (size : ℕ) (e : Entry p.Double)
      → tid < 2 ^ 32
      → cnt < 2 ^ 32
      → length (compress p tid cnt min max sum) ≤ size
      → uncompress p (compress p tid cnt min max sum ++ rest) size e
        ≡ done (restored tid cnt min max sum e) (length (compress p tid cnt min max sum))
  uncompress-compress tid zero min max sum rest size e ht hc room =
      uncompress_empty tid min max sum rest size e ht room
  uncompress-compress tid (suc cnt) min max sum rest size e ht hc room =
      uncompress_full tid (suc cnt) min max sum rest size e ht hc (ground arith) room

  -- An encoding takes from 6 to 33 bytes.
  pub length-compress :
      (tid cnt : ℕ) (min max sum : p.Double)
      → (6 ≤ length (compress p tid cnt min max sum))
        × (length (compress p tid cnt min max sum) ≤ 33)
  length-compress tid zero min max sum = rw (compress_empty tid min max sum) (
      omega (
        arith,
        length-append (tid_bytes tid) (cnt_bytes 0),
        length-tid tid,
        length-cnt 0,
        tid_code-lt tid,
        cnt_code-lt 0,
      ))
  length-compress tid (suc cnt) min max sum =
      rw (compress_full tid (suc cnt) min max sum (ground arith)) (
        omega (
          arith,
          length-fields 0 (tid_bytes tid) (cnt_bytes (suc cnt)) (min_bytes (p.scale min))
              (sum_bytes (p.scale max)) (sum_bytes (p.scale sum)),
          length-tid tid,
          length-cnt (suc cnt),
          length-min (p.scale min),
          length-sum (p.scale max),
          length-sum (p.scale sum),
          tid_code-lt tid,
          cnt_code-lt (suc cnt),
        ))
