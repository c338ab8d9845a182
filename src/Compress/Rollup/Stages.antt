-- ===== src/Compress/Rollup/Stages.antt =====
-- Each stage of `compress` in terms of the codes, and each stage of `uncompress` on the bytes of a code.
use ticktock.Prelude.{
  ℕ, ◌+◌, ◌-◌, ◌*◌, ◌^◌, ◌≤◌, ◌<◌, ◌≡◌, refl, inl, inr, Bool-cases, ltb, false, arith, bit_and,
  bit_or, true, leb, List, ◌++◌, ℤ, pos, fits, length, drop,
}
use ticktock.Prelude.Bits.{bit_or-zero}
use ticktock.Compress.Endian.Laws.{
  length-compress_int16, length-compress_int24, length-compress_int32, uncompress-compress_uint16,
  uncompress-compress_uint24, uncompress-compress_uint32,
}
use ticktock.Compress.Rollup.{
  Rounding, Written, Entry, done, compress_tid, compress_cnt, compress_min, compress_max,
  compress_sum, uncompress_tid, uncompress_cnt, uncompress_min, uncompress_max, uncompress_sum,
}
use ticktock.Compress.Rollup.Codes.{
  min_code, min_bytes, sum_code, sum_bytes, min_cases, sum_cases, tid_code, tid_bytes, cnt_code,
  cnt_bytes,
}

pub compress_min_lem :
    (n : ℤ) (w : Written)
    → compress_min n w
      ≡ record { flag = bit_or w.flag (min_code n * 16); bytes = w.bytes ++ min_bytes n }
unfolding compress_min min_code min_bytes
compress_min_lem n w = ground (arith, bit_or-zero w.flag)

pub compress_max_lem :
    (n : ℤ) (w : Written)
    → compress_max n w
      ≡ record { flag = bit_or w.flag (sum_code n * 4); bytes = w.bytes ++ sum_bytes n }
unfolding compress_max sum_code sum_bytes
compress_max_lem n w = ground (arith, bit_or-zero w.flag)

pub compress_sum_lem :
    (n : ℤ) (w : Written)
    → compress_sum n w
      ≡ record { flag = bit_or w.flag (sum_code n); bytes = w.bytes ++ sum_bytes n }
unfolding compress_sum sum_code sum_bytes
compress_sum_lem n w = ground (arith, bit_or-zero w.flag)

module _ (p : Rounding) (buff : List ℕ) (size flag : ℕ) (e : Entry p.Double) (len : ℕ) (n : ℤ)
    (rest : List ℕ) (h : fits (2 ^ 63) n ≡ true) where
  pub uncompress_min_lem :
      bit_and flag 0x30 ≡ min_code n * 16
      → drop len buff ≡ min_bytes n ++ rest
      → 8 ≤ size - len
      → uncompress_min p buff size flag e len
        ≡ done (record e { min = p.unscale n }) (len + length (min_bytes n))
  unfolding uncompress_min
  uncompress_min_lem code bytes room =
      let long : ltb (size - len) 8 ≡ false = ground arith in
      rw (long, bytes, code)
        (elim (min_cases n rest h) [
          | inl (c, s) ↦ rw (c, s.reads, s.long) refl
          | inr (inl (c, s)) ↦ rw (c, s.reads, s.long) refl
          | inr (inr (inl (c, s))) ↦ rw (c, s.reads, s.long) refl
          | inr (inr (inr (c, s))) ↦ rw (c, s.reads, s.long) refl
        ])

  pub uncompress_max_lem :
      bit_and flag 0x0C ≡ sum_code n * 4
      → drop len buff ≡ sum_bytes n ++ rest
      → 6 ≤ size - len
      → length (sum_bytes n) ≤ size - len
      → uncompress_max p buff size flag e len
        ≡ done (record e { max = p.unscale n }) (len + length (sum_bytes n))
  unfolding uncompress_max
  uncompress_max_lem code bytes room enough =
      let long : ltb (size - len) 6 ≡ false = ground arith in
      rw (long, bytes, code)
        (elim (sum_cases n rest h) [
          | inl (c, s) ↦ rw (c, s.reads, s.long) refl
          | inr (inl (c, s)) ↦ rw (c, s.reads, s.long) refl
          | inr (inr (inl (c, s))) ↦ rw (c, s.reads, s.long) refl
          | inr (inr (inr (c, s))) ↦
              let k = s.long in
              let longer : ltb (size - len) 8 ≡ false = ground arith in
              rw (c, longer, s.reads, s.long) refl
        ])

  pub uncompress_sum_lem :
      bit_and flag 0x03 ≡ sum_code n
      → drop len buff ≡ sum_bytes n ++ rest
      → length (sum_bytes n) ≤ size - len
      → uncompress_sum p buff size flag e len
        ≡ done (record e { sum = p.unscale n }) (len + length (sum_bytes n))
  unfolding uncompress_sum
  uncompress_sum_lem code bytes enough =
      rw (bytes, code)
        (elim (sum_cases n rest h) [
          | inl (c, s) ↦
              let k = s.long in
              let longer : ltb (size - len) 3 ≡ false = ground arith in
              rw (c, longer, s.reads, s.long) refl
          | inr (inl (c, s)) ↦
              let k = s.long in
              let longer : ltb (size - len) 4 ≡ false = ground arith in
              rw (c, longer, s.reads, s.long) refl
          | inr (inr (inl (c, s))) ↦
              let k = s.long in
              let longer : ltb (size - len) 5 ≡ false = ground arith in
              rw (c, longer, s.reads, s.long) refl
          | inr (inr (inr (c, s))) ↦
              let k = s.long in
              let longer : ltb (size - len) 8 ≡ false = ground arith in
              rw (c, longer, s.reads, s.long) refl
        ])

pub compress_tid_lem :
    (tid : ℕ) → compress_tid tid ≡ record { flag = tid_code tid * 0x80; bytes = tid_bytes tid }
unfolding compress_tid tid_code tid_bytes
compress_tid_lem tid = ground arith

pub compress_cnt_lem :
    (cnt : ℕ) (w : Written)
    → compress_cnt cnt w
      ≡ record { flag = bit_or w.flag (cnt_code cnt * 0x40); bytes = w.bytes ++ cnt_bytes cnt }
unfolding compress_cnt cnt_code cnt_bytes
compress_cnt_lem cnt w = ground (arith, bit_or-zero w.flag)

module _ {D : Type 0} (buff : List ℕ) (size flag : ℕ) (e : Entry D) (rest : List ℕ) where
  pub uncompress_tid_lem :
      (tid : ℕ)
      → tid < 2 ^ 32
      → bit_and flag 0x80 ≡ tid_code tid * 0x80
      → drop 1 buff ≡ tid_bytes tid ++ rest
      → uncompress_tid buff flag e ≡ done (record e { tid = tid }) (1 + length (tid_bytes tid))
  unfolding uncompress_tid tid_code tid_bytes
  uncompress_tid_lem tid h code bytes = elim (Bool-cases (leb tid 0xFFFFFF)) [
    | inl small ↦
        rw
          (
            code,
            bytes,
            small,
            uncompress-compress_uint24 tid rest (ground arith),
            length-compress_int24,
          )
          refl
    | inr large ↦
        rw (code, bytes, large, uncompress-compress_uint32 tid rest h, length-compress_int32) refl
  ]

  pub uncompress_cnt_lem :
      (len cnt : ℕ)
      → cnt < 2 ^ 32
      → bit_and flag 0x40 ≡ cnt_code cnt * 0x40
      → drop len buff ≡ cnt_bytes cnt ++ rest
      → length (cnt_bytes cnt) ≤ size - len
      → uncompress_cnt buff size flag e len
        ≡ done (record e { cnt = cnt }) (len + length (cnt_bytes cnt))
  unfolding uncompress_cnt cnt_code cnt_bytes
  uncompress_cnt_lem len cnt h code bytes enough = elim (Bool-cases (leb cnt 0xFFFF)) [
    | inl small ↦
        let room : ltb (size - len) 2 ≡ false = ground (arith, length-compress_int16 (pos cnt)) in
        rw
          (
            code,
            bytes,
            small,
            room,
            uncompress-compress_uint16 cnt rest (ground arith),
            length-compress_int16,
          )
          refl
    | inr large ↦
        let room : ltb (size - len) 4 ≡ false = ground (arith, length-compress_int32 (pos cnt)) in
        rw (code, bytes, large, room, uncompress-compress_uint32 cnt rest h, length-compress_int32)
          refl
  ]
