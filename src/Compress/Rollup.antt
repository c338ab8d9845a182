-- ===== src/Compress/Rollup.antt =====
-- RollupCompressor_v1 of src/core/compress.cpp. The double arithmetic is a parameter: `scale` is
-- std::llround(x * precision) and `unscale` is (double)n / precision. The bytes that `compress` has
-- written behind buff[0] are a list that grows, so the index it returns is their number and one.
pub mod Codes
pub mod Flags
pub mod Stages
pub mod RoundTrip
pub mod Bounds
mod Tests
use ticktock.Prelude.{◌≡◌, true, ℕ, ◌+◌, ◌-◌, ◌^◌, bit_and, bit_or, ltb, leb, ◌==◌, if◌then◌else◌}
use ticktock.Prelude.{
  List, [], ◌∷◌, ◌++◌, Option, some, none, ℤ, pos, fits, length, drop, get_elem?,
}
use ticktock.Compress.Endian.{compress_int16, compress_int24, compress_int32, compress_int40}
use ticktock.Compress.Endian.{compress_int64, uncompress_int16, uncompress_int24}
use ticktock.Compress.Endian.{uncompress_int32, uncompress_int40, uncompress_int64}
use ticktock.Compress.Endian.{uncompress_uint16, uncompress_uint24, uncompress_uint32}

-- The double arithmetic at one precision. llround gives an integer of 64 bits.
pub record Rounding : Type 1 where
  pub Double : Type 0
  pub scale : Double → ℤ
  pub unscale : ℤ → Double
  pub scale_fits : (x : Double) → fits (2 ^ 63) (scale x) ≡ true

-- The buffer that is being written: buff[0], and the bytes from buff[1] up to buff[idx - 1].
pub record Written : Type 0 where
  pub flag : ℕ
  pub bytes : List ℕ

abbrev pub add : List ℕ → Written → Written
add bs w = record w { bytes = w.bytes ++ bs }

abbrev pub mark : ℕ → Written → Written
mark bits w = record w { flag = bit_or w.flag bits }

pub compress_tid : ℕ → Written
compress_tid tid =
    if leb tid 0xFFFFFF
    then record { flag = 0x00; bytes = compress_int24 (pos tid) }
    else record { flag = 0x80; bytes = compress_int32 (pos tid) }

pub compress_cnt : ℕ → Written → Written
compress_cnt cnt w =
    if leb cnt 0xFFFF
    then add (compress_int16 (pos cnt)) w
    else add (compress_int32 (pos cnt)) (mark 0x40 w)

pub compress_min : ℤ → Written → Written
compress_min n w =
    if fits (2 ^ 15) n
    then add (compress_int16 n) w
    else if fits (2 ^ 23) n
    then add (compress_int24 n) (mark 0x10 w)
    else if fits (2 ^ 31) n
    then add (compress_int32 n) (mark 0x20 w)
    else add (compress_int64 n) (mark 0x30 w)

pub compress_max : ℤ → Written → Written
compress_max n w =
    if fits (2 ^ 23) n
    then add (compress_int24 n) w
    else if fits (2 ^ 31) n
    then add (compress_int32 n) (mark 0x04 w)
    else if fits (2 ^ 39) n
    then add (compress_int40 n) (mark 0x08 w)
    else add (compress_int64 n) (mark 0x0C w)

pub compress_sum : ℤ → Written → Written
compress_sum n w =
    if fits (2 ^ 23) n
    then add (compress_int24 n) w
    else if fits (2 ^ 31) n
    then add (compress_int32 n) (mark 0x01 w)
    else if fits (2 ^ 39) n
    then add (compress_int40 n) (mark 0x02 w)
    else add (compress_int64 n) (mark 0x03 w)

abbrev pub buffer : Written → List ℕ
buffer w = w.flag ∷ w.bytes

module _ (p : Rounding) where
  pub compress : ℕ → ℕ → p.Double → p.Double → p.Double → List ℕ
  compress tid cnt min max sum =
      let head = compress_cnt cnt (compress_tid tid) in
      if cnt == 0
      then buffer head
      else buffer (
          compress_sum (p.scale sum) (compress_max (p.scale max) (compress_min (p.scale min) head)))

-- struct rollup_entry.
pub record Entry (D : Type 0) : Type 0 where
  pub tid : ℕ
  pub cnt : ℕ
  pub min : D
  pub max : D
  pub sum : D

-- How `uncompress` ends: by a read behind the end of the buffer, by `return 0` with the fields set
-- so far, or with the entry and the number of bytes processed.
pub data Outcome (D : Type 0) : Type 0 where
  fault : Outcome D
  too_short : Entry D → Outcome D
  done : Entry D → ℕ → Outcome D

abbrev pub or_fault : {A : Type 0} {D : Type 0} → Option A → (A → Outcome D) → Outcome D
or_fault none k = fault
or_fault (some a) k = k a

abbrev pub and_then : {D : Type 0} → Outcome D → (Entry D → ℕ → Outcome D) → Outcome D
and_then fault k = fault
and_then (too_short e) k = too_short e
and_then (done e len) k = k e len

module _ {D : Type 0} where
  pub uncompress_tid : List ℕ → ℕ → Entry D → Outcome D
  uncompress_tid buff flag e =
      if bit_and flag 0x80 == 0
      then or_fault (uncompress_uint24 (drop 1 buff)) (λ t. done (record e { tid = t }) 4)
      else or_fault (uncompress_uint32 (drop 1 buff)) (λ t. done (record e { tid = t }) 5)

  pub uncompress_cnt : List ℕ → ℕ → ℕ → Entry D → ℕ → Outcome D
  uncompress_cnt buff size flag e len =
      if bit_and flag 0x40 == 0
      then (if ltb (size - len) 2
          then too_short e
          else or_fault (uncompress_uint16 (drop len buff))
              (λ c. done (record e { cnt = c }) (len + 2)))
      else (if ltb (size - len) 4
          then too_short e
          else or_fault (uncompress_uint32 (drop len buff))
              (λ c. done (record e { cnt = c }) (len + 4)))

module _ (p : Rounding) where
  abbrev pub Fields : Type 0
  Fields = Entry p.Double

  pub uncompress_min : List ℕ → ℕ → ℕ → Fields → ℕ → Outcome p.Double
  uncompress_min buff size flag e len =
      let stored = λ (k : ℕ) (n : ℤ). done (record e { min = p.unscale n }) (len + k) in
      if ltb (size - len) 8
      then too_short e
      else if bit_and flag 0x30 == 0x00
      then or_fault (uncompress_int16 (drop len buff)) (stored 2)
      else if bit_and flag 0x30 == 0x10
      then or_fault (uncompress_int24 (drop len buff)) (stored 3)
      else if bit_and flag 0x30 == 0x20
      then or_fault (uncompress_int32 (drop len buff)) (stored 4)
      else or_fault (uncompress_int64 (drop len buff)) (stored 8)

  pub uncompress_max : List ℕ → ℕ → ℕ → Fields → ℕ → Outcome p.Double
  uncompress_max buff size flag e len =
      let stored = λ (k : ℕ) (n : ℤ). done (record e { max = p.unscale n }) (len + k) in
      if ltb (size - len) 6
      then too_short e
      else if bit_and flag 0x0C == 0x00
      then or_fault (uncompress_int24 (drop len buff)) (stored 3)
      else if bit_and flag 0x0C == 0x04
      then or_fault (uncompress_int32 (drop len buff)) (stored 4)
      else if bit_and flag 0x0C == 0x08
      then or_fault (uncompress_int40 (drop len buff)) (stored 5)
      else if ltb (size - len) 8
      then too_short e
      else or_fault (uncompress_int64 (drop len buff)) (stored 8)

  pub uncompress_sum : List ℕ → ℕ → ℕ → Fields → ℕ → Outcome p.Double
  uncompress_sum buff size flag e len =
      let stored = λ (k : ℕ) (n : ℤ). done (record e { sum = p.unscale n }) (len + k) in
      if bit_and flag 0x03 == 0x00
      then (if ltb (size - len) 3
          then too_short e
          else or_fault (uncompress_int24 (drop len buff)) (stored 3))
      else if bit_and flag 0x03 == 0x01
      then (if ltb (size - len) 4
          then too_short e
          else or_fault (uncompress_int32 (drop len buff)) (stored 4))
      else if bit_and flag 0x03 == 0x02
      then (if ltb (size - len) 5
          then too_short e
          else or_fault (uncompress_int40 (drop len buff)) (stored 5))
      else (if ltb (size - len) 8
          then too_short e
          else or_fault (uncompress_int64 (drop len buff)) (stored 8))

  pub uncompress : List ℕ → ℕ → Fields → Outcome p.Double
  uncompress buff size e =
      if ltb size 6
      then too_short e
      else or_fault (get_elem? buff 0) λ flag. and_then (uncompress_tid buff flag e) λ e len.
        and_then (uncompress_cnt buff size flag e len) λ e len.
          if e.cnt == 0
          then done e len
          else and_then (uncompress_min buff size flag e len) λ e len.
            and_then (uncompress_max buff size flag e len)
              λ e len. uncompress_sum buff size flag e len
