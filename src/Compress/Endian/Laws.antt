-- ===== src/Compress/Endian/Laws.antt =====
-- Each of the byte codecs of the parent gives back the integers that its width can hold.
use ticktock.Prelude.{
  ℕ, ◌+◌, ◌*◌, ◌/◌, ◌%◌, ◌^◌, ◌≤◌, ◌<◌, ◌≡◌, refl, arith, ap, bit_and, bit_or, true, ◌⊎◌, ◌-◌,
}
use ticktock.Prelude.{List, ◌++◌, some, length, ℤ, to_unsigned, fits, pos, if◌then◌else◌, ltb}
use ticktock.Prelude.Bits.{bit_and_two_pow, bit_or_fields}
use ticktock.Compress.Endian.{byte, swap16, swap32, swap64, extend24, extend40}
use ticktock.Compress.Endian.{
  compress_int16, compress_int24, compress_int32, compress_int40, compress_int64,
}
use ticktock.Compress.Endian.{
  uncompress_int16, uncompress_int24, uncompress_int32, uncompress_int40, uncompress_int64,
}
use ticktock.Compress.Endian.{uncompress_uint16, uncompress_uint24, uncompress_uint32}

swap32_byte0 : (x : ℕ) → byte (swap32 x) 0 ≡ byte x 3
unfolding swap32
swap32_byte0 x = omega arith

swap32_byte1 : (x : ℕ) → byte (swap32 x) 1 ≡ byte x 2
unfolding swap32
swap32_byte1 x = omega arith

swap32_byte2 : (x : ℕ) → byte (swap32 x) 2 ≡ byte x 1
unfolding swap32
swap32_byte2 x = omega arith

swap32_byte3 : (x : ℕ) → byte (swap32 x) 3 ≡ byte x 0
unfolding swap32
swap32_byte3 x = omega arith

swap64_byte0 : (x : ℕ) → byte (swap64 x) 0 ≡ byte x 7
unfolding swap64
swap64_byte0 x = omega arith

swap64_byte4 : (x : ℕ) → byte (swap64 x) 4 ≡ byte x 3
unfolding swap64
swap64_byte4 x = omega arith

pub uncompress-compress_int16 :
    (n : ℤ) (rest : List ℕ)
    → fits (2 ^ 15) n ≡ true
    → uncompress_int16 (compress_int16 n ++ rest) ≡ some n
unfolding uncompress_int16 compress_int16 swap16
uncompress-compress_int16 n rest h = ground arith

pub uncompress-compress_int32 :
    (n : ℤ) (rest : List ℕ)
    → fits (2 ^ 31) n ≡ true
    → uncompress_int32 (compress_int32 n ++ rest) ≡ some n
unfolding uncompress_int32 compress_int32 swap32
uncompress-compress_int32 n rest h = ground arith

pub swap64-swap64 : (x : ℕ) → x < 2 ^ 64 → swap64 (swap64 x) ≡ x
unfolding swap64
swap64-swap64 x h = omega arith

-- The test of the sign bit, and the sign extension, as arithmetic.
bit_15 : (x : ℕ) → bit_and x 0x00008000 ≡ x / 2 ^ 15 % 2 * 2 ^ 15
bit_15 x = bit_and_two_pow 15 x

bit_31 : (x : ℕ) → bit_and x 0x0000000080000000 ≡ x / 2 ^ 31 % 2 * 2 ^ 31
bit_31 x = bit_and_two_pow 31 x

extend24_lem :
    (b0 y : ℕ)
    → b0 < 256
    → extend24 (b0 * 2 ^ 8 + y * 2 ^ 16)
      ≡ (if ltb b0 128 then b0 * 2 ^ 8 + y * 2 ^ 16 else b0 * 2 ^ 8 + y * 2 ^ 16 + 255)
unfolding extend24
extend24_lem b0 y h =
    let x = b0 * 2 ^ 8 + y * 2 ^ 16 in
    let e : x ≡ (b0 + y * 2 ^ 8) * 2 ^ 8 = omega arith in
    ground (arith, bit_15 x, ap (λ (t : ℕ). bit_or t 255) e, bit_or_fields 8 (b0 + y * 2 ^ 8) 255)

extend40_lem :
    (b0 y : ℕ)
    → b0 < 256
    → extend40 (b0 * 2 ^ 24 + y * 2 ^ 32)
      ≡ (if ltb b0 128 then b0 * 2 ^ 24 + y * 2 ^ 32 else b0 * 2 ^ 24 + y * 2 ^ 32 + 0xFFFFFF)
unfolding extend40
extend40_lem b0 y h =
    let x = b0 * 2 ^ 24 + y * 2 ^ 32 in
    let e : x ≡ (b0 + y * 2 ^ 8) * 2 ^ 24 = omega arith in
    ground (
      arith,
      bit_31 x,
      ap (λ (t : ℕ). bit_or t 0xFFFFFF) e,
      bit_or_fields 24 (b0 + y * 2 ^ 8) 0xFFFFFF,
    )

swap32-lt : (x : ℕ) → swap32 x < 2 ^ 32
unfolding swap32
swap32-lt x = omega arith

pub swap64-lt : (x : ℕ) → swap64 x < 2 ^ 64
unfolding swap64
swap64-lt x = omega arith

-- The three low bytes of a word, sign-extended in reverse order, give the word back.
int24_word :
    (u : ℕ)
    → (u < 2 ^ 23) ⊎ ((2 ^ 32 - 2 ^ 23 ≤ u) × (u < 2 ^ 32))
    → swap32 (
        extend24
          (byte (swap32 u) 1 * 2 ^ 8 + byte (swap32 u) 2 * 2 ^ 16 + byte (swap32 u) 3 * 2 ^ 24))
      ≡ u
int24_word u h =
    let b0 = byte u 2 in
    let y = byte u 1 + byte u 0 * 2 ^ 8 in
    let e : byte (swap32 u) 1 * 2 ^ 8 + byte (swap32 u) 2 * 2 ^ 16 + byte (swap32 u) 3 * 2 ^ 24
        ≡ b0 * 2 ^ 8 + y * 2 ^ 16 =
      omega (arith, swap32_byte1 u, swap32_byte2 u, swap32_byte3 u) in
    rw (e, extend24_lem b0 y (omega arith)) (unfold swap32 in ground arith)

pub uncompress-compress_int24 :
    (n : ℤ) (rest : List ℕ)
    → fits (2 ^ 23) n ≡ true
    → uncompress_int24 (compress_int24 n ++ rest) ≡ some n
unfolding uncompress_int24 compress_int24
uncompress-compress_int24 n rest h =
    rw (int24_word (to_unsigned 32 n) (ground arith)) (ground arith)

bytes_join :
    (x : ℕ)
    → x < 2 ^ 64
    → byte x 0
        + byte x 1 * 2 ^ 8
        + byte x 2 * 2 ^ 16
        + byte x 3 * 2 ^ 24
        + byte x 4 * 2 ^ 32
        + byte x 5 * 2 ^ 40
        + byte x 6 * 2 ^ 48
        + byte x 7 * 2 ^ 56
      ≡ x
bytes_join x h = omega arith

pub uncompress-compress_int64 :
    (n : ℤ) (rest : List ℕ)
    → fits (2 ^ 63) n ≡ true
    → uncompress_int64 (compress_int64 n ++ rest) ≡ some n
unfolding uncompress_int64 compress_int64
uncompress-compress_int64 n rest h =
    let u = to_unsigned 64 n in
    rw (bytes_join (swap64 u) (swap64-lt u), swap64-swap64 u (ground arith)) (ground arith)

int40_word :
    (u : ℕ)
    → (u < 2 ^ 39) ⊎ ((2 ^ 64 - 2 ^ 39 ≤ u) × (u < 2 ^ 64))
    → swap64 (
        extend40 (
          byte (swap64 u) 3 * 2 ^ 24
          + byte (swap64 u) 4 * 2 ^ 32
          + byte (swap64 u) 5 * 2 ^ 40
          + byte (swap64 u) 6 * 2 ^ 48
          + byte (swap64 u) 7 * 2 ^ 56))
      ≡ u
int40_word u h =
    let b0 = byte u 4 in
    let y = byte u 3 + byte u 2 * 2 ^ 8 + byte u 1 * 2 ^ 16 + byte u 0 * 2 ^ 24 in
    let e : byte (swap64 u) 3 * 2 ^ 24
          + byte (swap64 u) 4 * 2 ^ 32
          + byte (swap64 u) 5 * 2 ^ 40
          + byte (swap64 u) 6 * 2 ^ 48
          + byte (swap64 u) 7 * 2 ^ 56
        ≡ b0 * 2 ^ 24 + y * 2 ^ 32 =
      unfold swap64 in omega arith in
    rw (e, extend40_lem b0 y (omega arith)) (unfold swap64 in ground arith)

pub uncompress-compress_int40 :
    (n : ℤ) (rest : List ℕ)
    → fits (2 ^ 39) n ≡ true
    → uncompress_int40 (compress_int40 n ++ rest) ≡ some n
unfolding uncompress_int40 compress_int40
uncompress-compress_int40 n rest h =
    rw (int40_word (to_unsigned 64 n) (ground arith)) (ground arith)

-- The unsigned readers give back what the signed writers wrote of an unsigned value in range.
pub uncompress-compress_uint16 :
    (n : ℕ) (rest : List ℕ)
    → n < 2 ^ 16
    → uncompress_uint16 (compress_int16 (pos n) ++ rest) ≡ some n
unfolding uncompress_uint16 compress_int16 swap16 swap32
uncompress-compress_uint16 n rest h = ground arith

pub uncompress-compress_uint24 :
    (n : ℕ) (rest : List ℕ)
    → n < 2 ^ 24
    → uncompress_uint24 (compress_int24 (pos n) ++ rest) ≡ some n
unfolding uncompress_uint24 compress_int24 swap32
uncompress-compress_uint24 n rest h = ground arith

pub uncompress-compress_uint32 :
    (n : ℕ) (rest : List ℕ)
    → n < 2 ^ 32
    → uncompress_uint32 (compress_int32 (pos n) ++ rest) ≡ some n
unfolding uncompress_uint32 compress_int32 swap32
uncompress-compress_uint32 n rest h = ground arith

-- The widths.
pub length-compress_int16 : (n : ℤ) → length (compress_int16 n) ≡ 2
unfolding compress_int16
length-compress_int16 n = refl

pub length-compress_int24 : (n : ℤ) → length (compress_int24 n) ≡ 3
unfolding compress_int24
length-compress_int24 n = refl

pub length-compress_int32 : (n : ℤ) → length (compress_int32 n) ≡ 4
unfolding compress_int32
length-compress_int32 n = refl

pub length-compress_int40 : (n : ℤ) → length (compress_int40 n) ≡ 5
unfolding compress_int40
length-compress_int40 n = refl

pub length-compress_int64 : (n : ℤ) → length (compress_int64 n) ≡ 8
unfolding compress_int64
length-compress_int64 n = refl
