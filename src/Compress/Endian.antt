-- ===== src/Compress/Endian.antt =====
-- The integers of src/core/compress.cpp in big-endian bytes: `compress_int16` to `compress_int64` and
-- their inverses. The host is little-endian, so htobe32 and be32toh reverse the bytes of a word, and
-- byte i of a word in memory is its i-th digit to base 256. A pointer into a buffer is the list of
-- the bytes from there on; `none` is a read behind the last of them.
pub mod Bytes
pub mod Laws
pub mod Total
use ticktock.Prelude.{ℕ, ◌+◌, ◌*◌, ◌/◌, ◌%◌, ◌^◌, bit_and, bit_or, ◌==◌, if◌then◌else◌}
use ticktock.Prelude.{List, [], ◌∷◌, Option, some, none, ℤ, to_unsigned, to_signed}

abbrev pub byte : ℕ → ℕ → ℕ
byte x i = x / 2 ^ (8 * i) % 256

unfoldable pub swap16 : ℕ → ℕ
swap16 x = byte x 0 * 2 ^ 8 + byte x 1

unfoldable pub swap32 : ℕ → ℕ
swap32 x = byte x 0 * 2 ^ 24 + byte x 1 * 2 ^ 16 + byte x 2 * 2 ^ 8 + byte x 3

unfoldable pub swap64 : ℕ → ℕ
swap64 x =
    byte x 0 * 2 ^ 56
    + byte x 1 * 2 ^ 48
    + byte x 2 * 2 ^ 40
    + byte x 3 * 2 ^ 32
    + byte x 4 * 2 ^ 24
    + byte x 5 * 2 ^ 16
    + byte x 6 * 2 ^ 8
    + byte x 7

unfoldable pub compress_int16 : ℤ → List ℕ
compress_int16 n = let x = swap16 (to_unsigned 16 n) in byte x 0 ∷ byte x 1 ∷ []

pub compress_int24 : ℤ → List ℕ
compress_int24 n = let x = swap32 (to_unsigned 32 n) in byte x 1 ∷ byte x 2 ∷ byte x 3 ∷ []

unfoldable pub compress_int32 : ℤ → List ℕ
compress_int32 n =
    let x = swap32 (to_unsigned 32 n) in byte x 0 ∷ byte x 1 ∷ byte x 2 ∷ byte x 3 ∷ []

pub compress_int40 : ℤ → List ℕ
compress_int40 n =
    let x = swap64 (to_unsigned 64 n) in byte x 3 ∷ byte x 4 ∷ byte x 5 ∷ byte x 6 ∷ byte x 7 ∷ []

unfoldable pub compress_int64 : ℤ → List ℕ
compress_int64 n =
    let x = swap64 (to_unsigned 64 n) in
    byte x 0 ∷ byte x 1 ∷ byte x 2 ∷ byte x 3 ∷ byte x 4 ∷ byte x 5 ∷ byte x 6 ∷ byte x 7 ∷ []

pub uncompress_int16 : List ℕ → Option ℤ
uncompress_int16 (b0 ∷ b1 ∷ _) = some (to_signed (2 ^ 15) (swap16 (b0 + b1 * 2 ^ 8)))
uncompress_int16 _ = none

-- `if (x & 0x00008000) x |= 0x000000FF;`
pub extend24 : ℕ → ℕ
extend24 x = if bit_and x 0x00008000 == 0 then x else bit_or x 0x000000FF

pub uncompress_int24 : List ℕ → Option ℤ
uncompress_int24 (b0 ∷ b1 ∷ b2 ∷ _) =
    some (to_signed (2 ^ 31) (swap32 (extend24 (b0 * 2 ^ 8 + b1 * 2 ^ 16 + b2 * 2 ^ 24))))
uncompress_int24 _ = none

pub uncompress_int32 : List ℕ → Option ℤ
uncompress_int32 (b0 ∷ b1 ∷ b2 ∷ b3 ∷ _) =
    some (to_signed (2 ^ 31) (swap32 (b0 + b1 * 2 ^ 8 + b2 * 2 ^ 16 + b3 * 2 ^ 24)))
uncompress_int32 _ = none

-- `if (x & 0x0000000080000000) x |= 0x0000000000FFFFFF;`
pub extend40 : ℕ → ℕ
extend40 x = if bit_and x 0x0000000080000000 == 0 then x else bit_or x 0x0000000000FFFFFF

pub uncompress_int40 : List ℕ → Option ℤ
uncompress_int40 (b0 ∷ b1 ∷ b2 ∷ b3 ∷ b4 ∷ _) = some (
    to_signed (2 ^ 63)
      (swap64 (extend40 (b0 * 2 ^ 24 + b1 * 2 ^ 32 + b2 * 2 ^ 40 + b3 * 2 ^ 48 + b4 * 2 ^ 56))))
uncompress_int40 _ = none

pub uncompress_int64 : List ℕ → Option ℤ
uncompress_int64 (b0 ∷ b1 ∷ b2 ∷ b3 ∷ b4 ∷ b5 ∷ b6 ∷ b7 ∷ _) = some (
    to_signed (2 ^ 63) (
      swap64 (
        b0
        + b1 * 2 ^ 8
        + b2 * 2 ^ 16
        + b3 * 2 ^ 24
        + b4 * 2 ^ 32
        + b5 * 2 ^ 40
        + b6 * 2 ^ 48
        + b7 * 2 ^ 56)))
uncompress_int64 _ = none

pub uncompress_uint16 : List ℕ → Option ℕ
uncompress_uint16 (b0 ∷ b1 ∷ _) = some (swap32 (b0 * 2 ^ 16 + b1 * 2 ^ 24))
uncompress_uint16 _ = none

pub uncompress_uint24 : List ℕ → Option ℕ
uncompress_uint24 (b0 ∷ b1 ∷ b2 ∷ _) = some (swap32 (b0 * 2 ^ 8 + b1 * 2 ^ 16 + b2 * 2 ^ 24))
uncompress_uint24 _ = none

pub uncompress_uint32 : List ℕ → Option ℕ
uncompress_uint32 (b0 ∷ b1 ∷ b2 ∷ b3 ∷ _) =
    some (swap32 (b0 + b1 * 2 ^ 8 + b2 * 2 ^ 16 + b3 * 2 ^ 24))
uncompress_uint32 _ = none
