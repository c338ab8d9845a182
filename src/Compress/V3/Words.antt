-- ===== src/Compress/V3/Words.antt =====
-- The sign extensions of Compressor_v3::uncompress_i: what `compress(int64_t)` stores of an integer in
-- 12 or 17 bits gives it back, whatever the other bits of the local variable.
use ticktock.Prelude.{
  ℕ, ◌+◌, ◌*◌, ◌/◌, ◌%◌, ◌^◌, ◌<◌, ◌≡◌, refl, arith, Bool, true, ◌&&◌, ◌==◌, bit_and, bit_or,
  if◌then◌else◌, List, [], ◌∷◌, get_or, ℤ, fits, to_signed,
}
use ticktock.Prelude.Bits.{
  for_all, for_all_lem, bit_and_parts, bit_or_parts, bit_and-zero, bit_or-zero,
}
use ticktock.Compress.Endian.{swap16, swap32, compress_int16, compress_int32}
use ticktock.Compress.V3.{extend12, extend17, word}

abbrev masks_ok : ℕ → Bool
masks_ok d =
    (bit_and d 8 == d / 8 % 2 * 8)
    && (bit_and d 7 == d % 8)
    && (bit_or d 0xF0 == 0xF0 + d % 16)
    && (bit_and d 0xFF == d)
    && (bit_and d 1 == d % 2)
    && (bit_or d 0xFF == 0xFF)
    && (bit_or d 0xFE == 0xFE + d % 2)

masks_table : for_all 256 masks_ok ≡ true
unfolding for_all
masks_table = refl

masks :
    (d : ℕ)
    → d < 256
    → (bit_and d 8 ≡ d / 8 % 2 * 8)
      × (bit_and d 7 ≡ d % 8)
      × (bit_or d 0xF0 ≡ 0xF0 + d % 16)
      × (bit_and d 0xFF ≡ d)
      × (bit_and d 1 ≡ d % 2)
      × (bit_or d 0xFF ≡ 0xFF)
      × (bit_or d 0xFE ≡ 0xFE + d % 2)
masks d h = let t = for_all_lem 256 masks_ok d masks_table h in ground arith

extend12_lem :
    (x y : ℕ)
    → x < 256
    → y < 256
    → extend12 (y * 2 ^ 8 + x)
      ≡ (if x / 8 % 2 == 0 then y * 2 ^ 8 + x % 8 else y * 2 ^ 8 + (240 + x % 16))
unfolding extend12
extend12_lem x y hx hy =
    let m = masks x hx in
    let n = masks y hy in
    let m0 = m.0 in
    let m1 = m.1 in
    let m2 = m.2 in
    let n3 = n.3 in
    let test = bit_and_parts 8 x y 8 0 hx (omega arith) in
    let clear = bit_and_parts 8 x y 7 0xFF hx (omega arith) in
    let fill = bit_or_parts 8 x y 0xF0 0 hx (omega arith) in
    let z = bit_and-zero y in let o = bit_or-zero y in ground arith

extend17_lem :
    (x y z w : ℕ)
    → x < 256
    → y < 256
    → z < 256
    → w < 256
    → extend17 ((w * 2 ^ 8 + z) * 2 ^ 16 + (y * 2 ^ 8 + x))
      ≡ (if y % 2 == 0 then (w * 2 ^ 8 + z) * 2 ^ 16 else (w * 2 ^ 8 + z) * 2 ^ 16 + 0xFFFF)
unfolding extend17
extend17_lem x y z w hx hy hz hw =
    let high = w * 2 ^ 8 + z in
    let low = y * 2 ^ 8 + x in
    let below : low < 2 ^ 16 = omega arith in
    let mx = masks x hx in
    let my = masks y hy in
    let mx5 = mx.5 in
    let my4 = my.4 in
    let my6 = my.6 in
    let mz = (masks z hz).3 in
    let mw = (masks w hw).3 in
    let test = bit_and_parts 16 low high 0x100 0 below (omega arith) in
    let test_low = bit_and_parts 8 x y 0 1 hx (omega arith) in
    let clear = bit_and_parts 16 low high 0 0xFFFF below (omega arith) in
    let clear_high = bit_and_parts 8 z w 0xFF 0xFF hz (omega arith) in
    let fill = bit_or_parts 16 low high 0xFEFF 0 below (omega arith) in
    let fill_low = bit_or_parts 8 x y 0xFF 0xFE hx (omega arith) in
    let zh = bit_and-zero high in
    let zl = bit_and-zero low in
    let zx = bit_and-zero x in let oh = bit_or-zero high in ground arith

-- A local variable of two bytes whose upper 4 bits are junk, and one of four bytes whose upper 15
-- bits are; below them stand the lowest bits of an integer, as the encoder stores them.
abbrev pub local12 : ℤ → ℕ → List ℕ
local12 n junk =
    let bytes = compress_int16 n in (junk * 16 + get_or bytes 0 0 % 16) ∷ get_or bytes 1 0 ∷ []

abbrev pub local17 : ℤ → ℕ → ℕ → List ℕ
local17 n junk more =
    let bytes = compress_int32 n in
    junk ∷ (more * 2 + get_or bytes 1 0 % 2) ∷ get_or bytes 2 0 ∷ get_or bytes 3 0 ∷ []

-- From the lower 12 bits of an integer that fits them, under any 4 bits, the sign extension of a
-- local of 16 bits gives the integer back.
pub sign_extend12 :
    (n : ℤ) (junk : ℕ)
    → junk < 16
    → fits 2048 n ≡ true
    → to_signed (2 ^ 15) (swap16 (extend12 (word (local12 n junk)))) ≡ n
unfolding compress_int16 swap16
sign_extend12 n junk hj h =
    let bytes = compress_int16 n in
    let x = junk * 16 + get_or bytes 0 0 % 16 in
    let y = get_or bytes 1 0 in
    let e : word (local12 n junk) ≡ y * 2 ^ 8 + x = omega arith in
    rw (e, extend12_lem x y (omega arith) (omega arith)) (ground arith)

-- From the lower 17 bits of an integer that fits them, under any 15 bits, the sign extension of a
-- local of 32 bits gives the integer back.
pub sign_extend17 :
    (n : ℤ) (junk more : ℕ)
    → junk < 256
    → more < 128
    → fits 65536 n ≡ true
    → to_signed (2 ^ 31) (swap32 (extend17 (word (local17 n junk more)))) ≡ n
unfolding compress_int32 swap32
sign_extend17 n junk more hj hm h =
    let bytes = compress_int32 n in
    let y = more * 2 + get_or bytes 1 0 % 2 in
    let z = get_or bytes 2 0 in
    let w = get_or bytes 3 0 in
    let e : word (local17 n junk more) ≡ (w * 2 ^ 8 + z) * 2 ^ 16 + (y * 2 ^ 8 + junk) =
      omega arith in
    rw (e, extend17_lem junk y z w hj (omega arith) (omega arith) (omega arith)) (ground arith)
