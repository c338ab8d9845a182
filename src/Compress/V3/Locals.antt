-- ===== src/Compress/V3/Locals.antt =====
-- The locals of `uncompress_i` once the bits of the encoder's bytes have been retrieved into them.
use ticktock.Prelude.{
  ℕ, zero, suc, ◌+◌, ◌-◌, ◌*◌, ◌/◌, ◌^◌, ◌≤◌, ◌<◌, ◌≡◌, refl, ap, subst, arith, true, List, length,
  get_or, ℤ, pos, negsuc, fits, to_signed, to_unsigned, same_list,
}
use ticktock.BitSet.Bits.{bit_at, IsBytes}
use ticktock.BitSet.Fields.{same_byte, same_low_half, same_last}
use ticktock.Compress.Endian.{compress_int16, compress_int32, compress_int64, swap64}
use ticktock.Compress.Endian.Bytes.{
  compress_int16-IsBytes, compress_int32-IsBytes, compress_int64-IsBytes,
}
use ticktock.Compress.Endian.Laws.{swap64-swap64, swap64-lt, length-compress_int64}
use ticktock.Compress.V3.{word, is_zero}
use ticktock.Compress.V3.Words.{local12, local17}

-- A local whose bits from `from` on are those of the encoder's bytes.
unfoldable pub SameBits : List ℕ → List ℕ → ℕ → ℕ → Type 0
SameBits w bytes from len = (j : ℕ) → j < len → bit_at w (from + j) ≡ bit_at bytes (from + j)

pub same_at :
    (w bytes : List ℕ) (from len i : ℕ)
    → SameBits w bytes from len
    → from ≤ i
    → i < from + len
    → bit_at w i ≡ bit_at bytes i
unfolding SameBits
same_at w bytes from len i h le lt =
    subst (λ (t : ℕ). bit_at w t ≡ bit_at bytes t) {x = from + (i - from)} {y = i} (omega arith)
      (h (i - from) (omega arith))

pub word12 :
    (n : ℤ) (w : List ℕ)
    → length w ≡ 2
    → IsBytes w
    → SameBits w (compress_int16 n) 4 12
    → w ≡ local12 n (get_or w 0 0 / 16)
word12 n w e hw h = same_list w (local12 n (get_or w 0 0 / 16)) e at
  where
    hn : IsBytes (compress_int16 n)
    hn = compress_int16-IsBytes n

    at : (q : ℕ) → q < 2 → get_or w q 0 ≡ get_or (local12 n (get_or w 0 0 / 16)) q 0
    at zero lt =
        let low = same_low_half w (compress_int16 n) hw hn 0 (λ i lt.
          same_at w (compress_int16 n) 4 12 (8 * 0 + (4 + i)) h (omega arith) (omega arith)) in
        omega arith
    at (suc zero) lt =
        same_byte w (compress_int16 n) hw hn 1
          (λ i lt. same_at w (compress_int16 n) 4 12 (8 * 1 + i) h (omega arith) (omega arith))
    at (suc (suc q)) lt = absurd (omega arith)

pub word17 :
    (n : ℤ) (w : List ℕ)
    → length w ≡ 4
    → IsBytes w
    → SameBits w (compress_int32 n) 15 17
    → w ≡ local17 n (get_or w 0 0) (get_or w 1 0 / 2)
word17 n w e hw h = same_list w (local17 n (get_or w 0 0) (get_or w 1 0 / 2)) e at
  where
    hn : IsBytes (compress_int32 n)
    hn = compress_int32-IsBytes n

    whole : (q : ℕ) → 2 ≤ q → q < 4 → get_or w q 0 ≡ get_or (compress_int32 n) q 0
    whole q le lt =
        same_byte w (compress_int32 n) hw hn q
          (λ i below. same_at w (compress_int32 n) 15 17 (8 * q + i) h (omega arith) (omega arith))

    at : (q : ℕ) → q < 4 → get_or w q 0 ≡ get_or (local17 n (get_or w 0 0) (get_or w 1 0 / 2)) q 0
    at zero lt = refl
    at (suc zero) lt =
        let last =
          same_last w (compress_int32 n) hw hn 1
            (same_at w (compress_int32 n) 15 17 (8 * 1 + 7) h (omega arith) (omega arith)) in
        omega arith
    at (suc (suc zero)) lt = whole 2 (omega arith) (omega arith)
    at (suc (suc (suc zero))) lt = whole 3 (omega arith) (omega arith)
    at (suc (suc (suc (suc q)))) lt = absurd (omega arith)

pub word64 :
    (n : ℤ) (w : List ℕ)
    → length w ≡ 8
    → IsBytes w
    → SameBits w (compress_int64 n) 0 64
    → w ≡ compress_int64 n
word64 n w e hw h =
    let l = length-compress_int64 n in
    same_list w (compress_int64 n) (omega arith) (λ q lt.
      same_byte w (compress_int64 n) hw (compress_int64-IsBytes n) q
        (λ i below. same_at w (compress_int64 n) 0 64 (8 * q + i) h (omega arith) (omega arith)))

-- The value of a local that holds all 64 bits.
pub value64 :
    (n : ℤ) → fits (2 ^ 63) n ≡ true → to_signed (2 ^ 63) (swap64 (word (compress_int64 n))) ≡ n
unfolding compress_int64
value64 n h =
    let x = to_unsigned 64 n in
    let below : x < 2 ^ 64 = ground arith in
    let e : word (compress_int64 n) ≡ swap64 x = let y = swap64-lt x in omega arith in
    rw (e, swap64-swap64 x below) (ground arith)

pub zero_of : (n : ℤ) → is_zero n ≡ true → n ≡ pos 0
zero_of (pos n) h = ap pos (ground arith)
zero_of (negsuc n) h = ground arith
