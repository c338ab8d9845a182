-- ===== src/BitSet/Align.antt =====
-- How a source byte is shifted and laid over a destination byte, for `append` and `retrieve` alike.
use ticktock.Prelude.{
  ℕ, ◌+◌, ◌-◌, ◌*◌, ◌/◌, ◌%◌, ◌^◌, ◌≤◌, ◌<◌, ◌≡◌, inl, inr, ap, ◌∙◌, sym, arith, min, max,
  Bool-cases, ltb, ◌==◌, if◌then◌else◌, List, length, get_or, set,
}
use ticktock.BitSet.{overlay}
use ticktock.BitSet.Byte.{bit, bit-overlay_old, bit-overlay_new, bit-shr, bit-shl, shr-lt}
use ticktock.BitSet.Bits.{bit_at, IsBytes, bit_at-set_self, bit_at-set_ne, bit_at_byte}

-- The source byte, shifted so that its bits from `start` on stand from bit m on.
unfoldable pub align : ℕ → ℕ → ℕ → ℕ
align x start m =
    if ltb start m
    then x / 2 ^ (m - start)
    else if ltb m start
    then x * 2 ^ (start - m) % 256
    else x

pub align-lt : (x start m : ℕ) → x < 256 → align x start m < 256
unfolding align
align-lt x start m h = ground (arith, shr-lt x (m - start))

pub bit-align :
    (x start m i : ℕ)
    → x < 256
    → start < 8
    → m < 8
    → i < 8
    → m ≤ i
    → i + start < 8 + m
    → bit (align x start m) i ≡ bit x (start + (i - m))
unfolding align
bit-align x start m i hx hs hm hi h k = ground (
  arith,
  bit-shr x (m - start) i,
  bit-shl x (start - m) i,
  ap (bit x) {x = i - (m - start)} {y = start + (i - m)},
  ap (bit x) {x = i + (start - m)} {y = start + (i - m)},
  ap (bit x) {x = i} {y = start + (i - m)},
)

-- How many bits one step moves.
unfoldable pub moved : ℕ → ℕ → ℕ → ℕ
moved len start m = min len (8 - max start m)

pub moved_bounds :
    (len start m : ℕ)
    → 1 ≤ len
    → start < 8
    → m < 8
    → (1 ≤ moved len start m)
      × (moved len start m ≤ len)
      × (start + moved len start m ≤ 8)
      × (m + moved len start m ≤ 8)
unfolding moved
moved_bounds len start m h hs hm = omega arith

-- A byte of the buffer that is overlaid from bit m on.
module _ (bits : List ℕ) (c m y : ℕ) (room : c < length bits) (hm : m < 8) (hb : IsBytes bits)
    (hy : y < 256) where
  abbrev pub overlaid : List ℕ
  overlaid = set bits c (overlay m (get_or bits c 0) y)

  pub overlay_kept : (k : ℕ) → k < 8 * c + m → bit_at overlaid k ≡ bit_at bits k
  overlay_kept k h = elim (Bool-cases (k / 8 == c)) [
    | inl e ↦
        let at : k / 8 ≡ c = ground arith in
        bit_at-set_self bits c _ k room at
        ∙ bit-overlay_old m (get_or bits c 0) y hm (hb c) hy (k % 8) (omega arith)
        ∙ sym (bit_at_byte bits c k at)
    | inr e ↦ bit_at-set_ne bits c _ k (ground arith)
  ]

  pub overlay_added : (j : ℕ) → m + j < 8 → bit_at overlaid (8 * c + m + j) ≡ bit y (m + j)
  overlay_added j h =
      let low : (8 * c + m + j) % 8 ≡ m + j = omega arith in
      bit_at-set_self bits c _ (8 * c + m + j) room (omega arith)
      ∙ ap (bit (overlay m (get_or bits c 0) y)) low
      ∙ bit-overlay_new m (get_or bits c 0) y hm (hb c) hy (m + j) h (omega arith)
