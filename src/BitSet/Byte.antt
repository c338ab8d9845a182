-- ===== src/BitSet/Byte.antt =====
-- The bits of a byte, highest first, under the masks and shifts of `append` and `retrieve`.
use ticktock.Prelude.{
  ℕ, zero, suc, ◌+◌, ◌-◌, ◌*◌, ◌/◌, ◌%◌, ◌^◌, ◌≤◌, ◌<◌, ◌≡◌, refl, ap, arith, Bool, true, ◌&&◌, ltb,
  leb, ◌==◌, ==_iff, if◌then◌else◌, bit_and, get_or,
}
use ticktock.Prelude.Bits.{for_all, for_all_lem, bit_or_fields, bit_and_two_pow}
use native.Mathlib.Nat.{le_trans, div-le_self, one-le-pow}
use ticktock.BitSet.{mask_0011, mask_1100, overlay}

mod-two_pow : (k x : ℕ) → x % 2 ^ k < 2 ^ k
mod-two_pow k x = grind (arith, one-le-pow k 2)

-- Bit i of a byte, counted from the highest.
unfoldable pub bit : ℕ → ℕ → ℕ
bit x i = x / 2 ^ (7 - i) % 2

-- A statement about a byte and two numbers below 8, by evaluation.
abbrev table : (ℕ → ℕ → ℕ → Bool) → Bool
table p = for_all 256 λ x. for_all 8 λ m. for_all 8 λ i. p x m i

table_lem :
    (p : ℕ → ℕ → ℕ → Bool) (x m i : ℕ) → table p ≡ true → x < 256 → m < 8 → i < 8 → p x m i ≡ true
table_lem p x m i t hx hm hi =
    for_all_lem 8 (p x m) i
      (for_all_lem 8 (λ m. for_all 8 λ i. p x m i) m
        (for_all_lem 256 (λ x. for_all 8 λ m. for_all 8 λ i. p x m i) x t hx) hm)
      hi

abbrev masks_ok : ℕ → ℕ → ℕ → Bool
masks_ok x m i =
    bit_and x (get_or mask_1100 m 0) == x / 2 ^ (8 - m) * 2 ^ (8 - m)
    && bit_and x (get_or mask_0011 m 0) == x % 2 ^ (8 - m)

masks_table : table masks_ok ≡ true
unfolding for_all
masks_table = refl

abbrev parts_ok : ℕ → ℕ → ℕ → Bool
parts_ok x m i =
    (if ltb i m then bit (x / 2 ^ (8 - m) * 2 ^ (8 - m)) i else bit (x % 2 ^ (8 - m)) i) == bit x i

parts_table : table parts_ok ≡ true
unfolding for_all bit
parts_table = refl

abbrev shift_ok : ℕ → ℕ → ℕ → Bool
shift_ok x d i =
    (if leb d i then bit (x / 2 ^ d) i == bit x (i - d) else true)
    && (if ltb (i + d) 8 then bit (x * 2 ^ d % 256) i == bit x (i + d) else true)

shift_table : table shift_ok ≡ true
unfolding for_all bit
shift_table = refl

overlay_sum :
    (m c x : ℕ)
    → m < 8
    → c < 256
    → x < 256
    → overlay m c x ≡ c / 2 ^ (8 - m) * 2 ^ (8 - m) + x % 2 ^ (8 - m)
overlay_sum m c x hm hc hx =
    let k = 8 - m in
    let tc = table_lem masks_ok c m 0 masks_table hc hm (omega arith) in
    let tx = table_lem masks_ok x m 0 masks_table hx hm (omega arith) in
    let ec : bit_and c (get_or mask_1100 m 0) ≡ c / 2 ^ k * 2 ^ k = ground arith in
    let ex : bit_and x (get_or mask_0011 m 0) ≡ x % 2 ^ k = ground arith in
    rw (ec, ex) (bit_or_fields k (c / 2 ^ k) (x % 2 ^ k) (mod-two_pow k x))

-- The sum keeps its two fields apart.
fields :
    (m c x : ℕ)
    → m < 8
    → c < 256
    → let k = 8 - m in
      let y = c / 2 ^ k * 2 ^ k + x % 2 ^ k in
      (y < 256) × (y / 2 ^ k * 2 ^ k ≡ c / 2 ^ k * 2 ^ k) × (y % 2 ^ k ≡ x % 2 ^ k)
fields zero c x hm hc = omega arith
fields (suc zero) c x hm hc = omega arith
fields (suc (suc zero)) c x hm hc = omega arith
fields (suc (suc (suc zero))) c x hm hc = omega arith
fields (suc (suc (suc (suc zero)))) c x hm hc = omega arith
fields (suc (suc (suc (suc (suc zero))))) c x hm hc = omega arith
fields (suc (suc (suc (suc (suc (suc zero)))))) c x hm hc = omega arith
fields (suc (suc (suc (suc (suc (suc (suc zero))))))) c x hm hc = omega arith
fields (suc (suc (suc (suc (suc (suc (suc (suc m)))))))) c x hm hc = absurd (omega arith)

part :
    (x m i : ℕ)
    → x < 256
    → m < 8
    → i < 8
    → (if ltb i m then bit (x / 2 ^ (8 - m) * 2 ^ (8 - m)) i else bit (x % 2 ^ (8 - m)) i) ≡ bit x i
part x m i hx hm hi = (==_iff _ _).0 (table_lem parts_ok x m i parts_table hx hm hi)

-- What `overlay` stores: the first m bits of the old byte, and the rest of the new one.
module _ (m c x : ℕ) (hm : m < 8) (hc : c < 256) (hx : x < 256) where
  pub overlay-lt : overlay m c x < 256
  overlay-lt = rw (overlay_sum m c x hm hc hx) ((fields m c x hm hc).0)

  pub bit-overlay_old : (i : ℕ) → i < m → bit (overlay m c x) i ≡ bit c i
  bit-overlay_old i h =
      let f = fields m c x hm hc in
      let k = 8 - m in
      let y = c / 2 ^ k * 2 ^ k + x % 2 ^ k in
      let old = part c m i hc hm (omega arith) in
      let new = part y m i f.0 hm (omega arith) in
      let same = ap (λ (t : ℕ). bit t i) f.1 in rw (overlay_sum m c x hm hc hx) (ground arith)

  pub bit-overlay_new : (i : ℕ) → i < 8 → m ≤ i → bit (overlay m c x) i ≡ bit x i
  bit-overlay_new i hi h =
      let f = fields m c x hm hc in
      let k = 8 - m in
      let y = c / 2 ^ k * 2 ^ k + x % 2 ^ k in
      let old = part x m i hx hm hi in
      let new = part y m i f.0 hm hi in
      let same = ap (λ (t : ℕ). bit t i) f.2 in rw (overlay_sum m c x hm hc hx) (ground arith)

pub bit-shr : (x d i : ℕ) → x < 256 → d < 8 → i < 8 → d ≤ i → bit (x / 2 ^ d) i ≡ bit x (i - d)
bit-shr x d i hx hd hi h = let t = table_lem shift_ok x d i shift_table hx hd hi in ground arith

pub bit-shl :
    (x d i : ℕ) → x < 256 → d < 8 → i < 8 → i + d < 8 → bit (x * 2 ^ d % 256) i ≡ bit x (i + d)
bit-shl x d i hx hd hi h = let t = table_lem shift_ok x d i shift_table hx hd hi in ground arith

pub shr-lt : (x d : ℕ) → x < 256 → x / 2 ^ d < 256
shr-lt x d h = le_trans (omega (arith, div-le_self x (2 ^ d))) h

-- Bytes with the same bits are the same, and so are their parts.
module _ (x y : ℕ) (hx : x < 256) (hy : y < 256) where
  pub same_bits : ((i : ℕ) → i < 8 → bit x i ≡ bit y i) → x ≡ y
  unfolding bit
  same_bits h =
      let h0 = h 0 (omega arith) in
      let h1 = h 1 (omega arith) in
      let h2 = h 2 (omega arith) in
      let h3 = h 3 (omega arith) in
      let h4 = h 4 (omega arith) in
      let h5 = h 5 (omega arith) in
      let h6 = h 6 (omega arith) in let h7 = h 7 (omega arith) in omega arith

  pub same_low_bits : ((i : ℕ) → i < 4 → bit x (4 + i) ≡ bit y (4 + i)) → x % 16 ≡ y % 16
  unfolding bit
  same_low_bits h =
      let h4 = h 0 (omega arith) in
      let h5 = h 1 (omega arith) in
      let h6 = h 2 (omega arith) in let h7 = h 3 (omega arith) in omega arith

  pub same_last_bit : bit x 7 ≡ bit y 7 → x % 2 ≡ y % 2
  unfolding bit
  same_last_bit h = omega arith

pub top_bit_test : (x : ℕ) → x < 256 → (bit_and x 0x80 == 0) ≡ (bit x 0 == 0)
unfolding bit
top_bit_test x h = let e = bit_and_two_pow 7 x in ground arith
