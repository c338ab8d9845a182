-- ===== src/BitSet/Step.antt =====
-- One step of the loop of `append`.
use ticktock.Prelude.{
  ℕ, ◌+◌, ◌-◌, ◌*◌, ◌%◌, ◌≤◌, ◌<◌, ◌≡◌, ◌⊎◌, ap, ◌∙◌, arith, length, get_or, set, length-set,
}
use ticktock.BitSet.{BitSet, Appended, overlay, append_byte, size_in_bits}
use ticktock.BitSet.Byte.{bit, overlay-lt}
use ticktock.BitSet.Align.{
  align, align-lt, bit-align, moved, moved_bounds, overlay_kept, overlay_added,
}
use ticktock.BitSet.Bits.{bit_at, IsBytes-set, IsValid, Kept, SameFrame}

append_byte_lem :
    (x len start : ℕ) (b : BitSet)
    → start < 8
    → b.start < 8
    → let n = moved len start b.start in
      let s = append_byte x len start b in
      (s.bitset.bits
        ≡ set b.bits b.cursor (overlay b.start (get_or b.bits b.cursor 0) (align x start b.start)))
      × (8 * s.bitset.cursor + s.bitset.start ≡ 8 * b.cursor + b.start + n)
      × (s.bitset.start < 8)
      × (s.len + n ≡ len)
      × (s.bitset.cp_cursor ≡ b.cp_cursor)
      × (s.bitset.cp_start ≡ b.cp_start)
      × ((s.len ≡ 0) ⊎ (s.start ≡ (start + n) % 8))
unfolding append_byte moved align
append_byte_lem x len start b hs hb = ground arith

-- One step: n bits of the source byte, from `start` on, are stored behind what was there.
pub record Step (x len start : ℕ) (b : BitSet) (s : Appended) : Type 0 where
  pub n : ℕ
  pub some_bits : 1 ≤ n
  pub in_source : start + n ≤ 8
  pub len_eq : s.len + n ≡ len
  pub size : size_in_bits s.bitset ≡ size_in_bits b + n
  pub valid : IsValid s.bitset
  pub frame : SameFrame b s.bitset
  pub kept : Kept b s.bitset
  pub added : (j : ℕ) → j < n → bit_at s.bitset.bits (size_in_bits b + j) ≡ bit x (start + j)
  pub next : (s.len ≡ 0) ⊎ (s.start ≡ (start + n) % 8)

pub append_byte-Step :
    (x len start : ℕ) (b : BitSet)
    → 1 ≤ len
    → start < 8
    → x < 256
    → IsValid b
    → b.cursor < length b.bits
    → Step x len start b (append_byte x len start b)
unfolding size_in_bits
append_byte-Step x len start b hl hs hx v room =
    let m = b.start in
    let hm : m < 8 = v.in_byte in
    let n = moved len start m in
    let c = get_or b.bits b.cursor 0 in
    let y = align x start m in
    let z = overlay m c y in
    let s = append_byte x len start b in
    let e = append_byte_lem x len start b hs hm in
    let g = moved_bounds len start m hl hs hm in
    let hc = v.bytes b.cursor in
    let hy = align-lt x start m hx in
    let back = λ (j : ℕ). ap (bit x) {x = start + (m + j - m)} {y = start + j} (omega arith) in
    record {
      n = n;
      some_bits = g.0;
      in_source = g.2;
      len_eq = e.3;
      size = e.1;
      valid = record {
        in_byte = e.2;
        in_buffer =
            let l = ap length e.0 ∙ length-set b.bits b.cursor z in let size = e.1 in omega arith;
        bytes = rw e.0 (IsBytes-set b.bits b.cursor z (overlay-lt m c y hm hc hy) v.bytes);
      };
      frame = record {
        length_eq = ap length e.0 ∙ length-set b.bits b.cursor z;
        cp_cursor_eq = e.4;
        cp_start_eq = e.5;
      };
      kept = λ k h. rw e.0 (overlay_kept b.bits b.cursor m y room hm v.bytes hy k h);
      added = λ j h. rw e.0 (
          overlay_added b.bits b.cursor m y room hm v.bytes hy j (omega arith)
          ∙ bit-align x start m (m + j) hx hs hm (omega arith) (omega arith) (omega arith)
          ∙ back j);
      next = e.6;
    }
