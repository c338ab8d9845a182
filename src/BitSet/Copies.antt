-- ===== src/BitSet/Copies.antt =====
-- What one step of `retrieve` copies, and how steps add up.
use ticktock.Prelude.{
  ℕ, ◌+◌, ◌-◌, ◌*◌, ◌%◌, ◌≤◌, ◌<◌, ◌≡◌, ◌⊎◌, inl, inr, refl, ap, ◌∙◌, sym, arith, Bool-cases, ltb,
  List, length, get_or, set, length-set,
}
use ticktock.BitSet.{
  BitSet, Cursor, Result, ok, out_of_range, out_of_fuel, Destination, overlay, retrieve_byte,
}
use ticktock.BitSet.Byte.{bit, overlay-lt}
use ticktock.BitSet.Align.{
  align, align-lt, bit-align, moved, moved_bounds, overlay_kept, overlay_added,
}
use ticktock.BitSet.Bits.{bit_at, bit_at_byte, IsBytes, IsBytes-set}

-- The position of a cursor, in bits.
abbrev pub position : Cursor → ℕ
position c = 8 * c.at + c.start

pub retrieve_byte_lem :
    (b : BitSet) (c : Cursor) (x len start : ℕ)
    → start < 8
    → c.start < 8
    → let n = moved len c.start start in
      let s = retrieve_byte b c x len start in
      (s.byte ≡ overlay start x (align (get_or b.bits c.at 0) c.start start))
      × (position s.cursor ≡ position c + n)
      × (s.cursor.start < 8)
      × (s.len + n ≡ len)
      × ((s.len ≡ 0) ⊎ (s.start ≡ (start + n) % 8))
unfolding retrieve_byte moved align
retrieve_byte_lem b c x len start hs hc = ground arith

-- Bits of `b` from the cursor on are copied to the destination, to its bits from `to` on.
pub record Copies (b : BitSet) (c : Cursor) (bytes : List ℕ) (to len : ℕ) (c' : Cursor)
    (bytes' : List ℕ) : Type 0 where
  pub in_buffer : position c + len ≤ 8 * length b.bits
  pub moved_on : position c' ≡ position c + len
  pub in_byte : c'.start < 8
  pub length_eq : length bytes' ≡ length bytes
  pub still_bytes : IsBytes bytes'
  pub kept : (k : ℕ) → k < to → bit_at bytes' k ≡ bit_at bytes k
  pub copied : (j : ℕ) → j < len → bit_at bytes' (to + j) ≡ bit_at b.bits (position c + j)

abbrev pub RetrieveOutcome : BitSet → Cursor → List ℕ → ℕ → ℕ → Result Destination → Type 0
RetrieveOutcome b c bytes to len (ok d) = Copies b c bytes to len d.cursor d.bytes
RetrieveOutcome b c bytes to len (out_of_range d) = 8 * length b.bits < position c + len
RetrieveOutcome b c bytes to len out_of_fuel = ⊥

module _ (b : BitSet) (hb : IsBytes b.bits) where
  pub Copies-nothing :
      (c : Cursor) (bytes : List ℕ) (to : ℕ)
      → c.start < 8
      → position c ≤ 8 * length b.bits
      → IsBytes bytes
      → Copies b c bytes to 0 c bytes
  Copies-nothing c bytes to hc within hd = record {
    in_buffer = omega arith;
    moved_on = omega arith;
    in_byte = hc;
    length_eq = refl;
    still_bytes = hd;
    kept = λ k h. refl;
    copied = λ j h. absurd (omega arith);
  }

  -- One step copies n bits into one byte of the destination.
  pub step-Copies :
      (c : Cursor) (bytes : List ℕ) (at len start : ℕ)
      → 1 ≤ len
      → start < 8
      → c.start < 8
      → c.at < length b.bits
      → at < length bytes
      → IsBytes bytes
      → let s = retrieve_byte b c (get_or bytes at 0) len start in
        Copies b c bytes (8 * at + start) (moved len c.start start) s.cursor (set bytes at s.byte)
  step-Copies c bytes at len start hl hs hc hat room hd =
      let e = retrieve_byte_lem b c (get_or bytes at 0) len start hs hc in
      let g = moved_bounds len c.start start hl hc hs in
      let src = get_or b.bits c.at 0 in
      let y = align src c.start start in
      let hy = align-lt src c.start start (hb c.at) in
      record {
        in_buffer = omega arith;
        moved_on = e.1;
        in_byte = e.2;
        length_eq = length-set bytes at _;
        still_bytes =
            IsBytes-set bytes at _ (rw e.0 (overlay-lt start (get_or bytes at 0) y hs (hd at) hy))
              hd;
        kept = λ k h. rw e.0 (overlay_kept bytes at start y room hs hd hy k h);
        copied = λ j h. rw e.0 (
            overlay_added bytes at start y room hs hd hy j (omega arith)
            ∙ bit-align src c.start start (start + j) (hb c.at) hc hs (omega arith) (omega arith)
                (omega arith)
            ∙ ap (bit src) {x = c.start + (start + j - start)} {y = (position c + j) % 8}
                (omega arith)
            ∙ sym (bit_at_byte b.bits c.at (position c + j) (omega arith)));
      }

  pub Copies-trans :
      (c c' : Cursor) (bytes bytes' : List ℕ) (to n : ℕ)
      → Copies b c bytes to n c' bytes'
      → (to' m len : ℕ) (r : Result Destination) → to' ≡ to + n
      → m + n ≡ len
      → RetrieveOutcome b c' bytes' to' m r
      → RetrieveOutcome b c bytes to len r
  Copies-trans c c' bytes bytes' to n p to' m len (ok d) et el q =
      let p1 = p.moved_on in
      let p2 = p.in_buffer in
      let q1 = q.moved_on in
      let q2 = q.in_buffer in
      record {
        in_buffer = omega arith;
        moved_on = omega arith;
        in_byte = q.in_byte;
        length_eq = q.length_eq ∙ p.length_eq;
        still_bytes = q.still_bytes;
        kept = λ k h. q.kept k (omega arith) ∙ p.kept k h;
        copied = λ j h. elim (Bool-cases (ltb j n)) [
          | inl early ↦ q.kept (to + j) (ground arith) ∙ p.copied j (ground arith)
          | inr late ↦
              ap (bit_at d.bytes) {x = to + j} {y = to' + (j - n)} (ground arith)
              ∙ q.copied (j - n) (ground arith)
              ∙ ap (bit_at b.bits) {x = position c' + (j - n)} {y = position c + j} (ground arith)
        ];
      }
  Copies-trans c c' bytes bytes' to n p to' m len (out_of_range d) et el q =
      let p1 = p.moved_on in let f : 8 * length b.bits < position c' + m = q in omega arith
  Copies-trans c c' bytes bytes' to n p to' m len out_of_fuel et el q = q
