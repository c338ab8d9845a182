-- ===== src/BitSet/Retrieve.antt =====
-- `retrieve` copies the bits at its cursor to the destination, or throws.
use ticktock.Prelude.{
  ℕ, zero, suc, ◌+◌, ◌-◌, ◌*◌, ◌≤◌, ◌<◌, ◌≡◌, inl, inr, refl, arith, true, false, Bool-cases, ltb,
  leb, ◌==◌, ◌&&◌, ◌||◌, if◌then◌else◌, List, length, get_or, set, subst,
}
use ticktock.BitSet.{
  BitSet, Cursor, ok, out_of_range, Retrieved, Destination, retrieve_byte, retrieve_loop, retrieve,
  skip_destination, size_in_bits,
}
use ticktock.BitSet.Align.{moved, moved_bounds}
use ticktock.BitSet.Bits.{IsBytes, IsValid}
use ticktock.BitSet.Copies.{
  position, retrieve_byte_lem, Copies, RetrieveOutcome, Copies-nothing, step-Copies, Copies-trans,
}

retrieve_loop_done :
    (b : BitSet) (fuel : ℕ) (d : Destination) (len start : ℕ)
    → len ≡ 0
    → retrieve_loop b fuel d len start ≡ ok d
unfolding retrieve_loop
retrieve_loop_done b zero d len start e = rw e refl
retrieve_loop_done b (suc fuel) d len start e = rw e refl

retrieve_loop_full :
    (b : BitSet) (fuel : ℕ) (d : Destination) (len start : ℕ)
    → 1 ≤ len
    → (d.cursor.at == length b.bits) ≡ true
    → retrieve_loop b (suc fuel) d len start ≡ out_of_range d
unfolding retrieve_loop
retrieve_loop_full b fuel d len start h e =
    let some_len : (len == 0) ≡ false = ground arith in rw (some_len, e) refl

-- The destination after one step.
abbrev after_step : Destination → Retrieved → Destination
after_step d s = record {
  cursor = s.cursor;
  bytes = set d.bytes d.at s.byte;
  at = if s.start == 0 then d.at + 1 else d.at;
}

retrieve_loop_step :
    (b : BitSet) (fuel : ℕ) (d : Destination) (len start : ℕ)
    → 1 ≤ len
    → (d.cursor.at == length b.bits) ≡ false
    → let s = retrieve_byte b d.cursor (get_or d.bytes d.at 0) len start in
      retrieve_loop b (suc fuel) d len start ≡ retrieve_loop b fuel (after_step d s) s.len s.start
unfolding retrieve_loop
retrieve_loop_step b fuel d len start h e =
    let some_len : (len == 0) ≡ false = ground arith in rw (some_len, e) refl

retrieve_loop_lem :
    (b : BitSet) (fuel : ℕ) (d : Destination) (len start : ℕ)
    → IsBytes b.bits
    → len ≤ fuel
    → start < 8
    → d.cursor.start < 8
    → position d.cursor ≤ 8 * length b.bits
    → IsBytes d.bytes
    → 8 * d.at + start + len ≤ 8 * length d.bytes
    → RetrieveOutcome b d.cursor d.bytes (8 * d.at + start) len (retrieve_loop b fuel d len start)
retrieve_loop_lem b fuel d zero start hb h hs hc within hd room =
    rw (retrieve_loop_done b fuel d 0 start refl)
      (Copies-nothing b hb d.cursor d.bytes (8 * d.at + start) hc within hd)
retrieve_loop_lem b zero d (suc len) start hb h hs hc within hd room = absurd (omega arith)
retrieve_loop_lem b (suc fuel) d (suc len) start hb h hs hc within hd room =
    elim (Bool-cases (d.cursor.at == length b.bits)) [
      | inl full ↦
          rw (retrieve_loop_full b fuel d (suc len) start (omega arith) full) (ground arith)
      | inr more_bits ↦
          let x = get_or d.bytes d.at 0 in
          let s = retrieve_byte b d.cursor x (suc len) start in
          let n = moved (suc len) d.cursor.start start in
          let e = retrieve_byte_lem b d.cursor x (suc len) start hs hc in
          let g = moved_bounds (suc len) d.cursor.start start (omega arith) hc hs in
          let p =
            step-Copies b hb d.cursor d.bytes d.at (suc len) start (omega arith) hs hc
              (ground arith) (omega arith) hd in
          let left = e.3 in
          let d' = after_step d s in
          let p1 = p.moved_on in
          let p2 = p.in_buffer in
          let p3 = p.length_eq in
          rw (retrieve_loop_step b fuel d (suc len) start (omega arith) more_bits) (elim e.4 [
            | inl last ↦ rw (retrieve_loop_done b fuel d' s.len s.start last) (
                subst
                  (λ (t : ℕ).
                    Copies b d.cursor d.bytes (8 * d.at + start) t s.cursor
                      (set d.bytes d.at s.byte))
                  (omega arith) p)
            | inr more ↦
                let at' : 8 * d'.at + s.start ≡ 8 * d.at + start + n = ground arith in
                Copies-trans b hb d.cursor s.cursor d.bytes (set d.bytes d.at s.byte)
                  (8 * d.at + start) n p (8 * d'.at + s.start) s.len (suc len) _ at' left
                  (retrieve_loop_lem b fuel d' s.len s.start hb (omega arith)
                    (let m = more in omega arith) e.2 (omega arith) p.still_bytes (omega arith))
          ])
    ]

skip_destination_lem :
    (fuel at start : ℕ)
    → start ≤ fuel
    → let s = skip_destination fuel at start in
      (s.start < 8) × (8 * s.at + s.start ≡ 8 * at + start)
unfolding skip_destination
skip_destination_lem zero at start h = (omega arith, omega arith)
skip_destination_lem (suc fuel) at start h = elim (Bool-cases (leb 8 start)) [
  | inl more ↦
      let ih = skip_destination_lem fuel (at + 1) (start - 8) (ground arith) in
      let i0 = ih.0 in let i1 = ih.1 in rw more (i0, ground arith)
  | inr done ↦ rw done (ground arith, refl)
]

-- A cursor in front of the end of the stored bits: `retrieve` copies the next `len` bits of the buffer
-- to the bits of the destination from `start` on, leaves those in front of them alone and moves the
-- cursor on by `len`, or it throws because the buffer ends before that many bits.
pub retrieve-RetrieveOutcome :
    (b : BitSet) (c : Cursor) (bytes : List ℕ) (len start : ℕ)
    → IsValid b
    → c.start < 8
    → IsBytes bytes
    → start + len ≤ 8 * length bytes
    → position c < size_in_bits b
    → RetrieveOutcome b c bytes start len (retrieve b c bytes len start)
unfolding retrieve size_in_bits
retrieve-RetrieveOutcome b c bytes len start v hc hd room inside =
    let s = skip_destination start 0 start in
    let k = skip_destination_lem start 0 start (omega arith) in
    let k0 = k.0 in
    let k1 = k.1 in
    let w = v.in_buffer in
    let m = v.in_byte in
    let d : Destination = record { cursor = c; bytes = bytes; at = s.at } in
    let to : 8 * s.at + s.start ≡ start = omega arith in
    let past : (ltb b.cursor c.at || (c.at == b.cursor && leb b.start c.start)) ≡ false =
      ground arith in
    rw past (
      subst (λ (t : ℕ). RetrieveOutcome b c bytes t len (retrieve_loop b len d len s.start)) to
        (retrieve_loop_lem b len d len s.start v.bytes (omega arith) k0 hc (omega arith) hd
          (omega arith)))

-- A cursor at the end of the stored bits, or behind it: `retrieve` throws at once, and neither the
-- destination nor the cursor changes.
pub retrieve_at_end :
    (b : BitSet) (c : Cursor) (bytes : List ℕ) (len start : ℕ)
    → b.start < 8
    → c.start < 8
    → size_in_bits b ≤ position c
    → retrieve b c bytes len start ≡ out_of_range (record { cursor = c; bytes = bytes; at = 0 })
unfolding retrieve size_in_bits
retrieve_at_end b c bytes len start hs hc h =
    let past : (ltb b.cursor c.at || (c.at == b.cursor && leb b.start c.start)) ≡ true =
      ground arith in
    rw past refl
