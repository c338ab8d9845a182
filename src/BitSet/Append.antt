-- ===== src/BitSet/Append.antt =====
-- `append` puts the bits of its source behind those that are stored, or throws.
use ticktock.Prelude.{
  ℕ, zero, suc, ◌+◌, ◌-◌, ◌*◌, ◌%◌, ◌≤◌, ◌<◌, ◌≡◌, inl, inr, refl, ap, ◌∙◌, sym, arith, true, false,
  Bool-cases, ltb, leb, ◌==◌, if◌then◌else◌, List, length, get_or, drop,
}
use ticktock.BitSet.{
  BitSet, Result, ok, out_of_range, out_of_fuel, Appended, append_byte, append_loop, append,
  skip_bytes, size_in_bits,
}
use ticktock.BitSet.Byte.{bit}
use ticktock.BitSet.Bits.{
  bit_at, IsBytes, IsBytes-drop_one, bit_at-drop_one, bit_at-first, IsValid, Kept, SameFrame,
}
use ticktock.BitSet.Step.{Step, append_byte-Step}

-- The bits from `start` on are stored behind what was there.
pub record Stores (bytes : List ℕ) (start len : ℕ) (b b' : BitSet) : Type 0 where
  pub fits : size_in_bits b + len ≤ 8 * length b.bits
  pub size : size_in_bits b' ≡ size_in_bits b + len
  pub valid : IsValid b'
  pub frame : SameFrame b b'
  pub kept : Kept b b'
  pub added : (j : ℕ) → j < len → bit_at b'.bits (size_in_bits b + j) ≡ bit_at bytes (start + j)

-- The buffer was too small; what was stored is still there.
pub record Overflows (len : ℕ) (b b' : BitSet) : Type 0 where
  pub full : 8 * length b.bits < size_in_bits b + len
  pub valid : IsValid b'
  pub frame : SameFrame b b'
  pub kept : Kept b b'

abbrev pub AppendOutcome : List ℕ → ℕ → ℕ → BitSet → Result BitSet → Type 0
AppendOutcome bytes start len b (ok b') = Stores bytes start len b b'
AppendOutcome bytes start len b (out_of_range b') = Overflows len b b'
AppendOutcome bytes start len b out_of_fuel = ⊥

pub SameFrame-refl : (b : BitSet) → SameFrame b b
SameFrame-refl b = record { length_eq = refl; cp_cursor_eq = refl; cp_start_eq = refl }

pub SameFrame-trans : {a b c : BitSet} → SameFrame a b → SameFrame b c → SameFrame a c
SameFrame-trans p q = record {
  length_eq = q.length_eq ∙ p.length_eq;
  cp_cursor_eq = q.cp_cursor_eq ∙ p.cp_cursor_eq;
  cp_start_eq = q.cp_start_eq ∙ p.cp_start_eq;
}

Stores-nothing : (bytes : List ℕ) (start : ℕ) (b : BitSet) → IsValid b → Stores bytes start 0 b b
Stores-nothing bytes start b v = record {
  fits = let h = v.in_buffer in omega arith;
  size = omega arith;
  valid = v;
  frame = SameFrame-refl b;
  kept = λ k h. refl;
  added = λ j h. absurd (omega arith);
}

-- The source behind a step that leaves bits to be stored.
source_after : List ℕ → ℕ → List ℕ
source_after bytes start' = if start' == 0 then drop 1 bytes else bytes

module _ (x len start : ℕ) (bytes : List ℕ) (b : BitSet) (s : Appended)
    (step : Step x len start b s) (head : x ≡ get_or bytes 0 0) where
  source_bits :
      s.start ≡ (start + step.n) % 8
      → (j : ℕ)
      → bit_at (source_after bytes s.start) (s.start + j) ≡ bit_at bytes (start + step.n + j)
  unfolding source_after
  source_bits e j =
      let q = step.in_source in
      let p = step.some_bits in
      elim (Bool-cases (s.start == 0)) [
        | inl zero_start ↦ rw zero_start (
            bit_at-drop_one bytes (s.start + j)
            ∙ ap (bit_at bytes) {x = 8 + (s.start + j)} {y = start + step.n + j} (ground arith))
        | inr inside ↦
            rw inside (ap (bit_at bytes) {x = s.start + j} {y = start + step.n + j} (ground arith))
      ]

  -- A step and the rest of the loop.
  join :
      (r : Result BitSet)
      → start < 8
      → s.start ≡ (start + step.n) % 8
      → AppendOutcome (source_after bytes s.start) s.start s.len s.bitset r
      → AppendOutcome bytes start len b r
  join (ok b') hs e o =
      let l = step.frame.length_eq in
      let q = step.len_eq in
      let z = step.size in
      let f = o.fits in
      let z' = o.size in
      let inside = step.in_source in
      record {
        fits = omega arith;
        size = omega arith;
        valid = o.valid;
        frame = SameFrame-trans step.frame o.frame;
        kept = λ k h. o.kept k (omega arith) ∙ step.kept k h;
        added = λ j h. elim (Bool-cases (ltb j step.n)) [
          | inl early ↦
              o.kept (size_in_bits b + j) (ground arith)
              ∙ step.added j (ground arith)
              ∙ ap (λ (t : ℕ). bit t (start + j)) head
              ∙ sym (bit_at-first bytes (start + j) (ground arith))
          | inr late ↦
              ap (bit_at b'.bits) {x = size_in_bits b + j}
                {y = size_in_bits s.bitset + (j - step.n)} (ground arith)
              ∙ o.added (j - step.n) (ground arith)
              ∙ source_bits e (j - step.n)
              ∙ ap (bit_at bytes) {x = start + step.n + (j - step.n)} {y = start + j} (ground arith)
        ];
      }
  join (out_of_range b') hs e o =
      let l = step.frame.length_eq in
      let q = step.len_eq in
      let z = step.size in
      let f = o.full in
      record {
        full = omega arith;
        valid = o.valid;
        frame = SameFrame-trans step.frame o.frame;
        kept = λ k h. o.kept k (omega arith) ∙ step.kept k h;
      }
  join out_of_fuel hs e o = o

  -- The last step.
  join_last : start < 8 → s.len ≡ 0 → Stores bytes start len b s.bitset
  join_last hs e =
      let l = step.frame.length_eq in
      let q = step.len_eq in
      let z = step.size in
      let v = step.valid.in_buffer in
      let inside = step.in_source in
      record {
        fits = omega arith;
        size = omega arith;
        valid = step.valid;
        frame = step.frame;
        kept = step.kept;
        added = λ j h.
            step.added j (omega arith)
            ∙ ap (λ (t : ℕ). bit t (start + j)) head
            ∙ sym (bit_at-first bytes (start + j) (omega arith));
      }

append_loop_done :
    (fuel : ℕ) (bytes : List ℕ) (len start : ℕ) (b : BitSet)
    → len ≡ 0
    → append_loop fuel bytes len start b ≡ ok b
unfolding append_loop
append_loop_done zero bytes len start b e = rw e refl
append_loop_done (suc fuel) bytes len start b e = rw e refl

IsBytes-source_after :
    (bytes : List ℕ) (start : ℕ) → IsBytes bytes → IsBytes (source_after bytes start)
unfolding source_after
IsBytes-source_after bytes start h = elim (Bool-cases (start == 0)) [
  | inl e ↦ rw e (IsBytes-drop_one bytes h)
  | inr e ↦ rw e h
]

append_loop_full :
    (fuel : ℕ) (bytes : List ℕ) (len start : ℕ) (b : BitSet)
    → 1 ≤ len
    → (b.cursor == length b.bits) ≡ true
    → append_loop (suc fuel) bytes len start b ≡ out_of_range b
unfolding append_loop
append_loop_full fuel bytes len start b h e =
    let some_len : (len == 0) ≡ false = ground arith in rw (some_len, e) refl

append_loop_step :
    (fuel : ℕ) (bytes : List ℕ) (len start : ℕ) (b : BitSet)
    → 1 ≤ len
    → (b.cursor == length b.bits) ≡ false
    → let s = append_byte (get_or bytes 0 0) len start b in
      append_loop (suc fuel) bytes len start b
      ≡ append_loop fuel (source_after bytes s.start) s.len s.start s.bitset
unfolding append_loop source_after
append_loop_step fuel bytes len start b h e =
    let some_len : (len == 0) ≡ false = ground arith in rw (some_len, e) refl

append_loop_lem :
    (fuel : ℕ) (bytes : List ℕ) (len start : ℕ) (b : BitSet)
    → len ≤ fuel
    → start < 8
    → IsBytes bytes
    → IsValid b
    → AppendOutcome bytes start len b (append_loop fuel bytes len start b)
append_loop_lem fuel bytes zero start b h hs hb v =
    rw (append_loop_done fuel bytes 0 start b refl) (Stores-nothing bytes start b v)
append_loop_lem zero bytes (suc len) start b h hs hb v = absurd (omega arith)
append_loop_lem (suc fuel) bytes (suc len) start b h hs hb v =
    elim (Bool-cases (b.cursor == length b.bits)) [
      | inl full ↦ rw (append_loop_full fuel bytes (suc len) start b (omega arith) full) (record {
        full = unfold size_in_bits in ground arith;
        valid = v;
        frame = SameFrame-refl b;
        kept = λ k h. refl;
      })
      | inr room ↦
          let s = append_byte (get_or bytes 0 0) (suc len) start b in
          let inside : b.cursor < length b.bits =
            let p = v.in_buffer in unfold size_in_bits in ground arith in
          let step =
            append_byte-Step (get_or bytes 0 0) (suc len) start b (omega arith) hs (hb 0) v
              inside in
          let shorter : s.len ≤ fuel =
            let p = step.len_eq in let q = step.some_bits in omega arith in
          rw (append_loop_step fuel bytes (suc len) start b (omega arith) room) (elim step.next [
            | inl last ↦
                rw (append_loop_done fuel (source_after bytes s.start) s.len s.start s.bitset last)
                  (join_last (get_or bytes 0 0) (suc len) start bytes b s step refl hs last)
            | inr more ↦ join (get_or bytes 0 0) (suc len) start bytes b s step refl _ hs more (
                append_loop_lem fuel (source_after bytes s.start) s.len s.start s.bitset shorter
                  (let m = more in omega arith) (IsBytes-source_after bytes s.start hb) step.valid)
          ])
    ]

-- Skipping whole bytes of the source changes no bit that is read.
skip_bytes_lem :
    (fuel : ℕ) (bytes : List ℕ) (start : ℕ)
    → start ≤ fuel
    → IsBytes bytes
    → let s = skip_bytes fuel bytes start in
      (s.offset < 8)
      × IsBytes s.bytes
      × ((j : ℕ) → bit_at s.bytes (s.offset + j) ≡ bit_at bytes (start + j))
unfolding skip_bytes
skip_bytes_lem zero bytes start h hb = (omega arith, hb, λ j. refl)
skip_bytes_lem (suc fuel) bytes start h hb = elim (Bool-cases (leb 8 start)) [
  | inl more ↦
      let ih =
        skip_bytes_lem fuel (drop 1 bytes) (start - 8) (ground arith) (IsBytes-drop_one bytes hb) in
      rw more (
        ih.0,
        ih.1,
        λ j.
            ih.2 j
            ∙ bit_at-drop_one bytes (start - 8 + j)
            ∙ ap (bit_at bytes) {x = 8 + (start - 8 + j)} {y = start + j} (ground arith),
      )
  | inr done ↦ rw done (ground arith, hb, λ j. refl)
]

Outcome-source :
    (bytes bytes' : List ℕ) (start start' len : ℕ) (b : BitSet) (r : Result BitSet)
    → ((j : ℕ) → bit_at bytes' (start' + j) ≡ bit_at bytes (start + j))
    → AppendOutcome bytes' start' len b r
    → AppendOutcome bytes start len b r
Outcome-source bytes bytes' start start' len b (ok b') same o = record {
  fits = o.fits;
  size = o.size;
  valid = o.valid;
  frame = o.frame;
  kept = o.kept;
  added = λ j h. o.added j h ∙ same j;
}
Outcome-source bytes bytes' start start' len b (out_of_range b') same o = o
Outcome-source bytes bytes' start start' len b out_of_fuel same o = o

-- `append` ends in one of two ways. If the buffer has room for the bits, it stores exactly the `len`
-- bits of the source from `start` on behind the bits that were stored, which it keeps. If it has
-- not, it throws, and the bits that were stored are still there. In both cases the set stays
-- well-formed, and its check point and its capacity are unchanged.
pub append-AppendOutcome :
    (bytes : List ℕ) (len start : ℕ) (b : BitSet)
    → IsBytes bytes
    → IsValid b
    → AppendOutcome bytes start len b (append bytes len start b)
unfolding append
append-AppendOutcome bytes len start b hb v =
    let s = skip_bytes start bytes start in
    let k = skip_bytes_lem start bytes start (omega arith) hb in
    Outcome-source bytes s.bytes start s.offset len b (append_loop len s.bytes len s.offset b) k.2
      (append_loop_lem len s.bytes len s.offset b (omega arith) k.0 k.1 v)
