-- ===== src/BitSet/RoundTrip.antt =====
-- What `append` stored, `retrieve` reads back, also after further appends.
use ticktock.Prelude.{ℕ, ◌+◌, ◌*◌, ◌≤◌, ◌<◌, ◌≡◌, ap, ◌∙◌, arith, List, length}
use ticktock.BitSet.{
  BitSet, Cursor, Result, ok, out_of_range, out_of_fuel, Destination, append, retrieve,
  size_in_bits,
}
use ticktock.BitSet.Bits.{bit_at, IsBytes, IsValid, Kept}
use ticktock.BitSet.Append.{append-AppendOutcome, Stores, Overflows}
use ticktock.BitSet.Copies.{position, RetrieveOutcome}
use ticktock.BitSet.Retrieve.{retrieve-RetrieveOutcome}

-- The outcome of a call that is known to have returned, or to have thrown.
append-Stores :
    (bytes : List ℕ) (len start : ℕ) (b b' : BitSet)
    → IsBytes bytes
    → IsValid b
    → append bytes len start b ≡ ok b'
    → Stores bytes start len b b'
append-Stores bytes len start b b' hb v e = rw e at (append-AppendOutcome bytes len start b hb v)

append-Overflows :
    (bytes : List ℕ) (len start : ℕ) (b b' : BitSet)
    → IsBytes bytes
    → IsValid b
    → append bytes len start b ≡ out_of_range b'
    → Overflows len b b'
append-Overflows bytes len start b b' hb v e = rw e at (append-AppendOutcome bytes len start b hb v)

-- `retrieve` returned, with these bits in the destination and the cursor behind what was read.
pub ReadsBack : List ℕ → ℕ → List ℕ → ℕ → ℕ → ℕ → Result Destination → Type 0
ReadsBack source from dest to len end (ok d) =
    ((j : ℕ) → j < len → bit_at d.bytes (to + j) ≡ bit_at source (from + j))
    × ((k : ℕ) → k < to → bit_at d.bytes k ≡ bit_at dest k)
    × (position d.cursor ≡ end)
ReadsBack source from dest to len end (out_of_range d) = ⊥
ReadsBack source from dest to len end out_of_fuel = ⊥

reads_back :
    (source dest : List ℕ) (from to len : ℕ) (b b' b'' : BitSet) (c : Cursor)
    (r : Result Destination)
    → Stores source from len b b'
    → Kept b' b''
    → length b''.bits ≡ length b.bits
    → position c ≡ size_in_bits b
    → RetrieveOutcome b'' c dest to len r
    → ReadsBack source from dest to len (size_in_bits b') r
unfolding ReadsBack
reads_back source dest from to len b b' b'' c (ok d) s k l at o =
    let z = s.size in
    let m = o.moved_on in
    (
      λ j h.
          o.copied j h
          ∙ ap (λ (t : ℕ). bit_at b''.bits (t + j)) at
          ∙ k (size_in_bits b + j) (omega arith)
          ∙ s.added j h,
      o.kept,
      omega arith,
    )
reads_back source dest from to len b b' b'' c (out_of_range d) s k l at o =
    let f = s.fits in let g : 8 * length b''.bits < position c + len = o in omega arith
reads_back source dest from to len b b' b'' c out_of_fuel s k l at o = o

-- Bits that `append` stored, in a set that has since kept them (as every later `append` does), are
-- read back by a `retrieve` of the same length from where they were put: it returns, the
-- destination has the bits of the source, whatever the two offsets into their bytes, its bits in
-- front of them are unchanged, and the cursor stands behind what was appended.
pub retrieve-append :
    (source dest : List ℕ) (len from to : ℕ) (b b' b'' : BitSet) (c : Cursor)
    → 1 ≤ len
    → IsBytes source
    → IsBytes dest
    → to + len ≤ 8 * length dest
    → IsValid b
    → append source len from b ≡ ok b'
    → IsValid b''
    → Kept b' b''
    → size_in_bits b' ≤ size_in_bits b''
    → length b''.bits ≡ length b.bits
    → c.start < 8
    → position c ≡ size_in_bits b
    → ReadsBack source from dest to len (size_in_bits b') (retrieve b'' c dest len to)
retrieve-append source dest len from to b b' b'' c some_bits hs hd room v e v'' k grows l hc at =
    let s = append-Stores source len from b b' hs v e in
    let z = s.size in
    reads_back source dest from to len b b' b'' c (retrieve b'' c dest len to) s k l at
      (retrieve-RetrieveOutcome b'' c dest len to v'' hc hd room (omega arith))
