-- ===== src/BitSet/Fields.antt =====
-- A run of appended fields as a stretch of bits, and the reads that take it apart again.
use ticktock.Prelude.{
  ℕ, ◌+◌, ◌*◌, ◌%◌, ◌≤◌, ◌<◌, ◌≡◌, refl, ap, ◌∙◌, sym, subst, arith, List, [], ◌∷◌, length, get_or,
}
use ticktock.BitSet.{
  BitSet, Cursor, Result, ok, out_of_range, out_of_fuel, Destination, append, retrieve,
  size_in_bits,
}
use ticktock.BitSet.Byte.{bit, same_bits, same_low_bits, same_last_bit}
use ticktock.BitSet.Bits.{bit_at, bit_at_byte, IsBytes, IsValid, Kept}
use ticktock.BitSet.Append.{AppendOutcome, append-AppendOutcome}
use ticktock.BitSet.CheckPoint.{
  Field, then_append, append_all, AllBytes, RunOutcome, append_all-RunOutcome,
}
use ticktock.BitSet.Copies.{position, Copies, RetrieveOutcome}
use ticktock.BitSet.Retrieve.{retrieve-RetrieveOutcome}

-- From bit p up to bit p' a set holds the bits of the fields, one after another.
unfoldable pub Writes : BitSet → ℕ → List Field → ℕ → Type 0
Writes b p [] p' = p ≡ p'
Writes b p (f ∷ fs) p' =
    ((j : ℕ) → j < f.len → bit_at b.bits (p + j) ≡ bit_at f.bytes (f.start + j))
    × Writes b (p + f.len) fs p'

pub Writes-le : (b : BitSet) (p : ℕ) (fs : List Field) (p' : ℕ) → Writes b p fs p' → p ≤ p'
unfolding Writes
Writes-le b p [] p' e = omega arith
Writes-le b p (f ∷ fs) p' w = let h = Writes-le b (p + f.len) fs p' w.1 in omega arith

pub Writes-Kept :
    (b b' : BitSet) (p : ℕ) (fs : List Field) (p' : ℕ)
    → Kept b b'
    → p' ≤ size_in_bits b
    → Writes b p fs p'
    → Writes b' p fs p'
unfolding Writes
Writes-Kept b b' p [] p' k le e = e
Writes-Kept b b' p (f ∷ fs) p' k le w =
    let h = Writes-le b (p + f.len) fs p' w.1 in
    (λ j lt. k (p + j) (omega arith) ∙ w.0 j lt, Writes-Kept b b' (p + f.len) fs p' k le w.1)

abbrev pub Written : BitSet → List Field → Result BitSet → Type 0
Written b fs (ok b') = Writes b' (size_in_bits b) fs (size_in_bits b')
Written b fs (out_of_range b') = Unit {0}
Written b fs out_of_fuel = Unit {0}

-- A run of appends that returns has written its fields behind what was there.
pub append_all-Writes :
    (fs : List Field) (b : BitSet) → AllBytes fs → IsValid b → Written b fs (append_all fs b)
unfolding append_all Writes
append_all-Writes [] b h v = refl
append_all-Writes (f ∷ fs) b h v =
    by_first (append f.bytes f.len f.start b) (append-AppendOutcome f.bytes f.len f.start b h.0 v)
      (λ b' v'. (append_all-Writes fs b' h.1 v', append_all-RunOutcome fs b' h.1 v'))
  where
    by_rest :
        (b' : BitSet) (r : Result BitSet)
        → AppendOutcome f.bytes f.start f.len b (ok b')
        → Written b' fs r
        → RunOutcome b' r
        → Written b (f ∷ fs) r
    by_rest b' (out_of_range b'') o w run = tt
    by_rest b' out_of_fuel o w run = tt
    by_rest b' (ok b'') o w run =
        let z = o.size in
        (
          λ j lt. run.0.kept (size_in_bits b + j) (omega arith) ∙ o.added j lt,
          subst (λ (p : ℕ). Writes b'' p fs (size_in_bits b'')) z w,
        )

    by_first :
        (r : Result BitSet)
        → AppendOutcome f.bytes f.start f.len b r
        → ((b' : BitSet)
            → IsValid b'
            → Written b' fs (append_all fs b') × RunOutcome b' (append_all fs b'))
        → Written b (f ∷ fs) (then_append r (append_all fs))
    by_first (ok b') o next = let n = next b' o.valid in by_rest b' (append_all fs b') o n.0 n.1
    by_first (out_of_range b') o next = tt
    by_first out_of_fuel o next = tt

-- A read of bits that are stored returns.
pub retrieve_stored :
    (b : BitSet) (c : Cursor) (dest : List ℕ) (len to : ℕ)
    → IsValid b
    → c.start < 8
    → IsBytes dest
    → to + len ≤ 8 * length dest
    → 1 ≤ len
    → position c + len ≤ size_in_bits b
    → (d : Destination) × (retrieve b c dest len to ≡ ok d)
      × Copies b c dest to len d.cursor d.bytes
retrieve_stored b c dest len to v hc hd room some_bits stored =
    by_outcome (retrieve b c dest len to) refl
      (retrieve-RetrieveOutcome b c dest len to v hc hd room (omega arith))
  where
    by_outcome :
        (r : Result Destination)
        → retrieve b c dest len to ≡ r
        → RetrieveOutcome b c dest to len r
        → (d : Destination) × (retrieve b c dest len to ≡ ok d)
          × Copies b c dest to len d.cursor d.bytes
    by_outcome (ok d) e o = (d, e, o)
    by_outcome (out_of_range d) e o =
        let past : 8 * length b.bits < position c + len = o in
        let w = v.in_buffer in absurd (omega arith)
    by_outcome out_of_fuel e o = absurd o

-- Lists with the same bits have the same bytes.
module _ (xs ys : List ℕ) (hx : IsBytes xs) (hy : IsBytes ys) (q : ℕ) where
  bit_of_byte : (zs : List ℕ) (i : ℕ) → i < 8 → bit_at zs (8 * q + i) ≡ bit (get_or zs q 0) i
  bit_of_byte zs i h =
      let e : (8 * q + i) % 8 ≡ i = omega arith in
      bit_at_byte zs q (8 * q + i) (omega arith) ∙ ap (bit (get_or zs q 0)) e

  same_bit :
      (i : ℕ)
      → i < 8
      → bit_at xs (8 * q + i) ≡ bit_at ys (8 * q + i)
      → bit (get_or xs q 0) i ≡ bit (get_or ys q 0) i
  same_bit i h e = sym (bit_of_byte xs i h) ∙ e ∙ bit_of_byte ys i h

  pub same_byte :
      ((i : ℕ) → i < 8 → bit_at xs (8 * q + i) ≡ bit_at ys (8 * q + i))
      → get_or xs q 0 ≡ get_or ys q 0
  same_byte h =
      same_bits (get_or xs q 0) (get_or ys q 0) (hx q) (hy q) (λ i lt. same_bit i lt (h i lt))

  pub same_low_half :
      ((i : ℕ) → i < 4 → bit_at xs (8 * q + (4 + i)) ≡ bit_at ys (8 * q + (4 + i)))
      → get_or xs q 0 % 16 ≡ get_or ys q 0 % 16
  same_low_half h =
      same_low_bits (get_or xs q 0) (get_or ys q 0) (hx q) (hy q)
        (λ i lt. same_bit (4 + i) (omega arith) (h i lt))

  pub same_last :
      bit_at xs (8 * q + 7) ≡ bit_at ys (8 * q + 7) → get_or xs q 0 % 2 ≡ get_or ys q 0 % 2
  same_last h =
      same_last_bit (get_or xs q 0) (get_or ys q 0) (hx q) (hy q) (same_bit 7 (omega arith) h)
