-- ===== src/BitSet/CheckPoint.antt =====
-- A run of appends that ends in a throw is undone by the check point that was saved before it.
use ticktock.Prelude.{ℕ, ◌≤◌, ◌≡◌, refl, ◌∙◌, arith, List, [], ◌∷◌, length, some}
use ticktock.BitSet.{
  BitSet, Result, ok, out_of_range, out_of_fuel, append, size_in_bits, save_check_point,
  restore_from_check_point,
}
use ticktock.BitSet.Bits.{IsBytes, IsValid, Kept, SameFrame}
use ticktock.BitSet.Append.{AppendOutcome, append-AppendOutcome, SameFrame-refl, SameFrame-trans}

-- One call of `append`.
pub record Field : Type 0 where
  pub bytes : List ℕ
  pub len : ℕ
  pub start : ℕ

abbrev pub then_append : Result BitSet → (BitSet → Result BitSet) → Result BitSet
then_append (ok b) k = k b
then_append (out_of_range b) k = out_of_range b
then_append out_of_fuel k = out_of_fuel

-- Calls of `append` one after another, up to the first that throws.
unfoldable pub append_all : List Field → BitSet → Result BitSet
append_all [] b = ok b
append_all (f ∷ fs) b = then_append (append f.bytes f.len f.start b) (append_all fs)

abbrev pub AllBytes : List Field → Type 0
AllBytes [] = Unit {0}
AllBytes (f ∷ fs) = IsBytes f.bytes × AllBytes fs

pub record Extends (b b' : BitSet) : Type 0 where
  pub valid : IsValid b'
  pub frame : SameFrame b b'
  pub kept : Kept b b'

abbrev pub RunOutcome : BitSet → Result BitSet → Type 0
RunOutcome b (ok b') = Extends b b' × (size_in_bits b ≤ size_in_bits b')
RunOutcome b (out_of_range b') = Extends b b'
RunOutcome b out_of_fuel = ⊥

Extends-trans :
    (b b' b'' : BitSet)
    → Extends b b'
    → size_in_bits b ≤ size_in_bits b'
    → Extends b' b''
    → Extends b b''
Extends-trans b b' b'' p h q = record {
  valid = q.valid;
  frame = SameFrame-trans p.frame q.frame;
  kept = λ k l. q.kept k (omega arith) ∙ p.kept k l;
}

pub RunOutcome-trans :
    (b b' : BitSet) (r : Result BitSet)
    → Extends b b'
    → size_in_bits b ≤ size_in_bits b'
    → RunOutcome b' r
    → RunOutcome b r
RunOutcome-trans b b' (ok b'') p h q = (Extends-trans b b' b'' p h q.0, let g = q.1 in omega arith)
RunOutcome-trans b b' (out_of_range b'') p h q = Extends-trans b b' b'' p h q
RunOutcome-trans b b' out_of_fuel p h q = q

then_append-RunOutcome :
    (f : Field) (b : BitSet) (r : Result BitSet) (k : BitSet → Result BitSet)
    → AppendOutcome f.bytes f.start f.len b r
    → ((b' : BitSet) → IsValid b' → RunOutcome b' (k b'))
    → RunOutcome b (then_append r k)
then_append-RunOutcome f b (ok b') k o next =
    let z = o.size in
    RunOutcome-trans b b' (k b') (record { valid = o.valid; frame = o.frame; kept = o.kept })
      (omega arith) (next b' o.valid)
then_append-RunOutcome f b (out_of_range b') k o next = record {
  valid = o.valid;
  frame = o.frame;
  kept = o.kept;
}
then_append-RunOutcome f b out_of_fuel k o next = o

pub append_all-RunOutcome :
    (fs : List Field) (b : BitSet) → AllBytes fs → IsValid b → RunOutcome b (append_all fs b)
unfolding append_all
append_all-RunOutcome [] b h v =
    (record { valid = v; frame = SameFrame-refl b; kept = λ k l. refl }, omega arith)
append_all-RunOutcome (f ∷ fs) b h v =
    then_append-RunOutcome f b (append f.bytes f.len f.start b) (append_all fs)
      (append-AppendOutcome f.bytes f.len f.start b h.0 v)
      (λ b' v'. append_all-RunOutcome fs b' h.1 v')

-- What `restore_from_check_point` makes of the state that a throw left.
unfoldable pub RollsBack : BitSet → Result BitSet → Type 0
RollsBack b (ok b') = Unit {0}
RollsBack b (out_of_range b') =
    (b'' : BitSet) × (restore_from_check_point b' ≡ some b'')
    × (size_in_bits b'' ≡ size_in_bits b)
    × (length b''.bits ≡ length b.bits)
    × Kept b b''
    × IsValid b''
RollsBack b out_of_fuel = ⊥

pub rolls_back :
    (b b' : BitSet) → IsValid b → Extends (save_check_point b) b' → RollsBack b (out_of_range b')
unfolding RollsBack restore_from_check_point save_check_point size_in_bits
rolls_back b b' v e =
    let b'' : BitSet = record b' { cursor = b.cursor; start = b.start } in
    let c : b'.cp_cursor ≡ some b.cursor = e.frame.cp_cursor_eq in
    let s : b'.cp_start ≡ b.start = e.frame.cp_start_eq in
    let l : length b'.bits ≡ length b.bits = e.frame.length_eq in
    let i = v.in_buffer in
    (
      b'',
      rw (c, s) refl,
      refl,
      l,
      e.kept,
      record { in_byte = v.in_byte; in_buffer = omega arith; bytes = e.valid.bytes },
    )

pub IsValid-saved : (b : BitSet) → IsValid b → IsValid (save_check_point b)
unfolding save_check_point size_in_bits
IsValid-saved b v = record { in_byte = v.in_byte; in_buffer = v.in_buffer; bytes = v.bytes }

-- A check point, any run of appends, and a throw: restoring the check point gives back the size and
-- the stored bits that the set had, in a well-formed set of the same capacity. A run of appends
-- ends by returning or by a throw.
pub append_all-RollsBack :
    (fs : List Field) (b : BitSet)
    → AllBytes fs
    → IsValid b
    → RollsBack b (append_all fs (save_check_point b))
append_all-RollsBack fs b h v =
    by_outcome (append_all fs (save_check_point b))
      (append_all-RunOutcome fs (save_check_point b) h (IsValid-saved b v))
  where
    by_outcome : (r : Result BitSet) → RunOutcome (save_check_point b) r → RollsBack b r
    by_outcome (ok b') o = unfold RollsBack in tt
    by_outcome (out_of_range b') o = rolls_back b b' v o
    by_outcome out_of_fuel o = absurd o
