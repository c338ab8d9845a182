-- ===== src/BitSet/Tests.antt =====
-- Runs of the bit set, and its theorems at inputs that they apply to.
use ticktock.Prelude.{ℕ, ◌<◌, ◌≡◌, refl, arith, List, [], ◌∷◌}
use ticktock.BitSet.{
  BitSet, new_cursor, ok, out_of_range, init, append, retrieve, size_in_bits, save_check_point,
}
use ticktock.BitSet.Bits.{IsBytes, IsBytes-nil, IsBytes-cons, IsValid}
use ticktock.BitSet.Append.{AppendOutcome, append-AppendOutcome}
use ticktock.BitSet.Copies.{RetrieveOutcome}
use ticktock.BitSet.Retrieve.{retrieve-RetrieveOutcome}
use ticktock.BitSet.RoundTrip.{ReadsBack, retrieve-append}
use ticktock.BitSet.CheckPoint.{Field, append_all, RollsBack, append_all-RollsBack}

abbrev two_bytes : ℕ → ℕ → List ℕ
two_bytes x y = x ∷ y ∷ []

two-IsBytes : (x y : ℕ) → x < 256 → y < 256 → IsBytes (two_bytes x y)
two-IsBytes x y hx hy = IsBytes-cons x (y ∷ []) hx (IsBytes-cons y [] hy IsBytes-nil)

-- Two bytes, of which three bits are in use.
abbrev started : BitSet
started = record (init (two_bytes 0xA0 0)) { start = 3 }

started-IsValid : IsValid started
unfolding init size_in_bits
started-IsValid = record {
  in_byte = omega arith;
  in_buffer = omega arith;
  bytes = two-IsBytes 0xA0 0 (omega arith) (omega arith);
}

-- Ten bits of a source of two bytes, from its fifth bit on.
abbrev source : List ℕ
source = two_bytes 0x0F 0x5A

abbrev filled : BitSet
filled = record started { bits = two_bytes 0xBE 0xB4; cursor = 1; start = 5 }

append_runs : append source 10 4 started ≡ ok filled
unfolding append init
append_runs = refl

filled-IsValid : IsValid filled
unfolding init size_in_bits
filled-IsValid = record {
  in_byte = omega arith;
  in_buffer = omega arith;
  bytes = two-IsBytes 0xBE 0xB4 (omega arith) (omega arith);
}

retrieve_runs :
    retrieve filled (record { at = 0; start = 3 }) (two_bytes 0xFF 0xFF) 10 6
    ≡ ok (record { cursor = record { at = 1; start = 5 }; bytes = two_bytes 0xFF 0xD6; at = 2 })
unfolding retrieve init
retrieve_runs = refl

append_too_long :
    append source 14 0 started
    ≡ out_of_range (record filled { bits = two_bytes 0xA1 0xEB; cursor = 2; start = 0 })
unfolding append init
append_too_long = refl

append-AppendOutcome_example : AppendOutcome source 4 10 started (append source 10 4 started)
append-AppendOutcome_example =
    append-AppendOutcome source 10 4 started (two-IsBytes 0x0F 0x5A (omega arith) (omega arith))
      started-IsValid

retrieve-RetrieveOutcome_example :
    RetrieveOutcome filled new_cursor
      (two_bytes 0 0)
      4
      9
      (retrieve filled new_cursor (two_bytes 0 0) 9 4)
unfolding size_in_bits
retrieve-RetrieveOutcome_example =
    retrieve-RetrieveOutcome filled new_cursor (two_bytes 0 0) 9 4 filled-IsValid (omega arith)
      (two-IsBytes 0 0 (omega arith) (omega arith)) (omega arith) (omega arith)

retrieve-append_example :
    ReadsBack source 4
      (two_bytes 0 0)
      6
      10
      (size_in_bits filled)
      (retrieve filled (record { at = 0; start = 3 }) (two_bytes 0 0) 10 6)
unfolding size_in_bits init
retrieve-append_example =
    retrieve-append source (two_bytes 0 0) 10 4 6 started filled filled
      (record { at = 0; start = 3 }) (omega arith)
      (two-IsBytes 0x0F 0x5A (omega arith) (omega arith))
      (two-IsBytes 0 0 (omega arith) (omega arith)) (omega arith) started-IsValid append_runs
      filled-IsValid (λ k h. refl) (omega arith) refl (omega arith) refl

abbrev two_fields : List Field
two_fields =
    record { bytes = source; len = 10; start = 4 }
    ∷ record { bytes = source; len = 8; start = 0 }
    ∷ []

append_all-RollsBack_example : RollsBack started (append_all two_fields (save_check_point started))
append_all-RollsBack_example =
    append_all-RollsBack two_fields started
      (
        two-IsBytes 0x0F 0x5A (omega arith) (omega arith),
        (two-IsBytes 0x0F 0x5A (omega arith) (omega arith), tt),
      )
      started-IsValid
