-- ===== src/Compress/V3.antt =====
-- Compressor_v3 of include/compress.h and src/core/compress.cpp, over the bit set. The double
-- arithmetic is a parameter, at one m_precision. A thrown std::out_of_range is a value.
pub mod Words
pub mod Locals
pub mod IntCode
pub mod Store
pub mod Progress
pub mod Uncompress
pub mod FloatCode
pub mod Series
pub mod Represents
pub mod Next
pub mod Begin
pub mod RoundTrip
mod Tests
use ticktock.Prelude.{
  ◌≡◌, true, false, zero, suc, ℕ, ◌+◌, ◌-◌, ◌*◌, ◌/◌, ◌%◌, ◌^◌, Bool, bit_and, bit_or, ltb, ◌==◌,
  pos, if◌then◌else◌, List, [], ◌∷◌, ◌++◌, Option, some, none, ℤ, negsuc, fits, length, get_or,
  take, to_unsigned, to_signed,
}
use ticktock.BitSet.{
  BitSet, Cursor, new_cursor, Result, ok, out_of_range, out_of_fuel, Destination, retrieve,
  save_check_point, restore_from_check_point, size_in_bits,
}
use ticktock.BitSet.{init as init_bits, recycle as recycle_bits, is_empty as no_bits, copy_from}
use ticktock.BitSet.Bits.{IsBytes}
use ticktock.BitSet.CheckPoint.{Field, append_all}
use ticktock.Compress.Endian.{byte, swap16, swap32, swap64}
use ticktock.Compress.Endian.{compress_int16, compress_int32, compress_int64}

-- `to_bytes` and `of_bytes` are the reinterpretation of the eight bytes of a double, `near_integer`
-- is std::abs(f) < 1.0 / m_precision for the fraction f that std::modf gives, `truncate` the cast to
-- int64_t, `scale` is std::llround(v * m_precision), `from_int` the cast of an int64_t, and
-- `unscale` its quotient by m_precision. A double has eight bytes,
-- and an int64_t is in its range.
pub record Floating : Type 1 where
  pub Double : Type 0
  pub zero_value : Double
  pub to_bytes : Double → List ℕ
  pub of_bytes : List ℕ → Double
  pub plus : Double → Double → Double
  pub minus : Double → Double → Double
  pub near_integer : Double → Bool
  pub truncate : Double → ℤ
  pub scale : Double → ℤ
  pub from_int : ℤ → Double
  pub unscale : ℤ → Double
  pub to_bytes-IsBytes : (v : Double) → IsBytes (to_bytes v)
  pub length-to_bytes : (v : Double) → length (to_bytes v) ≡ 8
  pub of_bytes-to_bytes : (v : Double) → of_bytes (to_bytes v) ≡ v
  pub truncate_fits : (v : Double) → fits (2 ^ 63) (truncate v) ≡ true
  pub scale_fits : (v : Double) → fits (2 ^ 63) (scale v) ≡ true

abbrev pub field : List ℕ → ℕ → ℕ → Field
field bytes len start = record { bytes = bytes; len = len; start = start }

abbrev pub is_zero : ℤ → Bool
is_zero (pos n) = n == 0
is_zero (negsuc n) = false

-- The calls of BitSet::append that `compress(int64_t)` makes, in their order.
pub int_fields : ℤ → List Field
int_fields n =
    if is_zero n
    then field (0x00 ∷ []) 1 0 ∷ []
    else if fits 2048 n
    then field (0x80 ∷ []) 2 0 ∷ field (compress_int16 n) 12 4 ∷ []
    else if fits 65536 n
    then field (0xC0 ∷ []) 3 0 ∷ field (compress_int32 n) 17 15 ∷ []
    else field (0xE0 ∷ []) 3 0 ∷ field (compress_int64 n) 64 0 ∷ []

-- `if (dod_be & 0x0008) dod_be |= 0x00F0; else dod_be &= 0xFF07;`
pub extend12 : ℕ → ℕ
extend12 x = if bit_and x 0x0008 == 0 then bit_and x 0xFF07 else bit_or x 0x00F0

-- `if (dod_be & 0x00000100) dod_be |= 0x0000FEFF; else dod_be &= 0xFFFF0000;`
pub extend17 : ℕ → ℕ
extend17 x = if bit_and x 0x00000100 == 0 then bit_and x 0xFFFF0000 else bit_or x 0x0000FEFF

-- A word of memory, its first byte the lowest.
abbrev pub word : List ℕ → ℕ
word [] = 0
word (x ∷ xs) = x + word xs * 256

-- What a read through the cursor gives: a value and the cursor behind it, or an exception.
pub data Fetched (A : Type 0) : Type 0 where
  got : A → Cursor → Fetched A
  thrown : Fetched A
  stuck : Fetched A

abbrev pub fetched : Result Destination → Fetched (List ℕ)
fetched (ok d) = got d.bytes d.cursor
fetched (out_of_range d) = thrown
fetched out_of_fuel = stuck

abbrev pub then_got : {A : Type 0} {B : Type 0} → Fetched A → (A → Cursor → Fetched B) → Fetched B
then_got (got a c) k = k a c
then_got thrown k = thrown
then_got stuck k = stuck

pub fetch : BitSet → List ℕ → ℕ → ℕ → Cursor → Fetched (List ℕ)
fetch b bytes len start c = fetched (retrieve b c bytes len start)

abbrev pub top_bit : List ℕ → ℕ
top_bit bytes = bit_and (get_or bytes 0 0) 0x80

-- The locals that the source does not initialise hold the bytes of `stack`.
module _ (b : BitSet) (stack : List ℕ) where
  abbrev pub uncompress_long : List ℕ → Cursor → Fetched ℤ
  uncompress_long flag c = then_got (fetch b flag 1 0 c) λ flag c.
      if top_bit flag == 0
      then then_got (fetch b (take 4 stack) 17 15 c)
          (λ w c. got (to_signed (2 ^ 31) (swap32 (extend17 (word w)))) c)
      else then_got (fetch b (take 8 stack) 64 0 c)
          (λ w c. got (to_signed (2 ^ 63) (swap64 (word w))) c)

  abbrev pub uncompress_more : List ℕ → Cursor → Fetched ℤ
  uncompress_more flag c = then_got (fetch b flag 1 0 c) λ flag c.
      if top_bit flag == 0
      then then_got (fetch b (take 2 stack) 12 4 c)
          (λ w c. got (to_signed (2 ^ 15) (swap16 (extend12 (word w)))) c)
      else uncompress_long flag c

  pub uncompress_i : Cursor → Fetched ℤ
  uncompress_i c =
      then_got (fetch b (0 ∷ []) 1 0 c)
        λ flag c. if top_bit flag == 0 then got (pos 0) c else uncompress_more flag c

abbrev pub Timestamp : Type 0
Timestamp = ℕ

module _ (f : Floating) where
  pub record Compressor : Type 0 where
    pub bitset : BitSet
    pub dp_count : ℕ
    pub prev_delta : ℕ
    pub prev_tstamp : Timestamp
    pub prev_value : f.Double
    pub is_full : Bool
    pub start_tstamp : Timestamp

  pub init : Timestamp → List ℕ → Compressor
  init start base = record {
    bitset = init_bits base;
    dp_count = 0;
    prev_delta = 0;
    prev_tstamp = start;
    prev_value = f.zero_value;
    is_full = false;
    start_tstamp = start;
  }

  pub recycle : Compressor → Compressor
  recycle c = record c {
    bitset = recycle_bits c.bitset;
    dp_count = 0;
    prev_delta = 0;
    prev_tstamp = c.start_tstamp;
    prev_value = f.zero_value;
    is_full = false;
  }

  -- CompressorPosition; m_offset is a uint16_t.
  pub record Position : Type 0 where
    pub offset : ℕ
    pub start : ℕ

  pub save : Compressor → Position
  save c =
      let bit_cnt = size_in_bits c.bitset in
      record { offset = bit_cnt / 8 % 2 ^ 16; start = bit_cnt % 8 }

  -- The calls of BitSet::append that `compress(double)` and `compress1` make.
  pub float_fields : f.Double → List Field
  unfolding int_fields
  float_fields v =
      if f.near_integer v
      then field (0x00 ∷ []) 1 0 ∷ int_fields (f.truncate v)
      else field (0x80 ∷ []) 1 0 ∷ int_fields (f.scale v)

  pub first_fields : ℕ → f.Double → List Field
  first_fields delta v =
      field (byte delta 0 ∷ byte delta 1 ∷ byte delta 2 ∷ byte delta 3 ∷ []) 32 0
      ∷ field (f.to_bytes v) 64 0
      ∷ []

  -- What `compress` returns, and the compressor that it leaves.
  pub record Compressed : Type 0 where
    pub compressor : Compressor
    pub accepted : Bool

  -- catch (const std::out_of_range&), with the fields as they are by then; `none` where the check
  -- point would be null.
  pub roll_back : BitSet → Compressor → Option Compressed
  roll_back thrown_from c = elim (restore_from_check_point thrown_from) [
    | none ↦ none
    | some b ↦
        some (record { compressor = record c { bitset = b; is_full = true }; accepted = false })
  ]

  abbrev pub accept : BitSet → Compressor → Timestamp → ℕ → f.Double → Option Compressed
  accept b c tstamp delta v = some (record {
    compressor = record c {
      bitset = b;
      dp_count = (c.dp_count + 1) % 2 ^ 16;
      prev_delta = delta;
      prev_tstamp = tstamp;
      prev_value = v;
    };
    accepted = true;
  })

  pub compress1 : BitSet → Timestamp → f.Double → Compressor → Option Compressed
  compress1 b tstamp v c =
      let delta = (tstamp + 2 ^ 64 - c.start_tstamp) % 2 ^ 32 in
      elim (append_all (first_fields delta v) b) [
        | ok b' ↦ accept b' c tstamp delta v
        | out_of_range b' ↦ roll_back b' c
        | out_of_fuel ↦ none
      ]

  pub compress_value : BitSet → Timestamp → ℕ → f.Double → Compressor → Option Compressed
  compress_value b tstamp delta v c = elim (append_all (float_fields (f.minus v c.prev_value)) b) [
    | ok b' ↦ accept b' c tstamp delta v
    | out_of_range b' ↦ roll_back b' (record c { prev_tstamp = tstamp; prev_delta = delta })
    | out_of_fuel ↦ none
  ]

  pub compress_next : BitSet → Timestamp → f.Double → Compressor → Option Compressed
  compress_next b tstamp v c =
      let delta = tstamp - c.prev_tstamp in
      let delta_of_delta = to_signed (2 ^ 63) ((delta + 2 ^ 64 - c.prev_delta) % 2 ^ 64) in
      elim (append_all (int_fields delta_of_delta) b) [
        | ok b' ↦ compress_value b' tstamp delta v c
        | out_of_range b' ↦ roll_back b' c
        | out_of_fuel ↦ none
      ]

  pub compress : Timestamp → f.Double → Compressor → Option Compressed
  compress tstamp v c =
      let b = save_check_point c.bitset in
      if c.dp_count == 0
      then compress1 b tstamp v c
      else if ltb tstamp c.prev_tstamp
      then some (record { compressor = record c { bitset = b }; accepted = true })
      else compress_next b tstamp v c

  pub uncompress_f : BitSet → List ℕ → Cursor → Fetched f.Double
  uncompress_f b stack c = then_got (fetch b (0 ∷ []) 1 0 c) λ flag c.
      if top_bit flag == 0
      then then_got (uncompress_i b stack c) (λ n c. got (f.from_int n) c)
      else then_got (uncompress_i b stack c) (λ n c. got (f.unscale n) c)

  -- The locals of `uncompress`.
  pub record Reader : Type 0 where
    pub cursor : Cursor
    pub dps : List (Timestamp × f.Double)
    pub delta : ℕ
    pub timestamp : Timestamp
    pub value : f.Double

  -- A round of its loop: it goes on, or an exception ends it.
  pub data Round : Type 0 where
    more : Reader → Round
    ended : Reader → Round
    lost : Round

  pub next_value : BitSet → List ℕ → ℕ → Timestamp → Reader → Cursor → Round
  next_value b stack delta timestamp r c = elim (uncompress_f b stack c) [
    | thrown ↦ ended (record r { delta = delta; timestamp = timestamp })
    | stuck ↦ lost
    | got dv c' ↦
        let value = f.plus r.value dv in
        more (record {
          cursor = c';
          dps = r.dps ++ (timestamp, value) ∷ [];
          delta = delta;
          timestamp = timestamp;
          value = value;
        })
  ]

  pub next : BitSet → List ℕ → Reader → Round
  next b stack r = elim (uncompress_i b stack r.cursor) [
    | thrown ↦ ended r
    | stuck ↦ lost
    | got dod c ↦
        let delta = (r.delta + to_unsigned 64 dod) % 2 ^ 64 in
        next_value b stack delta ((r.timestamp + delta) % 2 ^ 64) r c
  ]

  -- `none` where the fuel is spent.
  pub read_all : ℕ → BitSet → List ℕ → Reader → Option Reader
  read_all zero b stack r = none
  read_all (suc fuel) b stack r = elim (next b stack r) [
    | more r' ↦ read_all fuel b stack r'
    | ended r' ↦ some r'
    | lost ↦ none
  ]

  abbrev pub first_value : BitSet → Timestamp → List ℕ → Cursor → Fetched Reader
  first_value b start d c = then_got (fetch b (f.to_bytes f.zero_value) 64 0 c) λ v c.
      (let timestamp = (start + word d) % 2 ^ 64 in
        got
          (record {
            cursor = c;
            dps = (timestamp, f.of_bytes v) ∷ [];
            delta = word d;
            timestamp = timestamp;
            value = f.of_bytes v;
          })
          c)

  pub first : BitSet → Timestamp → Fetched Reader
  first b start = then_got (fetch b (0 ∷ 0 ∷ 0 ∷ 0 ∷ []) 32 0 new_cursor) (first_value b start)

  -- `nothing` is the early return, `uncaught` an exception from the first data point.
  pub data Uncompressed : Type 0 where
    nothing : Uncompressed
    uncaught : Uncompressed
    finished : Reader → Uncompressed
    unfinished : Uncompressed

  abbrev pub to_uncompressed : Option Reader → Uncompressed
  to_uncompressed none = unfinished
  to_uncompressed (some r) = finished r

  pub uncompress : ℕ → List ℕ → Compressor → Uncompressed
  uncompress fuel stack c =
      if no_bits c.bitset then nothing else elim (first c.bitset c.start_tstamp) [
        | thrown ↦ uncaught
        | stuck ↦ unfinished
        | got r cursor ↦ to_uncompressed (read_all fuel c.bitset stack r)
      ]

  -- `restore`, by the bits that were saved at `base`; `none` where an exception leaves it.
  pub restore : ℕ → List ℕ → List ℕ → Position → Compressor → Option Compressor
  restore fuel stack base position c =
      let c' = record c { bitset = copy_from base position.offset position.start c.bitset } in
      elim (uncompress fuel stack c') [
        | nothing ↦ some c'
        | uncaught ↦ none
        | unfinished ↦ none
        | finished r ↦ some (record c' {
          dp_count = length r.dps % 2 ^ 16;
          prev_delta = r.delta;
          prev_tstamp = r.timestamp;
          prev_value = r.value;
        })
      ]
