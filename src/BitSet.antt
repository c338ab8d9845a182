-- ===== src/BitSet.antt =====
-- BitSet and BitSetCursor of include/bitset.h and src/utils/bitset.cpp, after `init`. Pointers into the
-- bytes of the set are offsets from m_bits, so m_end is their number; a pointer into other
-- memory is the list of the bytes from there on. A thrown std::out_of_range carries the state that
-- it leaves behind. Loops take fuel, which their lengths are enough of.
pub mod Byte
pub mod Bits
pub mod Align
pub mod Step
pub mod Append
pub mod Copies
pub mod Retrieve
pub mod RoundTrip
pub mod CheckPoint
pub mod Fields
mod Tests
use ticktock.Prelude.{
  ℕ, zero, suc, false, ◌+◌, ◌-◌, ◌*◌, ◌/◌, ◌%◌, ◌^◌, Bool, ◌&&◌, ◌||◌, not, ltb, leb, ◌==◌,
  if◌then◌else◌, bit_and, bit_or, List, [], ◌∷◌, ◌++◌, Option, some, none, length, get_or, set,
  take, drop, replicate,
}

abbrev pub mask_0011 : List ℕ
mask_0011 = 0xFF ∷ 0x7F ∷ 0x3F ∷ 0x1F ∷ 0x0F ∷ 0x07 ∷ 0x03 ∷ 0x01 ∷ []

abbrev pub mask_1100 : List ℕ
mask_1100 = 0x00 ∷ 0x80 ∷ 0xC0 ∷ 0xE0 ∷ 0xF0 ∷ 0xF8 ∷ 0xFC ∷ 0xFE ∷ []

-- `cp_cursor` is none where m_cp_cursor is null.
pub record BitSet : Type 0 where
  pub bits : List ℕ
  pub cursor : ℕ
  pub start : ℕ
  pub cp_cursor : Option ℕ
  pub cp_start : ℕ

unfoldable pub init : List ℕ → BitSet
init base = record { bits = base; cursor = 0; start = 0; cp_cursor = none; cp_start = 0 }

pub capacity : BitSet → ℕ
capacity b = length b.bits

pub recycle : BitSet → BitSet
recycle b = record b { cursor = 0; start = 0; cp_cursor = none; cp_start = 0 }

pub reset : BitSet → BitSet
unfolding recycle capacity
reset b = record (recycle b) { bits = replicate (capacity b) 0 }

unfoldable pub save_check_point : BitSet → BitSet
save_check_point b = record b { cp_cursor = some b.cursor; cp_start = b.start }

-- `none` where there is no check point: the cursor would be null.
unfoldable pub restore_from_check_point : BitSet → Option BitSet
restore_from_check_point b = elim b.cp_cursor [
  | none ↦ none
  | some c ↦ some (record b { cursor = c; start = b.cp_start })
]

unfoldable pub size_in_bits : BitSet → ℕ
size_in_bits b = 8 * b.cursor + b.start

pub size_in_bytes : BitSet → ℕ
size_in_bytes b = if b.start == 0 then b.cursor else b.cursor + 1

unfoldable pub is_empty : BitSet → Bool
is_empty b = b.cursor == 0 && b.start == 0

-- The bytes that `copy_to` and `append(FILE*)` hand out.
pub copy_to : BitSet → List ℕ
unfolding size_in_bytes
copy_to b = take (size_in_bytes b) b.bits

-- `copy_from` with a base that is another buffer: memcpy, then the new cursor.
pub copy_from : List ℕ → ℕ → ℕ → BitSet → BitSet
copy_from base bytes start b =
    let count = if start == 0 then bytes else bytes + 1 in
    record b { bits = take count base ++ drop count b.bits; cursor = bytes; start = start }

pub data Result (A : Type 0) : Type 0 where
  ok : A → Result A
  out_of_range : A → Result A
  out_of_fuel : Result A

-- `cursor > m_end` lets the byte behind the end pass: then the access is out of bounds, and `none`.
pub set_bit : ℕ → BitSet → Option (Result BitSet)
set_bit idx b =
    let at = idx / 8 in
    if ltb (length b.bits) at
    then some (out_of_range b)
    else if at == length b.bits
    then none
    else some
        (ok (record b { bits = set b.bits at (bit_or (get_or b.bits at 0) (2 ^ (7 - idx % 8))) }))

pub test : ℕ → BitSet → Option (Result Bool)
test idx b =
    let at = idx / 8 in
    if ltb (length b.bits) at
    then some (out_of_range false)
    else if at == length b.bits
    then none
    else some (ok (not (bit_and (get_or b.bits at 0) (2 ^ (7 - idx % 8)) == 0)))

-- `*at &= mask_1100[m]; x &= mask_0011[m]; *at |= x;`
abbrev pub overlay : ℕ → ℕ → ℕ → ℕ
overlay m at x = bit_or (bit_and at (get_or mask_1100 m 0)) (bit_and x (get_or mask_0011 m 0))

-- `while (start >= 8) { bits++; start -= 8; }`
pub record Source : Type 0 where
  pub bytes : List ℕ
  pub offset : ℕ

pub skip_bytes : ℕ → List ℕ → ℕ → Source
skip_bytes zero bytes start = record { bytes = bytes; offset = start }
skip_bytes (suc fuel) bytes start =
    let rest = skip_bytes fuel (drop 1 bytes) (start - 8) in
    if leb 8 start then rest else record { bytes = bytes; offset = start }

-- append(uint8_t bits, uint8_t& len, uint8_t& start), with the new `len` and `start`.
pub record Appended : Type 0 where
  pub bitset : BitSet
  pub len : ℕ
  pub start : ℕ

pub append_byte : ℕ → ℕ → ℕ → BitSet → Appended
append_byte x len start b =
    let at = get_or b.bits b.cursor 0 in
    let put = λ (y : ℕ). set b.bits b.cursor (overlay b.start at y) in
    if ltb start b.start
    then (let l = 8 - b.start in
        let bits = put (x / 2 ^ (b.start - start)) in
        if leb l len
        then record {
          bitset = record b { bits = bits; start = 0; cursor = b.cursor + 1 };
          len = len - l;
          start = start + l;
        }
        else record {
          bitset = record b { bits = bits; start = b.start + len };
          len = 0;
          start = start;
        })
    else if ltb b.start start
    then (let l = 8 - start in
        let bits = put (x * 2 ^ (start - b.start) % 256) in
        if leb l len
        then record {
          bitset = record b { bits = bits; start = b.start + l };
          len = len - l;
          start = 0;
        }
        else record {
          bitset = record b { bits = bits; start = b.start + len };
          len = 0;
          start = start;
        })
    else (let l = 8 - b.start in
        let bits = put x in
        if leb l len
        then record {
          bitset = record b { bits = bits; start = 0; cursor = b.cursor + 1 };
          len = len - l;
          start = 0;
        }
        else record {
          bitset = record b { bits = bits; start = b.start + len };
          len = 0;
          start = start;
        })

pub append_loop : ℕ → List ℕ → ℕ → ℕ → BitSet → Result BitSet
unfolding append_byte
append_loop zero bytes len start b = if len == 0 then ok b else out_of_fuel
append_loop (suc fuel) bytes len start b =
    let s = append_byte (get_or bytes 0 0) len start b in
    let rest =
      append_loop fuel (if s.start == 0 then drop 1 bytes else bytes) s.len s.start s.bitset in
    if len == 0 then ok b else if b.cursor == length b.bits then out_of_range b else rest

unfoldable pub append : List ℕ → ℕ → ℕ → BitSet → Result BitSet
unfolding append_loop skip_bytes
append bytes len start b =
    let s = skip_bytes start bytes start in append_loop len s.bytes len s.offset b

-- BitSetCursor.
pub record Cursor : Type 0 where
  pub at : ℕ
  pub start : ℕ

abbrev pub new_cursor : Cursor
new_cursor = record { at = 0; start = 0 }

-- retrieve(BitSetCursor*, uint8_t& bits, uint8_t& len, uint8_t& start), with the new values.
pub record Retrieved : Type 0 where
  pub cursor : Cursor
  pub byte : ℕ
  pub len : ℕ
  pub start : ℕ

pub retrieve_byte : BitSet → Cursor → ℕ → ℕ → ℕ → Retrieved
retrieve_byte b c x len start =
    let src = get_or b.bits c.at 0 in
    if ltb start c.start
    then (let l = 8 - c.start in
        let y = overlay start x (src * 2 ^ (c.start - start) % 256) in
        if leb l len
        then record {
          cursor = record { at = c.at + 1; start = 0 };
          byte = y;
          len = len - l;
          start = start + l;
        }
        else record {
          cursor = record c { start = c.start + len };
          byte = y;
          len = 0;
          start = start;
        })
    else if ltb c.start start
    then (let l = 8 - start in
        let y = overlay start x (src / 2 ^ (start - c.start)) in
        if leb l len
        then record {
          cursor = record c { start = c.start + l };
          byte = y;
          len = len - l;
          start = 0;
        }
        else record {
          cursor = record c { start = c.start + len };
          byte = y;
          len = 0;
          start = start;
        })
    else (let l = 8 - start in
        let y = overlay start x src in
        if leb l len
        then record {
          cursor = record { at = c.at + 1; start = 0 };
          byte = y;
          len = len - l;
          start = 0;
        }
        else record {
          cursor = record c { start = c.start + len };
          byte = y;
          len = 0;
          start = start;
        })

-- The destination: its bytes, and the offset of the pointer `bits` into them.
pub record Destination : Type 0 where
  pub cursor : Cursor
  pub bytes : List ℕ
  pub at : ℕ

pub retrieve_loop : BitSet → ℕ → Destination → ℕ → ℕ → Result Destination
unfolding retrieve_byte
retrieve_loop b zero d len start = if len == 0 then ok d else out_of_fuel
retrieve_loop b (suc fuel) d len start =
    let s = retrieve_byte b d.cursor (get_or d.bytes d.at 0) len start in
    let d' : Destination = record {
      cursor = s.cursor;
      bytes = set d.bytes d.at s.byte;
      at = if s.start == 0 then d.at + 1 else d.at;
    } in
    let rest = retrieve_loop b fuel d' s.len s.start in
    if len == 0 then ok d else if d.cursor.at == length b.bits then out_of_range d else rest

-- `while (start >= 8) { bits++; start -= 8; }` on the destination.
pub record Pointer : Type 0 where
  pub at : ℕ
  pub start : ℕ

pub skip_destination : ℕ → ℕ → ℕ → Pointer
skip_destination zero at start = record { at = at; start = start }
skip_destination (suc fuel) at start =
    let rest = skip_destination fuel (at + 1) (start - 8) in
    if leb 8 start then rest else record { at = at; start = start }

unfoldable pub retrieve : BitSet → Cursor → List ℕ → ℕ → ℕ → Result Destination
unfolding retrieve_loop skip_destination
retrieve b c bytes len start =
    let s = skip_destination start 0 start in
    if ltb b.cursor c.at || (c.at == b.cursor && leb b.start c.start)
    then out_of_range (record { cursor = c; bytes = bytes; at = 0 })
    else retrieve_loop b len (record { cursor = c; bytes = bytes; at = s.at }) len s.start
