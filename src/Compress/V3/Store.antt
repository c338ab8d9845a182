-- ===== src/Compress/V3/Store.antt =====
-- `compress` of Compressor_v3 keeps the bit set well-formed, and undoes what a full buffer interrupts.
use ticktock.Prelude.{
  ℕ, ◌-◌, ◌≤◌, ◌<◌, ◌≡◌, refl, sym, subst, ◌⊎◌, inl, inr, arith, Bool, Bool-cases, true, false,
  fits, [], ◌∷◌, length, Option, some, none, ℤ,
}
use ticktock.BitSet.{BitSet, size_in_bits, save_check_point}
use ticktock.Compress.Endian.{byte}
use ticktock.Compress.Endian.Bytes.{
  compress_int16-IsBytes, compress_int32-IsBytes, compress_int64-IsBytes,
}
use ticktock.BitSet.Bits.{IsBytes, IsBytes-nil, IsBytes-cons, IsValid, Kept}
use ticktock.BitSet.CheckPoint.{Extends, AllBytes, RollsBack, rolls_back}
use ticktock.Compress.V3.{
  Floating, Compressor, Compressed, is_zero, roll_back, int_fields, float_fields, first_fields,
}

one_byte : (x : ℕ) → x < 256 → IsBytes (x ∷ [])
one_byte x h = IsBytes-cons x [] h IsBytes-nil

bytes4 : (x y z w : ℕ) → x < 256 → y < 256 → z < 256 → w < 256 → IsBytes (x ∷ y ∷ z ∷ w ∷ [])
bytes4 x y z w hx hy hz hw =
    IsBytes-cons x (y ∷ z ∷ w ∷ []) hx
      (IsBytes-cons y (z ∷ w ∷ []) hy (IsBytes-cons z (w ∷ []) hz (one_byte w hw)))

-- Fields of bytes.
pub int_fields-AllBytes : (n : ℤ) → AllBytes (int_fields n)
unfolding int_fields
int_fields-AllBytes n = elim (Bool-cases (is_zero n)) [
  | inl nil ↦ rw nil (one_byte 0x00 (omega arith), tt)
  | inr other ↦ elim (Bool-cases (fits 2048 n)) [
    | inl short ↦ rw (other, short) (one_byte 0x80 (omega arith), (compress_int16-IsBytes n, tt))
    | inr more ↦ elim (Bool-cases (fits 65536 n)) [
      | inl middle ↦
          rw (other, more, middle) (one_byte 0xC0 (omega arith), (compress_int32-IsBytes n, tt))
      | inr long ↦
          rw (other, more, long) (one_byte 0xE0 (omega arith), (compress_int64-IsBytes n, tt))
    ]
  ]
]

module _ (f : Floating) where
  pub float_fields-AllBytes : (v : f.Double) → AllBytes (float_fields f v)
  unfolding float_fields
  float_fields-AllBytes v = elim (Bool-cases (f.near_integer v)) [
    | inl near ↦ rw near (one_byte 0x00 (omega arith), int_fields-AllBytes (f.truncate v))
    | inr far ↦ rw far (one_byte 0x80 (omega arith), int_fields-AllBytes (f.scale v))
  ]

  pub first_fields-AllBytes : (delta : ℕ) (v : f.Double) → AllBytes (first_fields f delta v)
  unfolding first_fields
  first_fields-AllBytes delta v = (
    bytes4 (byte delta 0) (byte delta 1) (byte delta 2) (byte delta 3) (omega arith) (omega arith)
        (omega arith) (omega arith),
    (f.to_bytes-IsBytes v, tt),
  )

  -- The bit set holds what it held, and is well-formed.
  pub record Holds (b b' : BitSet) : Type 0 where
    pub valid : IsValid b'
    pub length_eq : length b'.bits ≡ length b.bits
    pub kept : Kept b b'
    pub size : size_in_bits b ≤ size_in_bits b'

  -- Refused: full. The bit set is as long as before the call, and so are the number of data points and the last value. The
  -- last timestamp and delta are those from before, or those of the refused data point.
  pub record Refused (c : Compressor f) (tstamp : ℕ) (c' : Compressor f) : Type 0 where
    pub full : c'.is_full ≡ true
    pub count : c'.dp_count ≡ c.dp_count
    pub value : c'.prev_value ≡ c.prev_value
    pub same_size : size_in_bits c'.bitset ≡ size_in_bits c.bitset
    pub start : c'.start_tstamp ≡ c.start_tstamp
    pub last :
        ((c'.prev_tstamp ≡ c.prev_tstamp) × (c'.prev_delta ≡ c.prev_delta))
        ⊎ ((c'.prev_tstamp ≡ tstamp) × (c'.prev_delta ≡ tstamp - c.prev_tstamp))

  abbrev pub Verdict : Compressor f → ℕ → Compressor f → Bool → Type 0
  Verdict c tstamp c' true = c'.is_full ≡ c.is_full
  Verdict c tstamp c' false = Refused c tstamp c'

  abbrev pub StoreOutcome : Compressor f → ℕ → Option (Compressed f) → Type 0
  StoreOutcome c tstamp none = ⊥
  StoreOutcome c tstamp (some o) =
      Holds c.bitset o.compressor.bitset × Verdict c tstamp o.compressor o.accepted

  pub roll_back_lem :
      (c c' : Compressor f) (tstamp : ℕ) (b : BitSet)
      → IsValid c.bitset
      → c'.dp_count ≡ c.dp_count
      → c'.prev_value ≡ c.prev_value
      → c'.start_tstamp ≡ c.start_tstamp
      → ((c'.prev_tstamp ≡ c.prev_tstamp) × (c'.prev_delta ≡ c.prev_delta))
        ⊎ ((c'.prev_tstamp ≡ tstamp) × (c'.prev_delta ≡ tstamp - c.prev_tstamp))
      → Extends (save_check_point c.bitset) b
      → StoreOutcome c tstamp (roll_back f b c')
  unfolding roll_back RollsBack
  roll_back_lem c c' tstamp b v count value start last e =
      let r = rolls_back c.bitset b v e in
      let r2 = r.2 in
      subst
        (λ (o : Option BitSet). StoreOutcome c tstamp (elim o [
          | none ↦ none
          | some b ↦
              some
                (record { compressor = record c' { bitset = b; is_full = true }; accepted = false })
        ]))
        (sym r.1)
        (
          record { valid = r.5; length_eq = r.3; kept = r.4; size = omega arith },
          record {
            full = refl;
            count = count;
            value = value;
            same_size = r2;
            start = start;
            last = last;
          },
        )
