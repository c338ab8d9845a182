-- ===== src/Compress/V1.antt =====
-- Compressor_v1 of include/compress.h and src/core/compress.cpp: codes of whole bytes. m_cursor and
-- the local `b` are offsets from m_base, m_size is the length of the list `base`, and
-- `ms` is g_tstamp_resolution_ms. `none` is an access behind the buffer.
pub mod Codes
pub mod Series
pub mod Holds
pub mod RoundTrip
mod Tests
use ticktock.Prelude.{
  ℕ, zero, suc, ◌+◌, ◌-◌, ◌*◌, ◌%◌, ◌^◌, bit_and, bit_or, bit_xor, Bool, true, false, ltb, ◌==◌,
  ◌||◌, if◌then◌else◌, List, [], ◌∷◌, ◌++◌, length, take, drop, Option, some, none, to_signed,
  to_unsigned,
}
use ticktock.Compress.Double.{Memory}
use ticktock.Compress.Endian.{byte}

abbrev pub Timestamp : Type 0
Timestamp = ℕ

-- std::labs of the signed integer that a word of 64 bits stands for.
abbrev pub labs : ℕ → ℕ
labs x = if ltb x (2 ^ 63) then x else 2 ^ 64 - x

abbrev pub int32_bytes : ℕ → List ℕ
int32_bytes x = byte x 0 ∷ byte x 1 ∷ byte x 2 ∷ byte x 3 ∷ []

-- The bytes of a delta of deltas.
pub dod_bytes : Bool → ℕ → List ℕ
dod_bytes true x =
    if ltb 32767 (labs x) then 0x00 ∷ 0x80 ∷ int32_bytes x else byte x 0 ∷ byte x 1 ∷ []
dod_bytes false x = if ltb 127 (labs x) then 0x80 ∷ int32_bytes x else byte x 0 ∷ []

-- `control` and the bytes behind it, from byte i of x on.
pub value_loop : ℕ → List ℕ → ℕ → List ℕ → ℕ × List ℕ
value_loop i [] control out = (control, out)
value_loop i (b ∷ bs) control out =
    value_loop (suc i) bs (if b == 0 then control else bit_or control (2 ^ (8 - i - 1)))
      (if b == 0 then out else out ++ b ∷ [])

pub xor_bytes : List ℕ → List ℕ → List ℕ
xor_bytes (x ∷ xs) (y ∷ ys) = bit_xor x y ∷ xor_bytes xs ys
xor_bytes xs ys = []

-- The bytes of a value, by its difference to the last.
pub value_bytes : List ℕ → List ℕ
value_bytes x = let (control, out) = value_loop 0 x 0 [] in control ∷ out

-- The delta of deltas in front of a list, and how many bytes it takes.
abbrev pub read_int32 : ℕ → List ℕ → Option (ℕ × ℕ)
read_int32 before (b0 ∷ b1 ∷ b2 ∷ b3 ∷ _) =
    some (
      to_unsigned 64 (to_signed (2 ^ 31) (b0 + b1 * 2 ^ 8 + b2 * 2 ^ 16 + b3 * 2 ^ 24)),
      before + 4,
    )
read_int32 before _ = none

pub read_dod : Bool → List ℕ → Option (ℕ × ℕ)
read_dod true (b0 ∷ b1 ∷ r) =
    let x = b0 + b1 * 2 ^ 8 in
    if x == 0x8000 then read_int32 2 r else some (to_unsigned 64 (to_signed (2 ^ 15) x), 2)
read_dod false (b0 ∷ r) =
    if b0 == 0x80 then read_int32 1 r else some (to_unsigned 64 (to_signed (2 ^ 7) b0), 1)
read_dod _ _ = none

-- The bytes of `v` that the loop has still to fill in, and how many bytes it reads.
pub fill : ℕ → ℕ → List ℕ → Option (List ℕ × ℕ)
fill zero control bytes = some ([], 0)
fill (suc n) control bytes = elim (bit_and control 0x80 == 0) [
  | true ↦ elim (fill n (control * 2 % 256) bytes) [
    | none ↦ none
    | some (v, used) ↦ some (0 ∷ v, used)
  ]
  | false ↦ elim bytes [
    | [] ↦ none
    | b ∷ r ↦ elim (fill n (control * 2 % 256) r) [
      | none ↦ none
      | some (v, used) ↦ some (b ∷ v, used + 1)
    ]
  ]
]

pub read_value : List ℕ → Option (List ℕ × ℕ)
unfolding fill
read_value [] = none
read_value (control ∷ r) =
    if control == 0
    then some (0 ∷ 0 ∷ 0 ∷ 0 ∷ 0 ∷ 0 ∷ 0 ∷ 0 ∷ [], 1)
    else elim (fill 8 control r) [ none ↦ none | some (v, used) ↦ some (v, used + 1) ]

module _ (m : Memory) where
  pub record Compressor : Type 0 where
    pub base : List ℕ
    pub cursor : ℕ
    pub prev_delta : ℕ
    pub prev_tstamp : Timestamp
    pub prev_value : m.Double
    pub is_full : Bool
    pub dp_count : ℕ
    pub start_tstamp : Timestamp

  pub init : Timestamp → List ℕ → Compressor
  init start base = record {
    base = base;
    cursor = 0;
    prev_delta = 0;
    prev_tstamp = start;
    prev_value = m.zero_value;
    is_full = false;
    dp_count = 0;
    start_tstamp = start;
  }

  pub recycle : Compressor → Compressor
  recycle c = record c {
    cursor = 0;
    prev_delta = 0;
    prev_tstamp = c.start_tstamp;
    prev_value = m.zero_value;
    is_full = false;
    dp_count = 0;
  }

  -- The offset of the position, a uint16_t; its start is not used.
  pub save : Compressor → ℕ
  save c = c.cursor % 2 ^ 16

  -- The bytes at the cursor, which moves behind them. `none` where they do not fit.
  pub write : List ℕ → Compressor → Option Compressor
  write out c =
      let end = c.cursor + length out in
      if ltb (length c.base) end
      then none
      else some (record c { base = take c.cursor c.base ++ (out ++ drop end c.base); cursor = end })

  -- What `compress` returns, and the compressor that it leaves.
  pub record Compressed : Type 0 where
    pub compressor : Compressor
    pub accepted : Bool

  abbrev pub accept : Timestamp → m.Double → ℕ → Option Compressor → Option Compressed
  accept tstamp v delta none = none
  accept tstamp v delta (some c) = some (record {
    compressor = record c {
      dp_count = (c.dp_count + 1) % 2 ^ 16;
      prev_tstamp = tstamp;
      prev_value = v;
      prev_delta = delta;
    };
    accepted = true;
  })

  pub compress1 : Timestamp → m.Double → Compressor → Option Compressed
  unfolding write
  compress1 tstamp v c =
      let delta = (tstamp + 2 ^ 64 - c.start_tstamp) % 2 ^ 64 in
      accept tstamp v delta (write (int32_bytes delta ++ m.to_bytes v) c)

  pub record_bytes : Bool → ℕ → m.Double → m.Double → List ℕ
  unfolding dod_bytes value_bytes xor_bytes
  record_bytes ms dod v prev =
      dod_bytes ms dod ++ value_bytes (xor_bytes (m.to_bytes v) (m.to_bytes prev))

  pub compress_next : Bool → Timestamp → m.Double → Compressor → Option Compressed
  unfolding record_bytes write
  compress_next ms tstamp v c =
      let delta = tstamp - c.prev_tstamp in
      let delta_of_delta = (delta + 2 ^ 64 - c.prev_delta) % 2 ^ 64 in
      let out = record_bytes ms delta_of_delta v c.prev_value in
      if ltb ((length c.base + 2 ^ 64 - c.cursor) % 2 ^ 64) (length out)
      then some (record { compressor = record c { is_full = true }; accepted = false })
      else accept tstamp v delta (write out c)

  pub compress : Bool → Timestamp → m.Double → Compressor → Option Compressed
  unfolding compress1 compress_next
  compress ms tstamp v c =
      if c.cursor == 0
      then compress1 tstamp v c
      else if ltb tstamp c.prev_tstamp
      then some (record { compressor = c; accepted = true })
      else compress_next ms tstamp v c

  -- The locals of `uncompress`.
  pub record Reader : Type 0 where
    pub at : ℕ
    pub dps : List (Timestamp × m.Double)
    pub delta : ℕ
    pub tstamp : Timestamp
    pub value : m.Double

  -- A round of its loop.
  pub next : Bool → List ℕ → Reader → Option Reader
  unfolding read_dod read_value xor_bytes
  next ms base r = elim (read_dod ms (drop r.at base)) [
    | none ↦ none
    | some (dod, used) ↦
        let delta = (r.delta + dod) % 2 ^ 64 in
        let tstamp = (r.tstamp + delta) % 2 ^ 64 in
        elim (read_value (drop (r.at + used) base)) [
          | none ↦ none
          | some (v, used') ↦
              let value = m.of_bytes (xor_bytes v (m.to_bytes r.value)) in
              some (record {
                at = r.at + used + used';
                dps = r.dps ++ (tstamp, value) ∷ [];
                delta = delta;
                tstamp = tstamp;
                value = value;
              })
        ]
  ]

  -- The loop, `none` also where the fuel is spent.
  pub read_all : ℕ → Bool → List ℕ → ℕ → Reader → Option Reader
  unfolding next
  read_all zero ms base end r = none
  read_all (suc fuel) ms base end r = elim (ltb r.at end) [
    | false ↦ some r
    | true ↦ elim (next ms base r) [ none ↦ none | some r' ↦ read_all fuel ms base end r' ]
  ]

  pub first : Timestamp → List ℕ → Option Reader
  first start (b0 ∷ b1 ∷ b2 ∷ b3 ∷ r) =
      let delta = b0 + b1 * 2 ^ 8 + b2 * 2 ^ 16 + b3 * 2 ^ 24 in
      let tstamp = (start + delta) % 2 ^ 64 in
      if ltb (length r) 8
      then none
      else some (record {
        at = 12;
        dps = (tstamp, m.of_bytes (take 8 r)) ∷ [];
        delta = delta;
        tstamp = tstamp;
        value = m.of_bytes (take 8 r);
      })
  first start _ = none

  -- What `uncompress` reads of a compressor that is not empty. Each round takes a byte at least.
  pub uncompress : Bool → Compressor → Option (List (Timestamp × m.Double) × Option Reader)
  unfolding first read_all
  uncompress ms c = if c.cursor == 0 then some ([], none) else elim (first c.start_tstamp c.base) [
    | none ↦ none
    | some r ↦ elim (read_all (suc c.cursor) ms c.base c.cursor r) [
      | none ↦ none
      | some r' ↦ some (r'.dps, some r')
    ]
  ]

  -- What `restore` makes of the buffer when `uncompress` has read it.
  pub restored :
      Compressor → Option (List (Timestamp × m.Double) × Option Reader) → Option Compressor
  restored c none = none
  restored c (some (dps, none)) = some (record c { dp_count = 0 })
  restored c (some (dps, some r)) = some (record c {
    prev_delta = r.delta;
    prev_value = r.value;
    prev_tstamp = r.tstamp;
    dp_count = length dps % 2 ^ 16;
  })

  -- `restore` of the first `offset` bytes that stand at another base, `none` where either buffer has less.
  pub restore : Bool → List ℕ → ℕ → Compressor → Option Compressor
  unfolding uncompress restored
  restore ms base offset c =
      let c' = record c { base = take offset base ++ drop offset c.base; cursor = offset } in
      if ltb (length base) offset || ltb (length c.base) offset
      then none
      else restored c' (uncompress ms c')
