-- ===== src/Compress/V0.antt =====
-- Compressor_v0 of include/compress.h and src/core/compress.cpp: data points in order of time, not
-- compressed. The buffer at m_data_points is a list of its own, which `save` overwrites. A host
-- of x86 is assumed, where the base is not aligned further.
pub mod Sorted
pub mod Saved
mod Tests
use ticktock.Prelude.{
  ℕ, zero, suc, ◌+◌, ◌-◌, ◌*◌, ◌/◌, Bool, true, false, ltb, leb, ◌==◌, ◌||◌, if◌then◌else◌, List,
  [], ◌∷◌, ◌++◌, length, ◌%◌, ◌^◌, Option, none, some,
}

-- The number of bytes of a DataPointPair.
abbrev sizeof_pair : ℕ
sizeof_pair = 16

-- The type of values, which the compressor only moves.
module _ (Value : Type 0) where
  pub record DataPointPair : Type 0 where
    pub tstamp : ℕ
    pub value : Value

  pub record Compressor : Type 0 where
    pub size : ℕ
    pub data_points : List DataPointPair
    pub dps : List DataPointPair
    pub start_tstamp : ℕ

  -- `size` is the number of bytes at `base`.
  pub init : ℕ → List DataPointPair → ℕ → Compressor
  init start base size = record {
    size = size / sizeof_pair;
    data_points = base;
    dps = [];
    start_tstamp = start;
  }

  pub recycle : Compressor → Compressor
  recycle c = record c { dps = [] }

  pub is_full : Compressor → Bool
  is_full c = leb c.size (length c.dps)

  pub is_empty : Compressor → Bool
  is_empty c = length c.dps == 0

  pub size_in_bytes : Compressor → ℕ
  size_in_bytes c = length c.dps * sizeof_pair

  pub back_tstamp : List DataPointPair → ℕ → ℕ
  back_tstamp [] start = start
  back_tstamp (dp ∷ dps) start = back_tstamp dps dp.tstamp

  pub get_last_tstamp : Compressor → ℕ
  unfolding back_tstamp
  get_last_tstamp c = back_tstamp c.dps c.start_tstamp

  -- dps.insert(std::upper_bound(dps.begin(), dps.end(), dp, dp_pair_less), dp), where
  -- std::upper_bound, on a sorted vector, is the first position whose timestamp is greater.
  pub insert : DataPointPair → List DataPointPair → List DataPointPair
  insert dp [] = dp ∷ []
  insert dp (x ∷ xs) =
      let rest = insert dp xs in if ltb dp.tstamp x.tstamp then dp ∷ x ∷ xs else x ∷ rest

  -- The result of `compress`, and the compressor that it leaves.
  pub record Compressed : Type 0 where
    pub compressor : Compressor
    pub stored : Bool

  pub compress : ℕ → Value → Compressor → Compressed
  unfolding is_full get_last_tstamp insert is_empty
  compress tstamp value c =
      let dp : DataPointPair = record { tstamp = tstamp; value = value } in
      if is_full c
      then record { compressor = c; stored = false }
      else if leb (get_last_tstamp c) tstamp || is_empty c
      then record { compressor = record c { dps = c.dps ++ dp ∷ [] }; stored = true }
      else record { compressor = record c { dps = insert dp c.dps }; stored = true }

  -- What `uncompress` leaves in its argument.
  pub uncompress : List DataPointPair → Compressor → List DataPointPair
  uncompress dps c = dps ++ c.dps

  -- m_offset of `save(CompressorPosition&)`, a uint16_t; m_start is not used.
  pub save_position : Compressor → ℕ
  save_position c = length c.dps % 2 ^ 16

  -- The loop of `save(uint8_t*)`: one data point after the other is written over what stands at `base`, `none` where
  -- that has less room.
  pub overwrite : List DataPointPair → List DataPointPair → Option (List DataPointPair)
  overwrite [] base = some base
  overwrite (dp ∷ dps) [] = none
  overwrite (dp ∷ dps) (x ∷ base) = elim (overwrite dps base) [
    | none ↦ none
    | some rest ↦ some (dp ∷ rest)
  ]

  -- The first n entries, `none` where there are less.
  pub entries : ℕ → List DataPointPair → Option (List DataPointPair)
  entries zero base = some []
  entries (suc n) [] = none
  entries (suc n) (x ∷ base) = elim (entries n base) [ none ↦ none | some rest ↦ some (x ∷ rest) ]

  -- `append(FILE*)`: the data points are saved to the buffer of the compressor, from which as many are written.
  pub record Appended : Type 0 where
    pub compressor : Compressor
    pub written : List DataPointPair

  pub append : Compressor → Option Appended
  unfolding overwrite entries
  append c = elim (overwrite c.dps c.data_points) [
    | none ↦ none
    | some base ↦ elim (entries (length c.dps) base) [
      | none ↦ none
      | some out ↦ some (record { compressor = record c { data_points = base }; written = out })
    ]
  ]

  -- The `dpv` that `restore` extends, and the compressor that it leaves.
  pub record Restored : Type 0 where
    pub dpv : List DataPointPair
    pub compressor : Compressor

  -- `base` is null where the data points stand in m_data_points. `none` where less than `offset` stand there.
  pub restore : List DataPointPair → ℕ → Option (List DataPointPair) → Compressor → Option Restored
  unfolding entries
  restore dpv offset base c =
      elim (entries offset (elim base [ none ↦ c.data_points | some dps ↦ dps ])) [
        | none ↦ none
        | some dps ↦
            some (record { dpv = dpv ++ dps; compressor = record c { dps = c.dps ++ dps } })
      ]
