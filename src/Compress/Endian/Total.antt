-- ===== src/Compress/Endian/Total.antt =====
-- The readers of the parent fail only where bytes are missing.
use ticktock.Prelude.{ℕ, ◌≤◌, arith}
use ticktock.Prelude.{List, [], ◌∷◌, length, ◌≢◌, none}
use ticktock.Compress.Endian.{
  uncompress_int16, uncompress_int24, uncompress_int32, uncompress_int40, uncompress_int64,
}
use ticktock.Compress.Endian.{uncompress_uint16, uncompress_uint24, uncompress_uint32}

-- A reader that has its bytes reads them.
pub uncompress_int16-ne-none : (bs : List ℕ) → 2 ≤ length bs → uncompress_int16 bs ≢ none
unfolding uncompress_int16
uncompress_int16-ne-none [] h = absurd (omega arith)
uncompress_int16-ne-none (b0 ∷ []) h = absurd (omega arith)
uncompress_int16-ne-none (b0 ∷ b1 ∷ bs) h = λ e. cc

pub uncompress_int24-ne-none : (bs : List ℕ) → 3 ≤ length bs → uncompress_int24 bs ≢ none
unfolding uncompress_int24
uncompress_int24-ne-none [] h = absurd (omega arith)
uncompress_int24-ne-none (b0 ∷ []) h = absurd (omega arith)
uncompress_int24-ne-none (b0 ∷ b1 ∷ []) h = absurd (omega arith)
uncompress_int24-ne-none (b0 ∷ b1 ∷ b2 ∷ bs) h = λ e. cc

pub uncompress_int32-ne-none : (bs : List ℕ) → 4 ≤ length bs → uncompress_int32 bs ≢ none
unfolding uncompress_int32
uncompress_int32-ne-none [] h = absurd (omega arith)
uncompress_int32-ne-none (b0 ∷ []) h = absurd (omega arith)
uncompress_int32-ne-none (b0 ∷ b1 ∷ []) h = absurd (omega arith)
uncompress_int32-ne-none (b0 ∷ b1 ∷ b2 ∷ []) h = absurd (omega arith)
uncompress_int32-ne-none (b0 ∷ b1 ∷ b2 ∷ b3 ∷ bs) h = λ e. cc

pub uncompress_int40-ne-none : (bs : List ℕ) → 5 ≤ length bs → uncompress_int40 bs ≢ none
unfolding uncompress_int40
uncompress_int40-ne-none [] h = absurd (omega arith)
uncompress_int40-ne-none (b0 ∷ []) h = absurd (omega arith)
uncompress_int40-ne-none (b0 ∷ b1 ∷ []) h = absurd (omega arith)
uncompress_int40-ne-none (b0 ∷ b1 ∷ b2 ∷ []) h = absurd (omega arith)
uncompress_int40-ne-none (b0 ∷ b1 ∷ b2 ∷ b3 ∷ []) h = absurd (omega arith)
uncompress_int40-ne-none (b0 ∷ b1 ∷ b2 ∷ b3 ∷ b4 ∷ bs) h = λ e. cc

pub uncompress_int64-ne-none : (bs : List ℕ) → 8 ≤ length bs → uncompress_int64 bs ≢ none
unfolding uncompress_int64
uncompress_int64-ne-none [] h = absurd (omega arith)
uncompress_int64-ne-none (b0 ∷ []) h = absurd (omega arith)
uncompress_int64-ne-none (b0 ∷ b1 ∷ []) h = absurd (omega arith)
uncompress_int64-ne-none (b0 ∷ b1 ∷ b2 ∷ []) h = absurd (omega arith)
uncompress_int64-ne-none (b0 ∷ b1 ∷ b2 ∷ b3 ∷ []) h = absurd (omega arith)
uncompress_int64-ne-none (b0 ∷ b1 ∷ b2 ∷ b3 ∷ b4 ∷ []) h = absurd (omega arith)
uncompress_int64-ne-none (b0 ∷ b1 ∷ b2 ∷ b3 ∷ b4 ∷ b5 ∷ []) h = absurd (omega arith)
uncompress_int64-ne-none (b0 ∷ b1 ∷ b2 ∷ b3 ∷ b4 ∷ b5 ∷ b6 ∷ []) h = absurd (omega arith)
uncompress_int64-ne-none (b0 ∷ b1 ∷ b2 ∷ b3 ∷ b4 ∷ b5 ∷ b6 ∷ b7 ∷ bs) h = λ e. cc

pub uncompress_uint16-ne-none : (bs : List ℕ) → 2 ≤ length bs → uncompress_uint16 bs ≢ none
unfolding uncompress_uint16
uncompress_uint16-ne-none [] h = absurd (omega arith)
uncompress_uint16-ne-none (b0 ∷ []) h = absurd (omega arith)
uncompress_uint16-ne-none (b0 ∷ b1 ∷ bs) h = λ e. cc

pub uncompress_uint24-ne-none : (bs : List ℕ) → 3 ≤ length bs → uncompress_uint24 bs ≢ none
unfolding uncompress_uint24
uncompress_uint24-ne-none [] h = absurd (omega arith)
uncompress_uint24-ne-none (b0 ∷ []) h = absurd (omega arith)
uncompress_uint24-ne-none (b0 ∷ b1 ∷ []) h = absurd (omega arith)
uncompress_uint24-ne-none (b0 ∷ b1 ∷ b2 ∷ bs) h = λ e. cc

pub uncompress_uint32-ne-none : (bs : List ℕ) → 4 ≤ length bs → uncompress_uint32 bs ≢ none
unfolding uncompress_uint32
uncompress_uint32-ne-none [] h = absurd (omega arith)
uncompress_uint32-ne-none (b0 ∷ []) h = absurd (omega arith)
uncompress_uint32-ne-none (b0 ∷ b1 ∷ []) h = absurd (omega arith)
uncompress_uint32-ne-none (b0 ∷ b1 ∷ b2 ∷ []) h = absurd (omega arith)
uncompress_uint32-ne-none (b0 ∷ b1 ∷ b2 ∷ b3 ∷ bs) h = λ e. cc
