-- ===== src/Compress/Double.antt =====
-- A double as the bytes of its memory, which is all that Compressor_v1 and Compressor_v2 look at.
pub mod Word
use ticktock.Prelude.{ℕ, ◌≡◌, List, length}
use ticktock.BitSet.Bits.{IsBytes}

pub record Memory : Type 1 where
  pub Double : Type 0
  pub zero_value : Double
  pub to_bytes : Double → List ℕ
  pub of_bytes : List ℕ → Double
  pub to_bytes-IsBytes : (v : Double) → IsBytes (to_bytes v)
  pub length-to_bytes : (v : Double) → length (to_bytes v) ≡ 8
  pub of_bytes-to_bytes : (v : Double) → of_bytes (to_bytes v) ≡ v
