-- ===== src/Prelude/Ints.antt =====
-- Signed integers over the native numbers, and the casts between them and the unsigned words that
-- hold them in two's complement.
use Prim.Native.Nat.{ℕ, ◌-◌, ◌*◌, ◌%◌, ◌^◌}
use mathlib.Core.Bool.{Bool}
use ticktock.Prelude.Tests.{ltb, if◌then◌else◌}

-- `negsuc n` is -(n + 1).
pub data ℤ : Type 0 where
  pos : ℕ → ℤ
  negsuc : ℕ → ℤ

-- The cast of an integer to an unsigned word of w bits.
abbrev pub to_unsigned : ℕ → ℤ → ℕ
to_unsigned w (pos n) = n % 2 ^ w
to_unsigned w (negsuc n) = 2 ^ w - 1 - n % 2 ^ w

-- The integer that a word of w bits stands for: `half` is 2 ^ (w - 1).
abbrev pub to_signed : ℕ → ℕ → ℤ
to_signed half x = if ltb x half then pos x else negsuc (2 * half - 1 - x)

-- lo <= n && n <= hi, where lo is -half and hi is half - 1.
abbrev pub fits : ℕ → ℤ → Bool
fits half (pos n) = ltb n half
fits half (negsuc n) = ltb n half
