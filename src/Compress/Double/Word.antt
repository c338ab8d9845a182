-- ===== src/Compress/Double/Word.antt =====
-- Words of 64 bits, which stand for doubles in the tests.
use ticktock.Prelude.{ℕ, zero, suc, ◌%◌, ◌^◌, ◌<◌, ◌≡◌, refl, arith, List, [], ◌∷◌}
use mathlib.Core.HLevel.{Σ_prop_path}
use native.Mathlib.Bridge.{le_prop}
use ticktock.BitSet.Bits.{IsBytes}
use ticktock.Compress.Endian.{byte}
use ticktock.Compress.V3.{word}
use ticktock.Compress.Double.{Memory}

abbrev pub eight_bytes : ℕ → List ℕ
eight_bytes x =
    byte x 0 ∷ byte x 1 ∷ byte x 2 ∷ byte x 3 ∷ byte x 4 ∷ byte x 5 ∷ byte x 6 ∷ byte x 7 ∷ []

pub eight-IsBytes : (x : ℕ) → IsBytes (eight_bytes x)
eight-IsBytes x zero = omega arith
eight-IsBytes x (suc zero) = omega arith
eight-IsBytes x (suc (suc zero)) = omega arith
eight-IsBytes x (suc (suc (suc zero))) = omega arith
eight-IsBytes x (suc (suc (suc (suc zero)))) = omega arith
eight-IsBytes x (suc (suc (suc (suc (suc zero))))) = omega arith
eight-IsBytes x (suc (suc (suc (suc (suc (suc zero)))))) = omega arith
eight-IsBytes x (suc (suc (suc (suc (suc (suc (suc zero))))))) = omega arith
eight-IsBytes x (suc (suc (suc (suc (suc (suc (suc (suc j)))))))) = omega arith

-- Words of 64 bits with their wrap-around.
abbrev pub Word : Type 0
Word = (n : ℕ) × (n < 2 ^ 64)

abbrev pub mk : ℕ → Word
mk n = (n % 2 ^ 64, omega arith)

pub word_path : (x y : Word) → x.0 ≡ y.0 → x ≡ y
word_path x y h = Σ_prop_path (λ n. le_prop) h

pub word-eight_bytes : (x : ℕ) → x < 2 ^ 64 → word (eight_bytes x) % 2 ^ 64 ≡ x
word-eight_bytes x h = omega arith

abbrev pub words : Memory
words = record {
  Double = Word;
  zero_value = mk 0;
  to_bytes = λ x. eight_bytes x.0;
  of_bytes = λ w. mk (word w);
  to_bytes-IsBytes = λ x. eight-IsBytes x.0;
  length-to_bytes = λ x. refl;
  of_bytes-to_bytes = λ x. word_path (mk (word (eight_bytes x.0))) x (word-eight_bytes x.0 x.1);
}
