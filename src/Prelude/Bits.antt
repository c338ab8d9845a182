-- ===== src/Prelude/Bits.antt =====
-- Bitwise operations at variables: one equation for the lowest digit, and what follows from it for
-- masks, disjoint fields and repeated `^`. Over a byte, a table of all values decides.
use Prim.Native.Nat.{digits, bitwise, bit_and-bitwise, bit_or-bitwise, bit_xor-bitwise, differ}
use native.Mathlib.Nat.{pow-suc, one-le-pow, le_refl, div-add-mod'}
use Prim.Native.Nat.{ℕ, zero, suc, ◌+◌, ◌-◌, ◌*◌, ◌/◌, ◌%◌, ◌^◌, ◌≤◌, ◌<◌, min, max}
use Prim.Native.Nat.{bit_and, bit_or, bit_xor}
use mathlib.Core.Path.{◌≡◌, refl, ap, subst, ◌∙◌}
use mathlib.Core.Bool.{Bool, true, ◌&&◌}
use native.Mathlib.Omega.{arith}

-- One unit of fuel more than the number is long changes nothing, and so no surplus does.
module _ (last : ℕ → ℕ) (op : ℕ → ℕ → ℕ) where
  one_more : (fuel x y : ℕ) → x ≤ fuel → digits last op (suc fuel) x y ≡ digits last op fuel x y
  one_more zero x y le = let x_zero : x ≡ 0 = omega arith in rw x_zero refl
  one_more (suc fuel) zero y le = refl
  one_more (suc fuel) (suc x) y le =
      let halves = one_more fuel (suc x / 2) (y / 2) (omega arith) in rw halves

  surplus : (extra x y : ℕ) → digits last op (extra + x) x y ≡ digits last op x x y
  surplus zero x y = let same : 0 + x ≡ x = omega arith in rw same refl
  surplus (suc extra) x y =
      let next : suc extra + x ≡ suc (extra + x) = omega arith in
      rw next (one_more (extra + x) x y (omega arith) ∙ surplus extra x y)

  lowest_digit :
      (x y : ℕ)
      → bitwise last op (suc x) y ≡ bitwise last op (suc x / 2) (y / 2) * 2 + op (suc x % 2) (y % 2)
  lowest_digit x y =
      let half = suc x / 2 in
      let whole : x - half + half ≡ x = omega arith in
      let same =
        subst (λ (k : ℕ). digits last op k half (y / 2) ≡ digits last op half half (y / 2)) whole
          (surplus (x - half) half (y / 2)) in
      omega (arith, same)

-- What the operations do on the lowest digits.
pub bit_and_step : (x y : ℕ) → bit_and x y ≡ bit_and (x / 2) (y / 2) * 2 + min (x % 2) (y % 2)
bit_and_step zero y = omega (arith, bit_and-bitwise 0 y, bit_and-bitwise 0 (y / 2))
bit_and_step (suc x) y = omega (
  arith,
  bit_and-bitwise (suc x) y,
  bit_and-bitwise (suc x / 2) (y / 2),
  lowest_digit (λ rest. 0) min x y,
)

pub bit_or_step : (x y : ℕ) → bit_or x y ≡ bit_or (x / 2) (y / 2) * 2 + max (x % 2) (y % 2)
bit_or_step zero y = omega (arith, bit_or-bitwise 0 y, bit_or-bitwise 0 (y / 2))
bit_or_step (suc x) y = omega (
  arith,
  bit_or-bitwise (suc x) y,
  bit_or-bitwise (suc x / 2) (y / 2),
  lowest_digit (λ rest. rest) max x y,
)

differ_digits : (x y : ℕ) → x < 2 → y < 2 → differ x y ≡ (x + y) % 2
differ_digits zero zero p q = refl
differ_digits zero (suc zero) p q = refl
differ_digits zero (suc (suc y)) p q = absurd (omega arith)
differ_digits (suc zero) zero p q = refl
differ_digits (suc zero) (suc zero) p q = refl
differ_digits (suc zero) (suc (suc y)) p q = absurd (omega arith)
differ_digits (suc (suc x)) y p q = absurd (omega arith)

differ_bits : (a b : ℕ) → differ (a % 2) (b % 2) ≡ (a + b) % 2
differ_bits a b = omega (arith, differ_digits (a % 2) (b % 2) (omega arith) (omega arith))

pub zero-bit_xor : (b : ℕ) → bit_xor 0 b ≡ b
zero-bit_xor b = simp bit_xor-bitwise

pub bit_xor_step : (a b : ℕ) → bit_xor a b ≡ bit_xor (a / 2) (b / 2) * 2 + (a + b) % 2
bit_xor_step zero b = omega (arith, zero-bit_xor b, zero-bit_xor (b / 2))
bit_xor_step (suc a) b = omega (
  arith,
  bit_xor-bitwise (suc a) b,
  bit_xor-bitwise (suc a / 2) (b / 2),
  lowest_digit (λ y. y) differ a b,
  differ_bits (suc a) b,
)

bit_xor-zero_below : (k a : ℕ) → a ≤ k → bit_xor a 0 ≡ a
bit_xor-zero_below zero a h = let e : a ≡ 0 = omega arith in rw e refl
bit_xor-zero_below (suc k) zero h = refl
bit_xor-zero_below (suc k) (suc a) h =
    omega (arith, bit_xor_step (suc a) 0, bit_xor-zero_below k (suc a / 2) (omega arith))

pub bit_xor-zero : (a : ℕ) → bit_xor a 0 ≡ a
bit_xor-zero a = bit_xor-zero_below a a (le_refl _)

-- A word that is xor-ed twice with the same word comes back.
bit_xor_twice_below : (k a b : ℕ) → b ≤ k → bit_xor (bit_xor a b) b ≡ a
bit_xor_twice_below zero a b h =
    let e : b ≡ 0 = omega arith in rw (e, bit_xor-zero a) (bit_xor-zero a)
bit_xor_twice_below (suc k) a zero h = rw (bit_xor-zero a) (bit_xor-zero a)
bit_xor_twice_below (suc k) a (suc b) h =
    let x = bit_xor (a / 2) (suc b / 2) in
    let half : bit_xor a (suc b) / 2 ≡ x = omega (arith, bit_xor_step a (suc b)) in
    omega (
      arith,
      bit_xor_step (bit_xor a (suc b)) (suc b),
      ap (λ (t : ℕ). bit_xor t (suc b / 2)) half,
      bit_xor_step a (suc b),
      bit_xor_twice_below k (a / 2) (suc b / 2) (omega arith),
    )

pub bit_xor_twice : (a b : ℕ) → bit_xor (bit_xor a b) b ≡ a
bit_xor_twice a b = bit_xor_twice_below b a b (le_refl _)

-- Words of at most k bits stay so.
pub bit_xor-lt : (k a b : ℕ) → a < 2 ^ k → b < 2 ^ k → bit_xor a b < 2 ^ k
bit_xor-lt zero a b p q =
    let e : a ≡ 0 = omega arith in let e' : b ≡ 0 = omega arith in rw (e, e') (omega arith)
bit_xor-lt (suc k) a b p q = omega (
  arith,
  bit_xor_step a b,
  pow-suc 2 k,
  bit_xor-lt k (a / 2) (b / 2) (omega (arith, pow-suc 2 k)) (omega (arith, pow-suc 2 k)),
)

bit_or-zero_below : (k a : ℕ) → a ≤ k → bit_or a 0 ≡ a
bit_or-zero_below zero a h = let e : a ≡ 0 = omega arith in rw e refl
bit_or-zero_below (suc k) zero h = refl
bit_or-zero_below (suc k) (suc a) h =
    omega (arith, bit_or_step (suc a) 0, bit_or-zero_below k (suc a / 2) (omega arith))

pub bit_or-zero : (a : ℕ) → bit_or a 0 ≡ a
bit_or-zero a = bit_or-zero_below a a (le_refl _)

bit_and-zero_below : (k a : ℕ) → a ≤ k → bit_and a 0 ≡ 0
bit_and-zero_below zero a h = let e : a ≡ 0 = omega arith in rw e refl
bit_and-zero_below (suc k) zero h = refl
bit_and-zero_below (suc k) (suc a) h =
    omega (arith, bit_and_step (suc a) 0, bit_and-zero_below k (suc a / 2) (omega arith))

pub bit_and-zero : (a : ℕ) → bit_and a 0 ≡ 0
bit_and-zero a = bit_and-zero_below a a (le_refl _)

-- One place further is twice as much.
double : (n k : ℕ) → n * 2 ^ suc k ≡ (n * 2 ^ k) * 2
double n k =
    let by_pow : n * 2 ^ suc k ≡ n * (2 ^ k * 2) = ap (λ (p : ℕ). n * p) (pow-suc 2 k) in
    omega arith

-- `|` of fields that do not overlap is their sum.
pub bit_or_fields : (k q r : ℕ) → r < 2 ^ k → bit_or (q * 2 ^ k) r ≡ q * 2 ^ k + r
bit_or_fields zero high low below =
    let low_zero : low ≡ 0 = omega arith in
    let one : high * 2 ^ 0 ≡ high = omega arith in
    rw (low_zero, one, bit_or-zero high) (omega arith)
bit_or_fields (suc k) high low below =
    let size = pow-suc 2 k in
    let halves = bit_or_fields k high (low / 2) (omega arith) in
    let digits = bit_or_step (high * 2 ^ suc k) low in let place = double high k in ground arith

-- `&` and `|` work on the high and the low part of a word apart.
pub bit_and_parts :
    (k a b c d : ℕ)
    → a < 2 ^ k
    → c < 2 ^ k
    → bit_and (b * 2 ^ k + a) (d * 2 ^ k + c) ≡ bit_and b d * 2 ^ k + bit_and a c
bit_and_parts zero a b c d ha hc =
    let a_zero : a ≡ 0 = omega arith in
    let c_zero : c ≡ 0 = omega arith in
    let b_same : b * 2 ^ 0 + 0 ≡ b = omega arith in
    let d_same : d * 2 ^ 0 + 0 ≡ d = omega arith in
    rw (a_zero, c_zero, b_same, d_same) (omega arith)
bit_and_parts (suc k) a b c d ha hc =
    let size = pow-suc 2 k in
    let halves = bit_and_parts k (a / 2) b (c / 2) d (omega arith) (omega arith) in
    let low = bit_and_step a c in
    let all = bit_and_step (b * 2 ^ suc k + a) (d * 2 ^ suc k + c) in
    let pb = double b k in let pd = double d k in let pr = double (bit_and b d) k in ground arith

pub bit_or_parts :
    (k a b c d : ℕ)
    → a < 2 ^ k
    → c < 2 ^ k
    → bit_or (b * 2 ^ k + a) (d * 2 ^ k + c) ≡ bit_or b d * 2 ^ k + bit_or a c
bit_or_parts zero a b c d ha hc =
    let a_zero : a ≡ 0 = omega arith in
    let c_zero : c ≡ 0 = omega arith in
    let b_same : b * 2 ^ 0 + 0 ≡ b = omega arith in
    let d_same : d * 2 ^ 0 + 0 ≡ d = omega arith in
    rw (a_zero, c_zero, b_same, d_same) (omega arith)
bit_or_parts (suc k) a b c d ha hc =
    let size = pow-suc 2 k in
    let halves = bit_or_parts k (a / 2) b (c / 2) d (omega arith) (omega arith) in
    let low = bit_or_step a c in
    let all = bit_or_step (b * 2 ^ suc k + a) (d * 2 ^ suc k + c) in
    let pb = double b k in let pd = double d k in let pr = double (bit_or b d) k in ground arith

-- `&` with a single bit is that bit, in its place.
pub bit_and_bit : (k q r : ℕ) → r < 2 ^ k → bit_and (q * 2 ^ k + r) (2 ^ k) ≡ q % 2 * 2 ^ k
bit_and_bit zero q r fits =
    omega (arith, bit_and_step (q * 1 + r) 1, bit_and-zero ((q * 1 + r) / 2))
bit_and_bit (suc k) q r fits = ground (
  arith,
  bit_and_step (q * 2 ^ suc k + r) (2 ^ suc k),
  double q k,
  double (q % 2) k,
  pow-suc 2 k,
  bit_and_bit k q (r / 2) (omega arith),
)

pub bit_and_two_pow : (k x : ℕ) → bit_and x (2 ^ k) ≡ x / 2 ^ k % 2 * 2 ^ k
bit_and_two_pow k x =
    let whole : x / 2 ^ k * 2 ^ k + x % 2 ^ k ≡ x = div-add-mod' x (2 ^ k) in
    let below : x % 2 ^ k < 2 ^ k = grind (arith, one-le-pow k 2) in
    subst (λ (t : ℕ). bit_and t (2 ^ k) ≡ x / 2 ^ k % 2 * 2 ^ k) whole
      (bit_and_bit k (x / 2 ^ k) (x % 2 ^ k) below)

-- Whether a test holds of the numbers below a bound, and what follows where it does.
unfoldable pub for_all : ℕ → (ℕ → Bool) → Bool
for_all zero test = true
for_all (suc bound) test = for_all bound test && test bound

pub for_all_lem :
    (bound : ℕ) (test : ℕ → Bool) (i : ℕ) → for_all bound test ≡ true → i < bound → test i ≡ true
unfolding for_all
for_all_lem zero test i every within = absurd (omega arith)
for_all_lem (suc bound) test i every within = let ih = for_all_lem bound test i in ground arith
