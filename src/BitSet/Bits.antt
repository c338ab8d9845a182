-- ===== src/BitSet/Bits.antt =====
-- A buffer as a sequence of bits, the highest of each byte first.
use ticktock.Prelude.{
  ℕ, zero, suc, ◌+◌, ◌*◌, ◌/◌, ◌%◌, ◌≤◌, ◌<◌, ◌≡◌, ◌≢◌, refl, ap, arith, List, [], ◌∷◌, length,
  get_or, set, drop, take,
}
use ticktock.BitSet.{BitSet, size_in_bits}
use ticktock.BitSet.Byte.{bit}

-- Bit k of a buffer.
unfoldable pub bit_at : List ℕ → ℕ → ℕ
bit_at xs k = bit (get_or xs (k / 8) 0) (k % 8)

pub bit_at_byte : (xs : List ℕ) (c k : ℕ) → k / 8 ≡ c → bit_at xs k ≡ bit (get_or xs c 0) (k % 8)
unfolding bit_at
bit_at_byte xs c k e = rw e refl

abbrev pub IsBytes : List ℕ → Type 0
IsBytes xs = (j : ℕ) → get_or xs j 0 < 256

pub IsBytes-nil : IsBytes []
IsBytes-nil j = omega arith

pub IsBytes-cons : (x : ℕ) (xs : List ℕ) → x < 256 → IsBytes xs → IsBytes (x ∷ xs)
IsBytes-cons x xs h hs zero = h
IsBytes-cons x xs h hs (suc j) = hs j

pub IsBytes-take : (n : ℕ) (xs : List ℕ) → IsBytes xs → IsBytes (take n xs)
IsBytes-take zero xs h j = omega arith
IsBytes-take (suc n) [] h j = omega arith
IsBytes-take (suc n) (x ∷ xs) h j =
    IsBytes-cons x (take n xs) (h 0) (IsBytes-take n xs (λ i. h (suc i))) j

pub get_or-set_self : (xs : List ℕ) (i v : ℕ) → i < length xs → get_or (set xs i v) i 0 ≡ v
get_or-set_self [] i v h = absurd (omega arith)
get_or-set_self (x ∷ xs) zero v h = refl
get_or-set_self (x ∷ xs) (suc i) v h = get_or-set_self xs i v (omega arith)

pub get_or-set_ne : (xs : List ℕ) (i j v : ℕ) → i ≢ j → get_or (set xs i v) j 0 ≡ get_or xs j 0
get_or-set_ne [] i j v h = refl
get_or-set_ne (x ∷ xs) zero zero v h = absurd (h refl)
get_or-set_ne (x ∷ xs) zero (suc j) v h = refl
get_or-set_ne (x ∷ xs) (suc i) zero v h = refl
get_or-set_ne (x ∷ xs) (suc i) (suc j) v h = get_or-set_ne xs i j v (λ e. h (ap suc e))

pub get_or-drop_one : (xs : List ℕ) (j : ℕ) → get_or (drop 1 xs) j 0 ≡ get_or xs (suc j) 0
get_or-drop_one [] j = refl
get_or-drop_one (x ∷ xs) j = refl

pub bit_at-drop_one : (xs : List ℕ) (k : ℕ) → bit_at (drop 1 xs) k ≡ bit_at xs (8 + k)
unfolding bit_at
bit_at-drop_one xs k =
    let e : (8 + k) / 8 ≡ suc (k / 8) = omega arith in
    let f : (8 + k) % 8 ≡ k % 8 = omega arith in rw (e, f, get_or-drop_one xs (k / 8)) refl

pub bit_at-first : (xs : List ℕ) (k : ℕ) → k < 8 → bit_at xs k ≡ bit (get_or xs 0 0) k
unfolding bit_at
bit_at-first xs k h =
    let e : k / 8 ≡ 0 = omega arith in let f : k % 8 ≡ k = omega arith in rw (e, f) refl

pub IsBytes-drop_one : (xs : List ℕ) → IsBytes xs → IsBytes (drop 1 xs)
IsBytes-drop_one xs h j = rw (get_or-drop_one xs j) (h (suc j))

pub IsBytes-set : (xs : List ℕ) (i v : ℕ) → v < 256 → IsBytes xs → IsBytes (set xs i v)
IsBytes-set [] i v hv h j = omega arith
IsBytes-set (x ∷ xs) zero v hv h zero = hv
IsBytes-set (x ∷ xs) zero v hv h (suc j) = h (suc j)
IsBytes-set (x ∷ xs) (suc i) v hv h zero = h 0
IsBytes-set (x ∷ xs) (suc i) v hv h (suc j) = IsBytes-set xs i v hv (λ j. h (suc j)) j

pub bit_at-set_self :
    (xs : List ℕ) (c v k : ℕ) → c < length xs → k / 8 ≡ c → bit_at (set xs c v) k ≡ bit v (k % 8)
unfolding bit_at
bit_at-set_self xs c v k h e = rw (e, get_or-set_self xs c v h) refl

pub bit_at-set_ne : (xs : List ℕ) (c v k : ℕ) → k / 8 ≢ c → bit_at (set xs c v) k ≡ bit_at xs k
unfolding bit_at
bit_at-set_ne xs c v k h = rw (get_or-set_ne xs c (k / 8) v (λ e. h (omega arith))) refl

-- The cursor of a bit set stands in its buffer or, at the start of a byte, at its end.
pub record IsValid (b : BitSet) : Type 0 where
  pub in_byte : b.start < 8
  pub in_buffer : size_in_bits b ≤ 8 * length b.bits
  pub bytes : IsBytes b.bits

-- The bits that are stored in `b` are stored in `b'` too.
abbrev pub Kept : BitSet → BitSet → Type 0
Kept b b' = (k : ℕ) → k < size_in_bits b → bit_at b'.bits k ≡ bit_at b.bits k

-- What no operation on the stored bits changes.
pub record SameFrame (b b' : BitSet) : Type 0 where
  pub length_eq : length b'.bits ≡ length b.bits
  pub cp_cursor_eq : b'.cp_cursor ≡ b.cp_cursor
  pub cp_start_eq : b'.cp_start ≡ b.cp_start
