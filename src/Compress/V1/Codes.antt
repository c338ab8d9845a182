-- ===== src/Compress/V1/Codes.antt =====
-- The codes of deltas and of values in Compressor_v1 read back what was written.
use ticktock.Prelude.{
  ℕ, suc, ◌+◌, ◌-◌, ◌*◌, ◌/◌, ◌%◌, ◌^◌, ◌≤◌, ◌<◌, ◌≡◌, ◌⊎◌, inl, inr, refl, sym, ap, ap₂, subst,
  ◌∙◌, arith, bit_and, bit_or, Bool, Bool-cases, true, false, ltb, ◌==◌, ==_iff, if◌then◌else◌,
  List, [], ◌∷◌, ◌++◌, length, some, to_signed, to_unsigned,
}
use ticktock.Prelude.Bits.{bit_xor_twice, bit_or_fields, bit_and_two_pow}
use mathlib.Core.List.{append-nil, append_assoc}
use native.Mathlib.Nat.{pow-suc, one-le-pow}
use ticktock.Compress.Endian.{byte}
use ticktock.Compress.V1.{
  labs, int32_bytes, dod_bytes, read_dod, read_int32, value_loop, xor_bytes, value_bytes, fill,
  read_value,
}

-- The delta of deltas is that of an int32_t.
abbrev pub IsInt32 : ℕ → Type 0
IsInt32 x = (x < 2 ^ 31) ⊎ ((2 ^ 64 - 2 ^ 31 ≤ x) × (x < 2 ^ 64))

read_int32-int32_bytes :
    (n x : ℕ) (t : List ℕ) → IsInt32 x → read_int32 n (int32_bytes x ++ t) ≡ some (x, n + 4)
read_int32-int32_bytes n x t (inl h) = ap (λ (y : ℕ). some (y, n + 4)) (ground arith)
read_int32-int32_bytes n x t (inr h) = ap (λ (y : ℕ). some (y, n + 4)) (ground arith)

int16_back :
    (x : ℕ)
    → IsInt32 x
    → ltb 32767 (labs x) ≡ false
    → ((byte x 0 + byte x 1 * 2 ^ 8 == 0x8000) ≡ false)
      × (to_unsigned 64 (to_signed (2 ^ 15) (byte x 0 + byte x 1 * 2 ^ 8)) ≡ x)
int16_back x (inl h) e = (ground arith, ground arith)
int16_back x (inr h) e = (ground arith, ground arith)

int8_back :
    (x : ℕ)
    → IsInt32 x
    → ltb 127 (labs x) ≡ false
    → ((byte x 0 == 0x80) ≡ false) × (to_unsigned 64 (to_signed (2 ^ 7) (byte x 0)) ≡ x)
int8_back x (inl h) e = (ground arith, ground arith)
int8_back x (inr h) e = (ground arith, ground arith)

pub read_dod-dod_bytes :
    (ms : Bool) (x : ℕ) (t : List ℕ)
    → IsInt32 x
    → read_dod ms (dod_bytes ms x ++ t) ≡ some (x, length (dod_bytes ms x))
unfolding read_dod dod_bytes
read_dod-dod_bytes true x t h = elim (Bool-cases (ltb 32767 (labs x))) [
  | inl far ↦ rw far (read_int32-int32_bytes 2 x t h)
  | inr near ↦ let b = int16_back x h near in rw (near, b.0, b.1) refl
]
read_dod-dod_bytes false x t h = elim (Bool-cases (ltb 127 (labs x))) [
  | inl far ↦ rw far (read_int32-int32_bytes 1 x t h)
  | inr near ↦ let b = int8_back x h near in rw (near, b.0, b.1) refl
]

pub xor_bytes_twice : (xs ys : List ℕ) → length xs ≡ length ys → xor_bytes (xor_bytes xs ys) ys ≡ xs
unfolding xor_bytes
xor_bytes_twice [] ys e = refl
xor_bytes_twice (x ∷ xs) [] e = absurd (omega arith)
xor_bytes_twice (x ∷ xs) (y ∷ ys) e =
    ap₂ ◌∷◌ (bit_xor_twice x y) (xor_bytes_twice xs ys (omega arith))

pub length-xor_bytes :
    (xs ys : List ℕ) → length xs ≡ length ys → length (xor_bytes xs ys) ≡ length ys
unfolding xor_bytes
length-xor_bytes [] [] e = refl
length-xor_bytes [] (y ∷ ys) e = absurd (omega arith)
length-xor_bytes (x ∷ xs) [] e = absurd (omega arith)
length-xor_bytes (x ∷ xs) (y ∷ ys) e = ap suc (length-xor_bytes xs ys (omega arith))

-- The bit of a byte that is stored.
abbrev flag : ℕ → ℕ
flag b = if b == 0 then 0 else 1

-- The bytes that are stored.
abbrev stored : List ℕ → List ℕ
stored [] = []
stored (b ∷ bs) = if b == 0 then stored bs else b ∷ stored bs

value_loop-stored :
    (i : ℕ) (bs : List ℕ) (control : ℕ) (out : List ℕ)
    → (value_loop i bs control out).1 ≡ out ++ stored bs
unfolding value_loop
value_loop-stored i [] control out = sym (append-nil out)
value_loop-stored i (b ∷ bs) control out = elim (Bool-cases (b == 0)) [
  | inl zero_byte ↦ rw (zero_byte, value_loop) (value_loop-stored (suc i) bs control out)
  | inr other ↦
      rw (other, value_loop)
        (value_loop-stored (suc i) bs (bit_or control (2 ^ (8 - i - 1))) (out ++ b ∷ [])
          ∙ append_assoc out (b ∷ []) (stored bs))
]

-- One bit of the control byte.
control_step :
    (k q b c : ℕ)
    → c ≡ q * 2 ^ suc k
    → (if b == 0 then c else bit_or c (2 ^ k)) ≡ c + flag b * 2 ^ k
control_step k q b c e = elim (Bool-cases (b == 0)) [
  | inl zero_byte ↦ rw zero_byte (omega arith)
  | inr other ↦
      let or = bit_or_fields (suc k) q (2 ^ k) (omega (arith, pow-suc 2 k, one-le-pow k 2)) in
      rw (other, e) (or ∙ omega arith)
]

loop_step :
    (i k q b c r : ℕ) (bs out : List ℕ)
    → 8 - i - 1 ≡ k
    → c ≡ q * 2 ^ suc k
    → ((out' : List ℕ) → (value_loop (suc i) bs (c + flag b * 2 ^ k) out').0 ≡ r)
    → (value_loop i (b ∷ bs) c out).0 ≡ r
unfolding value_loop
loop_step i k q b c r bs out place e rest =
    let out' = if b == 0 then out else out ++ b ∷ [] in
    ap (λ (p : ℕ). (value_loop (suc i) bs (if b == 0 then c else bit_or c (2 ^ p)) out').0) place
    ∙ ap (λ (n : ℕ). (value_loop (suc i) bs n out').0) (control_step k q b c e)
    ∙ rest out'

value_loop_nil : (i c : ℕ) (out : List ℕ) → (value_loop i [] c out).0 ≡ c
unfolding value_loop
value_loop_nil i c out = refl

-- The control byte of eight bytes.
control_lem :
    (b0 b1 b2 b3 b4 b5 b6 b7 : ℕ)
    → (value_loop 0 (b0 ∷ b1 ∷ b2 ∷ b3 ∷ b4 ∷ b5 ∷ b6 ∷ b7 ∷ []) 0 []).0
      ≡ 128 * flag b0
        + 64 * flag b1
        + 32 * flag b2
        + 16 * flag b3
        + 8 * flag b4
        + 4 * flag b5
        + 2 * flag b6
        + flag b7
control_lem b0 b1 b2 b3 b4 b5 b6 b7 =
    let c1 = 0 + flag b0 * 2 ^ 7 in
    let c2 = c1 + flag b1 * 2 ^ 6 in
    let c3 = c2 + flag b2 * 2 ^ 5 in
    let c4 = c3 + flag b3 * 2 ^ 4 in
    let c5 = c4 + flag b4 * 2 ^ 3 in
    let c6 = c5 + flag b5 * 2 ^ 2 in
    let c7 = c6 + flag b6 * 2 ^ 1 in
    loop_step 0 7 0 b0 _ _ _ _ refl (omega arith) λ o.
      loop_step 1 6 (c1 / 2 ^ 7) b1 _ _ _ o refl (omega arith) λ o.
        loop_step 2 5 (c2 / 2 ^ 6) b2 _ _ _ o refl (omega arith) λ o.
          loop_step 3 4 (c3 / 2 ^ 5) b3 _ _ _ o refl (omega arith) λ o.
            loop_step 4 3 (c4 / 2 ^ 4) b4 _ _ _ o refl (omega arith) λ o.
              loop_step 5 2 (c5 / 2 ^ 3) b5 _ _ _ o refl (omega arith) λ o.
                loop_step 6 1 (c6 / 2 ^ 2) b6 _ _ _ o refl (omega arith) λ o.
                  loop_step 7 0 (c7 / 2 ^ 1) b7 _ _ _ o refl (omega arith)
                    λ o. value_loop_nil 8 (c7 + flag b7 * 2 ^ 0) o ∙ omega arith

-- One byte of a value is filled in.
fill_step :
    (n c low b : ℕ) (bs t : List ℕ)
    → c ≡ 128 * flag b + low
    → low < 128
    → fill n (low * 2) (stored bs ++ t) ≡ some (bs, length (stored bs))
    → fill (suc n) c (stored (b ∷ bs) ++ t) ≡ some (b ∷ bs, length (stored (b ∷ bs)))
unfolding fill
fill_step n c low b bs t e below rest = elim (Bool-cases (b == 0)) [
  | inl zero_byte ↦
      let b_zero : b ≡ 0 = (==_iff b 0).0 zero_byte in
      let off : (bit_and c 0x80 == 0) ≡ true = let a = bit_and_two_pow 7 c in ground arith in
      let shifted : c * 2 % 256 ≡ low * 2 = ground arith in
      rw (off, fill, zero_byte, shifted, rest, b_zero) refl
  | inr other ↦
      let on : (bit_and c 0x80 == 0) ≡ false = let a = bit_and_two_pow 7 c in ground arith in
      let shifted : c * 2 % 256 ≡ low * 2 = ground arith in
      rw (on, fill, other, shifted, rest) (ap (λ (u : ℕ). some (b ∷ bs, u)) (omega arith))
]

flag-le : (b : ℕ) → flag b ≤ 1
flag-le b = ground arith

flag_zero : (b : ℕ) → flag b ≡ 0 → b ≡ 0
flag_zero b e = ground arith

module _ (b0 b1 b2 b3 b4 b5 b6 b7 : ℕ) (t : List ℕ) where
  bytes : List ℕ
  bytes = b0 ∷ b1 ∷ b2 ∷ b3 ∷ b4 ∷ b5 ∷ b6 ∷ b7 ∷ []

  control : ℕ
  control = (value_loop 0 (b0 ∷ b1 ∷ b2 ∷ b3 ∷ b4 ∷ b5 ∷ b6 ∷ b7 ∷ []) 0 []).0

  c_lem :
      control
      ≡ 128 * flag b0
        + (64 * flag b1
            + 32 * flag b2
            + 16 * flag b3
            + 8 * flag b4
            + 4 * flag b5
            + 2 * flag b6
            + flag b7)
  unfolding control
  c_lem = omega (arith, control_lem b0 b1 b2 b3 b4 b5 b6 b7)

  from_stored : fill 8 control (stored bytes ++ t) ≡ some (bytes, length (stored bytes))
  unfolding bytes fill
  from_stored =
      fill_step 7 control
        (64 * flag b1
          + 32 * flag b2
          + 16 * flag b3
          + 8 * flag b4
          + 4 * flag b5
          + 2 * flag b6
          + 1 * flag b7)
        b0 _ t (omega (arith, c_lem))
        (omega (
          arith,
          flag-le b1,
          flag-le b2,
          flag-le b3,
          flag-le b4,
          flag-le b5,
          flag-le b6,
          flag-le b7,
        ))
        (fill_step 6
          ((64 * flag b1
              + 32 * flag b2
              + 16 * flag b3
              + 8 * flag b4
              + 4 * flag b5
              + 2 * flag b6
              + 1 * flag b7)
            * 2)
          (64 * flag b2 + 32 * flag b3 + 16 * flag b4 + 8 * flag b5 + 4 * flag b6 + 2 * flag b7) b1
          _ t (omega arith)
          (omega (arith, flag-le b2, flag-le b3, flag-le b4, flag-le b5, flag-le b6, flag-le b7))
          (fill_step 5
            ((64 * flag b2 + 32 * flag b3 + 16 * flag b4 + 8 * flag b5 + 4 * flag b6 + 2 * flag b7)
              * 2)
            (64 * flag b3 + 32 * flag b4 + 16 * flag b5 + 8 * flag b6 + 4 * flag b7) b2 _ t
            (omega arith)
            (omega (arith, flag-le b3, flag-le b4, flag-le b5, flag-le b6, flag-le b7))
            (fill_step 4
              ((64 * flag b3 + 32 * flag b4 + 16 * flag b5 + 8 * flag b6 + 4 * flag b7) * 2)
              (64 * flag b4 + 32 * flag b5 + 16 * flag b6 + 8 * flag b7) b3 _ t (omega arith)
              (omega (arith, flag-le b4, flag-le b5, flag-le b6, flag-le b7))
              (fill_step 3 ((64 * flag b4 + 32 * flag b5 + 16 * flag b6 + 8 * flag b7) * 2)
                (64 * flag b5 + 32 * flag b6 + 16 * flag b7) b4 _ t (omega arith)
                (omega (arith, flag-le b5, flag-le b6, flag-le b7))
                (fill_step 2 ((64 * flag b5 + 32 * flag b6 + 16 * flag b7) * 2)
                  (64 * flag b6 + 32 * flag b7) b5 _ t (omega arith)
                  (omega (arith, flag-le b6, flag-le b7))
                  (fill_step 1 ((64 * flag b6 + 32 * flag b7) * 2) (64 * flag b7) b6 _ t
                    (omega arith) (omega (arith, flag-le b7))
                    (fill_step 0 ((64 * flag b7) * 2) (0) b7 _ t (omega arith) (omega (arith))
                      (refl))))))))

  no_bits : control ≡ 0 → bytes ≡ 0 ∷ 0 ∷ 0 ∷ 0 ∷ 0 ∷ 0 ∷ 0 ∷ 0 ∷ []
  unfolding bytes
  no_bits e =
      let c = c_lem in
      let e0 = flag_zero b0 (omega arith) in
      let e1 = flag_zero b1 (omega arith) in
      let e2 = flag_zero b2 (omega arith) in
      let e3 = flag_zero b3 (omega arith) in
      let e4 = flag_zero b4 (omega arith) in
      let e5 = flag_zero b5 (omega arith) in
      let e6 = flag_zero b6 (omega arith) in let e7 = flag_zero b7 (omega arith) in cc

  read_eight : read_value (value_bytes bytes ++ t) ≡ some (bytes, length (value_bytes bytes))
  unfolding read_value value_bytes bytes control
  read_eight = elim (Bool-cases (control == 0)) [
    | inl all_zero ↦
        let z = no_bits ((==_iff control 0).0 all_zero) in
        let out : (value_loop 0 bytes 0 []).1 ≡ stored bytes = value_loop-stored 0 bytes 0 [] in
        let none_stored : stored bytes ≡ [] = ap (λ (l : List ℕ). stored l) z in
        rw all_zero (
          ap₂ (λ (l : List ℕ) (k : ℕ). some (l, k)) (sym z)
            (ap (λ (l : List ℕ). suc (length l)) (sym (out ∙ none_stored))))
    | inr some_bits ↦
        let out : (value_loop 0 bytes 0 []).1 ≡ stored bytes = value_loop-stored 0 bytes 0 [] in
        let filled : fill 8 control ((value_loop 0 bytes 0 []).1 ++ t)
            ≡ some (bytes, length (value_loop 0 bytes 0 []).1) =
          subst (λ (l : List ℕ). fill 8 control (l ++ t) ≡ some (bytes, length l)) (sym out)
            from_stored in
        rw (some_bits, filled) (ap (λ (k : ℕ). some (bytes, k)) (omega arith))
  ]

one_of :
    (x : List ℕ) (n : ℕ) → length x ≡ suc n → (b : ℕ) × (r : List ℕ) × (x ≡ b ∷ r) × (length r ≡ n)
one_of [] n e = absurd (omega arith)
one_of (b ∷ r) n e = (b, r, refl, omega arith)

none_of : (x : List ℕ) → length x ≡ 0 → x ≡ []
none_of [] e = refl
none_of (b ∷ r) e = absurd (omega arith)

-- What stands for a value is read back.
pub read_value-value_bytes :
    (x : List ℕ) (t : List ℕ)
    → length x ≡ 8
    → read_value (value_bytes x ++ t) ≡ some (x, length (value_bytes x))
unfolding bytes
read_value-value_bytes x t e =
    let (b0, r0, e0, l0) = one_of x 7 e in
    let (b1, r1, e1, l1) = one_of r0 6 l0 in
    let (b2, r2, e2, l2) = one_of r1 5 l1 in
    let (b3, r3, e3, l3) = one_of r2 4 l2 in
    let (b4, r4, e4, l4) = one_of r3 3 l3 in
    let (b5, r5, e5, l5) = one_of r4 2 l4 in
    let (b6, r6, e6, l6) = one_of r5 1 l5 in
    let (b7, r7, e7, l7) = one_of r6 0 l6 in
    let e8 = none_of r7 l7 in
    let whole : x ≡ b0 ∷ b1 ∷ b2 ∷ b3 ∷ b4 ∷ b5 ∷ b6 ∷ b7 ∷ [] = cc in
    subst (λ (l : List ℕ). read_value (value_bytes l ++ t) ≡ some (l, length (value_bytes l)))
      (sym whole) (read_eight b0 b1 b2 b3 b4 b5 b6 b7 t)
