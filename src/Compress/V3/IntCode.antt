-- ===== src/Compress/V3/IntCode.antt =====
-- What `compress(int64_t)` of Compressor_v3 stores of an integer, `uncompress_i` reads back.
use ticktock.Prelude.{
  ℕ, ◌+◌, ◌*◌, ◌/◌, ◌^◌, ◌≤◌, ◌<◌, ◌≡◌, refl, ap, ◌∙◌, sym, subst, inl, inr, arith, Bool,
  Bool-cases, true, false, ◌==◌, if◌then◌else◌, List, [], ◌∷◌, length, get_or, take, ℤ, fits,
  to_signed, length-take,
}
use ticktock.BitSet.{BitSet, Cursor, size_in_bits}
use ticktock.BitSet.Byte.{bit, top_bit_test}
use ticktock.BitSet.Bits.{
  bit_at, bit_at-first, IsBytes, IsBytes-take, IsBytes-cons, IsBytes-nil, IsValid,
}
use ticktock.BitSet.Copies.{position, Copies}
use ticktock.BitSet.Fields.{Writes, retrieve_stored}
use ticktock.Compress.Endian.{
  compress_int16, compress_int32, compress_int64, swap64, swap32, swap16,
}
use ticktock.Compress.V3.{
  Fetched, got, fetch, then_got, top_bit, word, int_fields, is_zero, extend12, extend17, field,
  uncompress_i, uncompress_long,
}
use ticktock.Compress.V3.Words.{sign_extend12, sign_extend17}
use ticktock.Compress.V3.Locals.{SameBits, word12, word17, word64, value64, zero_of}

-- A read that gives `a`, and leaves the cursor at bit `end`.
unfoldable pub ReadsAs : {A : Type 0} → Fetched A → A → ℕ → Type 0
ReadsAs r a end = (c : Cursor) × (r ≡ got a c) × (position c ≡ end) × (c.start < 8)

module _ (b : BitSet) (v : IsValid b) where
  -- One read of stored bits, and what follows it.
  pub read_step :
      {A : Type 0} (c : Cursor) (dest : List ℕ) (len start : ℕ) (k : List ℕ → Cursor → Fetched A)
      (a : A) (end : ℕ)
      → c.start < 8
      → IsBytes dest
      → start + len ≤ 8 * length dest
      → 1 ≤ len
      → position c + len ≤ size_in_bits b
      → ((w : List ℕ) (c' : Cursor) → Copies b c dest start len c' w → ReadsAs (k w c') a end)
      → ReadsAs (then_got (fetch b dest len start c) k) a end
  unfolding ReadsAs fetch
  read_step c dest len start k a end hc hd room bits stored next =
      let r = retrieve_stored b c dest len start v hc hd room bits stored in
      let n = next r.0.bytes r.0.cursor r.2 in (n.0, rw r.1 n.1, n.2, n.3)

  -- A flag bit, and the branch that it selects.
  pub flag_step :
      {A : Type 0} (c : Cursor) (flag : List ℕ) (test : Bool) (k k' : List ℕ → Cursor → Fetched A)
      (a : A) (end : ℕ)
      → c.start < 8
      → IsBytes flag
      → length flag ≡ 1
      → position c + 1 ≤ size_in_bits b
      → (bit_at b.bits (position c) == 0) ≡ test
      → ((w : List ℕ) (c' : Cursor)
          → IsBytes w
          → length w ≡ 1
          → position c' ≡ position c + 1
          → c'.start < 8
          → ReadsAs (if test then k w c' else k' w c') a end)
      → ReadsAs
          (then_got (fetch b flag 1 0 c) λ w c. if top_bit w == 0 then k w c else k' w c)
          a
          end
  flag_step c flag test k k' a end hc hf one stored t next =
      read_step c flag 1 0 (λ w c. if top_bit w == 0 then k w c else k' w c) a end hc hf
        (omega arith) (omega arith) stored
        (λ w c' o.
          let first = bit_at-first w 0 (omega arith) in
          let same : bit_at w 0 ≡ bit_at b.bits (position c) =
            o.copied 0 (omega arith) ∙ ap (bit_at b.bits) (omega arith) in
          let choice : (top_bit w == 0) ≡ test =
            top_bit_test (get_or w 0 0) (o.still_bytes 0)
            ∙ ap (λ (t : ℕ). t == 0) (sym first ∙ same)
            ∙ t in
          subst (λ (q : Bool). ReadsAs (if q then k w c' else k' w c') a end) (sym choice)
            (next w c' o.still_bytes (o.length_eq ∙ one) o.moved_on o.in_byte))

module _ (b : BitSet) (v : IsValid b) (stack : List ℕ) (room : 8 ≤ length stack)
    (hs : IsBytes stack) where
  -- A read of a whole local of `size` bytes, from its bit `start` on, into which the field was stored.
  local_step :
      (c : Cursor) (bytes : List ℕ) (size len start end : ℕ) (value : List ℕ → ℤ) (n : ℤ)
      → c.start < 8
      → size ≤ 8
      → start + len ≡ 8 * size
      → 1 ≤ len
      → ((j : ℕ) → j < len → bit_at b.bits (position c + j) ≡ bit_at bytes (start + j))
      → position c + len ≡ end
      → end ≤ size_in_bits b
      → ((w : List ℕ) → length w ≡ size → IsBytes w → SameBits w bytes start len → value w ≡ n)
      → ReadsAs (then_got (fetch b (take size stack) len start c) (λ w c. got (value w) c)) n end
  unfolding SameBits ReadsAs
  local_step c bytes size len start end value n hc small fit some_bits h e stored next =
      let l = length-take size stack (omega arith) in
      read_step b v c (take size stack) len start (λ w c. got (value w) c) n end hc
        (IsBytes-take size stack hs) (omega arith) some_bits (omega arith)
        (λ w c' o.
          let m = o.moved_on in
          (
            c',
            ap (λ (t : ℤ). got t c')
                (next w (o.length_eq ∙ l) o.still_bytes (λ j lt. o.copied j lt ∙ h j lt)),
            omega arith,
            o.in_byte,
          ))

  -- The three flags and the field behind each.
  long_code :
      (c : Cursor) (flag : List ℕ) (n : ℤ) (end : ℕ)
      → c.start < 8
      → IsBytes flag
      → length flag ≡ 1
      → fits (2 ^ 63) n ≡ true
      → bit_at b.bits (position c) ≡ 1
      → ((j : ℕ) → j < 64 → bit_at b.bits (position c + 1 + j) ≡ bit_at (compress_int64 n) (0 + j))
      → position c + 65 ≡ end
      → end ≤ size_in_bits b
      → ReadsAs (uncompress_long b stack flag c) n end
  long_code c flag n end hc hf one h flagged stored e le =
      flag_step b v c flag false _ _ n end hc hf one (omega arith) (rw flagged refl)
        (λ w c' hw l at hc'.
          local_step c' (compress_int64 n) 8 64 0 end (λ w. to_signed (2 ^ 63) (swap64 (word w))) n
            hc' (omega arith) (omega arith) (omega arith) (λ j lt. rw at (stored j lt))
            (omega arith) le (λ w l hw s. rw (word64 n w l hw s) (value64 n h)))

  pub flag_bits :
      (p q : ℕ) (flags : ℕ) (len j : ℕ)
      → j < len
      → j < 8
      → ((j : ℕ) → j < len → bit_at b.bits (p + j) ≡ bit_at (flags ∷ []) (0 + j))
      → q ≡ p + j
      → bit_at b.bits q ≡ bit flags j
  flag_bits p q flags len j lt small h e = rw e (
      h j lt
      ∙ ap (bit_at (flags ∷ [])) {x = 0 + j} {y = j} (omega arith)
      ∙ bit_at-first (flags ∷ []) j small)

  Codes : Cursor → ℤ → ℕ → Type 0
  Codes c n end = ReadsAs (uncompress_i b stack c) n end

  zero_flag : IsBytes (0 ∷ [])
  zero_flag = IsBytes-cons 0 [] (omega arith) IsBytes-nil

  short_code :
      (c : Cursor) (n : ℤ) (end : ℕ)
      → c.start < 8
      → fits 2048 n ≡ true
      → end ≤ size_in_bits b
      → Writes b (position c) (field (0x80 ∷ []) 2 0 ∷ field (compress_int16 n) 12 4 ∷ []) end
      → Codes c n end
  unfolding Writes Codes uncompress_i bit
  short_code c n end hc h le w =
      let flags = w.0 in
      let one : bit_at b.bits (position c) ≡ 1 =
        flag_bits (position c) (position c) 0x80 2 0 (omega arith) (omega arith) flags
          (omega arith) in
      let none : bit_at b.bits (position c + 1) ≡ 0 =
        flag_bits (position c) (position c + 1) 0x80 2 1 (omega arith) (omega arith) flags refl in
      let total : position c + 2 + 12 ≡ end = w.1.1 in
      flag_step b v c (0 ∷ []) false _ _ n end hc zero_flag refl (omega arith) (rw one refl)
        (λ f c1 hf l at1 hc1.
          flag_step b v c1 f true _ _ n end hc1 hf l (omega arith) (rw (at1, none) refl)
            (λ f c2 hf l at2 hc2.
              let at : position c2 ≡ position c + 2 = omega arith in
              local_step c2 (compress_int16 n) 2 12 4 end
                (λ w. to_signed (2 ^ 15) (swap16 (extend12 (word w)))) n hc2 (omega arith)
                (omega arith) (omega arith) (λ j lt. rw at (w.1.0 j lt)) (omega arith) le
                (λ u l hu s.
                  let hu0 = hu 0 in
                  rw (word12 n u l hu s) (sign_extend12 n (get_or u 0 0 / 16) (omega arith) h))))

  middle_code :
      (c : Cursor) (n : ℤ) (end : ℕ)
      → c.start < 8
      → fits 65536 n ≡ true
      → end ≤ size_in_bits b
      → Writes b (position c) (field (0xC0 ∷ []) 3 0 ∷ field (compress_int32 n) 17 15 ∷ []) end
      → Codes c n end
  unfolding Writes Codes uncompress_i bit
  middle_code c n end hc h le w =
      let flags = w.0 in
      let one : bit_at b.bits (position c) ≡ 1 =
        flag_bits (position c) (position c) 0xC0 3 0 (omega arith) (omega arith) flags
          (omega arith) in
      let two : bit_at b.bits (position c + 1) ≡ 1 =
        flag_bits (position c) (position c + 1) 0xC0 3 1 (omega arith) (omega arith) flags refl in
      let none : bit_at b.bits (position c + 2) ≡ 0 =
        flag_bits (position c) (position c + 2) 0xC0 3 2 (omega arith) (omega arith) flags refl in
      let total : position c + 3 + 17 ≡ end = w.1.1 in
      flag_step b v c (0 ∷ []) false _ _ n end hc zero_flag refl (omega arith) (rw one refl)
        (λ f c1 hf l at1 hc1.
          flag_step b v c1 f false _ _ n end hc1 hf l (omega arith) (rw (at1, two) refl)
            (λ f c2 hf l at2 hc2.
              let at : position c2 ≡ position c + 2 = omega arith in
              flag_step b v c2 f true _ _ n end hc2 hf l (omega arith) (rw (at, none) refl)
                (λ f c3 hf l at3 hc3.
                  let at : position c3 ≡ position c + 3 = omega arith in
                  local_step c3 (compress_int32 n) 4 17 15 end
                    (λ w. to_signed (2 ^ 31) (swap32 (extend17 (word w)))) n hc3 (omega arith)
                    (omega arith) (omega arith) (λ j lt. rw at (w.1.0 j lt)) (omega arith) le
                    (λ u l hu s.
                      let hu0 = hu 0 in
                      let hu1 = hu 1 in
                      rw (word17 n u l hu s) (
                        sign_extend17 n (get_or u 0 0) (get_or u 1 0 / 2) (omega arith)
                          (omega arith) h)))))

  whole_code :
      (c : Cursor) (n : ℤ) (end : ℕ)
      → c.start < 8
      → fits (2 ^ 63) n ≡ true
      → end ≤ size_in_bits b
      → Writes b (position c) (field (0xE0 ∷ []) 3 0 ∷ field (compress_int64 n) 64 0 ∷ []) end
      → Codes c n end
  unfolding Writes Codes uncompress_i bit
  whole_code c n end hc h le w =
      let flags = w.0 in
      let one : bit_at b.bits (position c) ≡ 1 =
        flag_bits (position c) (position c) 0xE0 3 0 (omega arith) (omega arith) flags
          (omega arith) in
      let two : bit_at b.bits (position c + 1) ≡ 1 =
        flag_bits (position c) (position c + 1) 0xE0 3 1 (omega arith) (omega arith) flags refl in
      let three : bit_at b.bits (position c + 2) ≡ 1 =
        flag_bits (position c) (position c + 2) 0xE0 3 2 (omega arith) (omega arith) flags refl in
      let total : position c + 3 + 64 ≡ end = w.1.1 in
      flag_step b v c (0 ∷ []) false _ _ n end hc zero_flag refl (omega arith) (rw one refl)
        (λ f c1 hf l at1 hc1.
          flag_step b v c1 f false _ _ n end hc1 hf l (omega arith) (rw (at1, two) refl)
            (λ f c2 hf l at2 hc2.
              let at : position c2 ≡ position c + 2 = omega arith in
              let at1 : position c2 + 1 ≡ position c + 3 = omega arith in
              long_code c2 f n end hc2 hf l h (rw at three) (λ j lt. rw at1 (w.1.0 j lt))
                (omega arith) le))

  -- The code of an integer of 64 bits, read from where it was stored: `uncompress_i` returns the
  -- integer, and leaves the cursor behind the code.
  pub uncompress_i-int_fields :
      (c : Cursor) (n : ℤ) (end : ℕ)
      → c.start < 8
      → fits (2 ^ 63) n ≡ true
      → end ≤ size_in_bits b
      → Writes b (position c) (int_fields n) end
      → ReadsAs (uncompress_i b stack c) n end
  unfolding int_fields Codes Writes bit uncompress_i ReadsAs
  uncompress_i-int_fields c n end hc h le w = elim (Bool-cases (is_zero n)) [
    | inl nil ↦
        let w : Writes b (position c) (field (0x00 ∷ []) 1 0 ∷ []) end = rw nil at w in
        let none : bit_at b.bits (position c) ≡ 0 =
          flag_bits (position c) (position c) 0x00 1 0 (omega arith) (omega arith) w.0
            (omega arith) in
        let total : position c + 1 ≡ end = w.1 in
        flag_step b v c (0 ∷ []) true _ _ n end hc zero_flag refl (omega arith) (rw none refl)
          (λ f c1 hf l at1 hc1.
            (c1, ap (λ (t : ℤ). got t c1) (sym (zero_of n nil)), omega arith, hc1))
    | inr other ↦ elim (Bool-cases (fits 2048 n)) [
      | inl short ↦ short_code c n end hc short le (rw (other, short) at w)
      | inr more ↦ elim (Bool-cases (fits 65536 n)) [
        | inl middle ↦ middle_code c n end hc middle le (rw (other, more, middle) at w)
        | inr long ↦ whole_code c n end hc h le (rw (other, more, long) at w)
      ]
    ]
  ]
