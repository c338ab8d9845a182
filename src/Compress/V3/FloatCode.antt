-- ===== src/Compress/V3/FloatCode.antt =====
-- What Compressor_v3 stores of a difference of values, and of its first data point, is read back.
use ticktock.Prelude.{
  ℕ, ◌+◌, ◌*◌, ◌%◌, ◌^◌, ◌≤◌, ◌<◌, ◌≡◌, refl, ap, ◌∙◌, sym, subst, inl, inr, arith, Bool-cases,
  true, false, if◌then◌else◌, List, [], ◌∷◌, length, ℤ, same_list, zero, suc,
}
use ticktock.BitSet.{BitSet, Cursor, new_cursor, size_in_bits}
use ticktock.BitSet.Byte.{bit}
use ticktock.BitSet.Bits.{bit_at, IsBytes, IsBytes-cons, IsBytes-nil, IsValid}
use ticktock.BitSet.Copies.{position}
use ticktock.BitSet.Fields.{Writes, Writes-le, retrieve_stored, same_byte}
use ticktock.Compress.Endian.{byte}
use ticktock.Compress.V3.{
  Floating, got, fetch, fetched, then_got, word, field, int_fields, float_fields, first_fields,
  uncompress_i, uncompress_f, first, Reader,
}
use ticktock.Compress.V3.IntCode.{ReadsAs, flag_step, flag_bits, uncompress_i-int_fields}

module _ (f : Floating) where
  -- What becomes of a difference of values on its way through the code.
  pub decoded : f.Double → f.Double
  decoded v = if f.near_integer v then f.from_int (f.truncate v) else f.unscale (f.scale v)

  module _ (b : BitSet) (v : IsValid b) (stack : List ℕ) (room : 8 ≤ length stack)
      (hs : IsBytes stack) where
    converted :
        (c : Cursor) (n : ℤ) (g : ℤ → f.Double) (end : ℕ)
        → ReadsAs (uncompress_i b stack c) n end
        → ReadsAs (then_got (uncompress_i b stack c) (λ n c. got (g n) c)) (g n) end
    unfolding ReadsAs
    converted c n g end r = (r.0, rw r.1 refl, r.2, r.3)

    flagged :
        (c : Cursor) (x : f.Double) (flags : ℕ) (n : ℤ) (end : ℕ)
        → c.start < 8
        → end ≤ size_in_bits b
        → Writes b (position c) (field (flags ∷ []) 1 0 ∷ int_fields n) end
        → (bit_at b.bits (position c) ≡ bit flags 0) × Writes b (position c + 1) (int_fields n) end
    unfolding Writes
    flagged c x flags n end hc le w = (
      flag_bits b v stack room hs (position c) (position c) flags 1 0 (omega arith) (omega arith)
          w.0 (omega arith),
      w.1,
    )

    pub uncompress_f-float_fields :
        (c : Cursor) (x : f.Double) (end : ℕ)
        → c.start < 8
        → end ≤ size_in_bits b
        → Writes b (position c) (float_fields f x) end
        → ReadsAs (uncompress_f f b stack c) (decoded x) end
    unfolding float_fields decoded uncompress_f bit
    uncompress_f-float_fields c x end hc le w = elim (Bool-cases (f.near_integer x)) [
      | inl near ↦
          let w : Writes b (position c) (field (0x00 ∷ []) 1 0 ∷ int_fields (f.truncate x)) end =
            rw near at w in
          let g = flagged c x 0x00 (f.truncate x) end hc le w in
          let small = Writes-le b (position c + 1) (int_fields (f.truncate x)) end g.1 in
          rw near (
            flag_step b v c (0 ∷ []) true _ _ (f.from_int (f.truncate x)) end hc zero_flag refl
              (omega arith) (rw g.0 refl)
              (λ u c1 hu l at hc1. converted c1 (f.truncate x) f.from_int end (
                uncompress_i-int_fields b v stack room hs c1 (f.truncate x) end hc1
                  (f.truncate_fits x) le (rw at g.1))))
      | inr far ↦
          let w : Writes b (position c) (field (0x80 ∷ []) 1 0 ∷ int_fields (f.scale x)) end =
            rw far at w in
          let g = flagged c x 0x80 (f.scale x) end hc le w in
          let small = Writes-le b (position c + 1) (int_fields (f.scale x)) end g.1 in
          rw far (
            flag_step b v c (0 ∷ []) false _ _ (f.unscale (f.scale x)) end hc zero_flag refl
              (omega arith) (rw g.0 refl)
              (λ u c1 hu l at hc1. converted c1 (f.scale x) f.unscale end (
                uncompress_i-int_fields b v stack room hs c1 (f.scale x) end hc1 (f.scale_fits x) le
                  (rw at g.1))))
    ]
      where
        zero_flag : IsBytes (0 ∷ [])
        zero_flag = IsBytes-cons 0 [] (omega arith) IsBytes-nil

-- The first data point, read from where it was stored.
module _ (f : Floating) (b : BitSet) (v : IsValid b) where
  -- Whole bytes, read into a destination of their number.
  whole_bytes :
      (c : Cursor) (dest bytes : List ℕ) (n end : ℕ)
      → c.start < 8
      → 1 ≤ n
      → length dest ≡ n
      → length bytes ≡ n
      → IsBytes dest
      → IsBytes bytes
      → end ≤ size_in_bits b
      → position c + 8 * n ≤ end
      → ((j : ℕ) → j < 8 * n → bit_at b.bits (position c + j) ≡ bit_at bytes (0 + j))
      → (c' : Cursor) × (fetch b dest (8 * n) 0 c ≡ got bytes c')
        × (position c' ≡ position c + 8 * n)
        × (c'.start < 8)
  unfolding fetch
  whole_bytes c dest bytes n end hc some_bits ld lb hd hb le fit h =
      let r =
        retrieve_stored b c dest (8 * n) 0 v hc hd (omega arith) (omega arith) (omega arith) in
      let d = r.0 in
      let o = r.2 in
      let same : d.bytes ≡ bytes = same_list d.bytes bytes (o.length_eq ∙ ld ∙ sym lb) (λ q lt.
        same_byte d.bytes bytes o.still_bytes hb q (λ i below.
          subst (λ (t : ℕ). bit_at d.bytes t ≡ bit_at bytes t) {x = 0 + (8 * q + i)} {y = 8 * q + i}
            (omega arith) (o.copied (8 * q + i) (omega arith) ∙ h (8 * q + i) (omega arith)))) in
      (d.cursor, ap fetched r.1 ∙ ap (λ (t : List ℕ). got t d.cursor) same, o.moved_on, o.in_byte)

  four : ℕ → List ℕ
  four x = byte x 0 ∷ byte x 1 ∷ byte x 2 ∷ byte x 3 ∷ []

  four-IsBytes : (x : ℕ) → IsBytes (four x)
  unfolding four
  four-IsBytes x zero = omega arith
  four-IsBytes x (suc zero) = omega arith
  four-IsBytes x (suc (suc zero)) = omega arith
  four-IsBytes x (suc (suc (suc zero))) = omega arith
  four-IsBytes x (suc (suc (suc (suc j)))) = omega arith

  word-four : (x : ℕ) → x < 2 ^ 32 → word (four x) ≡ x
  unfolding four
  word-four x h = omega arith

  pub first-first_fields :
      (start delta end : ℕ) (x : f.Double)
      → delta < 2 ^ 32
      → end ≤ size_in_bits b
      → Writes b 0 (first_fields f delta x) end
      → (r : Reader f) × (c : Cursor) × (first f b start ≡ got r c)
        × (position r.cursor ≡ end)
        × (r.cursor.start < 8)
        × (r.dps ≡ ((start + delta) % 2 ^ 64, x) ∷ [])
        × (r.delta ≡ delta)
        × (r.timestamp ≡ (start + delta) % 2 ^ 64)
        × (r.value ≡ x)
  unfolding first first_fields Writes four
  first-first_fields start delta end x small le w =
      let zeros : List ℕ = 0 ∷ 0 ∷ 0 ∷ 0 ∷ [] in
      let zv = f.to_bytes f.zero_value in
      let total : 0 + 32 + 64 ≡ end = w.1.1 in
      let d =
        whole_bytes new_cursor zeros (four delta) 4 end (omega arith) (omega arith) refl refl
          zeros-IsBytes (four-IsBytes delta) le (omega arith) w.0 in
      let at : position d.0 ≡ 0 + 32 = d.2 in
      let u =
        whole_bytes d.0 zv (f.to_bytes x) 8 end d.3 (omega arith) (f.length-to_bytes f.zero_value)
          (f.length-to_bytes x) (f.to_bytes-IsBytes f.zero_value) (f.to_bytes-IsBytes x) le
          (omega arith) (λ j lt. rw at (w.1.0 j lt)) in
      let at' = u.2 in
      let same = word-four delta small in
      let r : Reader f = record {
        cursor = u.0;
        dps = ((start + word (four delta)) % 2 ^ 64, f.of_bytes (f.to_bytes x)) ∷ [];
        delta = word (four delta);
        timestamp = (start + word (four delta)) % 2 ^ 64;
        value = f.of_bytes (f.to_bytes x);
      } in
      (
        r,
        u.0,
        rw (d.1, u.1) refl,
        omega arith,
        u.3,
        rw (same, f.of_bytes-to_bytes x) refl,
        same,
        rw same refl,
        f.of_bytes-to_bytes x,
      )
    where
      zeros-IsBytes : IsBytes (0 ∷ 0 ∷ 0 ∷ 0 ∷ [])
      zeros-IsBytes zero = omega arith
      zeros-IsBytes (suc zero) = omega arith
      zeros-IsBytes (suc (suc zero)) = omega arith
      zeros-IsBytes (suc (suc (suc zero))) = omega arith
      zeros-IsBytes (suc (suc (suc (suc j)))) = omega arith
