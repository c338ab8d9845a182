-- ===== src/Compress/V3/Uncompress.antt =====
-- `uncompress` of Compressor_v3 ends, on whatever bytes the buffer holds.
use ticktock.Prelude.{
  ℕ, zero, suc, ◌+◌, ◌*◌, ◌%◌, ◌^◌, ◌≤◌, ◌<◌, ◌≡◌, refl, arith, Bool-cases, inl, inr, true, false,
  List, [], ◌∷◌, ◌++◌, length, Option, some, none, ℤ, to_unsigned, length-append,
}
use ticktock.BitSet.{BitSet, Cursor, new_cursor, is_empty}
use ticktock.BitSet.Bits.{IsBytes, IsValid, IsBytes-cons, IsBytes-nil}
use ticktock.BitSet.Copies.{position}
use ticktock.Compress.V3.{
  Floating, Fetched, got, thrown, stuck, fetch, then_got, Reader, Round, more, ended, lost, next,
  next_value, read_all, uncompress_i, uncompress_f, first, first_value, word, Compressor,
  Uncompressed, nothing, uncaught, finished, unfinished, to_uncompressed, uncompress,
}
use ticktock.Compress.V3.Progress.{
  Advances, Any, Buffer, fetch-Advances, uncompress_i-Advances, uncompress_f-Advances,
}

module _ (f : Floating) (b : BitSet) where
  abbrev RoundOutcome : Reader f → Round f → Type 0
  RoundOutcome r (more r') =
      (position r.cursor + 2 ≤ position r'.cursor)
      × (position r'.cursor ≤ 8 * length b.bits)
      × (r'.cursor.start < 8)
      × (length r'.dps ≡ length r.dps + 1)
  RoundOutcome r (ended r') = length r'.dps ≡ length r.dps
  RoundOutcome r lost = ⊥

  abbrev ReadOutcome : Reader f → Option (Reader f) → Type 0
  ReadOutcome r none = ⊥
  ReadOutcome r (some r') =
      2 * length r'.dps + position r.cursor ≤ 2 * length r.dps + 8 * length b.bits

  abbrev pub UncompressOutcome : Uncompressed f → Type 0
  UncompressOutcome nothing = is_empty b ≡ true
  UncompressOutcome uncaught = is_empty b ≡ false
  UncompressOutcome (finished r) = 2 * length r.dps + 94 ≤ 8 * length b.bits
  UncompressOutcome unfinished = ⊥

  module _ (v : IsValid b) (stack : List ℕ) (room : 8 ≤ length stack) (hs : IsBytes stack) where
    next_value-RoundOutcome :
        (r : Reader f) (delta timestamp : ℕ) (c : Cursor)
        → position r.cursor + 1 ≤ position c
        → c.start < 8
        → RoundOutcome r (next_value f b stack delta timestamp r c)
    unfolding next_value Advances
    next_value-RoundOutcome r delta timestamp c le hc =
        by_value (uncompress_f f b stack c) (uncompress_f-Advances b v stack room hs f c hc)
      where
        by_value :
            (s : Fetched f.Double)
            → Advances b Any (position c) 1 s
            → RoundOutcome r (elim s [
              | thrown ↦ ended (record r { delta = delta; timestamp = timestamp })
              | stuck ↦ lost
              | got dv c' ↦
                  let value = f.plus r.value dv in
                  more (record {
                    cursor = c';
                    dps = r.dps ++ (timestamp, value) ∷ [];
                    delta = delta;
                    timestamp = timestamp;
                    value = value;
                  })
            ])
        by_value thrown h = refl
        by_value stuck h = h
        by_value (got dv c') h =
            let h1 = h.1 in
            (omega arith, h.2, h.3, length-append r.dps ((timestamp, f.plus r.value dv) ∷ []))

    next-RoundOutcome : (r : Reader f) → r.cursor.start < 8 → RoundOutcome r (next f b stack r)
    unfolding next Advances
    next-RoundOutcome r hc =
        by_delta (uncompress_i b stack r.cursor)
          (uncompress_i-Advances b v stack room hs r.cursor hc)
      where
        by_delta :
            (s : Fetched ℤ)
            → Advances b Any (position r.cursor) 1 s
            → RoundOutcome r (elim s [
              | thrown ↦ ended r
              | stuck ↦ lost
              | got dod c ↦
                  let delta = (r.delta + to_unsigned 64 dod) % 2 ^ 64 in
                  next_value f b stack delta ((r.timestamp + delta) % 2 ^ 64) r c
            ])
        by_delta thrown h = refl
        by_delta stuck h = h
        by_delta (got dod c) h = next_value-RoundOutcome r _ _ c h.1 h.3

    read_all-ReadOutcome :
        (fuel : ℕ) (r : Reader f)
        → r.cursor.start < 8
        → position r.cursor ≤ 8 * length b.bits
        → 8 * length b.bits < position r.cursor + fuel
        → ReadOutcome r (read_all f fuel b stack r)
    unfolding read_all
    read_all-ReadOutcome zero r hc within enough = absurd (omega arith)
    read_all-ReadOutcome (suc fuel) r hc within enough =
        by_round (next f b stack r) (next-RoundOutcome r hc)
          (λ r' h2 h1 h0. read_all-ReadOutcome fuel r' h2 h1 (omega arith))
      where
        later :
            (r' : Reader f) (o : Option (Reader f))
            → RoundOutcome r (more r')
            → ReadOutcome r' o
            → ReadOutcome r o
        later r' none h g = g
        later r' (some r'') h g = let h0 = h.0 in let h3 = h.3 in omega (arith, g)

        by_round :
            (s : Round f)
            → RoundOutcome r s
            → ((r' : Reader f)
                → r'.cursor.start < 8
                → position r'.cursor ≤ 8 * length b.bits
                → position r.cursor + 2 ≤ position r'.cursor
                → ReadOutcome r' (read_all f fuel b stack r'))
            → ReadOutcome r
                (elim s [ more r' ↦ read_all f fuel b stack r' | ended r' ↦ some r' | lost ↦ none ])
        by_round (more r') h next = later r' (read_all f fuel b stack r') h (next r' h.2 h.1 h.0)
        by_round (ended r') h next = let e : length r'.dps ≡ length r.dps = h in omega arith
        by_round lost h next = h

    unfoldable IsFirst : Reader f → Type 0
    IsFirst r =
        (length r.dps ≡ 1)
        × (96 ≤ position r.cursor)
        × (position r.cursor ≤ 8 * length b.bits)
        × (r.cursor.start < 8)

    abbrev FirstOutcome : Fetched (Reader f) → Type 0
    FirstOutcome (got r c) = IsFirst r
    FirstOutcome thrown = Unit {0}
    FirstOutcome stuck = ⊥

    first_value-FirstOutcome :
        (start : ℕ) (d : List ℕ) (c : Cursor)
        → 32 ≤ position c
        → c.start < 8
        → FirstOutcome (first_value f b start d c)
    unfolding Advances IsFirst
    first_value-FirstOutcome start d c le hc = by_value (fetch b zero_bytes 64 0 c) (
        fetch-Advances b c zero_bytes 64 0 v hc (f.to_bytes-IsBytes f.zero_value)
          (let l = f.length-to_bytes f.zero_value in omega arith))
      where
        zero_bytes : List ℕ
        zero_bytes = f.to_bytes f.zero_value

        by_value :
            (s : Fetched (List ℕ))
            → Advances b (Buffer (length zero_bytes)) (position c) 64 s
            → FirstOutcome (
                then_got s λ v c.
                  (let timestamp = (start + word d) % 2 ^ 64 in
                    got
                      (record {
                        cursor = c;
                        dps = (timestamp, f.of_bytes v) ∷ [];
                        delta = word d;
                        timestamp = timestamp;
                        value = f.of_bytes v;
                      })
                      c))
        by_value thrown h = tt
        by_value stuck h = h
        by_value (got v' c') h = let h1 = h.1 in (refl, omega arith, h.2, h.3)

    first-FirstOutcome : (start : ℕ) → FirstOutcome (first f b start)
    unfolding first Advances
    first-FirstOutcome start =
        by_delta (fetch b zeros 32 0 new_cursor)
          (fetch-Advances b new_cursor zeros 32 0 v (omega arith) zeros-IsBytes (omega arith))
      where
        zeros : List ℕ
        zeros = 0 ∷ 0 ∷ 0 ∷ 0 ∷ []

        zeros-IsBytes : IsBytes zeros
        zeros-IsBytes = IsBytes-cons 0 (0 ∷ 0 ∷ 0 ∷ []) (omega arith) (
            IsBytes-cons 0 (0 ∷ 0 ∷ []) (omega arith)
              (IsBytes-cons 0 (0 ∷ []) (omega arith) (IsBytes-cons 0 [] (omega arith) IsBytes-nil)))

        by_delta :
            (s : Fetched (List ℕ))
            → Advances b (Buffer 4) 0 32 s
            → FirstOutcome (then_got s (first_value f b start))
        by_delta thrown h = tt
        by_delta stuck h = h
        by_delta (got d c) h = let h1 = h.1 in first_value-FirstOutcome start d c (omega arith) h.3

    pub read-UncompressOutcome :
        (fuel start : ℕ)
        → is_empty b ≡ false
        → 8 * length b.bits < fuel
        → UncompressOutcome (elim (first f b start) [
          | thrown ↦ uncaught
          | stuck ↦ unfinished
          | got r cursor ↦ to_uncompressed f (read_all f fuel b stack r)
        ])
    unfolding IsFirst
    read-UncompressOutcome fuel start filled enough =
        by_first (first f b start) (first-FirstOutcome start)
      where
        by_read :
            (r : Reader f) (o : Option (Reader f))
            → length r.dps ≡ 1
            → 96 ≤ position r.cursor
            → ReadOutcome r o
            → UncompressOutcome (to_uncompressed f o)
        by_read r none one le h = h
        by_read r (some r') one le h = omega (arith, h)

        by_first :
            (s : Fetched (Reader f))
            → FirstOutcome s
            → UncompressOutcome (elim s [
              | thrown ↦ uncaught
              | stuck ↦ unfinished
              | got r cursor ↦ to_uncompressed f (read_all f fuel b stack r)
            ])
        by_first thrown h = filled
        by_first stuck h = h
        by_first (got r c) h =
            by_read r (read_all f fuel b stack r) h.0 h.1
              (read_all-ReadOutcome fuel r h.3 h.2 (let h1 = h.1 in omega arith))

module _ (f : Floating) where
  -- On a well-formed bit set, `uncompress` ends when its fuel exceeds the bits of the buffer, whatever
  -- bytes the buffer and the uninitialised locals hold. It returns at once only where the bit set is
  -- empty. Where it ends with data points, the first takes at least 96 bits of the buffer and each
  -- further one at least 2, which bounds their number by the capacity; otherwise an exception
  -- leaves it, from the first data point of a set that is not empty.
  pub uncompress-UncompressOutcome :
      (fuel : ℕ) (stack : List ℕ) (c : Compressor f)
      → IsValid c.bitset
      → 8 ≤ length stack
      → IsBytes stack
      → 8 * length c.bitset.bits < fuel
      → UncompressOutcome f c.bitset (uncompress f fuel stack c)
  unfolding uncompress
  uncompress-UncompressOutcome fuel stack c v room hs enough =
      elim (Bool-cases (is_empty c.bitset)) [
        | inl nil ↦ rw nil nil
        | inr filled ↦
            rw filled
              (read-UncompressOutcome f c.bitset v stack room hs fuel c.start_tstamp filled enough)
      ]
