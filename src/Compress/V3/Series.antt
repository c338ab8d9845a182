-- ===== src/Compress/V3/Series.antt =====
-- The series that a run of calls of Compressor_v3::compress stores, without its bits, and how the
-- reader gets at it.
use ticktock.Prelude.{
  ℕ, zero, suc, ◌+◌, ◌-◌, ◌%◌, ◌^◌, ◌≤◌, ◌<◌, ◌≡◌, refl, ap, ◌∙◌, ◌⊎◌, inl, inr, arith, true, false,
  ltb, if◌then◌else◌, List, [], ◌∷◌, ◌++◌, length, Option, some, none, ℤ, fits, to_signed,
  to_unsigned,
}
use ticktock.BitSet.{BitSet, Cursor, size_in_bits}
use ticktock.BitSet.Bits.{IsBytes, IsValid}
use ticktock.BitSet.Copies.{position}
use ticktock.BitSet.Retrieve.{retrieve_at_end}
use ticktock.BitSet.Fields.{Writes, Writes-le}
use ticktock.Compress.V3.{
  Floating, Compressor, compress, got, thrown, int_fields, float_fields, uncompress_i, uncompress_f,
  Reader, more, ended, next, next_value, read_all, fetch,
}
use ticktock.Compress.V3.IntCode.{ReadsAs, uncompress_i-int_fields}
use ticktock.Compress.V3.FloatCode.{decoded, uncompress_f-float_fields}

signed_fits : (x : ℕ) → x < 2 ^ 64 → fits (2 ^ 63) (to_signed (2 ^ 63) x) ≡ true
signed_fits x h = ground arith

-- The difference of two deltas, added to the first, is the second.
delta_back :
    (d d' : ℕ)
    → d < 2 ^ 64
    → d' < 2 ^ 64
    → (d + to_unsigned 64 (to_signed (2 ^ 63) ((d' + 2 ^ 64 - d) % 2 ^ 64))) % 2 ^ 64 ≡ d'
delta_back d d' h h' = ground arith

module _ (f : Floating) where
  -- The data points as they will be read; the last delta; the last value as it is read, and as it was
  -- given.
  pub record Series : Type 0 where
    pub dps : List (ℕ × f.Double)
    pub tstamp : ℕ
    pub delta : ℕ
    pub read_value : f.Double
    pub last_value : f.Double

  unfoldable pub begin : ℕ → ℕ → f.Double → Series
  begin start tstamp v = record {
    dps = (tstamp, v) ∷ [];
    tstamp = tstamp;
    delta = tstamp - start;
    read_value = v;
    last_value = v;
  }

  -- A data point older than the last is dropped. Differences of values are stored, so what is read
  -- moves on from what was read before.
  unfoldable pub store : ℕ → f.Double → Series → Series
  store tstamp v s =
      let value = f.plus s.read_value (decoded f (f.minus v s.last_value)) in
      if ltb tstamp s.tstamp then s else record {
        dps = s.dps ++ (tstamp, value) ∷ [];
        tstamp = tstamp;
        delta = tstamp - s.tstamp;
        read_value = value;
        last_value = v;
      }

  -- Calls of `compress`, as long as they return true; `none` where one returns false.
  unfoldable pub compress_all : List (ℕ × f.Double) → Compressor f → Option (Compressor f)
  compress_all [] c = some c
  compress_all (dp ∷ dps) c = elim (compress f dp.0 dp.1 c) [
    | none ↦ none
    | some o ↦ let rest = compress_all dps o.compressor in if o.accepted then rest else none
  ]

  unfoldable pub store_all : List (ℕ × f.Double) → Series → Series
  store_all [] s = s
  store_all (dp ∷ dps) s = store_all dps (store dp.0 dp.1 s)

  unfoldable pub AllSmall : List (ℕ × f.Double) → Type 0
  AllSmall [] = Unit {0}
  AllSmall (dp ∷ dps) = (dp.0 < 2 ^ 64) × AllSmall dps

  -- The reader stands where the series ends.
  pub record StandsAt (r : Reader f) (s : Series) (end : ℕ) : Type 0 where
    pub at : position r.cursor ≡ end
    pub in_byte : r.cursor.start < 8
    pub dps_eq : r.dps ≡ s.dps
    pub delta_eq : r.delta ≡ s.delta
    pub tstamp_eq : r.timestamp ≡ s.tstamp
    pub value_eq : r.value ≡ s.read_value

  -- Rounds of the loop that lead from one reader to another.
  pub data Leads (b : BitSet) (stack : List ℕ) (r : Reader f) : Reader f → Type 0 where
    here : Leads b stack r r
    later :
        {r' r'' : Reader f}
        → Leads b stack r r'
        → next f b stack r' ≡ more r''
        → Leads b stack r r''

  module _ (b : BitSet) (v : IsValid b) (stack : List ℕ) (room : 8 ≤ length stack)
      (hs : IsBytes stack) where
    next_got :
        (r : Reader f) (dod : ℤ) (c c' : Cursor) (dv : f.Double)
        → uncompress_i b stack r.cursor ≡ got dod c
        → uncompress_f f b stack c ≡ got dv c'
        → let delta = (r.delta + to_unsigned 64 dod) % 2 ^ 64 in
          let timestamp = (r.timestamp + delta) % 2 ^ 64 in
          let value = f.plus r.value dv in
          next f b stack r
          ≡ more (record {
            cursor = c';
            dps = r.dps ++ (timestamp, value) ∷ [];
            delta = delta;
            timestamp = timestamp;
            value = value;
          })
    unfolding next next_value
    next_got r dod c c' dv e e' = rw (e, next, e', next_value) refl

    next_thrown :
        (r : Reader f) → uncompress_i b stack r.cursor ≡ thrown → next f b stack r ≡ ended r
    unfolding next
    next_thrown r e = rw (e, next) refl

    -- One more data point, read from where it was stored.
    pub next-store :
        (r : Reader f) (s : Series) (p q end tstamp : ℕ) (x : f.Double)
        → StandsAt r s p
        → s.tstamp ≤ tstamp
        → tstamp < 2 ^ 64
        → s.delta < 2 ^ 64
        → end ≤ size_in_bits b
        → Writes b p
            (int_fields (to_signed (2 ^ 63) ((tstamp - s.tstamp + 2 ^ 64 - s.delta) % 2 ^ 64)))
            q
        → Writes b q (float_fields f (f.minus x s.last_value)) end
        → (r' : Reader f) × (next f b stack r ≡ more r') × StandsAt r' (store tstamp x s) end
    unfolding ReadsAs store
    next-store r s p q end tstamp x st order small low le wi wf =
        let dod = to_signed (2 ^ 63) ((tstamp - s.tstamp + 2 ^ 64 - s.delta) % 2 ^ 64) in
        let at = st.at in
        let before = Writes-le b q (float_fields f (f.minus x s.last_value)) end wf in
        let i =
          uncompress_i-int_fields b v stack room hs r.cursor dod q st.in_byte
            (signed_fits ((tstamp - s.tstamp + 2 ^ 64 - s.delta) % 2 ^ 64) (omega arith))
            (omega arith) (rw at wi) in
        let at' = i.2 in
        let u =
          uncompress_f-float_fields f b v stack room hs i.0 (f.minus x s.last_value) end i.3 le
            (rw at' wf) in
        let delta = (r.delta + to_unsigned 64 dod) % 2 ^ 64 in
        let timestamp = (r.timestamp + delta) % 2 ^ 64 in
        let value = f.plus r.value (decoded f (f.minus x s.last_value)) in
        let same_delta : delta ≡ tstamp - s.tstamp =
          ap (λ (t : ℕ). (t + to_unsigned 64 dod) % 2 ^ 64) st.delta_eq
          ∙ delta_back s.delta (tstamp - s.tstamp) low (omega arith) in
        let same_tstamp : timestamp ≡ tstamp = let e = st.tstamp_eq in omega arith in
        let same_value : value ≡ f.plus s.read_value (decoded f (f.minus x s.last_value)) =
          ap (λ (t : f.Double). f.plus t (decoded f (f.minus x s.last_value))) st.value_eq in
        let new : ltb tstamp s.tstamp ≡ false = ground arith in
        let r' : Reader f = record {
          cursor = u.0;
          dps = r.dps ++ (timestamp, value) ∷ [];
          delta = delta;
          timestamp = timestamp;
          value = value;
        } in
        (
          r',
          next_got r dod i.0 u.0 (decoded f (f.minus x s.last_value)) i.1 u.1,
          rw new (record {
            at = u.2;
            in_byte = u.3;
            dps_eq = rw (st.dps_eq, same_tstamp, same_value) refl;
            delta_eq = same_delta;
            tstamp_eq = same_tstamp;
            value_eq = same_value;
          }),
        )

    -- At the end of what is stored the loop ends.
    pub next_at_end :
        (r : Reader f) (s : Series) → StandsAt r s (size_in_bits b) → next f b stack r ≡ ended r
    unfolding uncompress_i fetch
    next_at_end r s st =
        let at = st.at in
        let past = retrieve_at_end b r.cursor (0 ∷ []) 1 0 v.in_byte st.in_byte (omega arith) in
        next_thrown r (rw past refl)

    -- With too little fuel the loop gives nothing, and with enough the last reader.
    pub read_all-Leads :
        {r r' : Reader f}
        → Leads b stack r r'
        → (fuel : ℕ)
        → (read_all f fuel b stack r ≡ none)
          ⊎ ((m : ℕ) × (read_all f fuel b stack r ≡ read_all f m b stack r'))
    unfolding read_all
    read_all-Leads here fuel = inr (fuel, refl)
    read_all-Leads {r} (later {r'} {r''} l e) fuel = elim (read_all-Leads l fuel) [
      | inl out ↦ inl out
      | inr on ↦ go on.0 on.1
    ]
      where
        go :
            (m : ℕ)
            → read_all f fuel b stack r ≡ read_all f m b stack r'
            → (read_all f fuel b stack r ≡ none)
              ⊎ ((m : ℕ) × (read_all f fuel b stack r ≡ read_all f m b stack r''))
        go zero h = inl h
        go (suc m) h = inr (m, h ∙ rw (e, read_all) refl)

    pub read_all_end :
        (r r' : Reader f) (s : Series) (fuel : ℕ)
        → Leads b stack r r'
        → StandsAt r' s (size_in_bits b)
        → (read_all f fuel b stack r ≡ none) ⊎ (read_all f fuel b stack r ≡ some r')
    unfolding read_all
    read_all_end r r' s fuel l st = elim (read_all-Leads l fuel) [
      | inl out ↦ inl out
      | inr on ↦ last on.0 on.1
    ]
      where
        last :
            (m : ℕ)
            → read_all f fuel b stack r ≡ read_all f m b stack r'
            → (read_all f fuel b stack r ≡ none) ⊎ (read_all f fuel b stack r ≡ some r')
        last zero h = inl h
        last (suc m) h = inr (h ∙ rw (next_at_end r' s st, read_all) refl)
