-- ===== src/Compress/V1/Series.antt =====
-- How the decoder of Compressor_v1 gets at the data points that its bytes stand for.
use ticktock.Prelude.{
  ℕ, suc, ◌+◌, ◌-◌, ◌%◌, ◌^◌, ◌≤◌, ◌<◌, ◌≡◌, refl, sym, ap, ◌∙◌, arith, Bool, true, false, ltb,
  if◌then◌else◌, List, [], ◌∷◌, ◌++◌, length, length-append, drop, drop-append, drop_at, some,
}
use mathlib.Core.List.{append_assoc}
use ticktock.Compress.Double.{Memory}
use ticktock.Compress.V1.{
  dod_bytes, value_bytes, xor_bytes, record_bytes, Reader, next, read_all, first,
}
use ticktock.Compress.V1.Codes.{
  IsInt32, read_dod-dod_bytes, read_value-value_bytes, xor_bytes_twice, length-xor_bytes,
}

-- The delta of two deltas that are short.
unfoldable pub dod : ℕ → ℕ → ℕ
dod before now = (now + 2 ^ 64 - before) % 2 ^ 64

pub dod-IsInt32 : (d d' : ℕ) → d < 2 ^ 31 → d' < 2 ^ 31 → IsInt32 (dod d d')
unfolding dod
dod-IsInt32 d d' h h' = ground arith

pub dod_back : (d d' : ℕ) → d < 2 ^ 31 → d' < 2 ^ 31 → (d + dod d d') % 2 ^ 64 ≡ d'
unfolding dod
dod_back d d' h h' = ground arith

-- A code takes a byte at least.
dod_bytes_some : (ms : Bool) (x : ℕ) → 1 ≤ length (dod_bytes ms x)
unfolding dod_bytes
dod_bytes_some true x = ground arith
dod_bytes_some false x = ground arith

module _ (m : Memory) where
  pub record Series : Type 0 where
    pub dps : List (ℕ × m.Double)
    pub tstamp : ℕ
    pub delta : ℕ
    pub value : m.Double

  unfoldable pub begin : ℕ → ℕ → m.Double → Series
  begin start tstamp v = record {
    dps = (tstamp, v) ∷ [];
    tstamp = tstamp;
    delta = tstamp - start;
    value = v;
  }

  -- A data point that is older than the last is dropped.
  unfoldable pub store : ℕ → m.Double → Series → Series
  store tstamp v s = if ltb tstamp s.tstamp then s else record {
    dps = s.dps ++ (tstamp, v) ∷ [];
    tstamp = tstamp;
    delta = tstamp - s.tstamp;
    value = v;
  }

  -- The reader behind the bytes of a series.
  abbrev pub behind : Series → ℕ → Reader m
  behind s at = record { at = at; dps = s.dps; delta = s.delta; tstamp = s.tstamp; value = s.value }

  abbrev pub InRange : ℕ → Series → Type 0
  InRange start s = (start ≤ s.tstamp) × (s.tstamp < start + 2 ^ 31) × (s.delta < 2 ^ 31)

  -- These bytes are read as the series, whatever follows them.
  unfoldable pub Decodes : Bool → ℕ → List ℕ → Series → Type 0
  Decodes ms start codes s =
      (t : List ℕ) (end : ℕ)
      → length codes ≤ end
      → (r : Reader m) × (n : ℕ) × (first m start (codes ++ t) ≡ some r)
        × (n < length codes)
        × ((fuel : ℕ)
            → read_all m (n + fuel) ms (codes ++ t) end r
              ≡ read_all m fuel ms (codes ++ t) end (behind s (length codes)))

  -- The next data point is read from its bytes.
  next-record_bytes :
      (ms : Bool) (start : ℕ) (codes t : List ℕ) (s : Series) (tstamp : ℕ) (v : m.Double)
      → start + 2 ^ 31 ≤ 2 ^ 64
      → InRange start s
      → s.tstamp ≤ tstamp
      → tstamp < start + 2 ^ 31
      → let out = record_bytes m ms (dod s.delta (tstamp - s.tstamp)) v s.value in
        next m ms (codes ++ (out ++ t)) (behind s (length codes))
        ≡ some (
            behind
              (record {
                dps = s.dps ++ (tstamp, v) ∷ [];
                tstamp = tstamp;
                delta = tstamp - s.tstamp;
                value = v;
              })
              (length (codes ++ out)))
  unfolding next record_bytes
  next-record_bytes ms start codes t s tstamp v fits range order near =
      rw
        (
          drop-append codes ((d ++ x) ++ t),
          shape,
          read_dod-dod_bytes ms change (x ++ t) small,
          next,
          rest_at,
          read_value-value_bytes diff t eight,
          next,
          delta_eq,
          tstamp_eq,
          value_eq,
          at_eq,
        )
        refl
    where
      change : ℕ
      change = dod s.delta (tstamp - s.tstamp)

      d : List ℕ
      d = dod_bytes ms change

      diff : List ℕ
      diff = xor_bytes (m.to_bytes v) (m.to_bytes s.value)

      x : List ℕ
      x = value_bytes diff

      shape : (d ++ x) ++ t ≡ d ++ (x ++ t)
      shape = append_assoc d x t

      small : IsInt32 change
      small = dod-IsInt32 s.delta (tstamp - s.tstamp) range.2 (omega arith)

      rest_at : drop (length codes + length d) (codes ++ ((d ++ x) ++ t)) ≡ x ++ t
      rest_at =
          drop_at (codes ++ d) (x ++ t) (codes ++ ((d ++ x) ++ t)) (length codes + length d)
            (ap (λ (l : List ℕ). codes ++ l) shape ∙ sym (append_assoc codes d (x ++ t)))
            (sym (length-append codes d))

      same_length : length (m.to_bytes v) ≡ length (m.to_bytes s.value)
      same_length = m.length-to_bytes v ∙ sym (m.length-to_bytes s.value)

      eight : length diff ≡ 8
      eight =
          length-xor_bytes (m.to_bytes v) (m.to_bytes s.value) same_length
          ∙ m.length-to_bytes s.value

      delta_eq : (s.delta + change) % 2 ^ 64 ≡ tstamp - s.tstamp
      delta_eq = dod_back s.delta (tstamp - s.tstamp) range.2 (omega arith)

      tstamp_eq : (s.tstamp + (tstamp - s.tstamp)) % 2 ^ 64 ≡ tstamp
      tstamp_eq = omega arith

      value_eq : m.of_bytes (xor_bytes diff (m.to_bytes s.value)) ≡ v
      value_eq =
          ap m.of_bytes (xor_bytes_twice (m.to_bytes v) (m.to_bytes s.value) same_length)
          ∙ m.of_bytes-to_bytes v

      at_eq : length codes + length d + length x ≡ length (codes ++ (d ++ x))
      at_eq = omega (arith, length-append codes (d ++ x), length-append d x)

  read_step :
      (fuel : ℕ) (ms : Bool) (base : List ℕ) (end : ℕ) (r r' : Reader m)
      → next m ms base r ≡ some r'
      → r.at < end
      → read_all m (suc fuel) ms base end r ≡ read_all m fuel ms base end r'
  unfolding read_all
  read_step fuel ms base end r r' e lt =
      let on : ltb r.at end ≡ true = ground arith in rw (on, read_all, e) refl

  pub read_stop :
      (fuel : ℕ) (ms : Bool) (base : List ℕ) (r : Reader m)
      → read_all m (suc fuel) ms base r.at r ≡ some r
  unfolding read_all
  read_stop fuel ms base r =
      let off : ltb r.at r.at ≡ false = ground arith in rw (off, read_all) refl

  record_bytes_some :
      (ms : Bool) (x : ℕ) (v prev : m.Double) → 1 ≤ length (record_bytes m ms x v prev)
  unfolding record_bytes
  record_bytes_some ms x v prev = omega (
    arith,
    dod_bytes_some ms x,
    length-append (dod_bytes ms x) (value_bytes (xor_bytes (m.to_bytes v) (m.to_bytes prev))),
  )

  -- One more data point behind those that bytes stand for.
  pub store-Decodes :
      (ms : Bool) (start : ℕ) (codes : List ℕ) (s : Series) (tstamp : ℕ) (v : m.Double)
      → start + 2 ^ 31 ≤ 2 ^ 64
      → InRange start s
      → s.tstamp ≤ tstamp
      → tstamp < start + 2 ^ 31
      → Decodes ms start codes s
      → Decodes ms start
          (codes ++ record_bytes m ms (dod s.delta (tstamp - s.tstamp)) v s.value)
          (store tstamp v s)
  unfolding Decodes store
  store-Decodes ms start codes s tstamp v fits range order near before t end le =
      let assoc = append_assoc codes out t in
      let b = before (out ++ t) end (omega (arith, longer)) in
      let new : ltb tstamp s.tstamp ≡ false = ground arith in
      rw (new, assoc)
        (
          b.0,
          suc b.1,
          b.2,
          omega (arith, longer, b.3),
          λ fuel.
              ap (λ (k : ℕ). read_all m k ms (codes ++ (out ++ t)) end b.0) (omega arith)
              ∙ b.4 (suc fuel)
              ∙ read_step fuel ms (codes ++ (out ++ t)) end (behind s (length codes)) _
                  (next-record_bytes ms start codes t s tstamp v fits range order near)
                  (omega (arith, longer)),
        )
    where
      out : List ℕ
      out = record_bytes m ms (dod s.delta (tstamp - s.tstamp)) v s.value

      longer : length codes + 1 ≤ length (codes ++ out)
      longer = omega (
        arith,
        length-append codes out,
        record_bytes_some ms (dod s.delta (tstamp - s.tstamp)) v s.value,
      )
