-- ===== src/Compress/V3/Represents.antt =====
-- What it means that Compressor_v3 holds a series.
use ticktock.Prelude.{
  ℕ, ◌+◌, ◌-◌, ◌*◌, ◌%◌, ◌^◌, ◌≤◌, ◌<◌, ◌≡◌, ◌∙◌, sym, subst, inl, inr, arith, Bool-cases, true,
  false, if◌then◌else◌, List, length, Option, some, none, ℤ, fits, to_signed,
}
use ticktock.BitSet.{BitSet, size_in_bits, save_check_point}
use ticktock.BitSet.{Cursor}
use ticktock.BitSet.Bits.{IsBytes, IsValid, Kept}
use ticktock.BitSet.CheckPoint.{Extends, RollsBack, rolls_back}
use ticktock.BitSet.Fields.{Writes, Writes-le, Writes-Kept}
use ticktock.Compress.V3.{
  Floating, Compressor, Compressed, Reader, roll_back, int_fields, float_fields, first, got,
  is_zero,
}
use ticktock.Compress.V3.Series.{Series, store, StandsAt, Leads, later, next-store}

-- Each code takes at least one bit.
pub int_fields-long : (b : BitSet) (p : ℕ) (n : ℤ) (q : ℕ) → Writes b p (int_fields n) q → p + 1 ≤ q
unfolding int_fields Writes
int_fields-long b p n q w = elim (Bool-cases (is_zero n)) [
  | inl nil ↦ let w = rw nil at w in let e : p + 1 ≡ q = w.1 in omega arith
  | inr other ↦ elim (Bool-cases (fits 2048 n)) [
    | inl short ↦ let w = rw (other, short) at w in let e : p + 2 + 12 ≡ q = w.1.1 in omega arith
    | inr more ↦ elim (Bool-cases (fits 65536 n)) [
      | inl middle ↦
          let w = rw (other, more, middle) at w in let e : p + 3 + 17 ≡ q = w.1.1 in omega arith
      | inr long ↦
          let w = rw (other, more, long) at w in let e : p + 3 + 64 ≡ q = w.1.1 in omega arith
    ]
  ]
]

module _ (f : Floating) (stack : List ℕ) (room : 8 ≤ length stack) (hs : IsBytes stack) where
  pub float_fields-long :
      (b : BitSet) (p : ℕ) (x : f.Double) (q : ℕ) → Writes b p (float_fields f x) q → p + 1 ≤ q
  unfolding float_fields Writes
  float_fields-long b p x q w = elim (Bool-cases (f.near_integer x)) [
    | inl near ↦ let w = rw near at w in Writes-le b (p + 1) (int_fields (f.truncate x)) q w.1
    | inr far ↦ let w = rw far at w in Writes-le b (p + 1) (int_fields (f.scale x)) q w.1
  ]

  -- A set that has kept these bits is read as the series, also after further appends.
  pub record Keeps (b b' : BitSet) : Type 0 where
    pub valid : IsValid b'
    pub kept : Kept b b'
    pub size : size_in_bits b ≤ size_in_bits b'

  unfoldable pub Decodes : BitSet → ℕ → Series f → Type 0
  Decodes b start s =
      (b' : BitSet)
      → Keeps b b'
      → (r : Reader f) × (r' : Reader f) × (c : Cursor) × (first f b' start ≡ got r c)
        × Leads f b' stack r r'
        × StandsAt f r' s (size_in_bits b)

  -- The compressor holds the series, and its fields are those for the next data point.
  pub record Represents (c : Compressor f) (s : Series f) : Type 0 where
    pub valid : IsValid c.bitset
    pub decodes : Decodes c.bitset c.start_tstamp s
    pub count : c.dp_count ≡ length s.dps
    pub some_dps : 1 ≤ length s.dps
    pub size : 2 * length s.dps + 94 ≤ size_in_bits c.bitset
    pub tstamp_eq : c.prev_tstamp ≡ s.tstamp
    pub delta_eq : c.prev_delta ≡ s.delta
    pub value_eq : c.prev_value ≡ s.last_value
    pub tstamp_small : s.tstamp < 2 ^ 64
    pub delta_small : s.delta < 2 ^ 64

  -- One more data point behind those that a set holds.
  pub store-Decodes :
      (b b1 b2 : BitSet) (start tstamp : ℕ) (s : Series f) (x : f.Double)
      → Decodes b start s
      → Kept b b1
      → size_in_bits b ≤ size_in_bits b1
      → Kept b1 b2
      → size_in_bits b1 ≤ size_in_bits b2
      → s.tstamp ≤ tstamp
      → tstamp < 2 ^ 64
      → s.delta < 2 ^ 64
      → Writes b1
          (size_in_bits b)
          (int_fields (to_signed (2 ^ 63) ((tstamp - s.tstamp + 2 ^ 64 - s.delta) % 2 ^ 64)))
          (size_in_bits b1)
      → Writes b2 (size_in_bits b1) (float_fields f (f.minus x s.last_value)) (size_in_bits b2)
      → Decodes b2 start (store f tstamp x s)
  unfolding Decodes
  store-Decodes b b1 b2 start tstamp s x d k1 le1 k2 le2 order small low wi wf b' keeps =
      let size = keeps.size in
      let kept1 : Kept b1 b' = λ k h. keeps.kept k (omega arith) ∙ k2 k h in
      let all : Keeps b b' = record {
        valid = keeps.valid;
        kept = λ k h. kept1 k (omega arith) ∙ k1 k h;
        size = omega arith;
      } in
      let old = d b' all in
      let on =
        next-store f b' keeps.valid stack room hs old.1 s (size_in_bits b) (size_in_bits b1)
          (size_in_bits b2) tstamp x old.5 order small low size
          (Writes-Kept b1 b' (size_in_bits b) _ (size_in_bits b1) kept1 (omega arith) wi)
          (Writes-Kept b2 b' (size_in_bits b1) _ (size_in_bits b2) keeps.kept (omega arith) wf) in
      (old.0, on.0, old.2, old.3, later old.4 on.1, on.2)

  -- What a call leaves: the next series, or a set that is read as the same series as before.
  unfoldable pub StoreResult : Compressor f → Series f → Series f → Option (Compressed f) → Type 0
  StoreResult c s s' none = ⊥
  StoreResult c s s' (some o) =
      (o.compressor.start_tstamp ≡ c.start_tstamp)
      × (length o.compressor.bitset.bits ≡ length c.bitset.bits)
      × (if o.accepted
          then Represents o.compressor s'
          else Decodes o.compressor.bitset c.start_tstamp s)

  pub Decodes-same :
      (b b' : BitSet) (start : ℕ) (s : Series f)
      → Kept b b'
      → size_in_bits b' ≡ size_in_bits b
      → Decodes b start s
      → Decodes b' start s
  unfolding Decodes
  Decodes-same b b' start s k e d b'' keeps =
      let size = keeps.size in
      let r = d b'' (record {
        valid = keeps.valid;
        kept = λ i h. keeps.kept i (omega arith) ∙ k i h;
        size = omega arith;
      }) in
      (r.0, r.1, r.2, r.3, r.4, subst (λ (t : ℕ). StandsAt f r.1 s t) (sym e) r.5)

  pub rolled_back :
      (c c' : Compressor f) (s s' : Series f) (b : BitSet)
      → Represents c s
      → c'.dp_count ≡ c.dp_count
      → c'.prev_value ≡ c.prev_value
      → c'.start_tstamp ≡ c.start_tstamp
      → Extends (save_check_point c.bitset) b
      → StoreResult c s s' (roll_back f b c')
  unfolding StoreResult roll_back RollsBack
  rolled_back c c' s s' b rep count value start e =
      let r = rolls_back c.bitset b rep.valid e in
      subst
        (λ (o : Option BitSet). StoreResult c s s' (elim o [
          | none ↦ none
          | some b ↦
              some
                (record { compressor = record c' { bitset = b; is_full = true }; accepted = false })
        ]))
        (sym r.1) (start, r.3, Decodes-same c.bitset r.0 c.start_tstamp s r.4 r.2 rep.decodes)
