-- ===== src/Compress/V3/Progress.antt =====
-- `uncompress` of Compressor_v3 ends: each read moves the cursor on, or throws where the buffer ends.
use ticktock.Prelude.{
  ℕ, ◌+◌, ◌*◌, ◌≤◌, ◌<◌, ◌≡◌, refl, inl, inr, arith, Bool-cases, List, [], ◌∷◌, take, length,
  length-take, Bool, ◌∙◌, pos, ℤ, if◌then◌else◌, true, false, ltb, ◌==◌,
}
use ticktock.BitSet.{
  BitSet, Cursor, Result, ok, out_of_range, out_of_fuel, Destination, retrieve, size_in_bits,
}
use ticktock.BitSet.Bits.{IsBytes, IsBytes-nil, IsBytes-cons, IsBytes-take, IsValid}
use ticktock.BitSet.Copies.{position, RetrieveOutcome}
use ticktock.BitSet.Retrieve.{retrieve-RetrieveOutcome, retrieve_at_end}
use ticktock.Compress.V3.{
  Fetched, got, thrown, stuck, fetched, fetch, then_got, uncompress_i, uncompress_f,
  uncompress_more, uncompress_long, top_bit, Floating,
}

-- The cursor that a read leaves stands in the buffer, `least` bits on from `from` or more.
unfoldable pub Advances : {A : Type 0} → BitSet → (A → Type 0) → ℕ → ℕ → Fetched A → Type 0
Advances b P from least (got a c) =
    P a × (from + least ≤ position c) × (position c ≤ 8 * length b.bits) × (c.start < 8)
Advances b P from least thrown = Unit {0}
Advances b P from least stuck = ⊥

abbrev pub Any : {A : Type 0} → A → Type 0
Any x = Unit {0}

abbrev pub Buffer : ℕ → List ℕ → Type 0
Buffer n bytes = (length bytes ≡ n) × IsBytes bytes

retrieved :
    (b : BitSet) (c : Cursor) (bytes : List ℕ) (len start : ℕ) (r : Result Destination)
    → RetrieveOutcome b c bytes start len r
    → Advances b (Buffer (length bytes)) (position c) len (fetched r)
unfolding Advances
retrieved b c bytes len start (ok d) o =
    let m = o.moved_on in
    let i = o.in_buffer in ((o.length_eq, o.still_bytes), omega arith, omega arith, o.in_byte)
retrieved b c bytes len start (out_of_range d) o = tt
retrieved b c bytes len start out_of_fuel o = o

pub fetch-Advances :
    (b : BitSet) (c : Cursor) (bytes : List ℕ) (len start : ℕ)
    → IsValid b
    → c.start < 8
    → IsBytes bytes
    → start + len ≤ 8 * length bytes
    → Advances b (Buffer (length bytes)) (position c) len (fetch b bytes len start c)
unfolding fetch Advances
fetch-Advances b c bytes len start v hc hb room =
    elim (Bool-cases (ltb (position c) (size_in_bits b))) [
      | inl inside ↦
          retrieved b c bytes len start (retrieve b c bytes len start)
            (retrieve-RetrieveOutcome b c bytes len start v hc hb room (ground arith))
      | inr past ↦ rw (retrieve_at_end b c bytes len start v.in_byte hc (ground arith)) tt
    ]

Advances-from :
    {A : Type 0} (b : BitSet) (P : A → Type 0) (from to n m : ℕ) (s : Fetched A)
    → from + n ≤ to
    → Advances b P to m s
    → Advances b P from (n + m) s
unfolding Advances
Advances-from b P from to n m (got x c) le g = let g1 = g.1 in (g.0, omega arith, g.2, g.3)
Advances-from b P from to n m thrown le g = tt
Advances-from b P from to n m stuck le g = g

at_least_none :
    {A : Type 0} (b : BitSet) (P : A → Type 0) (from n : ℕ) (r : Fetched A)
    → Advances b P from n r
    → Advances b P from 0 r
unfolding Advances
at_least_none b P from n (got a c) h = let h1 = h.1 in (h.0, omega arith, h.2, h.3)
at_least_none b P from n thrown h = tt
at_least_none b P from n stuck h = h

-- Reads one after another.
pub then_got-Advances :
    {A : Type 0} {B : Type 0} (b : BitSet) (P : A → Type 0) (Q : B → Type 0) (from n m : ℕ)
    (r : Fetched A) (k : A → Cursor → Fetched B)
    → Advances b P from n r
    → ((a : A) (c : Cursor)
        → P a
        → c.start < 8
        → position c ≤ 8 * length b.bits
        → Advances b Q (position c) m (k a c))
    → Advances b Q from (n + m) (then_got r k)
unfolding Advances
then_got-Advances b P Q from n m (got a c) k h next =
    Advances-from b Q from (position c) n m (k a c) h.1 (next a c h.0 h.3 h.2)
then_got-Advances b P Q from n m thrown k h next = tt
then_got-Advances b P Q from n m stuck k h next = h

got-Advances :
    {A : Type 0} (b : BitSet) (a : A) (c : Cursor)
    → c.start < 8
    → position c ≤ 8 * length b.bits
    → Advances b Any (position c) 0 (got a c)
unfolding Advances
got-Advances b a c hc within = (tt, omega arith, within, hc)

Advances-if :
    {A : Type 0} (b : BitSet) (P : A → Type 0) (from n : ℕ) (test : Bool) (r s : Fetched A)
    → Advances b P from n r
    → Advances b P from n s
    → Advances b P from n (if test then r else s)
Advances-if b P from n true r s h g = h
Advances-if b P from n false r s h g = g

zero_byte : IsBytes (0 ∷ [])
zero_byte = IsBytes-cons 0 [] (omega arith) IsBytes-nil

module _ (b : BitSet) (v : IsValid b) (stack : List ℕ) (room : 8 ≤ length stack)
    (hs : IsBytes stack) where
  -- A read of a whole local variable, then its value.
  word-Advances :
      (c : Cursor) (n len start : ℕ) (value : List ℕ → ℤ)
      → c.start < 8
      → n ≤ 8
      → start + len ≤ 8 * n
      → Advances b Any
          (position c)
          (len + 0)
          (then_got (fetch b (take n stack) len start c) (λ w c. got (value w) c))
  word-Advances c n len start value hc le fit =
      let l = length-take n stack (omega arith) in
      then_got-Advances b (Buffer (length (take n stack))) Any (position c) len 0
        (fetch b (take n stack) len start c) (λ w c. got (value w) c)
        (fetch-Advances b c (take n stack) len start v hc (IsBytes-take n stack hs) (omega arith))
        (λ w c' h hc' within. got-Advances b (value w) c' hc' within)

  -- A flag bit, and what depends on it.
  flag-Advances :
      {A : Type 0} (c : Cursor) (flag : List ℕ) (m : ℕ) (k : List ℕ → Cursor → Fetched A)
      → c.start < 8
      → Buffer 1 flag
      → ((flag : List ℕ) (c : Cursor)
          → Buffer 1 flag
          → c.start < 8
          → position c ≤ 8 * length b.bits
          → Advances b Any (position c) m (k flag c))
      → Advances b Any (position c) (1 + m) (then_got (fetch b flag 1 0 c) k)
  flag-Advances c flag m k hc h next =
      let l : length flag ≡ 1 = h.0 in
      then_got-Advances b (Buffer (length flag)) Any (position c) 1 m (fetch b flag 1 0 c) k
        (fetch-Advances b c flag 1 0 v hc h.1 (omega arith))
        (λ flag' c' h'. next flag' c' (h'.0 ∙ l, h'.1))

  long-Advances :
      (flag : List ℕ) (c : Cursor)
      → Buffer 1 flag
      → c.start < 8
      → Advances b Any (position c) 1 (uncompress_long b stack flag c)
  long-Advances flag c h hc = flag-Advances c flag 0 _ hc h (λ flag c h hc within.
      Advances-if b Any (position c) 0 (top_bit flag == 0) _ _
        (at_least_none b Any (position c) (17 + 0) _
          (word-Advances c 4 17 15 _ hc (omega arith) (omega arith)))
        (at_least_none b Any (position c) (64 + 0) _
          (word-Advances c 8 64 0 _ hc (omega arith) (omega arith))))

  more-Advances :
      (flag : List ℕ) (c : Cursor)
      → Buffer 1 flag
      → c.start < 8
      → Advances b Any (position c) 1 (uncompress_more b stack flag c)
  more-Advances flag c h hc = flag-Advances c flag 0 _ hc h (λ flag c h hc within.
      Advances-if b Any (position c) 0 (top_bit flag == 0) _ _
        (at_least_none b Any (position c) (12 + 0) _
          (word-Advances c 2 12 4 _ hc (omega arith) (omega arith)))
        (at_least_none b Any (position c) 1 _ (long-Advances flag c h hc)))

  pub uncompress_i-Advances :
      (c : Cursor) → c.start < 8 → Advances b Any (position c) 1 (uncompress_i b stack c)
  unfolding uncompress_i
  uncompress_i-Advances c hc =
      flag-Advances c (0 ∷ []) 0 _ hc (refl, zero_byte)
        (λ flag c h hc within.
          Advances-if b Any (position c) 0 (top_bit flag == 0) _ _
            (got-Advances b (pos 0) c hc within)
            (at_least_none b Any (position c) 1 _ (more-Advances flag c h hc)))

  module _ (f : Floating) where
    pub uncompress_f-Advances :
        (c : Cursor) → c.start < 8 → Advances b Any (position c) 1 (uncompress_f f b stack c)
    unfolding uncompress_f
    uncompress_f-Advances c hc =
        flag-Advances c (0 ∷ []) 0 _ hc (refl, zero_byte)
          (λ flag c h hc within.
            Advances-if b Any (position c) 0 (top_bit flag == 0) _ _
              (at_least_none b Any (position c) 1 _ (converted f.from_int c hc))
              (at_least_none b Any (position c) 1 _ (converted f.unscale c hc)))
      where
        converted :
            (g : ℤ → f.Double) (c : Cursor)
            → c.start < 8
            → Advances b Any (position c) 1 (then_got (uncompress_i b stack c) (λ n c. got (g n) c))
        converted g c hc =
            then_got-Advances b Any Any (position c) 1 0 (uncompress_i b stack c) _
              (uncompress_i-Advances c hc) (λ n c u hc within. got-Advances b (g n) c hc within)
