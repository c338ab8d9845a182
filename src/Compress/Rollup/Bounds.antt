-- ===== src/Compress/Rollup/Bounds.antt =====
-- `uncompress` of RollupCompressor_v1 on any bytes: it stays inside the buffer.
use ticktock.Prelude.{
  ℕ, ◌+◌, ◌-◌, ◌≤◌, ◌≡◌, refl, arith, ltb, false, ◌==◌, if◌then◌else◌, List, [], ◌∷◌, length,
  length-drop, drop, Bool, true, ◌≢◌, Option, none, some, get_elem?, bit_and,
}
use ticktock.Compress.Endian.{uncompress_int16, uncompress_int24}
use ticktock.Compress.Endian.{uncompress_int32, uncompress_int40, uncompress_int64}
use ticktock.Compress.Endian.{uncompress_uint16, uncompress_uint24, uncompress_uint32}
use ticktock.Compress.Endian.Total.{
  uncompress_int16-ne-none, uncompress_int24-ne-none, uncompress_int32-ne-none,
  uncompress_int40-ne-none, uncompress_int64-ne-none, uncompress_uint16-ne-none,
  uncompress_uint24-ne-none, uncompress_uint32-ne-none,
}
use ticktock.Compress.Rollup.{
  Rounding, Entry, Outcome, fault, too_short, done, or_fault, and_then, uncompress_tid,
  uncompress_cnt, uncompress_min, uncompress_max, uncompress_sum, uncompress,
}

-- No read behind the end, and no more bytes processed than there are.
abbrev pub StaysWithin : {D : Type 0} → ℕ → Outcome D → Type 0
StaysWithin size fault = ⊥
StaysWithin size (too_short e) = Unit {0}
StaysWithin size (done e len) = len ≤ size

get_elem?-first : (bs : List ℕ) → 1 ≤ length bs → get_elem? bs 0 ≢ none
get_elem?-first [] h = absurd (omega arith)
get_elem?-first (b ∷ bs) h = λ e. cc

or_fault-StaysWithin :
    {A D : Type 0} (size : ℕ) (o : Option A) (k : A → Outcome D)
    → o ≢ none
    → ((a : A) → StaysWithin size (k a))
    → StaysWithin size (or_fault o k)
or_fault-StaysWithin size none k h f = absurd (h refl)
or_fault-StaysWithin size (some a) k h f = f a

and_then-StaysWithin :
    {D : Type 0} (size : ℕ) (r : Outcome D) (k : Entry D → ℕ → Outcome D)
    → StaysWithin size r
    → ((e : Entry D) (len : ℕ) → len ≤ size → StaysWithin size (k e len))
    → StaysWithin size (and_then r k)
and_then-StaysWithin size fault k h f = absurd h
and_then-StaysWithin size (too_short e) k h f = tt
and_then-StaysWithin size (done e len) k h f = f e len h

if-StaysWithin :
    {D : Type 0} (size : ℕ) (b : Bool) (r s : Outcome D)
    → (b ≡ true → StaysWithin size r)
    → (b ≡ false → StaysWithin size s)
    → StaysWithin size (if b then r else s)
if-StaysWithin size true r s f g = f refl
if-StaysWithin size false r s f g = g refl

module _ (p : Rounding) (buff : List ℕ) (size : ℕ) (covered : size ≤ length buff) where
  -- A field of k bytes that lies within the size is read.
  field-StaysWithin :
      {A : Type 0} (read : List ℕ → Option A) (k : ℕ)
      → ((bs : List ℕ) → k ≤ length bs → read bs ≢ none)
      → (len : ℕ) (store : A → Entry p.Double) → len ≤ size
      → k ≤ size - len
      → StaysWithin size (or_fault (read (drop len buff)) (λ a. done (store a) (len + k)))
  field-StaysWithin read k total len store h room =
      or_fault-StaysWithin size (read (drop len buff)) (λ a. done (store a) (len + k))
        (total (drop len buff) (omega (arith, length-drop len buff))) (λ a. omega arith)

  uncompress_tid-StaysWithin :
      (flag : ℕ) (e : Entry p.Double) → 6 ≤ size → StaysWithin size (uncompress_tid buff flag e)
  unfolding uncompress_tid
  uncompress_tid-StaysWithin flag e h =
      if-StaysWithin size (bit_and flag 0x80 == 0) _ _
        (λ _.
          field-StaysWithin uncompress_uint24 3 uncompress_uint24-ne-none 1 _ (omega arith)
            (omega arith))
        (λ _.
          field-StaysWithin uncompress_uint32 4 uncompress_uint32-ne-none 1 _ (omega arith)
            (omega arith))

  uncompress_cnt-StaysWithin :
      (flag : ℕ) (e : Entry p.Double) (len : ℕ)
      → len ≤ size
      → StaysWithin size (uncompress_cnt buff size flag e len)
  unfolding uncompress_cnt
  uncompress_cnt-StaysWithin flag e len h =
      if-StaysWithin size (bit_and flag 0x40 == 0) _ _
        (λ _.
          if-StaysWithin size (ltb (size - len) 2) _ _ (λ _. tt)
            (λ r.
              field-StaysWithin uncompress_uint16 2 uncompress_uint16-ne-none len _ h
                (ground arith)))
        (λ _.
          if-StaysWithin size (ltb (size - len) 4) _ _ (λ _. tt)
            (λ r.
              field-StaysWithin uncompress_uint32 4 uncompress_uint32-ne-none len _ h
                (ground arith)))

  uncompress_min-StaysWithin :
      (flag : ℕ) (e : Entry p.Double) (len : ℕ)
      → len ≤ size
      → StaysWithin size (uncompress_min p buff size flag e len)
  unfolding uncompress_min
  uncompress_min-StaysWithin flag e len h =
      if-StaysWithin size (ltb (size - len) 8) _ _ (λ _. tt)
        λ r.
          let room : 8 ≤ size - len = ground arith in
          if-StaysWithin size (bit_and flag 0x30 == 0x00) _ _
            (λ _.
              field-StaysWithin uncompress_int16 2 uncompress_int16-ne-none len _ h (omega arith))
            λ _.
              if-StaysWithin size (bit_and flag 0x30 == 0x10) _ _
                (λ _.
                  field-StaysWithin uncompress_int24 3 uncompress_int24-ne-none len _ h
                    (omega arith))
                λ _.
                  if-StaysWithin size (bit_and flag 0x30 == 0x20) _ _
                    (λ _.
                      field-StaysWithin uncompress_int32 4 uncompress_int32-ne-none len _ h
                        (omega arith))
                    λ _. field-StaysWithin uncompress_int64 8 uncompress_int64-ne-none len _ h room

  uncompress_max-StaysWithin :
      (flag : ℕ) (e : Entry p.Double) (len : ℕ)
      → len ≤ size
      → StaysWithin size (uncompress_max p buff size flag e len)
  unfolding uncompress_max
  uncompress_max-StaysWithin flag e len h =
      if-StaysWithin size (ltb (size - len) 6) _ _ (λ _. tt)
        λ r.
          let room : 6 ≤ size - len = ground arith in
          if-StaysWithin size (bit_and flag 0x0C == 0x00) _ _
            (λ _.
              field-StaysWithin uncompress_int24 3 uncompress_int24-ne-none len _ h (omega arith))
            λ _.
              if-StaysWithin size (bit_and flag 0x0C == 0x04) _ _
                (λ _.
                  field-StaysWithin uncompress_int32 4 uncompress_int32-ne-none len _ h
                    (omega arith))
                λ _.
                  if-StaysWithin size (bit_and flag 0x0C == 0x08) _ _
                    (λ _.
                      field-StaysWithin uncompress_int40 5 uncompress_int40-ne-none len _ h
                        (omega arith))
                    λ _.
                      if-StaysWithin size (ltb (size - len) 8) _ _ (λ _. tt)
                        λ r8.
                          field-StaysWithin uncompress_int64 8 uncompress_int64-ne-none len _ h
                            (ground arith)

  uncompress_sum-StaysWithin :
      (flag : ℕ) (e : Entry p.Double) (len : ℕ)
      → len ≤ size
      → StaysWithin size (uncompress_sum p buff size flag e len)
  unfolding uncompress_sum
  uncompress_sum-StaysWithin flag e len h =
      if-StaysWithin size (bit_and flag 0x03 == 0x00) _ _
        (λ _.
          if-StaysWithin size (ltb (size - len) 3) _ _ (λ _. tt)
            λ r.
              field-StaysWithin uncompress_int24 3 uncompress_int24-ne-none len _ h (ground arith))
        λ _.
          if-StaysWithin size (bit_and flag 0x03 == 0x01) _ _
            (λ _.
              if-StaysWithin size (ltb (size - len) 4) _ _ (λ _. tt)
                λ r.
                  field-StaysWithin uncompress_int32 4 uncompress_int32-ne-none len _ h
                    (ground arith))
            λ _.
              if-StaysWithin size (bit_and flag 0x03 == 0x02) _ _
                (λ _.
                  if-StaysWithin size (ltb (size - len) 5) _ _ (λ _. tt)
                    λ r.
                      field-StaysWithin uncompress_int40 5 uncompress_int40-ne-none len _ h
                        (ground arith))
                λ _.
                  if-StaysWithin size (ltb (size - len) 8) _ _ (λ _. tt)
                    λ r.
                      field-StaysWithin uncompress_int64 8 uncompress_int64-ne-none len _ h
                        (ground arith)

  -- Of any bytes, also such as no encoder wrote, `uncompress` reads none behind the end of a buffer
  -- that is as long as the size it is told, and it never claims more bytes than that size.
  pub uncompress-StaysWithin : (e : Entry p.Double) → StaysWithin size (uncompress p buff size e)
  unfolding uncompress
  uncompress-StaysWithin e =
      if-StaysWithin size (ltb size 6) _ _ (λ _. tt)
        λ r.
          let six : 6 ≤ size = ground arith in
          or_fault-StaysWithin size (get_elem? buff 0) _ (get_elem?-first buff (omega arith))
            λ flag.
              and_then-StaysWithin size _ _ (uncompress_tid-StaysWithin flag e six) λ e1 l1 h1.
                and_then-StaysWithin size _ _ (uncompress_cnt-StaysWithin flag e1 l1 h1) λ e2 l2 h2.
                  if-StaysWithin size (e2.cnt == 0) _ _ (λ _. h2)
                    λ _.
                      and_then-StaysWithin size _ _ (uncompress_min-StaysWithin flag e2 l2 h2)
                        λ e3 l3 h3.
                          and_then-StaysWithin size _ _ (uncompress_max-StaysWithin flag e3 l3 h3)
                            λ e4 l4 h4. uncompress_sum-StaysWithin flag e4 l4 h4
