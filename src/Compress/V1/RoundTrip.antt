-- ===== src/Compress/V1/RoundTrip.antt =====
-- What `uncompress` gives back after any calls of `compress` of Compressor_v1.
use ticktock.Prelude.{
  ltb, ◌++◌, ◌%◌, take, take-append, drop, length-drop, length-append, ap₂, ℕ, ◌+◌, ◌^◌, ◌≤◌, ◌<◌,
  ◌≡◌, refl, sym, ap, ◌∙◌, subst, arith, Bool, true, false, if◌then◌else◌, List, [], ◌∷◌, length,
  Option, some, none,
}
use ticktock.Compress.Double.{Memory}
use ticktock.Compress.V1.{
  Compressor, Compressed, Reader, compress, uncompress, save, restore, restored,
}
use ticktock.Compress.V1.Series.{Series, begin, behind, InRange, Decodes, store}
use ticktock.Compress.V1.Holds.{
  Holds, StoreResult, compress-StoreResult, compress-begin, uncompress-Holds,
}

module _ (m : Memory) where
  -- Calls of `compress`, with what they return.
  unfoldable pub compress_all :
      Bool → List (ℕ × m.Double) → Compressor m → Option (List Bool × Compressor m)
  compress_all ms [] c = some ([], c)
  compress_all ms (dp ∷ dps) c = elim (compress m ms dp.0 dp.1 c) [
    | none ↦ none
    | some o ↦ elim (compress_all ms dps o.compressor) [
      | none ↦ none
      | some (flags, c') ↦ some (o.accepted ∷ flags, c')
    ]
  ]

  -- The series of the data points that were accepted.
  unfoldable pub store_all : List (ℕ × m.Double) → List Bool → Series m → Series m
  store_all (dp ∷ dps) (accepted ∷ flags) s =
      store_all dps flags (if accepted then store m dp.0 dp.1 s else s)
  store_all dps flags s = s

  unfoldable pub AllNear : ℕ → List (ℕ × m.Double) → Type 0
  AllNear start [] = Unit {0}
  AllNear start (dp ∷ dps) = (dp.0 < start + 2 ^ 31) × AllNear start dps

  compress_all-cons :
      (ms : Bool) (dp : ℕ × m.Double) (dps : List (ℕ × m.Double)) (c : Compressor m)
      (o : Compressed m) (flags : List Bool) (c' : Compressor m)
      → compress m ms dp.0 dp.1 c ≡ some o
      → compress_all ms dps o.compressor ≡ some (flags, c')
      → compress_all ms (dp ∷ dps) c ≡ some (o.accepted ∷ flags, c')
  unfolding compress_all
  compress_all-cons ms dp dps c o flags c' e e' = rw (e, compress_all, e') refl

  held_if :
      (ms : Bool) (c : Compressor m) (s' s : Series m) (accepted : Bool)
      → (if accepted then Holds m ms c s' else Holds m ms c s)
      → Holds m ms c (if accepted then s' else s)
  held_if ms c s' s true h = h
  held_if ms c s' s false h = h

  either :
      (ms : Bool) (c : Compressor m) (s : Series m) (accepted : Bool)
      → (if accepted then Holds m ms c s else Holds m ms c s)
      → Holds m ms c s
  either ms c s true h = h
  either ms c s false h = h

  compress_all-Holds :
      (ms : Bool) (dps : List (ℕ × m.Double)) (c : Compressor m) (s : Series m)
      → Holds m ms c s
      → c.start_tstamp + 2 ^ 31 ≤ 2 ^ 64
      → AllNear c.start_tstamp dps
      → (flags : List Bool) × (c' : Compressor m) × (compress_all ms dps c ≡ some (flags, c'))
        × (length flags ≡ length dps)
        × Holds m ms c' (store_all dps flags s)
  unfolding compress_all store_all AllNear
  compress_all-Holds ms [] c s h fits near = ([], c, refl, refl, h)
  compress_all-Holds ms (dp ∷ dps) c s h fits near =
      by_result (compress m ms dp.0 dp.1 c) refl
        (compress-StoreResult m ms c s dp.0 dp.1 h fits near.0)
        (λ d s'. compress_all-Holds ms dps d s')
    where
      by_result :
          (r : Option (Compressed m))
          → compress m ms dp.0 dp.1 c ≡ r
          → StoreResult m ms c s (store m dp.0 dp.1 s) r
          → ((d : Compressor m) (s' : Series m)
              → Holds m ms d s'
              → d.start_tstamp + 2 ^ 31 ≤ 2 ^ 64
              → AllNear d.start_tstamp dps
              → (flags : List Bool) × (c' : Compressor m) × (compress_all ms dps d
                  ≡ some (flags, c'))
                × (length flags ≡ length dps)
                × Holds m ms c' (store_all dps flags s'))
          → (flags : List Bool) × (c' : Compressor m) × (compress_all ms (dp ∷ dps) c
              ≡ some (flags, c'))
            × (length flags ≡ length (dp ∷ dps))
            × Holds m ms c' (store_all (dp ∷ dps) flags s)
      by_result none e h' rest = absurd h'
      by_result (some o) e h' rest =
          let held : Holds m ms o.compressor (if o.accepted then store m dp.0 dp.1 s else s) =
            held_if ms o.compressor (store m dp.0 dp.1 s) s o.accepted h'.2 in
          let near' = subst (λ (t : ℕ). AllNear t dps) (sym h'.0) near.1 in
          let g =
            rest o.compressor (if o.accepted then store m dp.0 dp.1 s else s) held
              (omega (arith, h'.0)) near' in
          (
            o.accepted ∷ g.0,
            g.1,
            compress_all-cons ms dp dps c o g.0 g.1 e g.2,
            omega (arith, g.3),
            g.4,
          )

  -- An empty compressor, with a buffer of 12 bytes or more, is given data points one after another whose timestamps are
  -- less than 2^31 above its start, the first not below it. Then every call of `compress` returns, and `uncompress` gives back
  -- the first data point and each further one that was accepted and is not older than the one before it,
  -- timestamps and values exact, in either resolution.
  pub uncompress-compress_series :
      (ms : Bool) (dp : ℕ × m.Double) (dps : List (ℕ × m.Double)) (c : Compressor m)
      → c.cursor ≡ 0
      → 12 ≤ length c.base
      → length c.base < 2 ^ 64
      → c.start_tstamp + 2 ^ 31 ≤ 2 ^ 64
      → c.start_tstamp ≤ dp.0
      → AllNear c.start_tstamp (dp ∷ dps)
      → (accepted : Bool) × (flags : List Bool) × (c' : Compressor m) × (r : Option (Reader m))
        × (compress_all ms (dp ∷ dps) c ≡ some (accepted ∷ flags, c'))
        × (length flags ≡ length dps)
        × (uncompress m ms c'
            ≡ some ((store_all dps flags (begin m c.start_tstamp dp.0 dp.1)).dps, r))
  unfolding compress_all AllNear
  uncompress-compress_series ms dp dps c nothing room addressed fits after near =
      by_result (compress m ms dp.0 dp.1 c) refl
        (compress-begin m ms c dp.0 dp.1 nothing room addressed fits after near.0)
    where
      s : Series m
      s = begin m c.start_tstamp dp.0 dp.1

      by_result :
          (r : Option (Compressed m))
          → compress m ms dp.0 dp.1 c ≡ r
          → StoreResult m ms c s s r
          → (accepted : Bool) × (flags : List Bool) × (c' : Compressor m) × (r : Option (Reader m))
            × (compress_all ms (dp ∷ dps) c ≡ some (accepted ∷ flags, c'))
            × (length flags ≡ length dps)
            × (uncompress m ms c' ≡ some ((store_all dps flags s).dps, r))
      by_result none e h = absurd h
      by_result (some o) e h =
          let held : Holds m ms o.compressor s = either ms o.compressor s o.accepted h.2 in
          let near' = subst (λ (t : ℕ). AllNear t dps) (sym h.0) near.1 in
          let g = compress_all-Holds ms dps o.compressor s held (omega (arith, h.0)) near' in
          (
            o.accepted,
            g.0,
            g.1,
            some (behind m (store_all dps g.0 s) g.1.cursor),
            compress_all-cons ms dp dps c o g.0 g.1 e g.2,
            g.3,
            uncompress-Holds m ms g.1 (store_all dps g.0 s) g.4,
          )

  -- What is read does not depend on the fields for the next data point.
  uncompress-fields :
      (ms : Bool) (d : Compressor m) (delta : ℕ) (v : m.Double) (tstamp count : ℕ)
      → uncompress m ms
          (record d { prev_delta = delta; prev_value = v; prev_tstamp = tstamp; dp_count = count })
        ≡ uncompress m ms d
  unfolding uncompress
  uncompress-fields ms d delta v tstamp count = refl

  restore-restored :
      (ms : Bool) (base : List ℕ) (offset : ℕ) (c : Compressor m)
      → ltb (length base) offset ≡ false
      → ltb (length c.base) offset ≡ false
      → let c' = record c { base = take offset base ++ drop offset c.base; cursor = offset } in
        restore m ms base offset c ≡ restored m c' (uncompress m ms c')
  unfolding restore
  restore-restored ms base offset c enough enough' = rw (enough, enough') refl

  -- A compressor that holds a series is saved, and another one of the same start is restored from the bytes and the
  -- position, where the cursor is below 2^16: then the other one holds the same series, and goes on like the first.
  pub restore-Holds :
      (ms : Bool) (c d : Compressor m) (s : Series m)
      → Holds m ms c s
      → c.cursor < 2 ^ 16
      → d.start_tstamp ≡ c.start_tstamp
      → c.cursor ≤ length d.base
      → length d.base < 2 ^ 64
      → (d' : Compressor m) × (restore m ms c.base (save m c) d ≡ some d') × Holds m ms d' s
  unfolding restore restored save
  restore-Holds ms c d s h small same room addressed =
      let saved : c.cursor % 2 ^ 16 ≡ c.cursor = omega (arith, small) in
      let whole : length c.base ≡ length h.codes + length h.rest =
        ap (λ (b : List ℕ). length b) h.base_eq ∙ length-append h.codes h.rest in
      let at = h.cursor_eq in
      let enough : ltb (length c.base) c.cursor ≡ false = ground arith in
      let enough' : ltb (length d.base) c.cursor ≡ false = ground arith in
      let buffer = record d {
        base = take c.cursor c.base ++ drop c.cursor d.base;
        cursor = c.cursor;
      } in
      (
        d',
        ap (λ (n : ℕ). restore m ms c.base n d) saved
            ∙ restore-restored ms c.base c.cursor d enough enough'
            ∙ ap (λ (o : Option (List (ℕ × m.Double) × Option (Reader m))). restored m buffer o)
                read,
        held,
      )
    where
      d' : Compressor m
      d' = record d {
        base = take c.cursor c.base ++ drop c.cursor d.base;
        cursor = c.cursor;
        prev_delta = s.delta;
        prev_value = s.value;
        prev_tstamp = s.tstamp;
        dp_count = length s.dps % 2 ^ 16;
      }

      front : take c.cursor c.base ≡ h.codes
      front =
          ap₂ (λ (k : ℕ) (b : List ℕ). take k b) h.cursor_eq h.base_eq ∙ take-append h.codes h.rest

      held : Holds m ms d' s
      held = record {
        codes = h.codes;
        rest = drop c.cursor d.base;
        base_eq = ap (λ (b : List ℕ). b ++ drop c.cursor d.base) front;
        cursor_eq = h.cursor_eq;
        some_codes = h.some_codes;
        addressed =
            let l = length-append (take c.cursor c.base) (drop c.cursor d.base) in
            let l' = length-drop c.cursor d.base in
            let e = ap (λ (b : List ℕ). length b) front in omega (arith, h.cursor_eq);
        decodes = subst (λ (t : ℕ). Decodes m ms t h.codes s) (sym same) h.decodes;
        range = subst (λ (t : ℕ). InRange m t s) (sym same) h.range;
        tstamp_eq = refl;
        delta_eq = refl;
        value_eq = refl;
      }

      read :
          uncompress m ms
            (record d { base = take c.cursor c.base ++ drop c.cursor d.base; cursor = c.cursor })
          ≡ some (s.dps, some (behind m s c.cursor))
      read =
          sym (
            uncompress-fields ms
              (record d { base = take c.cursor c.base ++ drop c.cursor d.base; cursor = c.cursor })
              s.delta s.value s.tstamp (length s.dps % 2 ^ 16))
          ∙ uncompress-Holds m ms d' s held
