-- ===== src/Compress/V1/Holds.antt =====
-- What it means that a Compressor_v1 holds a series, and that `compress` goes from one to the next.
use ticktock.Prelude.{
  length-drop, ℕ, suc, ◌+◌, ◌-◌, ◌*◌, ◌%◌, ◌^◌, ◌≤◌, ◌<◌, ◌≡◌, inl, inr, refl, sym, ap, ◌∙◌, subst,
  arith, Bool, Bool-cases, true, false, ltb, ◌==◌, if◌then◌else◌, List, [], ◌++◌, length,
  length-append, drop, drop-append_add, take, take-append, Option, some, none,
}
use mathlib.Core.List.{append_assoc}
use ticktock.Compress.Double.{Memory}
use ticktock.Compress.Endian.{byte}
use ticktock.Compress.V1.{
  int32_bytes, record_bytes, read_all, first, Compressor, Compressed, write, accept, compress1,
  compress_next, compress, uncompress,
}
use ticktock.Compress.V1.Series.{
  Series, begin, store, behind, InRange, Decodes, store-Decodes, read_stop, dod,
}

module _ (m : Memory) where
  -- The bytes in front of the cursor stand for the series.
  pub record Holds (ms : Bool) (c : Compressor m) (s : Series m) : Type 0 where
    pub codes : List ℕ
    pub rest : List ℕ
    pub base_eq : c.base ≡ codes ++ rest
    pub cursor_eq : c.cursor ≡ length codes
    pub some_codes : 1 ≤ length codes
    pub addressed : length c.base < 2 ^ 64
    pub decodes : Decodes m ms c.start_tstamp codes s
    pub range : InRange m c.start_tstamp s
    pub tstamp_eq : c.prev_tstamp ≡ s.tstamp
    pub delta_eq : c.prev_delta ≡ s.delta
    pub value_eq : c.prev_value ≡ s.value

  -- A compressor that holds a series is read as that series.
  pub uncompress-Holds :
      (ms : Bool) (c : Compressor m) (s : Series m)
      → Holds ms c s
      → uncompress m ms c ≡ some (s.dps, some (behind m s c.cursor))
  unfolding uncompress Decodes
  uncompress-Holds ms c s h =
      let d = h.decodes h.rest c.cursor (omega (arith, h.cursor_eq)) in
      let filled : (c.cursor == 0) ≡ false =
        let e = h.cursor_eq in let z = h.some_codes in ground arith in
      let found : first m c.start_tstamp c.base ≡ some d.0 =
        ap (λ (b : List ℕ). first m c.start_tstamp b) h.base_eq ∙ d.2 in
      let budget : suc c.cursor ≡ d.1 + suc (c.cursor - d.1) = omega (arith, h.cursor_eq, d.3) in
      let ends : read_all m (suc c.cursor) ms c.base c.cursor d.0 ≡ some (behind m s c.cursor) =
        ap (λ (b : List ℕ). read_all m (suc c.cursor) ms b c.cursor d.0) h.base_eq
        ∙ ap (λ (k : ℕ). read_all m k ms (h.codes ++ h.rest) c.cursor d.0) budget
        ∙ d.4 (suc (c.cursor - d.1))
        ∙ ap
            (λ (k : ℕ).
              read_all m (suc (c.cursor - d.1)) ms (h.codes ++ h.rest) c.cursor (behind m s k))
            (sym h.cursor_eq)
        ∙ read_stop m (c.cursor - d.1) ms (h.codes ++ h.rest) (behind m s c.cursor) in
      rw (filled, found, uncompress, ends) refl

  -- Bytes that fit are put behind the cursor.
  write_lem :
      (out codes rest : List ℕ) (c : Compressor m)
      → c.base ≡ codes ++ rest
      → c.cursor ≡ length codes
      → length codes + length out ≤ length c.base
      → write m out c
        ≡ some (record c {
          base = codes ++ (out ++ drop (length out) rest);
          cursor = length codes + length out;
        })
  unfolding write
  write_lem out codes rest c eb ec room =
      let fits : ltb (length c.base) (length codes + length out) ≡ false = ground arith in
      let front : take (length codes) c.base ≡ codes =
        ap (λ (b : List ℕ). take (length codes) b) eb ∙ take-append codes rest in
      let back : drop (length codes + length out) c.base ≡ drop (length out) rest =
        ap (λ (b : List ℕ). drop (length codes + length out) b) eb
        ∙ drop-append_add codes rest (length out) in
      rw (ec, fits, front, back) refl

  -- What a call of `compress` leaves of a series, when it would make it another one.
  abbrev pub StoreResult :
      Bool → Compressor m → Series m → Series m → Option (Compressed m) → Type 0
  StoreResult ms c s s' none = ⊥
  StoreResult ms c s s' (some o) =
      (o.compressor.start_tstamp ≡ c.start_tstamp)
      × (length o.compressor.base ≡ length c.base)
      × (if o.accepted then Holds ms o.compressor s' else Holds ms o.compressor s)

  -- The code of a new data point is appended.
  appended :
      (ms : Bool) (c : Compressor m) (s : Series m) (tstamp : ℕ) (v : m.Double)
      → Holds ms c s
      → c.start_tstamp + 2 ^ 31 ≤ 2 ^ 64
      → tstamp < c.start_tstamp + 2 ^ 31
      → s.tstamp ≤ tstamp
      → let out = record_bytes m ms (dod s.delta (tstamp - s.tstamp)) v s.value in
        length out ≤ length c.base - c.cursor
        → StoreResult ms c s
            (store m tstamp v s)
            (accept m tstamp v (tstamp - s.tstamp) (write m out c))
  unfolding store
  appended ms c s tstamp v h fits near order room =
      let total : length c.base ≡ length h.codes + length h.rest =
        ap (λ (b : List ℕ). length b) h.base_eq ∙ length-append h.codes h.rest in
      let at = h.cursor_eq in
      let new : ltb tstamp s.tstamp ≡ false = ground arith in
      let d =
        store-Decodes m ms c.start_tstamp h.codes s tstamp v fits h.range order near h.decodes in
      let left = length-drop (length out) h.rest in
      let sum = length-append out (drop (length out) h.rest) in
      let sum' = length-append h.codes (out ++ drop (length out) h.rest) in
      let sum'' = length-append h.codes out in
      let small = h.addressed in
      let some_codes = h.some_codes in
      let range = h.range in
      let same_length : length (h.codes ++ (out ++ drop (length out) h.rest)) ≡ length c.base =
        omega arith in
      rw (write_lem out h.codes h.rest c h.base_eq h.cursor_eq (omega arith)) (
        refl,
        same_length,
        record {
          codes = h.codes ++ out;
          rest = drop (length out) h.rest;
          base_eq = sym (append_assoc h.codes out (drop (length out) h.rest));
          cursor_eq = sym sum'';
          some_codes = omega arith;
          addressed = omega arith;
          decodes = d;
          range = rw new (omega arith, near, omega arith);
          tstamp_eq = rw new refl;
          delta_eq = rw new refl;
          value_eq = rw new refl;
        },
      )
    where
      out : List ℕ
      out = record_bytes m ms (dod s.delta (tstamp - s.tstamp)) v s.value

  -- The end of `compress`, once the code is known.
  put : ℕ → m.Double → ℕ → List ℕ → Compressor m → Option (Compressed m)
  put tstamp v delta out c =
      if ltb ((length c.base + 2 ^ 64 - c.cursor) % 2 ^ 64) (length out)
      then some (record { compressor = record c { is_full = true }; accepted = false })
      else accept m tstamp v delta (write m out c)

  compress_next-put :
      (ms : Bool) (c : Compressor m) (s : Series m) (tstamp : ℕ) (v : m.Double)
      → Holds ms c s
      → compress_next m ms tstamp v c
        ≡ put tstamp v
            (tstamp - s.tstamp)
            (record_bytes m ms (dod s.delta (tstamp - s.tstamp)) v s.value)
            c
  unfolding compress_next put dod
  compress_next-put ms c s tstamp v h =
      ap
        (λ (t : ℕ).
          put tstamp v (tstamp - t)
            (record_bytes m ms (dod c.prev_delta (tstamp - t)) v c.prev_value) c)
        h.tstamp_eq
      ∙ ap
          (λ (d : ℕ).
            put tstamp v (tstamp - s.tstamp)
              (record_bytes m ms (dod d (tstamp - s.tstamp)) v c.prev_value) c)
          h.delta_eq
      ∙ ap
          (λ (x : m.Double).
            put tstamp v (tstamp - s.tstamp)
              (record_bytes m ms (dod s.delta (tstamp - s.tstamp)) v x) c)
          h.value_eq

  put-store :
      (ms : Bool) (c : Compressor m) (s : Series m) (tstamp : ℕ) (v : m.Double)
      → Holds ms c s
      → c.start_tstamp + 2 ^ 31 ≤ 2 ^ 64
      → tstamp < c.start_tstamp + 2 ^ 31
      → s.tstamp ≤ tstamp
      → StoreResult ms c s (store m tstamp v s) (
          put tstamp v
            (tstamp - s.tstamp)
            (record_bytes m ms (dod s.delta (tstamp - s.tstamp)) v s.value)
            c)
  unfolding put
  put-store ms c s tstamp v h fits near order =
      let out = record_bytes m ms (dod s.delta (tstamp - s.tstamp)) v s.value in
      let left : (length c.base + 2 ^ 64 - c.cursor) % 2 ^ 64 ≡ length c.base - c.cursor =
        let total = ap (λ (b : List ℕ). length b) h.base_eq ∙ length-append h.codes h.rest in
        let at = h.cursor_eq in
        let small = h.addressed in let some_codes = h.some_codes in omega arith in
      elim (Bool-cases (ltb (length c.base - c.cursor) (length out))) [
        | inl too_long ↦
            rw (left, too_long)
              (
                refl,
                refl,
                record {
                  codes = h.codes;
                  rest = h.rest;
                  base_eq = h.base_eq;
                  cursor_eq = h.cursor_eq;
                  some_codes = h.some_codes;
                  addressed = h.addressed;
                  decodes = h.decodes;
                  range = h.range;
                  tstamp_eq = h.tstamp_eq;
                  delta_eq = h.delta_eq;
                  value_eq = h.value_eq;
                },
              )
        | inr room ↦ rw (left, room) (appended ms c s tstamp v h fits near order (ground arith))
      ]

  -- A Compressor_v1 that holds a series, within 2^31 of its start, is given a data point in that range: `compress`
  -- returns. When it returns true it holds the series with the data point behind, or the
  -- same series when the data point is older than the last; when it returns false it holds the same series.
  pub compress-StoreResult :
      (ms : Bool) (c : Compressor m) (s : Series m) (tstamp : ℕ) (v : m.Double)
      → Holds ms c s
      → c.start_tstamp + 2 ^ 31 ≤ 2 ^ 64
      → tstamp < c.start_tstamp + 2 ^ 31
      → StoreResult ms c s (store m tstamp v s) (compress m ms tstamp v c)
  unfolding compress store
  compress-StoreResult ms c s tstamp v h fits near =
      let at = h.cursor_eq in
      let some_codes = h.some_codes in
      let same = h.tstamp_eq in
      let filled : (c.cursor == 0) ≡ false = ground arith in
      elim (Bool-cases (ltb tstamp s.tstamp)) [
        | inl old ↦
            let older : ltb tstamp c.prev_tstamp ≡ true = ground arith in
            rw (filled, older, old) (refl, refl, h)
        | inr new ↦
            let newer : ltb tstamp c.prev_tstamp ≡ false = ground arith in
            rw (filled, newer)
              (subst (λ (o : Option (Compressed m)). StoreResult ms c s (store m tstamp v s) o)
                (sym (compress_next-put ms c s tstamp v h))
                (put-store ms c s tstamp v h fits near (ground arith)))
      ]

  first_code : ℕ → m.Double → List ℕ
  first_code delta v = int32_bytes delta ++ m.to_bytes v

  length-first_code : (delta : ℕ) (v : m.Double) → length (first_code delta v) ≡ 12
  unfolding first_code
  length-first_code delta v = omega (arith, m.length-to_bytes v)

  first-first_code :
      (start tstamp : ℕ) (v : m.Double) (t : List ℕ)
      → start + 2 ^ 31 ≤ 2 ^ 64
      → start ≤ tstamp
      → tstamp < start + 2 ^ 31
      → first m start (first_code (tstamp - start) v ++ t)
        ≡ some (behind m (begin m start tstamp v) 12)
  unfolding first first_code begin
  first-first_code start tstamp v t fits after near =
      let d = tstamp - start in
      let eight = m.length-to_bytes v in
      let whole : take 8 (m.to_bytes v ++ t) ≡ m.to_bytes v =
        ap (λ (n : ℕ). take n (m.to_bytes v ++ t)) (sym eight) ∙ take-append (m.to_bytes v) t in
      let enough : ltb (length (m.to_bytes v ++ t)) 8 ≡ false =
        let l = length-append (m.to_bytes v) t in ground arith in
      let delta_eq : byte d 0 + byte d 1 * 2 ^ 8 + byte d 2 * 2 ^ 16 + byte d 3 * 2 ^ 24 ≡ d =
        omega arith in
      let tstamp_eq : (start + d) % 2 ^ 64 ≡ tstamp = omega arith in
      rw (enough, whole, m.of_bytes-to_bytes v, delta_eq, tstamp_eq) refl

  begin-Decodes :
      (ms : Bool) (start tstamp : ℕ) (v : m.Double)
      → start + 2 ^ 31 ≤ 2 ^ 64
      → start ≤ tstamp
      → tstamp < start + 2 ^ 31
      → Decodes m ms start (first_code (tstamp - start) v) (begin m start tstamp v)
  unfolding Decodes
  begin-Decodes ms start tstamp v fits after near t end le =
      let l = length-first_code (tstamp - start) v in
      (
        behind m (begin m start tstamp v) 12,
        0,
        first-first_code start tstamp v t fits after near,
        omega arith,
        λ fuel.
            ap
              (λ (n : ℕ).
                read_all m n ms (first_code (tstamp - start) v ++ t) end
                  (behind m (begin m start tstamp v) 12))
              (omega arith)
            ∙ ap
                (λ (k : ℕ).
                  read_all m fuel ms (first_code (tstamp - start) v ++ t) end
                    (behind m (begin m start tstamp v) k))
                (sym l),
      )

  -- An empty compressor takes a first data point.
  pub compress-begin :
      (ms : Bool) (c : Compressor m) (tstamp : ℕ) (v : m.Double)
      → c.cursor ≡ 0
      → 12 ≤ length c.base
      → length c.base < 2 ^ 64
      → c.start_tstamp + 2 ^ 31 ≤ 2 ^ 64
      → c.start_tstamp ≤ tstamp
      → tstamp < c.start_tstamp + 2 ^ 31
      → StoreResult ms c
          (begin m c.start_tstamp tstamp v)
          (begin m c.start_tstamp tstamp v)
          (compress m ms tstamp v c)
  unfolding compress compress1 first_code
  compress-begin ms c tstamp v nothing room addressed fits after near =
      let empty : (c.cursor == 0) ≡ true = ground arith in
      let out = first_code (tstamp - c.start_tstamp) v in
      let twelve = length-first_code (tstamp - c.start_tstamp) v in
      let same : (tstamp + 2 ^ 64 - c.start_tstamp) % 2 ^ 64 ≡ tstamp - c.start_tstamp =
        omega arith in
      let run : accept m tstamp v ((tstamp + 2 ^ 64 - c.start_tstamp) % 2 ^ 64)
            (write m (int32_bytes ((tstamp + 2 ^ 64 - c.start_tstamp) % 2 ^ 64) ++ m.to_bytes v) c)
          ≡ accept m tstamp v (tstamp - c.start_tstamp) (
              some (record c { base = out ++ drop (length out) c.base; cursor = 0 + length out })) =
        ap (λ (x : ℕ). accept m tstamp v x (write m (int32_bytes x ++ m.to_bytes v) c)) same
        ∙ ap (λ (w : Option (Compressor m)). accept m tstamp v (tstamp - c.start_tstamp) w)
            (write_lem out [] c.base c refl nothing (omega arith)) in
      let l = length-append out (drop (length out) c.base) in
      let l' = length-drop (length out) c.base in
      let kept : length (out ++ drop (length out) c.base) ≡ length c.base = omega arith in
      rw empty (
        subst
          (λ (o : Option (Compressed m)).
            StoreResult ms c (begin m c.start_tstamp tstamp v) (begin m c.start_tstamp tstamp v) o)
          (sym run)
          (
            refl,
            kept,
            record {
              codes = out;
              rest = drop (length out) c.base;
              base_eq = refl;
              cursor_eq = omega arith;
              some_codes = omega arith;
              addressed = omega arith;
              decodes = begin-Decodes ms c.start_tstamp tstamp v fits after near;
              range = unfold begin in (after, near, omega arith);
              tstamp_eq = unfold begin in refl;
              delta_eq = unfold begin in refl;
              value_eq = unfold begin in refl;
            },
          ))
