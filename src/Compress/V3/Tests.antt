-- ===== src/Compress/V3/Tests.antt =====
-- Runs of Compressor_v3 over whole numbers in place of doubles, and its theorems at a fresh buffer.
use ticktock.Prelude.{
  ℕ, ◌+◌, ◌-◌, ◌^◌, ◌≡◌, refl, arith, Bool, true, false, fits, map, List, [], ◌∷◌, replicate,
  Option, none, some, zero, suc, to_signed, to_unsigned, negsuc,
}
use ticktock.BitSet.{
  restore_from_check_point, size_in_bits, append, retrieve, save_check_point, is_empty,
}
use ticktock.BitSet.CheckPoint.{append_all}
use ticktock.BitSet.{init as init_bits}
use ticktock.BitSet.Bits.{IsBytes, IsBytes-cons, IsBytes-nil, IsValid}
use ticktock.Compress.Endian.{
  compress_int16, compress_int32, compress_int64, swap16, swap32, swap64,
}
use ticktock.Compress.Double.Word.{
  Word, mk, word_path, eight_bytes, eight-IsBytes, word-eight_bytes,
}
use ticktock.Compress.V3.{
  Floating, Compressor, Compressed, Reader, Timestamp, word, init, compress, uncompress, finished,
  roll_back, compress1, compress_next, compress_value, int_fields, float_fields, first_fields,
  first, read_all, next, next_value, uncompress_i, uncompress_f, fetch, extend12, extend17,
}
use ticktock.Compress.V3.Represents.{Represents, StoreResult}
use ticktock.Compress.V3.Begin.{IsFresh, BeginResult, compress-begin}
use ticktock.Compress.V3.Next.{compress-store}
use ticktock.Compress.V3.RoundTrip.{uncompress-compress_all}
use ticktock.Compress.V3.Series.{begin, store, compress_all, store_all, AllSmall}
use ticktock.Compress.V3.Words.{local17, sign_extend17}
use ticktock.Compress.V3.Uncompress.{UncompressOutcome, uncompress-UncompressOutcome}

signed_fits : (x : Word) → fits (2 ^ 63) (to_signed (2 ^ 63) x.0) ≡ true
signed_fits x = let h = x.1 in ground arith

abbrev whole : Floating
whole = record {
  Double = Word;
  zero_value = mk 0;
  to_bytes = λ x. eight_bytes x.0;
  of_bytes = λ w. mk (word w);
  plus = λ x y. mk (x.0 + y.0);
  minus = λ x y. mk (x.0 + 2 ^ 64 - y.0);
  near_integer = λ x. true;
  truncate = λ x. to_signed (2 ^ 63) x.0;
  scale = λ x. to_signed (2 ^ 63) x.0;
  from_int = λ n. mk (to_unsigned 64 n);
  unscale = λ n. mk (to_unsigned 64 n);
  to_bytes-IsBytes = λ x. eight-IsBytes x.0;
  length-to_bytes = λ x. refl;
  of_bytes-to_bytes = λ x. word_path (mk (word (eight_bytes x.0))) x (word-eight_bytes x.0 x.1);
  truncate_fits = signed_fits;
  scale_fits = signed_fits;
}

abbrev fresh : Compressor whole
fresh = init whole 1000 (replicate 32 0)

-- Three data points, one after another, and what is read back.
abbrev and_compress : Option (Compressed whole) → Timestamp → ℕ → Option (Compressed whole)
and_compress none tstamp v = none
and_compress (some c) tstamp v = compress whole tstamp (mk v) c.compressor

abbrev and_uncompress : Option (Compressed whole) → List (Timestamp × ℕ)
and_uncompress none = []
and_uncompress (some c) =
    elim (uncompress whole 300 (eight_bytes 0x5555555555555555) c.compressor) [
      | finished r ↦ map (λ dp. (dp.0, dp.1.0)) r.dps
      | _ ↦ []
    ]

three_dps_run :
    and_uncompress
      (and_compress (and_compress (compress whole 1005 (mk 42) fresh) 1010 40) 71015 3000000)
    ≡ (1005, 42) ∷ (1010, 40) ∷ (71015, 3000000) ∷ []
unfolding compress compress1 compress_next compress_value int_fields float_fields first_fields
    append_all append save_check_point compress_int16 compress_int32 compress_int64 swap16 swap32
    swap64 uncompress first read_all next next_value uncompress_i uncompress_f fetch retrieve
    extend12 extend17 is_empty init init_bits
three_dps_run = refl

IsBytes-replicate : (n : ℕ) → IsBytes (replicate n 0)
IsBytes-replicate zero j = IsBytes-nil j
IsBytes-replicate (suc n) j = IsBytes-cons 0 (replicate n 0) (omega arith) (IsBytes-replicate n) j

fresh-IsValid : IsValid fresh.bitset
unfolding init init_bits size_in_bits
fresh-IsValid = record {
  in_byte = omega arith;
  in_buffer = omega arith;
  bytes = IsBytes-replicate 32;
}

-- A page of 13 bytes: the first data point takes 12 of them, and of the second the timestamp fits but not the value.
abbrev tiny : Compressor whole
tiny = init whole 1000 (replicate 13 0)

abbrev or_tiny : Option (Compressed whole) → Compressor whole
or_tiny none = tiny
or_tiny (some o) = o.compressor

abbrev tiny_one : Compressor whole
tiny_one = or_tiny (compress whole 1005 (mk 42) tiny)

abbrev accepts : Option (Compressed whole) → List Bool
accepts none = []
accepts (some o) = o.accepted ∷ []

refused_run : accepts (compress whole 1010 (mk 3000000) tiny_one) ≡ false ∷ []
unfolding compress compress1 compress_next compress_value int_fields float_fields first_fields
    append_all append save_check_point compress_int16 compress_int32 compress_int64 swap16 swap32
    swap64 is_empty init init_bits roll_back restore_from_check_point
refused_run = refl

uncompress-UncompressOutcome_example :
    UncompressOutcome whole fresh.bitset (uncompress whole 300 (eight_bytes 0) fresh)
unfolding init init_bits
uncompress-UncompressOutcome_example =
    uncompress-UncompressOutcome whole 300 (eight_bytes 0) fresh fresh-IsValid (omega arith)
      (eight-IsBytes 0) (omega arith)

sign_extend17_example :
    to_signed (2 ^ 31) (swap32 (extend17 (word (local17 (negsuc 54321) 0x5A 0x2B)))) ≡ negsuc 54321
sign_extend17_example = sign_extend17 (negsuc 54321) 0x5A 0x2B (omega arith) (omega arith) refl

fresh-IsFresh : IsFresh whole (eight_bytes 0) (omega arith) (eight-IsBytes 0) fresh
unfolding init init_bits size_in_bits
fresh-IsFresh = record { valid = fresh-IsValid; none_stored = refl; no_bits = refl }

abbrev or_fresh : Option (Compressor whole) → Compressor whole
or_fresh none = fresh
or_fresh (some c) = c

abbrev later_dps : List (Timestamp × Word)
later_dps = (1010, mk 40) ∷ (2000, mk 3000000) ∷ []

compress_all_run :
    compress_all whole ((1005, mk 42) ∷ later_dps) fresh
    ≡ some (or_fresh (compress_all whole ((1005, mk 42) ∷ later_dps) fresh))
unfolding compress_all compress compress1 compress_next compress_value int_fields float_fields
    first_fields append_all append save_check_point compress_int16 compress_int32 compress_int64
    swap16 swap32 swap64 init init_bits
compress_all_run = refl

uncompress-compress_all_example :
    let c = or_fresh (compress_all whole ((1005, mk 42) ∷ later_dps) fresh) in
    (r : Reader whole) × (uncompress whole 300 (eight_bytes 0) c ≡ finished r)
    × (r.dps ≡ (store_all whole later_dps (begin whole 1000 1005 (mk 42))).dps)
unfolding init init_bits AllSmall
uncompress-compress_all_example =
    uncompress-compress_all whole (eight_bytes 0) (omega arith) (eight-IsBytes 0) 300 (1005, mk 42)
      later_dps fresh (or_fresh (compress_all whole ((1005, mk 42) ∷ later_dps) fresh))
      fresh-IsFresh (omega arith) (omega arith) (omega arith, (omega arith, (omega arith, tt)))
      (omega arith) (omega arith) compress_all_run

-- The compressor after its first data point.
abbrev one : Compressor whole
one = or_fresh (compress_all whole ((1005, mk 42) ∷ []) fresh)

one-Represents :
    Represents whole
      (eight_bytes 0)
      (omega arith)
      (eight-IsBytes 0)
      one
      (begin whole 1000 1005 (mk 42))
unfolding compress_all compress compress1 first_fields append_all append save_check_point init
    init_bits BeginResult
one-Represents =
    (compress-begin whole (eight_bytes 0) (omega arith) (eight-IsBytes 0) fresh fresh-IsFresh 1005
      (mk 42) (omega arith) (omega arith) (omega arith)).2

compress-store_example :
    StoreResult whole
      (eight_bytes 0)
      (omega arith)
      (eight-IsBytes 0)
      one
      (begin whole 1000 1005 (mk 42))
      (store whole 1010 (mk 40) (begin whole 1000 1005 (mk 42)))
      (compress whole 1010 (mk 40) one)
unfolding compress_all compress compress1 first_fields append_all append save_check_point init
    init_bits
compress-store_example =
    compress-store whole (eight_bytes 0) (omega arith) (eight-IsBytes 0) one
      (begin whole 1000 1005 (mk 42)) 1010 (mk 40) one-Represents (omega arith) (omega arith)
