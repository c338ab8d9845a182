-- ===== src/Compress/V1/Tests.antt =====
-- Runs of Compressor_v1 over words of 64 bits in place of doubles.
use ticktock.Prelude.{
  ℕ, ◌≡◌, refl, arith, Bool, true, List, [], ◌∷◌, length, replicate, Option, some, none, map,
}
use ticktock.Compress.Double.Word.{Word, mk, words}
use ticktock.Compress.V1.{
  Compressor, Compressed, Reader, init, compress, uncompress, save, restore, value_loop,
}
use ticktock.Compress.V1.Series.{begin, store}
use ticktock.Compress.V1.Holds.{Holds, StoreResult, compress-StoreResult, compress-begin}
use ticktock.Compress.V1.RoundTrip.{
  compress_all, store_all, AllNear, uncompress-compress_series, restore-Holds,
}

abbrev fresh : Compressor words
unfolding init
fresh = init words 1000 (replicate 40 0)

abbrev dps : List (ℕ × Word)
dps = (1010, mk 7) ∷ (1009, mk 8) ∷ (1000000, mk 256) ∷ []

-- What is read after the calls.
abbrev and_read : Option (List Bool × Compressor words) → Option (List (ℕ × ℕ))
unfolding uncompress
and_read none = none
and_read (some (flags, c)) = elim (uncompress words true c) [
  | none ↦ none
  | some (dps, r) ↦ some (map (λ dp. (dp.0, dp.1.0)) dps)
]

dps_run :
    and_read (compress_all words true ((1005, mk 42) ∷ dps) fresh)
    ≡ some ((1005, 42) ∷ (1010, 7) ∷ (1000000, 256) ∷ [])
unfolding compress_all compress init uncompress value_loop
dps_run = refl

near : AllNear words 1000 ((1005, mk 42) ∷ dps)
unfolding AllNear
near = omega arith

uncompress-compress_series_example :
    (accepted : Bool) × (flags : List Bool) × (c' : Compressor words) × (r : Option (Reader words))
    × (compress_all words true ((1005, mk 42) ∷ dps) fresh ≡ some (accepted ∷ flags, c'))
    × (length flags ≡ 3)
    × (uncompress words true c'
        ≡ some ((store_all words dps flags (begin words 1000 1005 (mk 42))).dps, r))
unfolding init fresh
uncompress-compress_series_example =
    uncompress-compress_series words true (1005, mk 42) dps fresh refl (omega arith) (omega arith)
      (omega arith) (omega arith) near

abbrev or_fresh : Option (Compressed words) → Compressor words
or_fresh none = fresh
or_fresh (some o) = o.compressor

abbrev one : Compressor words
unfolding compress
one = or_fresh (compress words true 1005 (mk 42) fresh)

one-Holds : Holds words true one (begin words 1000 1005 (mk 42))
unfolding init fresh compress one
one-Holds =
    (compress-begin words true fresh 1005 (mk 42) refl (omega arith) (omega arith) (omega arith)
      (omega arith) (omega arith)).2

compress-StoreResult_example :
    StoreResult words true one
      (begin words 1000 1005 (mk 42))
      (store words 1010 (mk 7) (begin words 1000 1005 (mk 42)))
      (compress words true 1010 (mk 7) one)
unfolding init fresh compress one
compress-StoreResult_example =
    compress-StoreResult words true one (begin words 1000 1005 (mk 42)) 1010 (mk 7) one-Holds
      (omega arith) (omega arith)

restore-Holds_example :
    (d' : Compressor words) × (restore words true one.base (save words one) fresh ≡ some d')
    × Holds words true d' (begin words 1000 1005 (mk 42))
unfolding init fresh compress one
restore-Holds_example =
    restore-Holds words true one fresh (begin words 1000 1005 (mk 42)) one-Holds (omega arith) refl
      (omega arith) (omega arith)
