-- ===== src/Compress/V0/Tests.antt =====
-- A run of Compressor_v0, and its theorem at the compressor that it leaves.
use ticktock.Prelude.{ℕ, ◌≡◌, refl, arith, [], ◌∷◌, some, none}
use ticktock.Compress.V0.{
  DataPointPair, Compressor, compress, restore, append, entries, save_position, uncompress,
}
use ticktock.Compress.V0.Saved.{restore-append}
use ticktock.Compress.V0.Sorted.{IsSortedFrom, CompressOutcome, compress-CompressOutcome}

abbrev dp : ℕ → ℕ → DataPointPair ℕ
dp t v = record { tstamp = t; value = v }

abbrev two : Compressor ℕ
two = record { size = 3; data_points = []; dps = dp 10 1 ∷ dp 30 3 ∷ []; start_tstamp = 5 }

-- An older data point goes between those stored, and then the compressor is full.
insert_runs : (compress ℕ 20 2 two).compressor.dps ≡ dp 10 1 ∷ dp 20 2 ∷ dp 30 3 ∷ []
unfolding compress
insert_runs = refl

two-IsSortedFrom : IsSortedFrom ℕ 0 two.dps
unfolding IsSortedFrom
two-IsSortedFrom = (omega arith, (omega arith, tt))

compress-CompressOutcome_example :
    CompressOutcome ℕ (dp 20 2) two (compress ℕ 20 2 two).compressor (compress ℕ 20 2 two).stored
compress-CompressOutcome_example = compress-CompressOutcome ℕ two 20 2 two-IsSortedFrom

-- A compressor that has stored nothing.
abbrev fresh : Compressor ℕ
fresh = record { size = 3; data_points = []; dps = []; start_tstamp = 5 }

abbrev roomy : Compressor ℕ
roomy = record two { data_points = dp 0 0 ∷ dp 0 0 ∷ dp 0 9 ∷ [] }

restore-append_example :
    let base = dp 10 1 ∷ dp 30 3 ∷ dp 0 9 ∷ [] in
    (append ℕ roomy
      ≡ some (record { compressor = record roomy { data_points = base }; written = two.dps }))
    × (restore ℕ [] (save_position ℕ roomy) (some two.dps) fresh
        ≡ some
            (record { dpv = uncompress ℕ [] roomy; compressor = record fresh { dps = two.dps } }))
    × (restore ℕ [] (save_position ℕ roomy) none (record fresh { data_points = base })
        ≡ some (record {
          dpv = uncompress ℕ [] roomy;
          compressor = record fresh { dps = two.dps; data_points = base };
        }))
restore-append_example = restore-append ℕ roomy fresh [] (omega arith) (omega arith) refl

-- A read behind the end of what was saved.
over_read : restore ℕ [] 3 (some two.dps) fresh ≡ none
unfolding restore entries
over_read = refl
