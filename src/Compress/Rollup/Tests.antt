-- ===== src/Compress/Rollup/Tests.antt =====
-- Runs of the rollup compressor with whole numbers for doubles, and its theorems at inputs.
use ticktock.Prelude.{
  ℕ, ◌^◌, ◌≤◌, ◌≡◌, arith, true, if◌then◌else◌, List, [], ◌∷◌, ◌++◌, ℤ, pos, negsuc, fits, length,
}
use ticktock.Compress.Rollup.{Rounding, Entry, done, compress, uncompress}
use ticktock.Compress.Rollup.RoundTrip.{restored, uncompress-compress, length-compress}
use ticktock.Compress.Rollup.Bounds.{StaysWithin, uncompress-StaysWithin}

-- A double is a whole number; what does not fit 64 bits is taken for 0.
abbrev clamp : ℤ → ℤ
clamp n = if fits (2 ^ 63) n then n else pos 0

clamp-fits : (n : ℤ) → fits (2 ^ 63) (clamp n) ≡ true
clamp-fits n = ground arith

abbrev whole_numbers : Rounding
whole_numbers = record { Double = ℤ; scale = clamp; unscale = λ n. n; scale_fits = clamp-fits }

abbrev blank : Entry ℤ
blank = record { tid = 0; cnt = 0; min = pos 0; max = pos 0; sum = pos 0 }

-- The largest identifier and count, and statistics of every width but the smallest.
uncompress-compress_example :
    uncompress whole_numbers
      (compress whole_numbers 0xFFFF_FFFF 0x1_0000 (negsuc 40000) (pos 3000000000) (pos 7)
        ++ 1 ∷ [])
      40
      blank
    ≡ done
        (restored whole_numbers 0xFFFF_FFFF 0x1_0000 (negsuc 40000) (pos 3000000000) (pos 7) blank)
        (length
          (compress whole_numbers 0xFFFF_FFFF 0x1_0000 (negsuc 40000) (pos 3000000000) (pos 7)))
uncompress-compress_example =
    uncompress-compress whole_numbers 0xFFFF_FFFF 0x1_0000 (negsuc 40000) (pos 3000000000) (pos 7)
      (1 ∷ []) 40 blank (omega arith) (omega arith)
      (omega (
        arith,
        length-compress whole_numbers 0xFFFF_FFFF 0x1_0000 (negsuc 40000) (pos 3000000000) (pos 7),
      ))

length-compress_example :
    (6 ≤ length (compress whole_numbers 5 2 (pos 1) (pos 2) (pos 3)))
    × (length (compress whole_numbers 5 2 (pos 1) (pos 2) (pos 3)) ≤ 33)
length-compress_example = length-compress whole_numbers 5 2 (pos 1) (pos 2) (pos 3)

abbrev damaged : List ℕ
damaged = 0xFF ∷ 1 ∷ 2 ∷ 3 ∷ 4 ∷ 0 ∷ 0 ∷ 0 ∷ 9 ∷ 1 ∷ 1 ∷ 1 ∷ []

uncompress-StaysWithin_example : StaysWithin 12 (uncompress whole_numbers damaged 12 blank)
uncompress-StaysWithin_example = uncompress-StaysWithin whole_numbers damaged 12 (omega arith) blank
