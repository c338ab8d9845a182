-- ===== src/Compress/Rollup/Codes.antt =====
-- Which code of its flag bits `compress` chooses for each field of a rollup entry, the bytes that go
-- with the code, and how they are read back.
use ticktock.Prelude.{
  ℕ, ◌+◌, ◌*◌, ◌^◌, ◌≤◌, ◌<◌, ◌≡◌, refl, ◌⊎◌, inl, inr, Bool-cases, Option, arith, true, leb,
  if◌then◌else◌, List, ◌++◌, ℤ, pos, fits, length, some,
}
use ticktock.Compress.Endian.{
  compress_int16, compress_int24, compress_int32, compress_int40, compress_int64, uncompress_int16,
  uncompress_int24, uncompress_int32, uncompress_int40, uncompress_int64,
}
use ticktock.Compress.Endian.Laws.{
  length-compress_int16, length-compress_int24, length-compress_int32, length-compress_int40,
  length-compress_int64, uncompress-compress_int16, uncompress-compress_int24,
  uncompress-compress_int32, uncompress-compress_int40, uncompress-compress_int64,
}

unfoldable pub min_code : ℤ → ℕ
min_code n =
    if fits (2 ^ 15) n then 0 else if fits (2 ^ 23) n then 1 else if fits (2 ^ 31) n then 2 else 3

unfoldable pub min_bytes : ℤ → List ℕ
min_bytes n =
    if fits (2 ^ 15) n
    then compress_int16 n
    else if fits (2 ^ 23) n
    then compress_int24 n
    else if fits (2 ^ 31) n
    then compress_int32 n
    else compress_int64 n

-- The code and the bytes of a maximum or a sum.
unfoldable pub sum_code : ℤ → ℕ
sum_code n =
    if fits (2 ^ 23) n then 0 else if fits (2 ^ 31) n then 1 else if fits (2 ^ 39) n then 2 else 3

unfoldable pub sum_bytes : ℤ → List ℕ
sum_bytes n =
    if fits (2 ^ 23) n
    then compress_int24 n
    else if fits (2 ^ 31) n
    then compress_int32 n
    else if fits (2 ^ 39) n
    then compress_int40 n
    else compress_int64 n

-- A field in code c is k bytes long, and `read` gives it back from them.
pub record Stored (n : ℤ) (bytes rest : List ℕ) (read : List ℕ → Option ℤ) (k : ℕ) : Type 0 where
  pub long : length bytes ≡ k
  pub reads : read (bytes ++ rest) ≡ some n

pub min_cases :
    (n : ℤ) (rest : List ℕ)
    → fits (2 ^ 63) n ≡ true
    → ((min_code n ≡ 0) × Stored n (min_bytes n) rest uncompress_int16 2)
      ⊎ ((min_code n ≡ 1) × Stored n (min_bytes n) rest uncompress_int24 3)
      ⊎ ((min_code n ≡ 2) × Stored n (min_bytes n) rest uncompress_int32 4)
      ⊎ ((min_code n ≡ 3) × Stored n (min_bytes n) rest uncompress_int64 8)
unfolding min_code min_bytes
min_cases n rest h = elim (Bool-cases (fits (2 ^ 15) n)) [
  | inl a ↦ rw a (
      inl (
        refl,
        record { long = length-compress_int16 n; reads = uncompress-compress_int16 n rest a },
      ))
  | inr a ↦ rw a (elim (Bool-cases (fits (2 ^ 23) n)) [
    | inl b ↦ rw b (
        inr (
          inl (
            refl,
            record { long = length-compress_int24 n; reads = uncompress-compress_int24 n rest b },
          )))
    | inr b ↦ rw b (elim (Bool-cases (fits (2 ^ 31) n)) [
      | inl c ↦ rw c (
          inr (
            inr (
              inl (
                refl,
                record {
                  long = length-compress_int32 n;
                  reads = uncompress-compress_int32 n rest c;
                },
              ))))
      | inr c ↦ rw c (
          inr (
            inr (
              inr (
                refl,
                record {
                  long = length-compress_int64 n;
                  reads = uncompress-compress_int64 n rest h;
                },
              ))))
    ])
  ])
]

pub sum_cases :
    (n : ℤ) (rest : List ℕ)
    → fits (2 ^ 63) n ≡ true
    → ((sum_code n ≡ 0) × Stored n (sum_bytes n) rest uncompress_int24 3)
      ⊎ ((sum_code n ≡ 1) × Stored n (sum_bytes n) rest uncompress_int32 4)
      ⊎ ((sum_code n ≡ 2) × Stored n (sum_bytes n) rest uncompress_int40 5)
      ⊎ ((sum_code n ≡ 3) × Stored n (sum_bytes n) rest uncompress_int64 8)
unfolding sum_code sum_bytes
sum_cases n rest h = elim (Bool-cases (fits (2 ^ 23) n)) [
  | inl a ↦ rw a (
      inl (
        refl,
        record { long = length-compress_int24 n; reads = uncompress-compress_int24 n rest a },
      ))
  | inr a ↦ rw a (elim (Bool-cases (fits (2 ^ 31) n)) [
    | inl b ↦ rw b (
        inr (
          inl (
            refl,
            record { long = length-compress_int32 n; reads = uncompress-compress_int32 n rest b },
          )))
    | inr b ↦ rw b (elim (Bool-cases (fits (2 ^ 39) n)) [
      | inl c ↦ rw c (
          inr (
            inr (
              inl (
                refl,
                record {
                  long = length-compress_int40 n;
                  reads = uncompress-compress_int40 n rest c;
                },
              ))))
      | inr c ↦ rw c (
          inr (
            inr (
              inr (
                refl,
                record {
                  long = length-compress_int64 n;
                  reads = uncompress-compress_int64 n rest h;
                },
              ))))
    ])
  ])
]

pub min_code-lt : (n : ℤ) → min_code n < 4
unfolding min_code
min_code-lt n = ground arith

pub sum_code-lt : (n : ℤ) → sum_code n < 4
unfolding sum_code
sum_code-lt n = ground arith

-- The identifier and the count.
unfoldable pub tid_code : ℕ → ℕ
tid_code tid = if leb tid 0xFFFFFF then 0 else 1

unfoldable pub tid_bytes : ℕ → List ℕ
tid_bytes tid = if leb tid 0xFFFFFF then compress_int24 (pos tid) else compress_int32 (pos tid)

unfoldable pub cnt_code : ℕ → ℕ
cnt_code cnt = if leb cnt 0xFFFF then 0 else 1

unfoldable pub cnt_bytes : ℕ → List ℕ
cnt_bytes cnt = if leb cnt 0xFFFF then compress_int16 (pos cnt) else compress_int32 (pos cnt)

pub tid_code-lt : (n : ℕ) → tid_code n < 2
unfolding tid_code
tid_code-lt n = ground arith

pub cnt_code-lt : (n : ℕ) → cnt_code n < 2
unfolding cnt_code
cnt_code-lt n = ground arith

-- The lengths of the fields.
pub length-tid : (tid : ℕ) → length (tid_bytes tid) ≡ 3 + tid_code tid
unfolding tid_bytes tid_code
length-tid tid = ground (arith, length-compress_int24 (pos tid), length-compress_int32 (pos tid))

pub length-cnt : (cnt : ℕ) → length (cnt_bytes cnt) ≡ 2 + 2 * cnt_code cnt
unfolding cnt_bytes cnt_code
length-cnt cnt = ground (arith, length-compress_int16 (pos cnt), length-compress_int32 (pos cnt))

pub length-min : (n : ℤ) → (2 ≤ length (min_bytes n)) × (length (min_bytes n) ≤ 8)
unfolding min_bytes
length-min n = ground (
  arith,
  length-compress_int16 n,
  length-compress_int24 n,
  length-compress_int32 n,
  length-compress_int64 n,
)

pub length-sum : (n : ℤ) → (3 ≤ length (sum_bytes n)) × (length (sum_bytes n) ≤ 8)
unfolding sum_bytes
length-sum n = ground (
  arith,
  length-compress_int24 n,
  length-compress_int32 n,
  length-compress_int40 n,
  length-compress_int64 n,
)
