-- ===== src/Compress/Rollup/Flags.antt =====
-- The flag byte of a rollup entry: its five fields do not disturb one another.
use ticktock.Prelude.{
  ℕ, ◌+◌, ◌*◌, ◌/◌, ◌%◌, ◌<◌, ◌≡◌, refl, arith, bit_and, bit_or, Bool, true, ◌&&◌, ◌==◌,
}
use ticktock.Prelude.Bits.{for_all, for_all_lem}

-- The five flag fields do not disturb one another.
abbrev pub flags : ℕ → ℕ → ℕ → ℕ → ℕ → ℕ
flags t c a b d = bit_or (bit_or (bit_or (bit_or (t * 0x80) (c * 0x40)) (a * 16)) (b * 4)) d

-- The flag byte with the codes that are the digits of x.
abbrev flags_of : ℕ → ℕ
flags_of x = flags (x / 128) (x / 64 % 2) (x / 16 % 4) (x / 4 % 4) (x % 4)

abbrev flags_ok : ℕ → Bool
flags_ok x =
    let f = flags_of x in
    bit_and f 0x80 == x / 128 * 0x80
    && (bit_and f 0x40 == x / 64 % 2 * 0x40
        && (bit_and f 0x30 == x / 16 % 4 * 16
            && (bit_and f 0x0C == x / 4 % 4 * 4 && bit_and f 0x03 == x % 4)))

flags_table : for_all 256 flags_ok ≡ true
unfolding for_all
flags_table = refl

abbrev FlagFields : ℕ → ℕ → ℕ → ℕ → ℕ → Type 0
FlagFields t c a b d =
    let f = flags t c a b d in
    (bit_and f 0x80 ≡ t * 0x80)
    × (bit_and f 0x40 ≡ c * 0x40)
    × (bit_and f 0x30 ≡ a * 16)
    × (bit_and f 0x0C ≡ b * 4)
    × (bit_and f 0x03 ≡ d)

flags_at : (x : ℕ) → x < 256 → FlagFields (x / 128) (x / 64 % 2) (x / 16 % 4) (x / 4 % 4) (x % 4)
flags_at x h = let ok = for_all_lem 256 flags_ok x flags_table h in ground arith

pub flags_lem : (t c a b d : ℕ) → t < 2 → c < 2 → a < 4 → b < 4 → d < 4 → FlagFields t c a b d
flags_lem t c a b d ht hc ha hb hd =
    let x = t * 128 + c * 64 + a * 16 + b * 4 + d in
    let e1 : x / 128 ≡ t = omega arith in
    let e2 : x / 64 % 2 ≡ c = omega arith in
    let e3 : x / 16 % 4 ≡ a = omega arith in
    let e4 : x / 4 % 4 ≡ b = omega arith in
    let e5 : x % 4 ≡ d = omega arith in rw (e1, e2, e3, e4, e5) at (flags_at x (omega arith))
