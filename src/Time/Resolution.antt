-- ===== src/Time/Resolution.antt =====
-- The resolution of a timestamp, told from its size: is_sec, is_ms, is_us, is_ns, to_ms, to_sec,
-- validate_resolution and step_down of src/utils/utils.cpp. `resolution_ms` is g_tstamp_resolution_ms.
use ticktock.Prelude.{
  ℕ, ◌-◌, ◌*◌, ◌/◌, ◌%◌, ◌^◌, ◌<◌, ◌≡◌, ◌⊎◌, Bool, true, false, ◌&&◌, ltb, leb, if◌then◌else◌,
  arith,
}

abbrev pub max_sec_since_epoch : ℕ
max_sec_since_epoch = 100000000000

abbrev pub max_ms_since_epoch : ℕ
max_ms_since_epoch = 100000000000000

abbrev pub max_us_since_epoch : ℕ
max_us_since_epoch = 100000000000000000

pub is_sec : ℕ → Bool
is_sec tstamp = ltb tstamp max_sec_since_epoch

pub is_ms : ℕ → Bool
is_ms tstamp = leb max_sec_since_epoch tstamp && ltb tstamp max_ms_since_epoch

pub is_us : ℕ → Bool
is_us tstamp = leb max_ms_since_epoch tstamp && ltb tstamp max_us_since_epoch

pub is_ns : ℕ → Bool
is_ns tstamp = leb max_us_since_epoch tstamp

pub to_ms : ℕ → ℕ
to_ms tstamp = if ltb tstamp max_sec_since_epoch then tstamp * 1000 % 2 ^ 64 else tstamp

unfoldable pub to_sec : ℕ → ℕ
to_sec tstamp = if ltb max_sec_since_epoch tstamp then tstamp / 1000 else tstamp

pub step_down : ℕ → ℕ → ℕ
step_down ts interval = ts - ts % interval

unfoldable pub validate_resolution : Bool → ℕ → ℕ
validate_resolution true tstamp =
    if ltb tstamp max_sec_since_epoch
    then tstamp * 1000 % 2 ^ 64
    else if leb max_us_since_epoch tstamp
    then tstamp / 1000000
    else if leb max_ms_since_epoch tstamp
    then tstamp / 1000
    else tstamp
validate_resolution false tstamp =
    if leb max_us_since_epoch tstamp
    then tstamp / 1000000000
    else if leb max_ms_since_epoch tstamp
    then tstamp / 1000000
    else if leb max_sec_since_epoch tstamp
    then tstamp / 1000
    else tstamp

abbrev pub OneClass : ℕ → Type 0
OneClass t =
    ((is_sec t ≡ true) × (is_ms t ≡ false) × (is_us t ≡ false) × (is_ns t ≡ false))
    ⊎ ((is_sec t ≡ false) × (is_ms t ≡ true) × (is_us t ≡ false) × (is_ns t ≡ false))
    ⊎ ((is_sec t ≡ false) × (is_ms t ≡ false) × (is_us t ≡ true) × (is_ns t ≡ false))
    ⊎ ((is_sec t ≡ false) × (is_ms t ≡ false) × (is_us t ≡ false) × (is_ns t ≡ true))

-- Exactly one of the four class tests accepts a timestamp.
pub resolution_classes : (t : ℕ) → OneClass t
unfolding is_sec is_ms is_us is_ns
resolution_classes t = ground arith

-- The nanoseconds that a timestamp stands for, by the class that its size puts it in.
abbrev pub nanos : ℕ → ℕ
nanos t =
    if ltb t max_sec_since_epoch
    then t * 1000000000
    else if ltb t max_ms_since_epoch
    then t * 1000000
    else if ltb t max_us_since_epoch
    then t * 1000
    else t

-- In either resolution, `validate_resolution` turns a timestamp of any of the four classes into the
-- whole number of milliseconds, or seconds, of the instant that it stands for.
pub validate_resolution_lem :
    (t : ℕ)
    → (validate_resolution true t ≡ nanos t / 1000000)
      × (validate_resolution false t ≡ nanos t / 1000000000)
unfolding validate_resolution
validate_resolution_lem t = (ground arith, ground arith)

-- With seconds configured, a 64-bit timestamp of any class becomes one that `is_sec` accepts.
pub validate_resolution-is_sec : (t : ℕ) → t < 2 ^ 64 → is_sec (validate_resolution false t) ≡ true
unfolding validate_resolution is_sec
validate_resolution-is_sec t h = ground arith
