-- ===== src/Sys/Ntp.antt =====
-- Utc2Ntp and Ntp2Utc of sys/util.cpp: microseconds since 1970, and the NTP format with the seconds
-- since 1900 in the upper half of 64 bits and a binary fraction in the lower.
use deps.Prelude.{ℕ, ◌+◌, ◌-◌, ◌*◌, ◌/◌, ◌%◌, ◌^◌, ◌≤◌, ◌<◌, ◌≡◌, arith}
use deps.Prelude.{or_bits, or_bits_fields}

-- The product is computed in 32 bits, and fits.
unfoldable pub second_70_year : ℕ
second_70_year = (60 * 60 * 24 * (365 * 70 + 17)) % 2 ^ 32

unfoldable pub utc2ntp : ℕ → ℕ
utc2ntp n =
    let h32bit = (n / 1000000 + second_70_year) % 2 ^ 64 in
    let l32bit = ((n % 1000000 * 2 ^ 32) % 2 ^ 64) / 1000000 in
    or_bits 64 ((h32bit * 2 ^ 32) % 2 ^ 64) l32bit

unfoldable pub ntp2utc : ℕ → ℕ
ntp2utc n =
    let h32bit = (n / 2 ^ 32 + 2 ^ 64 - second_70_year) % 2 ^ 64 in
    let l32bit = n % 2 ^ 32 in
    let fraction = ((l32bit * 1000000) % 2 ^ 64) / 2 ^ 32 in
    ((h32bit * 1000000) % 2 ^ 64 + fraction) % 2 ^ 64

-- The seconds in 32 bits and the fraction behind them.
utc2ntp_fields :
    (n : ℕ)
    → n / 1000000 + 2208988800 < 2 ^ 32
    → utc2ntp n ≡ (n / 1000000 + 2208988800) * 2 ^ 32 + (n % 1000000 * 2 ^ 32) / 1000000
unfolding utc2ntp second_70_year
utc2ntp_fields n h =
    let hi : (((n / 1000000 + 2208988800) % 2 ^ 64) * 2 ^ 32) % 2 ^ 64
        ≡ (n / 1000000 + 2208988800) * 2 ^ 32 =
      omega arith in
    let lo : ((n % 1000000 * 2 ^ 32) % 2 ^ 64) / 1000000 ≡ (n % 1000000 * 2 ^ 32) / 1000000 =
      omega arith in
    rw (hi, lo)
      (or_bits_fields 32 32 (n / 1000000 + 2208988800) ((n % 1000000 * 2 ^ 32) / 1000000) h
        (omega arith))

-- A time up to the end of the NTP era in 2036 goes to NTP and back to itself, or to the microsecond
-- before it.
pub ntp2utc-utc2ntp :
    (n : ℕ)
    → n / 1000000 + 2208988800 < 2 ^ 32
    → (ntp2utc (utc2ntp n) ≤ n) × (n ≤ ntp2utc (utc2ntp n) + 1)
unfolding ntp2utc second_70_year
ntp2utc-utc2ntp n h = rw (utc2ntp_fields n h) (omega arith)
