-- ===== src/Prelude/Bits.antt =====
-- The operator `|` on words of w bits.
use Prim.Native.Nat.{ℕ, zero, suc, ◌+◌, ◌*◌, ◌/◌, ◌%◌, ◌^◌, ◌<◌, max}
use mathlib.Core.Path.{◌≡◌, ap}
use native.Mathlib.Omega.{arith}
use native.Mathlib.Nat.{pow-suc}

-- Bit by bit, the lowest first.
unfoldable pub or_bits : ℕ → ℕ → ℕ → ℕ
or_bits zero a b = 0
or_bits (suc w) a b = max (a % 2) (b % 2) + 2 * or_bits w (a / 2) (b / 2)

or_bits-zero : (w a : ℕ) → a < 2 ^ w → or_bits w a 0 ≡ a
unfolding or_bits
or_bits-zero zero a h = omega arith
or_bits-zero (suc w) a h = omega (arith, or_bits-zero w (a / 2) (omega (arith, pow-suc 2 w)))

mul-pow-suc : (q k : ℕ) → q * 2 ^ suc k ≡ 2 * (q * 2 ^ k)
mul-pow-suc q k = omega (arith, ap (λ (t : ℕ). q * t) (pow-suc 2 k))

-- `hi << k | lo`, where `lo` has k bits and `hi` the others.
pub or_bits_fields :
    (m k hi lo : ℕ) → hi < 2 ^ m → lo < 2 ^ k → or_bits (k + m) (hi * 2 ^ k) lo ≡ hi * 2 ^ k + lo
unfolding or_bits
or_bits_fields m zero hi lo h l =
    let z : lo ≡ 0 = omega arith in
    let one : hi * 2 ^ 0 ≡ hi = omega arith in
    let width : 0 + m ≡ m = omega arith in rw (z, one, width) (omega (arith, or_bits-zero m hi h))
or_bits_fields m (suc k) hi lo h l =
    let rest = or_bits_fields m k hi (lo / 2) h (omega (arith, pow-suc 2 k)) in
    let half : (hi * 2 ^ suc k) / 2 ≡ hi * 2 ^ k = omega (arith, mul-pow-suc hi k) in
    let width : suc k + m ≡ suc (k + m) = omega arith in
    let even : (hi * 2 ^ suc k) % 2 ≡ 0 = omega (arith, mul-pow-suc hi k) in
    rw (width, half, even) (omega (arith, rest, mul-pow-suc hi k))
