-- ===== src/Marshal/Bytes.antt =====
-- An unsigned integer in memory, as the code of net/marshall.h copies it in and out: k bytes, the
-- lowest first.
use deps.Prelude.{ℕ, zero, suc, ◌+◌, ◌*◌, ◌/◌, ◌%◌, ◌^◌, ◌<◌, ◌≡◌, refl, ap, arith}
use deps.Prelude.{List, [], ◌∷◌, length, All}
use native.Mathlib.Nat.{pow-succ'}

abbrev pub IsByte : ℕ → Type 0
IsByte b = b < 256

-- `*(uintN_t *)p = v`, N = 8 k.
unfoldable pub host_bytes : ℕ → ℕ → List ℕ
host_bytes zero v = []
host_bytes (suc k) v = (v % 256) ∷ host_bytes k (v / 256)

-- `*(uintN_t *)p`.
unfoldable pub host_value : List ℕ → ℕ
host_value [] = 0
host_value (b ∷ bs) = b + 256 * host_value bs

pub length-host_bytes : (k v : ℕ) → length (host_bytes k v) ≡ k
unfolding host_bytes
length-host_bytes zero v = refl
length-host_bytes (suc k) v = ap suc (length-host_bytes k (v / 256))

pub host_bytes-IsByte : (k v : ℕ) → All IsByte (host_bytes k v)
unfolding host_bytes
host_bytes-IsByte zero v = tt
host_bytes-IsByte (suc k) v = (omega arith, host_bytes-IsByte k (v / 256))

pub host_value-host_bytes : (k v : ℕ) → v < 256 ^ k → host_value (host_bytes k v) ≡ v
unfolding host_bytes host_value
host_value-host_bytes zero v h = omega arith
host_value-host_bytes (suc k) v h =
    omega (arith, host_value-host_bytes k (v / 256) (omega (arith, pow-succ' 256 k)))
