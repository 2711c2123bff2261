-- ===== src/Marshal/ByteOrder.antt =====
-- The byte-order macros of net/marshall.h in their second branch, for a machine that stores the highest
-- byte first.
use deps.Prelude.{ℕ, zero, suc, ◌+◌, ◌-◌, ◌*◌, ◌/◌, ◌%◌, ◌^◌, ◌<◌, ◌≡◌, refl, ap, sym, ◌∙◌, arith}
use deps.Prelude.{List, [], ◌∷◌, ◌++◌, append_assoc, or_bits, or_bits_fields, ltb, if◌then◌else◌}
use mathlib.Core.Path.{ap₂}
use deps.Marshal.Bytes.{host_bytes}

-- A uint16_t is an `int` while it is shifted, and cut to 16 bits when it is returned.
unfoldable pub swap16 : ℕ → ℕ
swap16 i16 = or_bits 32 (i16 * 2 ^ 8) (i16 / 2 ^ 8) % 2 ^ 16

-- The arguments and the results of XHTONS have 16 bits, those of XHTONL 32.
unfoldable pub swap32 : ℕ → ℕ
swap32 i32 = or_bits 32 ((swap16 (i32 % 2 ^ 16) * 2 ^ 16) % 2 ^ 32) (swap16 (i32 / 2 ^ 16 % 2 ^ 16))

unfoldable pub swap64 : ℕ → ℕ
swap64 i64 = or_bits 64 ((swap32 (i64 % 2 ^ 32) * 2 ^ 32) % 2 ^ 64) (swap32 (i64 / 2 ^ 32 % 2 ^ 32))

-- An unsigned integer in the memory of such a machine.
unfoldable pub big_bytes : ℕ → ℕ → List ℕ
big_bytes zero v = []
big_bytes (suc k) v = big_bytes k (v / 256) ++ ((v % 256) ∷ [])

-- XHTONS of an int16_t, given by its bit pattern: `>>` fills in copies of the sign.
unfoldable pub swap16_signed : ℕ → ℕ
swap16_signed i16 =
    let wide = if ltb i16 (2 ^ 15) then i16 else i16 + (2 ^ 32 - 2 ^ 16) in
    let right = if ltb i16 (2 ^ 15) then i16 / 2 ^ 8 else wide / 2 ^ 8 + (2 ^ 32 - 2 ^ 24) in
    or_bits 32 ((wide * 2 ^ 8) % 2 ^ 32) right % 2 ^ 16

swap16_lem : (v : ℕ) → v < 2 ^ 16 → swap16 v ≡ v % 256 * 256 + v / 256
unfolding swap16
swap16_lem v h = omega (arith, or_bits_fields 24 8 v (v / 2 ^ 8) (omega arith) (omega arith))

swap16_lt : (v : ℕ) → v < 2 ^ 16 → swap16 v < 2 ^ 16
swap16_lt v h = omega (arith, swap16_lem v h)

swap16-swap16 : (v : ℕ) → v < 2 ^ 16 → swap16 (swap16 v) ≡ v
swap16-swap16 v h = omega (arith, swap16_lem v h, swap16_lem (swap16 v) (swap16_lt v h))

swap32_fields :
    (hi lo : ℕ)
    → hi < 2 ^ 16
    → lo < 2 ^ 16
    → swap32 (hi * 2 ^ 16 + lo) ≡ swap16 lo * 2 ^ 16 + swap16 hi
unfolding swap32
swap32_fields hi lo h l =
    let a : (hi * 2 ^ 16 + lo) % 2 ^ 16 ≡ lo = omega arith in
    let b : (hi * 2 ^ 16 + lo) / 2 ^ 16 % 2 ^ 16 ≡ hi = omega arith in
    let c : (swap16 lo * 2 ^ 16) % 2 ^ 32 ≡ swap16 lo * 2 ^ 16 = omega (arith, swap16_lt lo l) in
    rw (a, b, c) (or_bits_fields 16 16 (swap16 lo) (swap16 hi) (swap16_lt lo l) (swap16_lt hi h))

swap64_fields :
    (hi lo : ℕ)
    → hi < 2 ^ 32
    → lo < 2 ^ 32
    → swap32 hi < 2 ^ 32
    → swap32 lo < 2 ^ 32
    → swap64 (hi * 2 ^ 32 + lo) ≡ swap32 lo * 2 ^ 32 + swap32 hi
unfolding swap64
swap64_fields hi lo h l k m =
    let a : (hi * 2 ^ 32 + lo) % 2 ^ 32 ≡ lo = omega arith in
    let b : (hi * 2 ^ 32 + lo) / 2 ^ 32 % 2 ^ 32 ≡ hi = omega arith in
    let c : (swap32 lo * 2 ^ 32) % 2 ^ 64 ≡ swap32 lo * 2 ^ 32 = omega arith in
    rw (a, b, c) (or_bits_fields 32 32 (swap32 lo) (swap32 hi) m k)

-- XHTONL and XHTONLL on the two halves of a number.
swap32_halves : (v : ℕ) → v < 2 ^ 32 → swap32 v ≡ swap16 (v % 2 ^ 16) * 2 ^ 16 + swap16 (v / 2 ^ 16)
swap32_halves v h =
    let e : v / 2 ^ 16 * 2 ^ 16 + v % 2 ^ 16 ≡ v = omega arith in
    ap swap32 (sym e) ∙ swap32_fields (v / 2 ^ 16) (v % 2 ^ 16) (omega arith) (omega arith)

swap32_lt : (v : ℕ) → v < 2 ^ 32 → swap32 v < 2 ^ 32
swap32_lt v h = omega (
  arith,
  swap32_halves v h,
  swap16_lt (v % 2 ^ 16) (omega arith),
  swap16_lt (v / 2 ^ 16) (omega arith),
)

swap32-swap32 : (v : ℕ) → v < 2 ^ 32 → swap32 (swap32 v) ≡ v
swap32-swap32 v h =
    let lo = v % 2 ^ 16 in
    let hi = v / 2 ^ 16 in
    let a : swap16 (swap16 lo) ≡ lo = swap16-swap16 lo (omega arith) in
    let b : swap16 (swap16 hi) ≡ hi = swap16-swap16 hi (omega arith) in
    ap swap32 (swap32_halves v h)
    ∙ swap32_fields (swap16 lo) (swap16 hi) (swap16_lt lo (omega arith))
        (swap16_lt hi (omega arith))
    ∙ omega (arith, a, b)

swap64_halves : (v : ℕ) → v < 2 ^ 64 → swap64 v ≡ swap32 (v % 2 ^ 32) * 2 ^ 32 + swap32 (v / 2 ^ 32)
swap64_halves v h =
    let e : v / 2 ^ 32 * 2 ^ 32 + v % 2 ^ 32 ≡ v = omega arith in
    ap swap64 (sym e)
    ∙ swap64_fields (v / 2 ^ 32) (v % 2 ^ 32) (omega arith) (omega arith)
        (swap32_lt (v / 2 ^ 32) (omega arith)) (swap32_lt (v % 2 ^ 32) (omega arith))

swap64-swap64 : (v : ℕ) → v < 2 ^ 64 → swap64 (swap64 v) ≡ v
swap64-swap64 v h =
    let lo = v % 2 ^ 32 in
    let hi = v / 2 ^ 32 in
    let a : swap32 (swap32 lo) ≡ lo = swap32-swap32 lo (omega arith) in
    let b : swap32 (swap32 hi) ≡ hi = swap32-swap32 hi (omega arith) in
    ap swap64 (swap64_halves v h)
    ∙ swap64_fields (swap32 lo) (swap32 hi) (swap32_lt lo (omega arith))
        (swap32_lt hi (omega arith)) (omega (arith, a)) (omega (arith, b))
    ∙ omega (arith, a, b)

-- The bytes of a number are those of its upper part and then those of its lower; on the other kind of
-- machine it is the other way round.
big_bytes_fields :
    (k hi lo : ℕ)
    → lo < 2 ^ 16
    → big_bytes (suc (suc k)) (hi * 2 ^ 16 + lo) ≡ big_bytes k hi ++ big_bytes 2 lo
unfolding big_bytes
big_bytes_fields k hi lo h =
    let a : (hi * 2 ^ 16 + lo) / 256 / 256 ≡ hi = omega arith in
    let b : (hi * 2 ^ 16 + lo) / 256 % 256 ≡ lo / 256 % 256 = omega arith in
    let c : (hi * 2 ^ 16 + lo) % 256 ≡ lo % 256 = omega arith in
    rw (a, b, c) (append_assoc (big_bytes k hi) ((lo / 256 % 256) ∷ []) ((lo % 256) ∷ []))

host_bytes_fields :
    (k v : ℕ) → host_bytes (suc (suc k)) v ≡ host_bytes 2 (v % 2 ^ 16) ++ host_bytes k (v / 2 ^ 16)
unfolding host_bytes
host_bytes_fields k v =
    let a : v % 2 ^ 16 % 256 ≡ v % 256 = omega arith in
    let b : v % 2 ^ 16 / 256 % 256 ≡ v / 256 % 256 = omega arith in
    let c : v / 2 ^ 16 ≡ v / 256 / 256 = omega arith in rw (a, b, c) refl

big_bytes-swap16 : (v : ℕ) → v < 2 ^ 16 → big_bytes 2 (swap16 v) ≡ host_bytes 2 v
unfolding big_bytes host_bytes
big_bytes-swap16 v h =
    let a : swap16 v / 256 % 256 ≡ v % 256 = omega (arith, swap16_lem v h) in
    let b : swap16 v % 256 ≡ v / 256 % 256 = omega (arith, swap16_lem v h) in rw (a, b) refl

big_bytes-swap32 : (v : ℕ) → v < 2 ^ 32 → big_bytes 4 (swap32 v) ≡ host_bytes 4 v
big_bytes-swap32 v h =
    let lo = v % 2 ^ 16 in
    let hi = v / 2 ^ 16 in
    ap (big_bytes 4) (swap32_halves v h)
    ∙ big_bytes_fields 2 (swap16 lo) (swap16 hi) (swap16_lt hi (omega arith))
    ∙ ap₂ ◌++◌ (big_bytes-swap16 lo (omega arith)) (big_bytes-swap16 hi (omega arith))
    ∙ sym (host_bytes_fields 2 v)

big_bytes_words :
    (hi lo : ℕ) → lo < 2 ^ 32 → big_bytes 8 (hi * 2 ^ 32 + lo) ≡ big_bytes 4 hi ++ big_bytes 4 lo
big_bytes_words hi lo h =
    let a = lo / 2 ^ 16 in
    let b = lo % 2 ^ 16 in
    let e : hi * 2 ^ 32 + lo ≡ (hi * 2 ^ 16 + a) * 2 ^ 16 + b = omega arith in
    let f : a * 2 ^ 16 + b ≡ lo = omega arith in
    ap (big_bytes 8) e
    ∙ big_bytes_fields 6 (hi * 2 ^ 16 + a) b (omega arith)
    ∙ ap (λ t. t ++ big_bytes 2 b) (big_bytes_fields 4 hi a (omega arith))
    ∙ append_assoc (big_bytes 4 hi) (big_bytes 2 a) (big_bytes 2 b)
    ∙ ap (λ t. big_bytes 4 hi ++ t)
        (sym (big_bytes_fields 2 a b (omega arith)) ∙ ap (big_bytes 4) f)

host_bytes_words :
    (v : ℕ) → v < 2 ^ 64 → host_bytes 8 v ≡ host_bytes 4 (v % 2 ^ 32) ++ host_bytes 4 (v / 2 ^ 32)
host_bytes_words v h =
    let lo = v % 2 ^ 32 in
    let a : lo % 2 ^ 16 ≡ v % 2 ^ 16 = omega arith in
    let b : v / 2 ^ 16 / 2 ^ 16 ≡ v / 2 ^ 32 = omega arith in
    let c : lo / 2 ^ 16 ≡ v / 2 ^ 16 % 2 ^ 16 = omega arith in
    host_bytes_fields 6 v
    ∙ ap (λ t. host_bytes 2 (v % 2 ^ 16) ++ t)
        (host_bytes_fields 4 (v / 2 ^ 16)
          ∙ ap₂ ◌++◌ (ap (host_bytes 2) (sym c)) (ap (host_bytes 4) b))
    ∙ sym (
        append_assoc (host_bytes 2 (v % 2 ^ 16)) (host_bytes 2 (lo / 2 ^ 16))
          (host_bytes 4 (v / 2 ^ 32)))
    ∙ ap (λ t. t ++ host_bytes 4 (v / 2 ^ 32))
        (sym (host_bytes_fields 2 lo ∙ ap (λ t. host_bytes 2 t ++ host_bytes 2 (lo / 2 ^ 16)) a))

big_bytes-swap64 : (v : ℕ) → v < 2 ^ 64 → big_bytes 8 (swap64 v) ≡ host_bytes 8 v
big_bytes-swap64 v h =
    let lo = v % 2 ^ 32 in
    let hi = v / 2 ^ 32 in
    ap (big_bytes 8) (swap64_halves v h)
    ∙ big_bytes_words (swap32 lo) (swap32 hi) (swap32_lt hi (omega arith))
    ∙ ap₂ ◌++◌ (big_bytes-swap32 lo (omega arith)) (big_bytes-swap32 hi (omega arith))
    ∙ sym (host_bytes_words v h)

-- Both branches of the macros give one format: a machine that stores the highest byte first, and so
-- swaps, puts the same bytes into a packet as one that stores the lowest first and does not.
pub big_bytes-swap :
    (u16 u32 u64 : ℕ)
    → u16 < 2 ^ 16
    → u32 < 2 ^ 32
    → u64 < 2 ^ 64
    → (big_bytes 2 (swap16 u16) ≡ host_bytes 2 u16)
      × (big_bytes 4 (swap32 u32) ≡ host_bytes 4 u32)
      × (big_bytes 8 (swap64 u64) ≡ host_bytes 8 u64)
big_bytes-swap u16 u32 u64 h k l =
    (big_bytes-swap16 u16 h, big_bytes-swap32 u32 k, big_bytes-swap64 u64 l)

-- XNTOHS, XNTOHL and XNTOHLL, which are the same macros, undo XHTONS, XHTONL and XHTONLL.
pub swap-swap :
    (u16 u32 u64 : ℕ)
    → u16 < 2 ^ 16
    → u32 < 2 ^ 32
    → u64 < 2 ^ 64
    → (swap16 (swap16 u16) ≡ u16) × (swap32 (swap32 u32) ≡ u32) × (swap64 (swap64 u64) ≡ u64)
swap-swap u16 u32 u64 h k l = (swap16-swap16 u16 h, swap32-swap32 u32 k, swap64-swap64 u64 l)
