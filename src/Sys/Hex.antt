-- ===== src/Sys/Hex.antt =====
-- DumpHex of sys/util.cpp. A text is a list of characters.
use deps.Prelude.{ℕ, zero, suc, ◌+◌, ◌-◌, ◌*◌, ◌/◌, ◌%◌, ◌≤◌, ◌<◌, ◌≡◌, refl, arith}
use deps.Prelude.{Option, none, some, List, [], ◌∷◌, ◌++◌, All, inl, inr}
use deps.Prelude.{ltb, ◌==◌, if◌then◌else◌, length, take, drop, length-take, Bool-cases, tests}
use mathlib.Core.Path.{ap₂}
use deps.Marshal.Bytes.{IsByte}

unfoldable pub hex_digit : ℕ → ℕ
hex_digit d = if ltb d 10 then b'0' + d else b'a' + (d - 10)

-- `std::setw(2) << std::setfill('0') << std::hex << (data[i]&0xFF)`.
unfoldable pub hex_byte : ℕ → List ℕ
hex_byte b = hex_digit (b % 256 / 16) ∷ hex_digit (b % 256 % 16) ∷ []

-- The line break behind every eighth byte.
unfoldable pub break_after : ℕ → List ℕ
break_after i = if i % 8 == 7 then b'\n' ∷ [] else []

-- What the loop writes from `i` on.
unfoldable pub dump_from : ℕ → List ℕ → List ℕ
dump_from i [] = []
dump_from i (b ∷ bs) = (b'0' ∷ b'x' ∷ hex_byte b) ++ (b' ' ∷ break_after i) ++ dump_from (suc i) bs

-- A null pointer, or the memory at the pointer, of which the caller wants `size` bytes.
unfoldable pub dump_hex : Option (List ℕ) → ℕ → List ℕ
dump_hex none size = []
dump_hex (some memory) size = if ltb size 1 then [] else dump_from 0 (take size memory)

-- How a reader gets the bytes back: the third and the fourth character of each group are its digits.
abbrev pub digit_value : ℕ → ℕ
digit_value c = if ltb c b'a' then c - b'0' else c - b'a' + 10

abbrev pub head_value : List ℕ → ℕ
head_value [] = 0
head_value (c ∷ cs) = digit_value c

abbrev pub group : ℕ → ℕ
group i = if i % 8 == 7 then 6 else 5

unfoldable pub read_dump : ℕ → ℕ → List ℕ → List ℕ
read_dump i zero text = []
read_dump i (suc n) text =
    (16 * head_value (drop 2 text) + head_value (drop 3 text))
    ∷ read_dump (suc i) n (drop (group i) text)

digit_value-hex_digit : (d : ℕ) → d < 16 → digit_value (hex_digit d) ≡ d
unfolding hex_digit
digit_value-hex_digit d h = ground arith

length-dump_from :
    (i : ℕ) (bs : List ℕ) → length (dump_from i bs) ≡ 5 * length bs + (i % 8 + length bs) / 8
unfolding dump_from hex_byte break_after
length-dump_from i [] = omega arith
length-dump_from i (b ∷ bs) = elim (Bool-cases (i % 8 == 7)) [
  | inl z ↦ rw z (omega (tests, length-dump_from (suc i) bs))
  | inr z ↦ rw z (omega (tests, length-dump_from (suc i) bs))
]

read_dump-dump_from :
    (i : ℕ) (bs : List ℕ) → All IsByte bs → read_dump i (length bs) (dump_from i bs) ≡ bs
unfolding read_dump dump_from hex_byte break_after
read_dump-dump_from i [] h = refl
read_dump-dump_from i (b ∷ bs) h =
    let low = digit_value-hex_digit (b % 256 % 16) (omega arith) in
    let high = digit_value-hex_digit (b % 256 / 16) (omega arith) in
    let value : 16 * (b % 256 / 16) + b % 256 % 16 ≡ b = omega (arith, h.0) in
    elim (Bool-cases (i % 8 == 7)) [
      | inl z ↦ rw (z, low, high) (ap₂ ◌∷◌ value (read_dump-dump_from (suc i) bs h.1))
      | inr z ↦ rw (z, low, high) (ap₂ ◌∷◌ value (read_dump-dump_from (suc i) bs h.1))
    ]

All-take : (n : ℕ) (bs : List ℕ) → All IsByte bs → All IsByte (take n bs)
All-take zero bs h = tt
All-take (suc n) [] h = tt
All-take (suc n) (b ∷ bs) h = (h.0, All-take n bs h.1)

-- The dump of `size` bytes has five characters for each of them and a line break behind every eighth,
-- and the bytes can be read back from it.
pub dump_hex_lem :
    (memory : List ℕ) (size : ℕ)
    → size ≤ length memory
    → All IsByte memory
    → (length (dump_hex (some memory) size) ≡ 5 * size + size / 8)
      × (read_dump 0 size (dump_hex (some memory) size) ≡ take size memory)
unfolding dump_hex read_dump
dump_hex_lem memory size h b =
    let n : length (take size memory) ≡ size = omega (arith, length-take size memory) in
    elim (Bool-cases (ltb size 1)) [
      | inl z ↦ let none_at_all : size ≡ 0 = omega tests in rw none_at_all (refl, refl)
      | inr z ↦ rw z (
        omega (arith, n, length-dump_from 0 (take size memory)),
        rw n at (read_dump-dump_from 0 (take size memory) (All-take size memory b)),
      )
    ]
