-- ===== src/Sys/Format.antt =====
-- The decimal texts that sys/util.cpp and sys/logger.cpp print times with.
use deps.Prelude.{ℕ, zero, suc, ◌+◌, ◌-◌, ◌*◌, ◌/◌, ◌%◌, ◌^◌, ◌≤◌, ◌<◌, ◌≡◌, refl, arith, ap, ◌∙◌}
use deps.Prelude.{true, List, [], ◌∷◌, ◌++◌, inl, inr}
use deps.Prelude.{ltb, if◌then◌else◌, length, replicate, length-append, length-replicate}
use deps.Prelude.{Bool-cases, tests}
use native.Mathlib.Nat.{pow-suc}

-- The digits of n, of which there are at most `fuel` + 1.
unfoldable pub decimal : ℕ → ℕ → List ℕ
decimal zero n = (b'0' + n % 10) ∷ []
decimal (suc fuel) n =
    let rest = decimal fuel (n / 10) in
    if ltb n 10 then (b'0' + n) ∷ [] else rest ++ ((b'0' + n % 10) ∷ [])

-- `%d` of a number that is not negative.
unfoldable pub print_int : ℕ → List ℕ
print_int n = decimal n n

-- `%0wd`.
unfoldable pub print_padded : ℕ → ℕ → List ℕ
print_padded w n = let text = print_int n in replicate (w - length text) b'0' ++ text

-- What a reader makes of digits.
unfoldable pub read_digits : ℕ → List ℕ → ℕ
read_digits acc [] = acc
read_digits acc (c ∷ cs) = read_digits (acc * 10 + (c - b'0')) cs

read_digits-append :
    (acc : ℕ) (xs ys : List ℕ) → read_digits acc (xs ++ ys) ≡ read_digits (read_digits acc xs) ys
unfolding read_digits
read_digits-append acc [] ys = refl
read_digits-append acc (x ∷ xs) ys = read_digits-append (acc * 10 + (x - b'0')) xs ys

read_digits-decimal : (fuel n : ℕ) → n ≤ fuel → read_digits 0 (decimal fuel n) ≡ n
unfolding decimal read_digits
read_digits-decimal zero n h = omega arith
read_digits-decimal (suc fuel) n h = elim (Bool-cases (ltb n 10)) [
  | inl z ↦ rw z (omega arith)
  | inr z ↦
      let rest = read_digits-decimal fuel (n / 10) (omega tests) in
      rw (z, read_digits-append 0 (decimal fuel (n / 10)) ((b'0' + n % 10) ∷ []), rest)
        (omega arith)
]

read_digits-replicate : (k : ℕ) → read_digits 0 (replicate k b'0') ≡ 0
unfolding read_digits
read_digits-replicate zero = refl
read_digits-replicate (suc k) = read_digits-replicate k

-- A printed number reads as that number.
pub read_digits-print_padded : (w n : ℕ) → read_digits 0 (print_padded w n) ≡ n
unfolding print_padded print_int
read_digits-print_padded w n =
    let zeros = read_digits-replicate (w - length (decimal n n)) in
    read_digits-append 0 (replicate (w - length (decimal n n)) b'0') (decimal n n)
    ∙ ap (λ acc. read_digits acc (decimal n n)) zeros
    ∙ read_digits-decimal n n (omega arith)

length-decimal : (fuel n w : ℕ) → n < 10 ^ suc w → length (decimal fuel n) ≤ suc w
unfolding decimal
length-decimal zero n w h = omega arith
length-decimal (suc fuel) n zero h =
    let small : ltb n 10 ≡ true = ground arith in rw small (omega arith)
length-decimal (suc fuel) n (suc w) h = elim (Bool-cases (ltb n 10)) [
  | inl z ↦ rw z (omega arith)
  | inr z ↦
      let rest = length-decimal fuel (n / 10) w (omega (arith, pow-suc 10 (suc w))) in
      rw z (omega (arith, rest, length-append (decimal fuel (n / 10)) ((b'0' + n % 10) ∷ [])))
]

-- A number of at most w digits is printed in exactly w characters.
pub length-print_padded : (w n : ℕ) → n < 10 ^ suc w → length (print_padded (suc w) n) ≡ suc w
unfolding print_padded print_int
length-print_padded w n h =
    let text = decimal n n in
    omega (
      arith,
      length-append (replicate (suc w - length text) b'0') text,
      length-replicate {A = ℕ} (suc w - length text) b'0',
      length-decimal n n w h,
    )
