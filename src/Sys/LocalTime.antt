-- ===== src/Sys/LocalTime.antt =====
-- Utc2LocalTime of sys/util.cpp, and the name that a rotated log file of sys/logger.cpp gets.
use deps.Prelude.{ℕ, suc, ◌+◌, ◌/◌, ◌%◌, ◌<◌, ◌≡◌, arith, ap, sym, ◌∙◌}
use deps.Prelude.{List, [], ◌∷◌, ◌++◌, append_assoc}
use deps.Prelude.{length, take, drop, length-append, take_all, take-append_at, drop-append_at}
use deps.Sys.Format.{print_int, print_padded, read_digits}
use deps.Sys.Format.{read_digits-print_padded, length-print_padded}

-- struct tm, as localtime_r fills it.
pub record Tm : Type 0 where
  pub year : ℕ
  pub mon : ℕ
  pub mday : ℕ
  pub hour : ℕ
  pub min : ℕ
  pub sec : ℕ

-- Two texts with a character between them.
abbrev pub joined : List ℕ → ℕ → List ℕ → List ℕ
joined xs c ys = xs ++ (c ∷ ys)

-- "%04d/%02d/%02d-%02d:%02d:%02d"
unfoldable pub print_time : Tm → List ℕ
print_time t = joined (print_padded 4 (t.year + 1900)) b'/' (
    joined (print_padded 2 (t.mon + 1)) b'/' (
      joined (print_padded 2 t.mday) b'-' (
        joined (print_padded 2 t.hour) b':'
          (joined (print_padded 2 t.min) b':' (print_padded 2 t.sec)))))

-- snprintf into a `char[64]` keeps 63 characters. `localtime` is localtime_r.
unfoldable pub utc2_local_time : (ℕ → Tm) → ℕ → List ℕ
utc2_local_time localtime utc_time =
    let sec = utc_time / 1000000 in
    let us = utc_time % 1000000 in
    take 63 (joined (print_time (localtime sec)) b'.' (print_padded 6 us))

-- snprintf of "%s.%d_%02d_%02d_%02d_%02d_%02d" into a `char[4096]`.
unfoldable pub rotated_name : List ℕ → Tm → List ℕ
rotated_name filename ntm = take 4095 (
    joined filename b'.' (
      joined (print_int (ntm.year + 1900)) b'_' (
        joined (print_padded 2 (ntm.mon + 1)) b'_' (
          joined (print_padded 2 ntm.mday) b'_' (
            joined (print_padded 2 ntm.hour) b'_'
              (joined (print_padded 2 ntm.min) b'_' (print_padded 2 ntm.sec)))))))

-- What the manual says of the fields, for the years up to 9999.
pub record IsDate (t : Tm) : Type 0 where
  pub years : t.year + 1900 < 10000
  pub months : t.mon < 12
  pub days : t.mday < 32
  pub hours : t.hour < 24
  pub minutes : t.min < 60
  pub seconds : t.sec < 61

length-joined :
    {m n : ℕ} (c : ℕ) (xs ys : List ℕ)
    → length xs ≡ m
    → length ys ≡ n
    → length (joined xs c ys) ≡ m + suc n
length-joined c xs ys e f = omega (arith, length-append xs (c ∷ ys))

length-print_time : (t : Tm) → IsDate t → length (print_time t) ≡ 19
unfolding print_time
length-print_time t h =
    let two : (n : ℕ) → n < 100 → length (print_padded 2 n) ≡ 2 =
      λ n l. length-print_padded 1 n (omega arith) in
    length-joined b'/' _ _ (length-print_padded 3 (t.year + 1900) (omega (arith, h))) (
      length-joined b'/' _ _ (two (t.mon + 1) (omega (arith, h))) (
        length-joined b'-' _ _ (two t.mday (omega (arith, h))) (
          length-joined b':' _ _ (two t.hour (omega (arith, h))) (
            length-joined b':' _ _ (two t.min (omega (arith, h))) (two t.sec (omega (arith, h)))))))

-- A time is printed whole, in 26 characters of the 63 that there is room for, and the microseconds are
-- behind the point.
pub utc2_local_time_lem :
    (localtime : ℕ → Tm) (utc_time : ℕ)
    → IsDate (localtime (utc_time / 1000000))
    → (length (utc2_local_time localtime utc_time) ≡ 26)
      × (take 19 (utc2_local_time localtime utc_time) ≡ print_time (localtime (utc_time / 1000000)))
      × (read_digits 0 (drop 20 (utc2_local_time localtime utc_time)) ≡ utc_time % 1000000)
unfolding utc2_local_time
utc2_local_time_lem localtime utc_time h =
    let t : List ℕ = print_time (localtime (utc_time / 1000000)) in
    let us : List ℕ = print_padded 6 (utc_time % 1000000) in
    let n : length t ≡ 19 = length-print_time (localtime (utc_time / 1000000)) h in
    let m : length us ≡ 6 = length-print_padded 5 (utc_time % 1000000) (omega arith) in
    let e : length (joined t b'.' us) ≡ 26 = omega (arith, length-append t (b'.' ∷ us)) in
    let whole : take 63 (joined t b'.' us) ≡ joined t b'.' us =
      take_all 63 (joined t b'.' us) (omega arith) in
    let behind : drop 20 (joined t b'.' us) ≡ us =
      ap (drop 20) (sym (append_assoc t (b'.' ∷ []) us))
      ∙ drop-append_at 20 (t ++ (b'.' ∷ [])) us (omega (arith, length-append t (b'.' ∷ []))) in
    rw (whole, behind)
      (
        e,
        take-append_at 19 t (b'.' ∷ us) (omega arith),
        read_digits-print_padded 6 (utc_time % 1000000),
      )
