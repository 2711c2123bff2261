-- ===== src/Sys/Clock.antt =====
-- The clocks of sys/util.cpp, and the times that sys/thread_cond.cpp and sys/thread.cpp compute. What a
-- clock shows is an argument: the code calls clock_gettime or gettimeofday for it.
use deps.Prelude.{ℕ, ◌+◌, ◌-◌, ◌*◌, ◌/◌, ◌%◌, ◌^◌, ◌<◌, ◌≡◌, arith}

-- struct timespec and struct timeval. The seconds of a clock are not negative.
pub record TimeSpec : Type 0 where
  pub sec : ℕ
  pub nsec : ℕ

pub record TimeVal : Type 0 where
  pub sec : ℕ
  pub usec : ℕ

unfoldable pub get_mono_time_us : TimeSpec → ℕ
get_mono_time_us time =
    let utime = (time.sec * 1000000) % 2 ^ 64 in (utime + time.nsec / 1000) % 2 ^ 64

unfoldable pub get_mono_time_ms : TimeSpec → ℕ
get_mono_time_ms time =
    let utime = (time.sec * 1000) % 2 ^ 64 in (utime + time.nsec / 1000000) % 2 ^ 64

unfoldable pub get_local_utc_time_us : TimeVal → ℕ
get_local_utc_time_us now_tv =
    let utc_now = (now_tv.sec * 1000000) % 2 ^ 64 in (utc_now + now_tv.usec) % 2 ^ 64

unfoldable pub get_local_utc_time_ms : TimeVal → ℕ
get_local_utc_time_ms now_tv =
    let utc_now = (now_tv.sec * 1000) % 2 ^ 64 in (utc_now + now_tv.usec / 1000) % 2 ^ 64

-- ThreadCond::abstime, on an `int` that is not negative.
unfoldable pub abstime : TimeSpec → ℕ → TimeSpec
abstime ts millsecond =
    let utime =
      ((ts.sec * 1000000) % 2 ^ 64 + ts.nsec / 1000 + (millsecond * 1000) % 2 ^ 64) % 2 ^ 64 in
    let sec = utime / 1000000 in
    record { sec = sec; nsec = ((utime + 2 ^ 64 - sec * 1000000) * 1000) % 2 ^ 64 }

-- The time that Thread::sleep hands to nanosleep, for a `long` that is not negative.
unfoldable pub sleep_time : ℕ → TimeSpec
sleep_time millsecond = record { sec = millsecond / 1000; nsec = millsecond % 1000 * 1000 * 1000 }

-- What a clock shows: the fraction is below a second, and the seconds have not reached 2^40, in about
-- the year 36800.
pub record IsTime (ts : TimeSpec) : Type 0 where
  pub fraction : ts.nsec < 1000000000
  pub seconds : ts.sec < 2 ^ 40

-- All of a time, in nanoseconds.
abbrev pub nanos : TimeSpec → ℕ
nanos ts = ts.sec * 1000000000 + ts.nsec

-- The monotonic clocks are the time rounded down to their unit, without wrapping.
pub get_mono_time_lem :
    (ts : TimeSpec)
    → IsTime ts
    → (get_mono_time_us ts ≡ nanos ts / 1000) × (get_mono_time_ms ts ≡ nanos ts / 1000000)
unfolding get_mono_time_us get_mono_time_ms
get_mono_time_lem ts h = omega arith

-- A deadline is a time as the system wants it, with the fraction below a second. It lies `millsecond`
-- milliseconds after the clock, less what the clock shows below a microsecond.
pub abstime_lem :
    (ts : TimeSpec) (millsecond : ℕ)
    → IsTime ts
    → millsecond < 2 ^ 31
    → ((abstime ts millsecond).nsec < 1000000000)
      × (nanos (abstime ts millsecond) + ts.nsec % 1000 ≡ nanos ts + millsecond * 1000000)
unfolding abstime
abstime_lem ts millsecond h k = omega arith

-- Thread::sleep asks for exactly its milliseconds, as a time that nanosleep takes.
pub sleep_time_lem :
    (millsecond : ℕ)
    → ((sleep_time millsecond).nsec < 1000000000)
      × (nanos (sleep_time millsecond) ≡ millsecond * 1000000)
unfolding sleep_time
sleep_time_lem millsecond = omega arith
