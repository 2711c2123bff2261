-- ===== src/Sys/Locks/Tests.antt =====
-- The theorem on the scopes of sys/locker.h for a mutex that is given to one thread at a time.
use deps.Prelude.{ℕ, ◌≡◌, ◌≢◌, refl, sym, ap, ◌∙◌, arith, inl, inr}
use deps.Prelude.{Bool, true, false, Option, none, some, ◌==◌, if◌then◌else◌, Bool-cases, tests}
use deps.Sys.Locks.{
  Mode, idle, reading, writing, Answer, returns, waits, Api, asserted, lock, unlock,
}
use deps.Sys.Locks.{World, locker, entered, left}
use deps.Sys.Locks.Exclusion.{Compatible, Documented, Reach, start, next, Reach-exclusive}

abbrev held_by : Option ℕ → ℕ → Mode
held_by none t = idle
held_by (some u) t = if t == u then writing else idle

-- EDEADLK for the thread that has it, and a wait for the others.
abbrev lock_mutex : Mode → ℕ → Option ℕ → Answer (Option ℕ)
lock_mutex writing t none = returns 0 (some t)
lock_mutex writing t (some u) = if t == u then returns 35 (some u) else waits
lock_mutex reading t s = waits
lock_mutex idle t s = waits

abbrev unlock_mutex : ℕ → Option ℕ → Answer (Option ℕ)
unlock_mutex t none = returns 1 none
unlock_mutex t (some u) = if t == u then returns 0 none else returns 1 (some u)

abbrev mutex : Api (Option ℕ)
mutex = record {
  holder = held_by;
  lock = lock_mutex;
  try_lock = λ m t s. (16, s);
  unlock = unlock_mutex;
}

abbrev state_of : Answer (Option ℕ) → Option ℕ
state_of (returns code s) = s
state_of waits = none

another : (u t : ℕ) → u ≢ t → (u == t) ≡ false
another u t n = elim (Bool-cases (u == t)) [ inl z ↦ absurd (n (omega tests)) | inr z ↦ z ]

taken :
    (t : ℕ) (s' : Option ℕ)
    → s' ≡ some t
    → (held_by s' t ≡ writing)
      × ((u : ℕ) → u ≢ t → held_by s' u ≡ idle)
      × ((u : ℕ) → u ≢ t → idle ≡ idle)
taken t s' e =
    let same : (t == t) ≡ true = ground arith in
    rw e (rw same refl, λ u n. rw (another u t n) refl, λ u n. refl)

given :
    (m : Mode) (t : ℕ) (s s' : Option ℕ)
    → lock_mutex m t s ≡ returns 0 s'
    → (held_by s' t ≡ m)
      × ((u : ℕ) → u ≢ t → held_by s' u ≡ held_by s u)
      × ((u : ℕ) → u ≢ t → Compatible m (held_by s u))
given idle t s s' e = absurd (cc)
given reading t s s' e = absurd (cc)
given writing t none s' e = taken t s' (sym (ap state_of e))
given writing t (some u) s' e = absurd (refused (t == u) e)
  where
    refused : (b : Bool) → ¬ ((if b then returns 35 (some u) else waits) ≡ returns 0 s')
    refused true f = absurd (cc)
    refused false f = cc

back :
    (t : ℕ) (s : Option ℕ)
    → held_by s t ≢ idle
    → (s' : Option ℕ) × (unlock_mutex t s ≡ returns 0 s')
      × (held_by s' t ≡ idle)
      × ((u : ℕ) → u ≢ t → held_by s' u ≡ held_by s u)
back t none h = absurd (h refl)
back t (some v) h = elim (Bool-cases (t == v)) [
  | inl z ↦
      let same : t ≡ v = omega tests in
      (none, rw z refl, refl, λ u n. sym (rw (ap (λ k. u == k) (sym same) ∙ another u t n) refl))
  | inr z ↦ absurd (h (rw z refl))
]

mutex-Documented : Documented mutex
mutex-Documented = record { granted = given; given_back = back }

-- Thread 3 has made a Locker.
abbrev unused : World mutex
unused = record { state = none; scopes = λ t. idle; stopped = false }

abbrev used : World mutex
used = entered mutex 3 writing (lock mutex 3 none) unused

used-Reach : Reach mutex used
used-Reach = next (start none (λ t. refl)) (locker 3 refl)

Reach-exclusive_example :
    ((t u : ℕ) → t ≢ u → Compatible (used.scopes t) (used.scopes u))
    × ((t : ℕ)
        → used.scopes t ≢ idle
        → (left mutex t (unlock mutex t used.state) used).stopped ≡ used.stopped)
Reach-exclusive_example = Reach-exclusive mutex mutex-Documented used-Reach

used_run : (used.scopes 3 ≡ writing) × (used.scopes 4 ≡ idle) × (used.stopped ≡ false)
unfolding entered lock asserted
used_run = (refl, refl, refl)
