-- ===== src/Sys/Logger/Rotation.antt =====
-- maybeRotate of sys/logger.cpp run by any number of threads at once, around the atomic m_realRotate.
use deps.Prelude.{ℕ, ◌+◌, ◌≤◌, ◌≡◌, ◌≢◌, refl, sym, ◌∙◌, arith, inl, inr}
use deps.Prelude.{ℤ, pos, ◌+ℤ◌, neg, quotient, same_int, same_int_refl}
use deps.Prelude.{true, false, ◌==◌, if◌then◌else◌, Bool-cases, tests, ==→ne}
use mathlib.Core.Path.{subst}

-- `now` and the old value of a thread that has passed the first test, and of one that rotates.
pub data Thread : Type 0 where
  outside : Thread
  tested : ℕ → Thread
  rotating : ℕ → Thread

-- `rotations` counts those that have succeeded.
pub record World : Type 0 where
  pub real_rotate : ℕ
  pub threads : ℕ → Thread
  pub rotations : ℕ

abbrev pub set_thread : ℕ → Thread → (ℕ → Thread) → ℕ → Thread
set_thread i t threads j = if j == i then t else threads j

module _ (timezone : ℤ) (interval : ℕ) where
  -- The number of the period that a time lies in.
  abbrev pub period : ℕ → ℤ
  period t = quotient (pos t +ℤ neg timezone) interval

  abbrev pub exchange : ℕ → ℕ → World → World
  exchange i now w = record w {
    real_rotate = now;
    threads =
        set_thread i
          (if same_int (period now) (period w.real_rotate) then outside else rotating w.real_rotate)
          w.threads;
  }

  -- The atomic steps of threads whose clock shows times of the period `p`.
  pub data Step (p : ℤ) : World → World → Type 0 where
    load :
        {w : World} (i now : ℕ)
        → w.threads i ≡ outside
        → period now ≡ p
        → same_int (period now) (period w.real_rotate) ≡ false
        → Step p w (record w { threads = set_thread i (tested now) w.threads })
    exchanges : {w : World} (i now : ℕ) → w.threads i ≡ tested now → Step p w (exchange i now w)
    fails :
        {w : World} (i backup : ℕ)
        → w.threads i ≡ rotating backup
        → Step p w (record w { real_rotate = backup; threads = set_thread i outside w.threads })
    succeeds :
        {w : World} (i backup : ℕ)
        → w.threads i ≡ rotating backup
        → Step p w
            (record w { threads = set_thread i outside w.threads; rotations = w.rotations + 1 })

  pub data Reach (p : ℤ) : World → Type 0 where
    start :
        (last : ℕ) → Reach p (record { real_rotate = last; threads = λ i. outside; rotations = 0 })
    next : {w w' : World} → Reach p w → Step p w w' → Reach p w'

  abbrev IsRotating : Thread → Type 0
  IsRotating outside = ⊥
  IsRotating (tested now) = ⊥
  IsRotating (rotating backup) = Unit {0}

  abbrev IsIn : ℤ → Thread → Type 0
  IsIn p outside = Unit {0}
  IsIn p (tested now) = period now ≡ p
  IsIn p (rotating backup) = Unit {0}

  -- Before a rotation of the period, during one, and after it.
  data Phase (p : ℤ) (w : World) : Type 0 where
    before : ((j : ℕ) → ¬ IsRotating (w.threads j)) → w.rotations ≡ 0 → Phase p w
    during :
        (i : ℕ)
        → ((j : ℕ) → j ≢ i → ¬ IsRotating (w.threads j))
        → period w.real_rotate ≡ p
        → w.rotations ≡ 0
        → Phase p w
    afterwards :
        ((j : ℕ) → ¬ IsRotating (w.threads j))
        → period w.real_rotate ≡ p
        → w.rotations ≡ 1
        → Phase p w

  record IsOrderly (p : ℤ) (w : World) : Type 0 where
    phase : Phase p w
    clocks : (j : ℕ) → IsIn p (w.threads j)

  -- A property of all threads but some, after one of them has changed.
  all_but :
      (P : Thread → Type 0) (Q : ℕ → Type 0) (i : ℕ) (t : Thread) (threads : ℕ → Thread)
      → (Q i → P t)
      → ((j : ℕ) → Q j → P (threads j))
      → (j : ℕ) → Q j
      → P (set_thread i t threads j)
  all_but P Q i t threads h k j q = elim (Bool-cases (j == i)) [
    | inl e ↦ rw e (h (let same : j ≡ i = omega tests in subst Q same q))
    | inr e ↦ rw e (k j q)
  ]

  abbrev Anyone : ℕ → Type 0
  Anyone j = Unit {0}

  abbrev NotRotating : Thread → Type 0
  NotRotating t = ¬ IsRotating t

  quiet :
      (i : ℕ) (t : Thread) (threads : ℕ → Thread)
      → ¬ IsRotating t
      → ((j : ℕ) → ¬ IsRotating (threads j))
      → (j : ℕ) → ¬ IsRotating (set_thread i t threads j)
  quiet i t threads h k j = all_but NotRotating Anyone i t threads (λ q. h) (λ m q. k m) j tt

  set_thread-IsIn :
      {p : ℤ} {w : World} (i : ℕ) (t : Thread)
      → IsIn p t
      → IsOrderly p w
      → (j : ℕ) → IsIn p (set_thread i t w.threads j)
  set_thread-IsIn {p} {w} i t h o j =
      all_but (IsIn p) Anyone i t w.threads (λ q. h) (λ m q. o.clocks m) j tt

  -- Who has passed the first test has a time of the period.
  tested_in :
      {p : ℤ} {w : World} (i now : ℕ) → IsOrderly p w → w.threads i ≡ tested now → period now ≡ p
  tested_in {p} i now o e = subst (IsIn p) e (o.clocks i)

  found :
      (threads : ℕ → Thread) (i backup : ℕ) → threads i ≡ rotating backup → IsRotating (threads i)
  found threads i backup e = subst IsRotating (sym e) tt

  load-Phase :
      {p : ℤ} {w : World} (i now : ℕ)
      → Phase p w
      → Phase p (record w { threads = set_thread i (tested now) w.threads })
  load-Phase {w = w} i now (before a z) = before (quiet i (tested now) w.threads (λ b. b) a) z
  load-Phase {w = w} i now (during k a e z) =
      during k (all_but NotRotating (λ j. j ≢ k) i (tested now) w.threads (λ q b. b) a) e z
  load-Phase {w = w} i now (afterwards a e z) =
      afterwards (quiet i (tested now) w.threads (λ b. b) a) e z

  exchange-Phase :
      {p : ℤ} {w : World} (i now : ℕ) → period now ≡ p → Phase p w → Phase p (exchange i now w)
  exchange-Phase {p} {w} i now h (before a z) =
      elim (Bool-cases (same_int (period now) (period w.real_rotate))) [
        | inl s ↦ rw s (before (quiet i outside w.threads (λ b. b) a) z)
        | inr s ↦ rw s (
            during i
              (all_but NotRotating (λ j. j ≢ i) i (rotating w.real_rotate) w.threads
                (λ q. absurd (q refl)) (λ j q. a j))
              h z)
      ]
  exchange-Phase {p} {w} i now h (during k a e z) =
      let s : same_int (period now) (period w.real_rotate) ≡ true = rw (h, e) (same_int_refl p) in
      rw s (during k (all_but NotRotating (λ j. j ≢ k) i outside w.threads (λ q b. b) a) h z)
  exchange-Phase {p} {w} i now h (afterwards a e z) =
      let s : same_int (period now) (period w.real_rotate) ≡ true = rw (h, e) (same_int_refl p) in
      rw s (afterwards (quiet i outside w.threads (λ b. b) a) h z)

  -- The thread that rotates comes to its end; nobody else rotates then.
  ended :
      (threads : ℕ → Thread) (i k backup : ℕ)
      → threads i ≡ rotating backup
      → ((j : ℕ) → j ≢ k → ¬ IsRotating (threads j))
      → (j : ℕ) → ¬ IsRotating (set_thread i outside threads j)
  ended threads i k backup e a j = elim (Bool-cases (i == k)) [
    | inl s ↦ elim (Bool-cases (j == i)) [
      | inl t ↦ rw t (λ b. b)
      | inr t ↦ rw t (a j (λ q. ==→ne j i t (omega (tests, q))))
    ]
    | inr s ↦ absurd (a i (==→ne i k s) (found threads i backup e))
  ]

  Step-IsOrderly : {p : ℤ} {w w' : World} → Step p w w' → IsOrderly p w → IsOrderly p w'
  Step-IsOrderly (load i now e h s) o = record {
    phase = load-Phase i now o.phase;
    clocks = set_thread-IsIn i (tested now) h o;
  }
  Step-IsOrderly {p} {w} (exchanges i now e) o = record {
    phase = exchange-Phase i now (tested_in i now o e) o.phase;
    clocks = elim (Bool-cases (same_int (period now) (period w.real_rotate))) [
      | inl s ↦ rw s (set_thread-IsIn i outside tt o)
      | inr s ↦ rw s (set_thread-IsIn i (rotating w.real_rotate) tt o)
    ];
  }
  Step-IsOrderly {w = w} (fails i backup e) o = record {
    phase = elim o.phase [
      | before a z ↦ absurd (a i (found w.threads i backup e))
      | during k a h z ↦ before (ended w.threads i k backup e a) z
      | afterwards a h z ↦ absurd (a i (found w.threads i backup e))
    ];
    clocks = set_thread-IsIn i outside tt o;
  }
  Step-IsOrderly {w = w} (succeeds i backup e) o = record {
    phase = elim o.phase [
      | before a z ↦ absurd (a i (found w.threads i backup e))
      | during k a h z ↦ afterwards (ended w.threads i k backup e a) h (omega arith)
      | afterwards a h z ↦ absurd (a i (found w.threads i backup e))
    ];
    clocks = set_thread-IsIn i outside tt o;
  }

  Reach-IsOrderly : {p : ℤ} {w : World} → Reach p w → IsOrderly p w
  Reach-IsOrderly (start last) = record { phase = before (λ j b. b) refl; clocks = λ j. tt }
  Reach-IsOrderly (next r s) = Step-IsOrderly s (Reach-IsOrderly r)

  both_rotate :
      {p : ℤ} {w : World} (i j : ℕ)
      → Phase p w
      → IsRotating (w.threads i)
      → IsRotating (w.threads j)
      → (i ≡ j) × (w.rotations ≡ 0)
  both_rotate i j (before a z) b c = absurd (a i b)
  both_rotate {w = w} i j (during k a e z) b c =
      let at_k : (m : ℕ) → IsRotating (w.threads m) → m ≡ k = λ m d. elim (Bool-cases (m == k)) [
        | inl s ↦ omega tests
        | inr s ↦ absurd (a m (==→ne m k s) d)
      ] in
      (at_k i b ∙ sym (at_k j c), z)
  both_rotate i j (afterwards a e z) b c = absurd (a i b)

  once : {p : ℤ} {w : World} → Phase p w → w.rotations ≤ 1
  once (before a z) = omega arith
  once (during k a e z) = omega arith
  once (afterwards a e z) = omega arith

  -- Threads whose clocks all show one period rotate the file at most once in it, never two of them at a
  -- time, and none once it has been done, however their steps are mixed and whichever calls fail.
  pub Reach-once :
      {p : ℤ} {w : World}
      → Reach p w
      → (w.rotations ≤ 1)
        × ((i j a b : ℕ)
            → w.threads i ≡ rotating a
            → w.threads j ≡ rotating b
            → (i ≡ j) × (w.rotations ≡ 0))
  Reach-once {w = w} r = (
    once (Reach-IsOrderly r).phase,
    λ i j a b e f.
        both_rotate i j (Reach-IsOrderly r).phase (found w.threads i a e) (found w.threads j b f),
  )
