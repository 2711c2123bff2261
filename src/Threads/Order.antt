-- ===== src/Threads/Order.antt =====
-- What holds of a ThreadQueue of sys/thread_queue.h however its threads run.
use deps.Prelude.{ℕ, ◌+◌, ◌^◌, ◌≤◌, ◌<◌, ◌≡◌, refl, sym, ap, ◌∙◌, arith}
use deps.Prelude.{Bool, true, false, List, [], ◌∷◌, ◌++◌, append-nil, append_assoc}
use deps.Prelude.{◌&&◌, ◌==◌, ltb, length, length-append, inl, inr, Bool-cases, tests}
use mathlib.Core.Bool.{false≢true}
use deps.Buffer.{add_size, npos}
use deps.Threads.{Next, waits, clear, is_empty, time_wait}
use deps.Threads.{push_front, push_front_all, fronts, push_back, push_back_all, backs}
use deps.Threads.{pop_items, swap_items, woken, wait_or_leave}
use deps.Threads.Run.{Call, pop_front, swap, Thread, idle, asleep, answered, refused, World}
use deps.Threads.Run.{attempt, becomes, taken_by, swaps_in, swaps_short, pushes_short, read_by}
use deps.Threads.Run.{Step, back, back_all, front, front_all, clears, pops, swaps, wakes}

pub both_true : (a b : Bool) → (a && b) ≡ true → (a ≡ true) × (b ≡ true)
both_true true true e = (refl, refl)
both_true true false e = absurd (false≢true e)
both_true false b e = absurd (false≢true e)

module _ {A : Type 0} where
  -- A thread sleeps only if it was asked to wait.
  abbrev IsPatient : Thread A → Type 0
  IsPatient (asleep call millsecond) = (millsecond == 0) ≡ false
  IsPatient idle = Unit {0}
  IsPatient (answered xs) = Unit {0}
  IsPatient refused = Unit {0}

  pub record IsOrderly (w : World A) : Type 0 where
    pub bounded : w.is_short ≡ true → length w.queue.items ≤ w.queue.max_size
    pub small : w.queue.max_size < 2 ^ 63
    pub fifo : w.is_fifo ≡ true → w.given ≡ w.taken ++ w.queue.items
    pub patient : (i : ℕ) → IsPatient (w.threads i)

  -- What one test of the loop comes to.
  record Attempted (call : Call A) (millsecond top : ℕ) (items : List A) (r : Next A × List A)
      : Type 0 where
    bounded : swaps_short top call ≡ true → length items ≤ top → length r.1 ≤ top
    ordered : swaps_in call ≡ true → items ≡ taken_by r.0 ++ r.1
    patient : IsPatient (becomes call millsecond r.0)

  left-Attempted :
      (call : Call A) (millsecond top : ℕ)
      → Attempted call millsecond top [] (wait_or_leave millsecond, [])
  unfolding wait_or_leave
  left-Attempted call millsecond top = elim (Bool-cases (millsecond == 0)) [
    | inl z ↦ rw z (record { bounded = λ s b. b; ordered = λ e. refl; patient = tt })
    | inr z ↦ rw z (record { bounded = λ s b. b; ordered = λ e. refl; patient = z })
  ]

  pub is_empty_lem : (xs : List A) → is_empty xs ≡ true → xs ≡ []
  unfolding is_empty
  is_empty_lem [] e = refl
  is_empty_lem (x ∷ xs) e = absurd (false≢true e)

  attempt-Attempted :
      (call : Call A) (millsecond top : ℕ) (items : List A)
      → Attempted call millsecond top items (attempt call millsecond items)
  unfolding pop_items swap_items
  attempt-Attempted pop_front millsecond top [] = left-Attempted pop_front millsecond top
  attempt-Attempted pop_front millsecond top (t ∷ ts) = record {
    bounded = λ s b. omega arith;
    ordered = λ e. refl;
    patient = tt;
  }
  attempt-Attempted (swap mine) millsecond top [] = left-Attempted (swap mine) millsecond top
  attempt-Attempted (swap mine) millsecond top (t ∷ ts) = record {
    bounded = λ s b. omega tests;
    ordered = λ e. sym (ap (λ xs. (t ∷ ts) ++ xs) (is_empty_lem mine e) ∙ append-nil (t ∷ ts));
    patient = tt;
  }

  -- A wait that times out goes on as one that is signalled.
  pub woken_lem :
      (timed_out : Bool) (millsecond : ℕ) (again : List A → Next A × List A) (items : List A)
      → woken timed_out millsecond again items ≡ again items
  unfolding woken time_wait
  woken_lem timed_out millsecond again items = elim (Bool-cases (millsecond == npos)) [
    | inl z ↦ rw z refl
    | inr z ↦ rw z refl
  ]

  read_by-IsOrderly :
      (i millsecond : ℕ) (call : Call A) (r : Next A × List A) (w : World A)
      → IsOrderly w
      → Attempted call millsecond w.queue.max_size w.queue.items r
      → IsOrderly (read_by i call millsecond r w)
  read_by-IsOrderly i millsecond call (next, items) w o a = record {
    bounded = λ e.
        (let (f, g) = both_true w.is_short (swaps_short w.queue.max_size call) e in
          a.bounded g (o.bounded f));
    small = o.small;
    fifo = λ e.
        (let (f, g) = both_true w.is_fifo (swaps_in call) e in
          o.fifo f
          ∙ (ap (λ xs. w.taken ++ xs) (a.ordered g)
              ∙ sym (append_assoc w.taken (taken_by next) items)));
    patient =
        λ j. elim (Bool-cases (j == i)) [ inl e ↦ rw e a.patient | inr e ↦ rw e (o.patient j) ];
  }

  pub length-fronts : (ts items : List A) → length (fronts ts items) ≡ length items + length ts
  unfolding fronts
  length-fronts [] items = omega arith
  length-fronts (t ∷ ts) items = omega (arith, length-fronts ts (t ∷ items))

  pub backs_lem : (ts items : List A) → backs ts items ≡ items ++ ts
  unfolding backs
  backs_lem [] items = sym (append-nil items)
  backs_lem (t ∷ ts) items = backs_lem ts (items ++ (t ∷ [])) ∙ append_assoc items (t ∷ []) ts

  -- Items pushed at the back for which there is room.
  back_by-IsOrderly :
      (ts : List A) (w : World A)
      → IsOrderly w
      → (pushes_short ts w ≡ true → length w.queue.items + length ts ≤ w.queue.max_size)
      → IsOrderly (record w {
        queue = record (w.queue) { items = w.queue.items ++ ts };
        given = w.given ++ ts;
        is_short = pushes_short ts w;
      })
  back_by-IsOrderly ts w o b = record {
    bounded = λ e. (let l = b e in omega (arith, length-append w.queue.items ts));
    small = o.small;
    fifo = λ e. ap (λ xs. xs ++ ts) (o.fifo e) ∙ append_assoc w.taken w.queue.items ts;
    patient = o.patient;
  }

  front_by-IsOrderly :
      (items : List A) (w : World A) (is_short : Bool)
      → IsOrderly w
      → (is_short ≡ true → length items ≤ w.queue.max_size)
      → IsOrderly (record w {
        queue = record (w.queue) { items = items };
        is_fifo = false;
        is_short = is_short;
      })
  front_by-IsOrderly items w is_short o b = record {
    bounded = b;
    small = o.small;
    fifo = λ e. absurd (false≢true e);
    patient = o.patient;
  }

  -- A push that was refused.
  still-IsOrderly :
      (ts : List A) (w : World A)
      → IsOrderly w
      → IsOrderly (record w { is_short = pushes_short ts w })
  still-IsOrderly ts w o = record {
    bounded = λ e. o.bounded (both_true w.is_short (ltb (length ts) (2 ^ 63)) e).0;
    small = o.small;
    fifo = o.fifo;
    patient = o.patient;
  }

  -- Where the test of a push is passed and its sum does not wrap, there is room.
  room :
      (ts : List A) (w : World A)
      → IsOrderly w
      → ltb w.queue.max_size (add_size (length w.queue.items) (length ts)) ≡ false
      → pushes_short ts w ≡ true
      → length w.queue.items + length ts ≤ w.queue.max_size
  room ts w o z e =
      let (f, g) = both_true w.is_short (ltb (length ts) (2 ^ 63)) e in
      let b = o.bounded f in omega (tests, o.small)

  -- Every step of every thread keeps the order and the bound.
  Step-IsOrderly : {w w' : World A} → Step w w' → IsOrderly w → IsOrderly w'
  unfolding push_back push_back_all push_front push_front_all clear
  Step-IsOrderly {w} (back t) o =
      elim (Bool-cases (ltb w.queue.max_size (add_size (length w.queue.items) 1))) [
        | inl z ↦ rw z (still-IsOrderly (t ∷ []) w o)
        | inr z ↦ rw z (back_by-IsOrderly (t ∷ []) w o (room (t ∷ []) w o z))
      ]
  Step-IsOrderly {w} (back_all ts) o =
      elim (Bool-cases (ltb w.queue.max_size (add_size (length w.queue.items) (length ts)))) [
        | inl z ↦ rw z (still-IsOrderly ts w o)
        | inr z ↦ rw (z, backs_lem ts w.queue.items) (back_by-IsOrderly ts w o (room ts w o z))
      ]
  Step-IsOrderly {w} (front t) o =
      elim (Bool-cases (ltb w.queue.max_size (add_size (length w.queue.items) 1))) [
        | inl z ↦ rw z (
            front_by-IsOrderly w.queue.items w (pushes_short (t ∷ []) w) o
              (still-IsOrderly (t ∷ []) w o).bounded)
        | inr z ↦ rw z (
            front_by-IsOrderly (t ∷ w.queue.items) w (pushes_short (t ∷ []) w) o
              (λ e. (let l = room (t ∷ []) w o z e in omega arith)))
      ]
  Step-IsOrderly {w} (front_all ts) o =
      elim (Bool-cases (ltb w.queue.max_size (add_size (length w.queue.items) (length ts)))) [
        | inl z ↦ rw z (
            front_by-IsOrderly w.queue.items w (pushes_short ts w) o
              (still-IsOrderly ts w o).bounded)
        | inr z ↦ rw z (
            front_by-IsOrderly (fronts ts w.queue.items) w (pushes_short ts w) o
              (λ e. (let l = room ts w o z e in omega (arith, length-fronts ts w.queue.items))))
      ]
  Step-IsOrderly {w} clears o = front_by-IsOrderly [] w w.is_short o (λ e. omega arith)
  Step-IsOrderly {w} (pops i millsecond) o =
      read_by-IsOrderly i millsecond pop_front _ w o
        (attempt-Attempted pop_front millsecond _ w.queue.items)
  Step-IsOrderly {w} (swaps i millsecond mine) o =
      read_by-IsOrderly i millsecond (swap mine) _ w o
        (attempt-Attempted (swap mine) millsecond _ w.queue.items)
  Step-IsOrderly {w} (wakes i millsecond call timed_out e) o =
      read_by-IsOrderly i millsecond call _ w o (
        rw (woken_lem timed_out millsecond (attempt call millsecond) w.queue.items)
          (attempt-Attempted call millsecond _ w.queue.items))

  -- The worlds that steps lead to, from a new queue that no thread uses.
  pub data Reach (top : ℕ) : World A → Type 0 where
    start : Reach top (record {
      queue = record { max_size = top; items = [] };
      threads = λ i. idle;
      given = [];
      taken = [];
      is_fifo = true;
      is_short = true;
    })
    next : {w w' : World A} → Reach top w → Step w w' → Reach top w'

  pub Reach-IsOrderly : {top : ℕ} {w : World A} → top < 2 ^ 63 → Reach top w → IsOrderly w
  Reach-IsOrderly h start = record {
    bounded = λ e. omega arith;
    small = h;
    fifo = λ e. refl;
    patient = λ i. tt;
  }
  Reach-IsOrderly h (next r s) = Step-IsOrderly s (Reach-IsOrderly h r)

  -- However the steps of the threads are mixed: a queue with a limit below 2^63 never has more items
  -- than the limit while no queue of 2^63 items or more is pushed and none longer than the limit is
  -- swapped in; and while nothing is pushed at the front, cleared or swapped in, what has left it and
  -- then what it holds is all that was pushed, in this order.
  pub Reach-fifo :
      {top : ℕ} {w : World A}
      → top < 2 ^ 63
      → Reach top w
      → (w.is_short ≡ true → length w.queue.items ≤ w.queue.max_size)
        × (w.is_fifo ≡ true → w.given ≡ w.taken ++ w.queue.items)
  Reach-fifo h r = let o = Reach-IsOrderly h r in (o.bounded, o.fifo)

  attempt_empty :
      (call : Call A) (millsecond : ℕ)
      → (millsecond == 0) ≡ false
      → attempt call millsecond [] ≡ (waits, [])
  unfolding pop_items swap_items wait_or_leave
  attempt_empty pop_front millsecond z = rw z refl
  attempt_empty (swap mine) millsecond z = rw z refl

  -- A thread that sleeps in pop_front or swap on an empty queue, and whose wait ends, with its time over
  -- or not: it is not answered false, but sleeps again, and the queue stays empty.
  pub woken_unrefused :
      {top : ℕ} {w : World A} (i millsecond : ℕ) (call : Call A) (timed_out : Bool)
      → top < 2 ^ 63
      → Reach top w
      → w.threads i ≡ asleep call millsecond
      → w.queue.items ≡ []
      → woken timed_out millsecond (attempt call millsecond) w.queue.items ≡ (waits, [])
  woken_unrefused {w = w} i millsecond call timed_out h r e n =
      let z = rw e at ((Reach-IsOrderly h r).patient i) in
      rw (woken_lem timed_out millsecond (attempt call millsecond) w.queue.items, n)
        (attempt_empty call millsecond z)
