-- ===== src/Threads/Signals.antt =====
-- The signals of sys/thread_queue.h: threads that sleep in pop_front or swap, and whom
-- pthread_cond_signal of sys/thread_cond.cpp wakes. Steps are those of Threads/Run, with each sleeping
-- thread in one of two lists, by whether it has been signalled.
use deps.Prelude.{ℕ, ◌≡◌, Bool, true, false, List, [], ◌∷◌, ◌++◌, ◌&&◌, leb, length}
use deps.Threads.{ThreadQueue, Next, with_data, no_data, waits, clear, woken}
use deps.Threads.{push_front, push_front_all, push_back, push_back_all}
use deps.Threads.Run.{Call, attempt, swaps_in}

-- The four members that push.
pub data Push (A : Type 0) : Type 0 where
  front : A → Push A
  front_all : List A → Push A
  back : A → Push A
  back_all : List A → Push A

-- A thread in a wait of a member of the reading side, with its millsecond.
pub record Sleeper (A : Type 0) : Type 0 where
  pub call : Call A
  pub millsecond : ℕ

-- `is_single` says that no queue of more than one item was pushed, and none with items swapped in.
pub record World (A : Type 0) : Type 0 where
  pub queue : ThreadQueue A
  pub sleeping : List (Sleeper A)
  pub signalled : List (Sleeper A)
  pub is_single : Bool

module _ {A : Type 0} where
  unfoldable pub pushed : Push A → ThreadQueue A → Bool × ThreadQueue A
  pushed (front t) q = push_front t q
  pushed (front_all ts) q = push_front_all ts q
  pushed (back t) q = push_back t q
  pushed (back_all ts) q = push_back_all ts q

  -- How many items a push has.
  unfoldable pub count : Push A → ℕ
  count (front t) = 1
  count (front_all ts) = length ts
  count (back t) = 1
  count (back_all ts) = length ts

  -- pthread_cond_signal: one of those who sleep, whichever, or none if there is none.
  pub data Signal
      : List (Sleeper A) → List (Sleeper A) → List (Sleeper A) → List (Sleeper A) → Type 0 where
    nobody : {ready : List (Sleeper A)} → Signal [] ready [] ready
    one :
        {ready : List (Sleeper A)} (xs ys : List (Sleeper A)) (s : Sleeper A)
        → Signal (xs ++ (s ∷ ys)) ready (xs ++ ys) (s ∷ ready)

  -- The loop of a member, from a test to the next wait or its end.
  unfoldable pub tested : Sleeper A → Next A × List A → World A → World A
  tested s (waits, items) w = record w {
    queue = record (w.queue) { items = items };
    sleeping = s ∷ w.sleeping;
    is_single = w.is_single && swaps_in s.call;
  }
  tested s (with_data xs, items) w = record w {
    queue = record (w.queue) { items = items };
    is_single = w.is_single && swaps_in s.call;
  }
  tested s (no_data, items) w = record w {
    queue = record (w.queue) { items = items };
    is_single = w.is_single && swaps_in s.call;
  }

  -- A thread pushes and signals, whether there was room or not; it calls pop_front or swap; it goes on
  -- after a signal; or it wakes without one, since its time is over or by itself.
  pub data Step : World A → World A → Type 0 where
    pushes :
        {w : World A} {sleeping signalled : List (Sleeper A)} (p : Push A)
        → Signal w.sleeping w.signalled sleeping signalled
        → Step w (record {
          queue = (pushed p w.queue).1;
          sleeping = sleeping;
          signalled = signalled;
          is_single = w.is_single && leb (count p) 1;
        })
    clears : {w : World A} → Step w (record w { queue = clear w.queue })
    calls :
        {w : World A} (s : Sleeper A)
        → Step w (tested s (attempt s.call s.millsecond w.queue.items) w)
    goes_on :
        {w : World A} (xs ys : List (Sleeper A)) (s : Sleeper A)
        → w.signalled ≡ xs ++ (s ∷ ys)
        → Step w (
            tested s
              (woken false s.millsecond (attempt s.call s.millsecond) w.queue.items)
              (record w { signalled = xs ++ ys }))
    wakes :
        {w : World A} (xs ys : List (Sleeper A)) (s : Sleeper A) (timed_out : Bool)
        → w.sleeping ≡ xs ++ (s ∷ ys)
        → Step w (
            tested s
              (woken timed_out s.millsecond (attempt s.call s.millsecond) w.queue.items)
              (record w { sleeping = xs ++ ys }))

  -- The worlds that steps lead to, from a new queue that no thread uses.
  pub data Reach (top : ℕ) : World A → Type 0 where
    start : Reach top (record {
      queue = record { max_size = top; items = [] };
      sleeping = [];
      signalled = [];
      is_single = true;
    })
    next : {w w' : World A} → Reach top w → Step w w' → Reach top w'
