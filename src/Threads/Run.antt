-- ===== src/Threads/Run.antt =====
-- Any number of threads on one ThreadQueue of sys/thread_queue.h: a step is a stretch between two
-- waits, and steps of different threads may come in any order.
use deps.Prelude.{ℕ, ◌^◌, ◌≡◌, Bool, true, false, List, [], ◌∷◌, ◌++◌}
use deps.Prelude.{◌&&◌, ◌==◌, ltb, leb, if◌then◌else◌, length}
use deps.Threads.{ThreadQueue, Next, with_data, no_data, waits, clear, is_empty}
use deps.Threads.{push_front, push_front_all, push_back, push_back_all}
use deps.Threads.{pop_items, swap_items, woken}

-- A waiting member of the reading side.
pub data Call (A : Type 0) : Type 0 where
  pop_front : Call A
  swap : List A → Call A

pub data Thread (A : Type 0) : Type 0 where
  idle : Thread A
  asleep : Call A → ℕ → Thread A
  answered : List A → Thread A
  refused : Thread A

-- `given` is all that was pushed at the back and `taken` all that left, each in order; `is_fifo`
-- says that nothing was pushed at the front, cleared or swapped in, and `is_short` that no queue of
-- 2^63 items or more was pushed, and none longer than the limit swapped in.
pub record World (A : Type 0) : Type 0 where
  pub queue : ThreadQueue A
  pub threads : ℕ → Thread A
  pub given : List A
  pub taken : List A
  pub is_fifo : Bool
  pub is_short : Bool

module _ {A : Type 0} where
  -- The test of the loop of a member, and what follows it.
  abbrev pub attempt : Call A → ℕ → List A → Next A × List A
  attempt pop_front millsecond items = pop_items millsecond items
  attempt (swap mine) millsecond items = swap_items mine millsecond items

  abbrev pub becomes : Call A → ℕ → Next A → Thread A
  becomes call millsecond (with_data xs) = answered xs
  becomes call millsecond no_data = refused
  becomes call millsecond waits = asleep call millsecond

  abbrev pub taken_by : Next A → List A
  taken_by (with_data xs) = xs
  taken_by no_data = []
  taken_by waits = []

  -- A swap with a caller's queue that is not empty puts its items in.
  abbrev pub swaps_in : Call A → Bool
  swaps_in pop_front = true
  swaps_in (swap mine) = is_empty mine

  abbrev pub swaps_short : ℕ → Call A → Bool
  swaps_short top pop_front = true
  swaps_short top (swap mine) = leb (length mine) top

  abbrev pub read_by : ℕ → Call A → ℕ → Next A × List A → World A → World A
  read_by i call millsecond (next, items) w = record {
    queue = record (w.queue) { items = items };
    threads = λ j. if j == i then becomes call millsecond next else w.threads j;
    given = w.given;
    taken = w.taken ++ taken_by next;
    is_fifo = w.is_fifo && swaps_in call;
    is_short = w.is_short && swaps_short w.queue.max_size call;
  }

  abbrev pub pushes_short : List A → World A → Bool
  pushes_short ts w = w.is_short && ltb (length ts) (2 ^ 63)

  abbrev pub back_by : List A → Bool × ThreadQueue A → World A → World A
  back_by ts (true, q) w = record w {
    queue = q;
    given = w.given ++ ts;
    is_short = pushes_short ts w;
  }
  back_by ts (false, q) w = record w { is_short = pushes_short ts w }

  abbrev pub front_by : List A → Bool × ThreadQueue A → World A → World A
  front_by ts (_, q) w = record w { queue = q; is_fifo = false; is_short = pushes_short ts w }

  -- One step of one thread.
  pub data Step : World A → World A → Type 0 where
    back : {w : World A} (t : A) → Step w (back_by (t ∷ []) (push_back t w.queue) w)
    back_all : {w : World A} (ts : List A) → Step w (back_by ts (push_back_all ts w.queue) w)
    front : {w : World A} (t : A) → Step w (front_by (t ∷ []) (push_front t w.queue) w)
    front_all : {w : World A} (ts : List A) → Step w (front_by ts (push_front_all ts w.queue) w)
    clears : {w : World A} → Step w (record w { queue = clear w.queue; is_fifo = false })
    pops :
        {w : World A} (i millsecond : ℕ)
        → Step w (read_by i pop_front millsecond (attempt pop_front millsecond w.queue.items) w)
    swaps :
        {w : World A} (i millsecond : ℕ) (mine : List A)
        → Step w (read_by i (swap mine) millsecond (attempt (swap mine) millsecond w.queue.items) w)
    wakes :
        {w : World A} (i millsecond : ℕ) (call : Call A) (timed_out : Bool)
        → w.threads i ≡ asleep call millsecond
        → Step w (
            read_by i call millsecond
              (woken timed_out millsecond (attempt call millsecond) w.queue.items)
              w)
