-- ===== src/Threads/Tests.antt =====
-- Runs of the theorems on a queue of two items and two threads.
use deps.Prelude.{ℕ, ◌≤◌, ◌≡◌, refl, arith, true, [], ◌∷◌, ◌++◌}
use deps.Prelude.{length}
use deps.Threads.{push_back, pop_items, wait_or_leave, woken, time_wait, waits}
use deps.Threads.Run.{pop_front, idle, asleep, answered, World}
use deps.Threads.Run.{attempt, read_by, back_by, back, pops, wakes}
use deps.Threads.Order.{Reach, start, next, Reach-fifo, woken_unrefused}
use deps.Prelude.{◌&&◌, leb, false}
use deps.Threads.{push_back_all, backs}
use deps.Threads.Signals
use deps.Threads.Signals.{Push, Sleeper, tested, calls, goes_on, pushes, one, count}
use deps.Threads.Awake.{IsAwake, Reach-IsAwake}

abbrev new_world : World ℕ
new_world = record {
  queue = record { max_size = 2; items = [] };
  threads = λ i. idle;
  given = [];
  taken = [];
  is_fifo = true;
  is_short = true;
}

-- Thread 1 waits in pop_front, and then an item comes.
abbrev waiting : World ℕ
waiting = read_by 1 pop_front 20 (attempt pop_front 20 []) new_world

abbrev pushed : World ℕ
pushed = back_by (7 ∷ []) (push_back 7 waiting.queue) waiting

pushed_asleep : pushed.threads 1 ≡ asleep pop_front 20
unfolding push_back pop_items wait_or_leave
pushed_asleep = refl

pushed-Reach : Reach 2 pushed
pushed-Reach = next (next start (pops 1 20)) (back 7)

-- It wakes up.
abbrev served : World ℕ
served = read_by 1 pop_front 20 (woken true 20 (attempt pop_front 20) pushed.queue.items) pushed

served_answered : served.threads 1 ≡ answered (7 ∷ [])
unfolding push_back pop_items wait_or_leave woken time_wait
served_answered = refl

Reach-fifo_example :
    (served.is_short ≡ true → length served.queue.items ≤ served.queue.max_size)
    × (served.is_fifo ≡ true → served.given ≡ served.taken ++ served.queue.items)
Reach-fifo_example =
    Reach-fifo {w = served} (omega arith)
      (next pushed-Reach (wakes 1 20 pop_front true pushed_asleep))

waiting_asleep : waiting.threads 1 ≡ asleep pop_front 20
unfolding pop_items wait_or_leave
waiting_asleep = refl

waiting_empty : waiting.queue.items ≡ []
unfolding pop_items
waiting_empty = refl

woken_unrefused_example : woken true 20 (attempt pop_front 20) waiting.queue.items ≡ (waits, [])
woken_unrefused_example =
    woken_unrefused {w = waiting} 1 20 pop_front true (omega arith) (next start (pops 1 20))
      waiting_asleep waiting_empty

-- Two threads sleep, one item comes, and one of them is signalled.
abbrev patient : Sleeper ℕ
patient = record { call = pop_front; millsecond = 20 }

abbrev unused : Signals.World ℕ
unused = record {
  queue = record { max_size = 2; items = [] };
  sleeping = [];
  signalled = [];
  is_single = true;
}

abbrev one_asleep : Signals.World ℕ
one_asleep = tested patient (attempt pop_front 20 []) unused

abbrev both_asleep : Signals.World ℕ
both_asleep = tested patient (attempt pop_front 20 one_asleep.queue.items) one_asleep

both_sleep : both_asleep.sleeping ≡ patient ∷ patient ∷ []
unfolding tested pop_items wait_or_leave
both_sleep = refl

both_asleep-Reach : Signals.Reach 2 both_asleep
both_asleep-Reach = Signals.next (Signals.next Signals.start (calls patient)) (calls patient)

abbrev after_push : Push ℕ → Signals.World ℕ
after_push p = record {
  queue = (Signals.pushed p both_asleep.queue).1;
  sleeping = patient ∷ [];
  signalled = patient ∷ both_asleep.signalled;
  is_single = both_asleep.is_single && leb (count p) 1;
}

after_push-Reach : (p : Push ℕ) → Signals.Reach 2 (after_push p)
after_push-Reach p =
    Signals.next both_asleep-Reach (pushes p (rw both_sleep (one [] (patient ∷ []) patient)))

after_push_single : (after_push (Signals.back 7)).is_single ≡ true
unfolding tested count pop_items wait_or_leave
after_push_single = refl

Reach-IsAwake_example : IsAwake (after_push (Signals.back 7))
Reach-IsAwake_example = Reach-IsAwake (after_push-Reach (Signals.back 7)) after_push_single

-- Two items that are pushed at once wake one thread: when it has gone on, the other sleeps, an item is
-- left, and nobody is signalled.
abbrev left_over : Signals.World ℕ
left_over =
    let w = after_push (Signals.back_all (7 ∷ 8 ∷ [])) in
    tested patient (woken false 20 (attempt pop_front 20) w.queue.items)
      (record w { signalled = [] ++ [] })

left_over-Reach : Signals.Reach 2 left_over
unfolding tested pop_items wait_or_leave
left_over-Reach =
    Signals.next (after_push-Reach (Signals.back_all (7 ∷ 8 ∷ []))) (goes_on [] [] patient refl)

left_over_run :
    (left_over.queue.items ≡ 8 ∷ [])
    × (left_over.sleeping ≡ patient ∷ [])
    × (left_over.signalled ≡ [])
unfolding tested woken time_wait pop_items wait_or_leave Signals.pushed push_back_all backs
left_over_run = (refl, refl, refl)
