-- ===== src/Threads.antt =====
-- sys/thread_queue.h: ThreadQueue, the bounded queue between threads, with what ThreadCond::timeWait of
-- sys/thread_cond.cpp answers.
--
-- A member holds the lock from its start to its end, but for the waits of pop_front and swap; so a
-- member is a function, and a waiting member one up to each wait.
pub mod Run
pub mod Order
pub mod Signals
pub mod Awake
mod Tests
use deps.Prelude.{ℕ, ◌+◌, Bool, true, false, List, [], ◌∷◌, ◌++◌, not, ltb, ◌==◌}
use deps.Prelude.{if◌then◌else◌, length}
use deps.Buffer.{add_size, npos}

pub record ThreadQueue (A : Type 0) : Type 0 where
  pub max_size : ℕ
  pub items : List A

-- What a member of the reading side does next: it returns true with data, or false, or it waits.
pub data Next (A : Type 0) : Type 0 where
  with_data : List A → Next A
  no_data : Next A
  waits : Next A

-- pthread_cond_timedwait has timed out or not; the answer does not depend on it.
unfoldable pub time_wait : Bool → Bool
time_wait timed_out = true

module _ {A : Type 0} where
  unfoldable pub size : ThreadQueue A → ℕ
  size q = length q.items

  unfoldable pub clear : ThreadQueue A → ThreadQueue A
  clear q = record q { items = [] }

  unfoldable pub is_empty : List A → Bool
  is_empty [] = true
  is_empty (x ∷ xs) = false

  unfoldable pub empty : ThreadQueue A → Bool
  empty q = is_empty q.items

  unfoldable pub push_front : A → ThreadQueue A → Bool × ThreadQueue A
  push_front t q =
      if ltb q.max_size (add_size (length q.items) 1)
      then (false, q)
      else (true, record q { items = t ∷ q.items })

  -- The loop of push_front on a queue.
  unfoldable pub fronts : List A → List A → List A
  fronts [] items = items
  fronts (t ∷ ts) items = fronts ts (t ∷ items)

  unfoldable pub push_front_all : List A → ThreadQueue A → Bool × ThreadQueue A
  push_front_all ts q =
      if ltb q.max_size (add_size (length q.items) (length ts))
      then (false, q)
      else (true, record q { items = fronts ts q.items })

  unfoldable pub push_back : A → ThreadQueue A → Bool × ThreadQueue A
  push_back t q =
      if ltb q.max_size (add_size (length q.items) 1)
      then (false, q)
      else (true, record q { items = q.items ++ (t ∷ []) })

  -- The loop of push_back on a queue.
  unfoldable pub backs : List A → List A → List A
  backs [] items = items
  backs (t ∷ ts) items = backs ts (items ++ (t ∷ []))

  unfoldable pub push_back_all : List A → ThreadQueue A → Bool × ThreadQueue A
  push_back_all ts q =
      if ltb q.max_size (add_size (length q.items) (length ts))
      then (false, q)
      else (true, record q { items = backs ts q.items })

  -- The test of an empty queue in pop_front and swap.
  unfoldable pub wait_or_leave : ℕ → Next A
  wait_or_leave millsecond = if millsecond == 0 then no_data else waits

  -- pop_front from a test of its loop to the next wait or its end.
  unfoldable pub pop_items : ℕ → List A → Next A × List A
  pop_items millsecond [] = (wait_or_leave millsecond, [])
  pop_items millsecond (t ∷ ts) = (with_data (t ∷ []), ts)

  -- swap likewise, where `mine` is what the caller's queue holds.
  unfoldable pub swap_items : List A → ℕ → List A → Next A × List A
  swap_items mine millsecond [] = (wait_or_leave millsecond, [])
  swap_items mine millsecond (t ∷ ts) = (with_data (t ∷ ts), mine)

  -- A member of the reading side that is woken, by a signal or without one: `again` goes back to the
  -- test of the loop.
  unfoldable pub woken : Bool → ℕ → (List A → Next A × List A) → List A → Next A × List A
  woken timed_out millsecond again items =
      if millsecond == npos
      then again items
      else if not (time_wait timed_out)
      then (no_data, items)
      else again items
