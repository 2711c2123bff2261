-- ===== src/Sys/Thread.antt =====
-- sys/thread.cpp and sys/thread.h: the start of a Thread, by any number of callers, one at a time, as the
-- lock of the object sees to it.
use deps.Prelude.{ℕ, zero, suc, ◌+◌, ◌≡◌, refl, ap, ◌∙◌}
use deps.Prelude.{Bool, true, false, Option, none, some, List, [], ◌∷◌, replicate}
use deps.Prelude.{◌==◌, not, ◌-◌, ◌^◌}

-- `created` counts the calls of pthread_create.
pub record Thread : Type 0 where
  pub running : Bool
  pub tid : ℕ
  pub created : ℕ

-- The constructor sets m_tid to -1.
unfoldable pub new_thread : Thread
new_thread = record { running = false; tid = 2 ^ 64 - 1; created = 0 }

abbrev and_then : {A B : Type 0} → Option A → (A → Option B) → Option B
and_then none f = none
and_then (some a) f = f a

-- pthread_create by the number of the call: the thread that it makes, or an error, at which the
-- assertion fails.
module _ (create : ℕ → Option ℕ) where
  unfoldable pub created_as : Option ℕ → Thread → Option (ℕ × Thread)
  created_as none t = none
  created_as (some tid) t =
      some (tid, record { running = true; tid = tid; created = t.created + 1 })

  -- By the test of `m_running`.
  unfoldable pub start_if : Bool → Thread → Option (ℕ × Thread)
  start_if true t = some (t.tid, t)
  start_if false t = created_as (create t.created) t

  unfoldable pub start : Thread → Option (ℕ × Thread)
  start t = start_if t.running t

  -- `n` calls, with what each answers.
  unfoldable pub start_all : ℕ → Thread → Option (List ℕ × Thread)
  start_all zero t = some ([], t)
  start_all (suc n) t =
      and_then (start t)
        (λ first. and_then (start_all n first.1) (λ rest. some (first.0 ∷ rest.0, rest.1)))

unfoldable pub is_alive : Thread → Bool
is_alive t = t.running

-- join and detach assert that the caller is another thread; the answer is whether they pass it.
unfoldable pub may_join : ℕ → Thread → Bool
may_join self t = not (self == t.tid)

module _ (create : ℕ → Option ℕ) where
  start_running :
      (n : ℕ) (t : Thread) → t.running ≡ true → start_all create n t ≡ some (replicate n t.tid, t)
  unfolding start_all start start_if
  start_running zero t h = refl
  start_running (suc n) t h =
      let again : Option (ℕ × Thread) → Option (List ℕ × Thread) = λ o. and_then o (λ first.
        and_then (start_all create n first.1) (λ rest. some (first.0 ∷ rest.0, rest.1))) in
      ap (λ b. again (start_if create b t)) h
      ∙ ap (λ o. and_then o (λ rest. some (t.tid ∷ rest.0, rest.1))) (start_running n t h)

  -- However many callers start a new Thread, one thread is created, and all of them are answered its
  -- number.
  pub start_all_lem :
      (n tid : ℕ)
      → create 0 ≡ some tid
      → start_all create (suc n) new_thread
        ≡ some (replicate (suc n) tid, record { running = true; tid = tid; created = 1 })
  unfolding start_all start start_if new_thread created_as
  start_all_lem n tid h =
      rw (h, start_running n (record { running = true; tid = tid; created = 1 }) refl) refl
