-- ===== src/Sys/Locks.antt =====
-- sys/thread_mutex.cpp, sys/thread_rwlock.cpp and sys/locker.h: the wrappers of pthread's locks with their
-- assertions, and the objects that hold a lock for a scope. What pthread does is a parameter.
pub mod Exclusion
mod Tests
use deps.Prelude.{ℕ, ◌≡◌, ◌≢◌, Bool, true, false, ◌==◌, if◌then◌else◌}

-- What a thread has of a lock. A mutex is a lock that is only written.
pub data Mode : Type 0 where
  idle : Mode
  reading : Mode
  writing : Mode

-- A call of pthread returns with a code, or it waits.
pub data Answer (S : Type 0) : Type 0 where
  returns : ℕ → S → Answer S
  waits : Answer S

-- pthread's functions on a lock with the states S: pthread_mutex_lock and pthread_rwlock_wrlock are `lock
-- writing`, pthread_rwlock_rdlock is `lock reading`, and the try functions are `try_lock`. The first
-- number is the calling thread.
pub record Api (S : Type 0) : Type 0 where
  pub holder : S → ℕ → Mode
  pub lock : Mode → ℕ → S → Answer S
  pub try_lock : Mode → ℕ → S → ℕ × S
  pub unlock : ℕ → S → Answer S

-- What a wrapper does: it returns, waits, or fails its assertion.
pub data Wrapped (A S : Type 0) : Type 0 where
  done : A → S → Wrapped A S
  waiting : Wrapped A S
  aborted : Wrapped A S

-- `assert(ret == 0)`.
unfoldable pub asserted : {S : Type 0} → Answer S → Wrapped (Unit {0}) S
asserted (returns code s) = if code == 0 then done tt s else aborted
asserted waits = waiting

abbrev pub ebusy : ℕ
ebusy = 16

module _ {S : Type 0} (api : Api S) where
  unfoldable pub lock : ℕ → S → Wrapped (Unit {0}) S
  lock t s = asserted (api.lock writing t s)

  unfoldable pub tried : ℕ × S → Wrapped Bool S
  tried (ret, s) = if ret == 0 then done true s else if ret == ebusy then done false s else aborted

  unfoldable pub try_lock : ℕ → S → Wrapped Bool S
  try_lock t s = tried (api.try_lock writing t s)

  -- ThreadMutex::unlock and ThreadRWLock::Unlock.
  unfoldable pub unlock : ℕ → S → Wrapped (Unit {0}) S
  unlock t s = asserted (api.unlock t s)

  unfoldable pub read_lock : ℕ → S → Wrapped (Unit {0}) S
  read_lock t s = asserted (api.lock reading t s)

  unfoldable pub write_lock : ℕ → S → Wrapped (Unit {0}) S
  write_lock t s = asserted (api.lock writing t s)

  -- The try functions of ThreadRWLock assert that they got the lock.
  unfoldable pub got : ℕ × S → Wrapped (Unit {0}) S
  got (ret, s) = asserted (returns ret s)

  unfoldable pub try_read_lock : ℕ → S → Wrapped (Unit {0}) S
  try_read_lock t s = got (api.try_lock reading t s)

  unfoldable pub try_write_lock : ℕ → S → Wrapped (Unit {0}) S
  try_write_lock t s = got (api.try_lock writing t s)

  -- Threads, each with the Locker, RLocker or RWLocker that it has on the lock: `scopes` is in which
  -- mode, and so m_locked. `stopped` is a failed assertion.
  pub record World : Type 0 where
    pub state : S
    pub scopes : ℕ → Mode
    pub stopped : Bool

  abbrev pub set_scope : ℕ → Mode → (ℕ → Mode) → ℕ → Mode
  set_scope t m scopes u = if u == t then m else scopes u

  unfoldable pub entered : ℕ → Mode → Wrapped (Unit {0}) S → World → World
  entered t m (done _ s) w = record w { state = s; scopes = set_scope t m w.scopes }
  entered t m waiting w = w
  entered t m aborted w = record w { stopped = true }

  unfoldable pub left : ℕ → Wrapped (Unit {0}) S → World → World
  left t (done _ s) w = record w { state = s; scopes = set_scope t idle w.scopes }
  left t waiting w = w
  left t aborted w = record w { stopped = true }

  -- The constructors and the destructors. A thread has one of these objects at a time.
  pub data Step : World → World → Type 0 where
    locker : {w : World} (t : ℕ) → w.scopes t ≡ idle → Step w (entered t writing (lock t w.state) w)
    rlocker :
        {w : World} (t : ℕ) → w.scopes t ≡ idle → Step w (entered t reading (read_lock t w.state) w)
    rwlocker :
        {w : World} (t : ℕ)
        → w.scopes t ≡ idle
        → Step w (entered t writing (write_lock t w.state) w)
    destroy : {w : World} (t : ℕ) → w.scopes t ≢ idle → Step w (left t (unlock t w.state) w)
