-- ===== src/Sys/Locks/Exclusion.antt =====
-- What the objects of sys/locker.h promise: exclusion, and locks that are given back.
use deps.Prelude.{ℕ, ◌≡◌, ◌≢◌, refl, sym, ap, ◌∙◌, inl, inr}
use deps.Prelude.{false, ◌==◌, Bool-cases, tests, ==→ne}
use mathlib.Core.Path.{subst}
use deps.Sys.Locks.{Mode, idle, reading, writing, Answer, returns, waits, Api}
use deps.Sys.Locks.{asserted, lock, unlock, read_lock, write_lock, World, set_scope, entered}
use deps.Sys.Locks.{left, Step, locker, rlocker, rwlocker, destroy}

-- May a thread have `m` while another has `n`?
abbrev pub Compatible : Mode → Mode → Type 0
Compatible idle n = Unit {0}
Compatible reading n = n ≢ writing
Compatible writing n = n ≡ idle

-- What POSIX says of these functions: a lock is given only where what the others have allows it, and
-- nothing changes for them; who has the lock gives it back without an error.
pub record Documented {S : Type 0} (api : Api S) : Type 0 where
  pub granted :
      (m : Mode) (t : ℕ) (s s' : S)
      → api.lock m t s ≡ returns 0 s'
      → (api.holder s' t ≡ m)
        × ((u : ℕ) → u ≢ t → api.holder s' u ≡ api.holder s u)
        × ((u : ℕ) → u ≢ t → Compatible m (api.holder s u))
  pub given_back :
      (t : ℕ) (s : S)
      → api.holder s t ≢ idle
      → (s' : S) × (api.unlock t s ≡ returns 0 s')
        × (api.holder s' t ≡ idle)
        × ((u : ℕ) → u ≢ t → api.holder s' u ≡ api.holder s u)

module _ {S : Type 0} (api : Api S) where
  -- Nobody has the lock at the start.
  pub data Reach : World api → Type 0 where
    start :
        (s : S)
        → ((t : ℕ) → api.holder s t ≡ idle)
        → Reach (record { state = s; scopes = λ t. idle; stopped = false })
    next : {w w' : World api} → Reach w → Step api w w' → Reach w'

  -- The lock knows of each scope, and the scopes go together.
  record IsOrderly (w : World api) : Type 0 where
    known : (t : ℕ) → api.holder w.state t ≡ w.scopes t
    together : (t u : ℕ) → t ≢ u → Compatible (w.scopes t) (w.scopes u)

  module _ (documented : Documented api) where
    Compatible-sym : (m n : Mode) → Compatible m n → Compatible n m
    Compatible-sym m idle c = tt
    Compatible-sym idle reading c = λ e. cc
    Compatible-sym reading reading c = λ e. cc
    Compatible-sym writing reading c = cc
    Compatible-sym idle writing c = refl
    Compatible-sym reading writing c = absurd (c refl)
    Compatible-sym writing writing c = cc

    -- A thread whose scope has become `m`, with the others as before.
    changed :
        (w : World api) (t : ℕ) (m : Mode) (s : S)
        → IsOrderly w
        → api.holder s t ≡ m
        → ((u : ℕ) → u ≢ t → api.holder s u ≡ api.holder w.state u)
        → ((u : ℕ) → u ≢ t → Compatible m (w.scopes u))
        → IsOrderly (record w { state = s; scopes = set_scope api t m w.scopes })
    changed w t m s o e f c = record {
      known = λ u. elim (Bool-cases (u == t)) [
        | inl z ↦ rw z (let same : u ≡ t = omega tests in ap (api.holder s) same ∙ e)
        | inr z ↦ rw z (f u (==→ne u t z) ∙ o.known u)
      ];
      together = λ u v n. elim (Bool-cases (u == t)) [
        | inl y ↦ elim (Bool-cases (v == t)) [
          | inl z ↦ absurd (n (omega tests))
          | inr z ↦ rw (y, z) (c v (==→ne v t z))
        ]
        | inr y ↦ elim (Bool-cases (v == t)) [
          | inl z ↦ rw (y, z) (Compatible-sym m (w.scopes u) (c u (==→ne u t y)))
          | inr z ↦ rw (y, z) (o.together u v n)
        ]
      ];
    }

    entered-IsOrderly :
        (w : World api) (t : ℕ) (m : Mode) (a : Answer S)
        → IsOrderly w
        → api.lock m t w.state ≡ a
        → IsOrderly (entered api t m (asserted a) w)
    unfolding entered asserted
    entered-IsOrderly w t m waits o e = o
    entered-IsOrderly w t m (returns code s) o e = elim (Bool-cases (code == 0)) [
      | inl z ↦
          let zero_code : code ≡ 0 = omega tests in
          let (h, f, c) = documented.granted m t w.state s (e ∙ ap (λ k. returns k s) zero_code) in
          rw z (changed w t m s o h f (λ u n. subst (Compatible m) (o.known u) (c u n)))
      | inr z ↦ rw z (record { known = o.known; together = o.together })
    ]

    left_lem :
        (w : World api) (t : ℕ)
        → IsOrderly w
        → w.scopes t ≢ idle
        → IsOrderly (left api t (unlock api t w.state) w)
          × ((left api t (unlock api t w.state) w).stopped ≡ w.stopped)
    unfolding left unlock asserted
    left_lem w t o h =
        let (s, e, g, f) = documented.given_back t w.state (λ z. h (sym (o.known t) ∙ z)) in
        rw e (changed w t idle s o g f (λ u n. tt), refl)

    Step-IsOrderly : {w w' : World api} → Step api w w' → IsOrderly w → IsOrderly w'
    unfolding lock read_lock write_lock
    Step-IsOrderly {w} (locker t e) o = entered-IsOrderly w t writing _ o refl
    Step-IsOrderly {w} (rlocker t e) o = entered-IsOrderly w t reading _ o refl
    Step-IsOrderly {w} (rwlocker t e) o = entered-IsOrderly w t writing _ o refl
    Step-IsOrderly {w} (destroy t h) o = (left_lem w t o h).0

    Reach-IsOrderly : {w : World api} → Reach w → IsOrderly w
    Reach-IsOrderly (start s h) = record { known = h; together = λ t u n. tt }
    Reach-IsOrderly (next r s) = Step-IsOrderly s (Reach-IsOrderly r)

    -- With pthread as documented, however threads make and destroy these objects on one lock, one at
    -- a time each: while a thread has a Locker or a RWLocker no other has any, while one has a RLocker
    -- no other has one to write, and no destructor fails its assertion.
    pub Reach-exclusive :
        {w : World api}
        → Reach w
        → ((t u : ℕ) → t ≢ u → Compatible (w.scopes t) (w.scopes u))
          × ((t : ℕ)
              → w.scopes t ≢ idle
              → (left api t (unlock api t w.state) w).stopped ≡ w.stopped)
    Reach-exclusive {w} r =
        ((Reach-IsOrderly r).together, λ t h. (left_lem w t (Reach-IsOrderly r) h).1)
