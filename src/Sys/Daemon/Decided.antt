-- ===== src/Sys/Daemon/Decided.antt =====
-- When daemonize of sys/tool.cpp succeeds.
use deps.Prelude.{ℕ, ◌≤◌, ◌≡◌, refl, sym, inl, inr}
use mathlib.Core.Path.{subst}
use deps.Prelude.{pos, Bool, true, false, Option, none, some}
use deps.Prelude.{Bool-cases}
use deps.Prelude.{◌⊎◌}
use deps.Sys.Daemon.{Process, Fork, refused, parent, child, Os, returned, limit_of}
use deps.Sys.Daemon.{close_below, close_spare, duplicate, redirect, detach, fork_again}
use deps.Sys.Daemon.{change_directory, led, lead_session, forked, daemonize, IsDaemon, LowestFree}
use deps.Sys.Daemon.Detached.{none_fails, first_free, daemonize-IsDaemon}

module _ (os : Os) where
  -- The calls without which daemonize does not go on.
  pub record AllSucceed : Type 0 where
    pub first : os.first_fork ≡ child
    pub own : os.setsid ≡ true
    pub second : os.second_fork ≡ child
    pub opens : (fd : ℕ) × (os.open_null ≡ some fd)
    pub copies : (os.dup2 0 ≡ true) × (os.dup2 1 ≡ true) × (os.dup2 2 ≡ true)

  -- R holds exactly if S does, and it is known which.
  abbrev Decided : Type 0 → Type 0 → Type 0
  Decided R S = (R × S) ⊎ ((¬ R) × (¬ S))

  redirect_decided :
      (q : Process)
      → Decided
          ((redirect os (some 0) q).0 ≡ returned (pos 0))
          ((os.dup2 0 ≡ true) × (os.dup2 1 ≡ true) × (os.dup2 2 ≡ true))
  unfolding redirect duplicate close_spare
  redirect_decided q = elim (Bool-cases (os.dup2 0)) [
    | inr a ↦ rw a (inr (λ x. cc, λ (y, z, w). cc y))
    | inl a ↦ elim (Bool-cases (os.dup2 1)) [
      | inr b ↦ rw (a, b) (inr (λ x. cc, λ (y, z, w). cc z))
      | inl b ↦ elim (Bool-cases (os.dup2 2)) [
        | inr c ↦ rw (a, b, c) (inr (λ x. cc, λ (y, z, w). cc w))
        | inl c ↦ rw (a, b, c) (inl (refl, (refl, refl, refl)))
      ]
    ]
  ]

  abbrev TableOpens : Option ℕ → Type 0
  TableOpens o =
      ((fd : ℕ) × (o ≡ some fd)) × ((os.dup2 0 ≡ true) × (os.dup2 1 ≡ true) × (os.dup2 2 ≡ true))

  opened_decided :
      (p q : Process) (o : Option ℕ)
      → os.open_null ≡ o
      → LowestFree os p
      → 3 ≤ limit_of os.limit
      → Decided ((redirect os o q).0 ≡ returned (pos 0)) (TableOpens o)
  opened_decided p q none e f h = inr (none_fails os q, λ ((fd, x), y). cc)
  opened_decided p q (some fd) e f h =
      subst (λ n. Decided ((redirect os (some n) q).0 ≡ returned (pos 0)) (TableOpens (some n)))
        (sym (first_free os p fd e f h))
        (elim (redirect_decided q) [
          | inl (x, y) ↦ inl (x, ((0, refl), y))
          | inr (x, y) ↦ inr (x, λ (z, w). y w)
        ])

  again_decided :
      (s : Fork) (p q : Process)
      → os.first_fork ≡ child
      → os.setsid ≡ true
      → os.second_fork ≡ s
      → LowestFree os p
      → 3 ≤ limit_of os.limit
      → Decided ((fork_again os s q).0 ≡ returned (pos 0)) AllSucceed
  unfolding fork_again detach
  again_decided refused p q d b e f h = inr (λ x. cc, λ a. cc (a.second, e))
  again_decided parent p q d b e f h = inr (λ x. cc, λ a. cc (a.second, e))
  again_decided child p q d b e f h =
      elim (opened_decided p
        (close_below (limit_of os.limit) (change_directory os.chdir (record q { leads = false })))
        os.open_null refl f h) [
          | inl (x, (y, z)) ↦
              inl (x, record { first = d; own = b; second = e; opens = y; copies = z })
          | inr (x, y) ↦ inr (x, λ a. y (a.opens, a.copies))
        ]

  led_decided :
      (s : Bool) (p q : Process)
      → os.first_fork ≡ child
      → os.setsid ≡ s
      → LowestFree os p
      → 3 ≤ limit_of os.limit
      → Decided ((led os s q).0 ≡ returned (pos 0)) AllSucceed
  unfolding led
  led_decided false p q d b f h = inr (λ x. cc, λ a. cc (a.own, b))
  led_decided true p q d b f h = again_decided os.second_fork p _ d b refl f h

  forked_decided :
      (s : Fork) (p q : Process)
      → os.first_fork ≡ s
      → LowestFree os p
      → 3 ≤ limit_of os.limit
      → Decided ((forked os s q).0 ≡ returned (pos 0)) AllSucceed
  unfolding forked lead_session
  forked_decided refused p q e f h = inr (λ x. cc, λ a. cc (a.first, e))
  forked_decided parent p q e f h = inr (λ x. cc, λ a. cc (a.first, e))
  forked_decided child p q e f h = led_decided os.setsid p _ e refl f h

  -- On a system that opens the lowest free descriptor and has a limit of at least three: either both
  -- forks go on in the child, setsid, open and the three calls of dup2 succeed, daemonize returns 0, and
  -- the process leads no session and has one of its own, the root directory if chdir succeeded
  -- and else that of before, mask 0, its descriptors
  -- 0, 1 and 2 are /dev/null, those from 3 to the limit are closed and those above are as before; or one
  -- of these calls does not succeed and daemonize does not return 0.
  pub daemonize-Decided :
      (p : Process)
      → LowestFree os p
      → 3 ≤ limit_of os.limit
      → (AllSucceed
          × ((daemonize os p).0 ≡ returned (pos 0))
          × IsDaemon os.null (limit_of os.limit) os.chdir p (daemonize os p).1)
        ⊎ ((¬ AllSucceed) × (¬ ((daemonize os p).0 ≡ returned (pos 0))))
  unfolding daemonize
  daemonize-Decided p f h =
      elim (forked_decided os.first_fork p (record p { mask = some 0 }) refl f h) [
        | inl (x, y) ↦ inl (y, x, daemonize-IsDaemon os p f h x)
        | inr (x, y) ↦ inr (y, x)
      ]
