-- ===== src/Sys/Daemon.antt =====
-- daemonize of sys/tool.cpp: the process that calls it, and after a fork the one that goes on. What it
-- leaves is in the child modules.
pub mod Detached
pub mod Decided
use deps.Prelude.{ℕ, zero, suc, ◌≤◌, ◌<◌, ◌≡◌, ◌≢◌, refl, sym, ap, ◌∙◌, arith, inl, inr}
use mathlib.Core.Path.{subst}
use deps.Prelude.{ℤ, pos, negsuc, Bool, true, false, Option, none, some, List, [], ◌∷◌}
use deps.Prelude.{ltb, ◌==◌, if◌then◌else◌, Bool-cases, tests}

-- The state of a process that the code changes. `leads` says that it leads its session, `own_session`
-- that the session was made by setsid, so that it has no terminal.
pub record Process : Type 0 where
  pub mask : Option ℕ
  pub directory : List ℕ
  pub leads : Bool
  pub own_session : Bool
  pub descriptors : ℕ → Option ℕ

-- fork in the parent, in the child, or refused.
pub data Fork : Type 0 where
  refused : Fork
  parent : Fork
  child : Fork

-- What the system answers: the limit of getrlimit is none where it is RLIM_INFINITY; `null` is the file
-- /dev/null, and dup2 answers by its target.
pub record Os : Type 0 where
  pub first_fork : Fork
  pub setsid : Bool
  pub second_fork : Fork
  pub chdir : Bool
  pub limit : Option ℕ
  pub open_null : Option ℕ
  pub null : ℕ
  pub dup2 : ℕ → Bool
  pub close : Bool

-- `exit(0)`, or the value that the function returns.
pub data Result : Type 0 where
  exited : Result
  returned : ℤ → Result

unfoldable pub set_descriptor : ℕ → Option ℕ → Process → Process
set_descriptor fd file p = record p { descriptors = λ j. if j == fd then file else p.descriptors j }

-- `for (i = 0; i < n; i++) close(i);`
unfoldable pub close_below : ℕ → Process → Process
close_below zero p = p
close_below (suc n) p = set_descriptor n none (close_below n p)

unfoldable pub limit_of : Option ℕ → ℕ
limit_of none = 1024
limit_of (some n) = n

-- `chdir("/")`, which has succeeded or failed; the code does not look.
unfoldable pub change_directory : Bool → Process → Process
change_directory true p = record p { directory = b'/' ∷ [] }
change_directory false p = p

module _ (os : Os) where
  unfoldable pub close_spare : ℕ → Process → Result × Process
  close_spare fd p =
      if ltb 2 fd
      then (if os.close
          then (returned (pos 0), set_descriptor fd none p)
          else (returned (negsuc 7), p))
      else (returned (pos 0), p)

  -- dup2 onto the standard descriptors from `target` on, with the value returned where one fails.
  unfoldable pub duplicate : ℕ → ℕ → ℤ → (Process → Result × Process) → Process → Result × Process
  duplicate fd target code go_on p =
      if os.dup2 target
      then go_on (set_descriptor target (p.descriptors fd) p)
      else (returned code, p)

  unfoldable pub redirect : Option ℕ → Process → Result × Process
  redirect none p = (returned (negsuc 3), p)
  redirect (some fd) p =
      duplicate fd 0 (negsuc 4)
        (duplicate fd 1 (negsuc 5) (duplicate fd 2 (negsuc 6) (close_spare fd)))
        (set_descriptor fd (some os.null) p)

  -- The second child: its directory, the descriptors that it has taken over, and its own.
  unfoldable pub detach : Process → Result × Process
  detach p = redirect os.open_null (close_below (limit_of os.limit) (change_directory os.chdir p))

  unfoldable pub fork_again : Fork → Process → Result × Process
  fork_again refused p = (returned (negsuc 2), p)
  fork_again parent p = (exited, p)
  fork_again child p = detach (record p { leads = false })

  -- After setsid, which has succeeded or failed.
  unfoldable pub led : Bool → Process → Result × Process
  led true p = fork_again os.second_fork (record p { leads = true; own_session = true })
  led false p = (returned (negsuc 1), p)

  unfoldable pub lead_session : Process → Result × Process
  lead_session p = led os.setsid p

  unfoldable pub forked : Fork → Process → Result × Process
  forked refused p = (returned (negsuc 0), p)
  forked parent p = (exited, p)
  forked child p = lead_session (record p { leads = false })

  unfoldable pub daemonize : Process → Result × Process
  daemonize p = forked os.first_fork (record p { mask = some 0 })

-- What a daemon is: no terminal and no way to get one, the root directory if chdir succeeded and else
-- the one of before, no mask, and /dev/null as its
-- standard descriptors; of the others, those below the limit are closed and those above are as they
-- were.
pub record IsDaemon (null limit : ℕ) (moved : Bool) (before p : Process) : Type 0 where
  pub no_terminal : (p.own_session ≡ true) × (p.leads ≡ false)
  pub at_root : p.directory ≡ (if moved then b'/' ∷ [] else before.directory)
  pub unmasked : p.mask ≡ some 0
  pub standard : (j : ℕ) → j < 3 → p.descriptors j ≡ some null
  pub closed : (j : ℕ) → 3 ≤ j → j < limit → p.descriptors j ≡ none
  pub others : (j : ℕ) → limit ≤ j → p.descriptors j ≡ before.descriptors j

-- The table of descriptors when `open` is called.
abbrev pub cleared : Os → Process → Process
cleared os p = close_below (limit_of os.limit) p

-- open answers the lowest descriptor that is not in use.
abbrev pub LowestFree : Os → Process → Type 0
LowestFree os p =
    (fd : ℕ)
    → os.open_null ≡ some fd
    → ((cleared os p).descriptors fd ≡ none)
      × ((j : ℕ) → j < fd → (cleared os p).descriptors j ≢ none)
