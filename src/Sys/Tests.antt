-- ===== src/Sys/Tests.antt =====
-- Runs of the utilities, the logger and the daemon, and the theorems at concrete inputs.
use deps.Prelude.{ℕ, ◌≤◌, ◌<◌, ◌≡◌, ◌⊎◌, refl, ap, arith}
use deps.Prelude.{pos, true, false, none, some, List, [], ◌∷◌, ◌++◌}
use deps.Prelude.{ltb, if◌then◌else◌, length, replicate, length-replicate}
use mathlib.Core.Option.{some-injective}
use deps.Sys.Hex.{dump_hex, dump_from, hex_byte, hex_digit, break_after}
use deps.Sys.Logger.{Logger, Files, Rename, done, level_strs, str_at, set_file_name, maybe_rotate}
use deps.Sys.Logger.{vlog, out_fd, new_logger, is_empty}
use deps.Sys.Logger.Line.{log_line, log_line_over, level_tag, buffer_size}
use deps.Sys.Logger.Levels.{fresh, vlog_lem}
use deps.Sys.Logger.File.{Unused, FileSet, set_file_name-FileSet, Rotated, maybe_rotate-Rotated}
use deps.Sys.Logger.Rotation.{World, Reach, start, next, load, exchanges, Reach-once}
use deps.Sys.Logger.Rotation.{rotating, tested, outside, exchange, set_thread}
use deps.Sys.Daemon.{Process, IsDaemon, child, returned, daemonize, close_below}
use deps.Sys.Daemon.{LowestFree, set_descriptor, limit_of, forked, lead_session, led, fork_again}
use deps.Sys.Daemon.{detach, change_directory, redirect, duplicate, close_spare}
use deps.Sys.Daemon
use deps.Sys.Daemon.Decided.{AllSucceed, daemonize-Decided}
use deps.Prelude.{◌⊎◌}
use deps.Sys.Logger

-- The first second of 2020 and a half.
abbrev time : ℕ
time = 1577836800500000

abbrev bytes : List ℕ
bytes = 1 ∷ 171 ∷ []

dump_run :
    dump_hex (some bytes) 2
    ≡ b'0' ∷ b'x' ∷ b'0' ∷ b'1' ∷ b' ' ∷ b'0' ∷ b'x' ∷ b'a' ∷ b'b' ∷ b' ' ∷ []
unfolding dump_hex dump_from hex_byte hex_digit break_after
dump_run = refl

-- A system that opens descriptor 9 on file 70, one hour west of Greenwich.
abbrev system : Logger.Os
system = record {
  open_file = λ i name. some (9, 70);
  dup2 = λ i. true;
  rename = λ i old new. done;
  localtime = λ t. record { year = 120; mon = 0; mday = 1; hour = 0; min = 0; sec = 0 };
  timezone = pos 3600;
}

-- A log on descriptor 3.
abbrev files : Files
files = record {
  descriptors = λ j. if ltb j 4 then some j else none;
  calls = 0;
  pending = [];
  output = [];
}

abbrev name : List ℕ
name = b'l' ∷ b'o' ∷ b'g' ∷ []

abbrev logger : Logger.Logger
logger = record {
  level = 4;
  fd = some 3;
  real_rotate = 1577836800;
  rotate_interval = 86400;
  filename = name;
}

files-Unused : Unused system files
files-Unused i n fd file e =
    let same : 9 ≡ fd = ap (λ r. r.0) (some-injective _ _ e) in rw⁻¹ same refl

set_file_name-FileSet_example :
    FileSet true name (some (9, 70)) logger files (set_file_name system name logger files)
set_file_name-FileSet_example =
    set_file_name-FileSet system name logger files files-Unused (λ e. cc)

maybe_rotate-Rotated_example :
    (r : Logger.Logger × Files) × (maybe_rotate system 1577925000 logger files ≡ some r)
    × Rotated system 1577925000 logger files r
maybe_rotate-Rotated_example =
    maybe_rotate-Rotated system 1577925000 logger files (omega arith) files-Unused (λ e. cc)

abbrev message : List ℕ
message = b'h' ∷ b'i' ∷ []

abbrev garbage : List ℕ
garbage = replicate 4096 7

length-garbage : length garbage ≡ buffer_size
length-garbage = length-replicate {A = ℕ} 4096 7

not_due : maybe_rotate system 100 (new_logger 100) files ≡ some (new_logger 100, files)
unfolding maybe_rotate is_empty new_logger
not_due = refl

vlog_lem_example :
    ((new_logger 100).level < 2)
      × (vlog system 100 2 message garbage (new_logger 100) files ≡ some (new_logger 100, files))
    ⊎ ((2 ≤ (new_logger 100).level)
        × (s : List ℕ) × (str_at 2 level_strs ≡ some s)
        × (vlog system 100 2 message garbage (new_logger 100) files
            ≡ some (
              new_logger 100,
              record files {
                output =
                    []
                    ++ ((
                      out_fd (new_logger 100).fd,
                      (level_tag s ++ (message ++ (0 ∷ []))) ++ (b'\n' ∷ []),
                    )
                        ∷ []);
                calls = 1;
              },
            )))
vlog_lem_example =
    vlog_lem system 100 2 message garbage files files (new_logger 100) (fresh 100) length-garbage
      (omega arith) not_due

log_line_over_example : log_line garbage name (replicate 5000 b'x') ≡ none
log_line_over_example =
    log_line_over garbage name (replicate 5000 b'x') length-garbage (omega arith)
      (omega (arith, length-replicate {A = ℕ} 5000 b'x'))

-- Thread 5 has found a new period and rotates.
abbrev quiet : World
quiet = record { real_rotate = 0; threads = λ i. outside; rotations = 0 }

abbrev entered : World
entered = record quiet { threads = set_thread 5 (tested 250) quiet.threads }

abbrev busy : World
busy = exchange (pos 0) 100 5 250 entered

busy-Reach : Reach (pos 0) 100 (pos 2) busy
busy-Reach = next (next (start 0) (load 5 250 refl refl refl)) (exchanges 5 250 refl)

Reach-once_example :
    (busy.rotations ≤ 1)
    × ((i j a b : ℕ)
        → busy.threads i ≡ rotating a
        → busy.threads j ≡ rotating b
        → (i ≡ j) × (busy.rotations ≡ 0))
Reach-once_example = Reach-once (pos 0) 100 busy-Reach

-- A process on a system where a process may have four descriptors.
abbrev process : Process
process = record {
  mask = none;
  directory = [];
  leads = false;
  own_session = false;
  descriptors = λ j. if ltb j 3 then some j else none;
}

abbrev unix : Daemon.Os
unix = record {
  first_fork = child;
  setsid = true;
  second_fork = child;
  chdir = true;
  limit = some 4;
  open_null = some 0;
  null = 77;
  dup2 = λ j. true;
  close = true;
}

unix-LowestFree : LowestFree unix process
unfolding close_below set_descriptor limit_of
unix-LowestFree fd e =
    let same : 0 ≡ fd = some-injective _ _ e in rw⁻¹ same (refl, λ j h. absurd (omega arith))

unix_returns : (daemonize unix process).0 ≡ returned (pos 0)
unfolding daemonize forked lead_session led fork_again detach change_directory redirect duplicate
    close_spare
unix_returns = refl

at_least : 3 ≤ limit_of unix.limit
unfolding limit_of
at_least = omega arith

daemonize-Decided_example :
    (AllSucceed unix
      × ((daemonize unix process).0 ≡ returned (pos 0))
      × IsDaemon 77 (limit_of unix.limit) true process (daemonize unix process).1)
    ⊎ ((¬ AllSucceed unix) × (¬ ((daemonize unix process).0 ≡ returned (pos 0))))
daemonize-Decided_example = daemonize-Decided unix process unix-LowestFree at_least
