-- ===== src/Sys/Logger.antt =====
-- sys/logger.cpp and sys/logger.h: the Logger with its levels, its file and what it writes. The system
-- calls are parameters; `none` is the answer of a member that the program does not survive.
pub mod Line
pub mod Levels
pub mod File
pub mod Rotation
use deps.Prelude.{ℕ, zero, suc, ◌+◌, ℤ, pos, negsuc, ◌+ℤ◌, neg, quotient, same_int, min}
use deps.Prelude.{Bool, true, false, Option, none, some, List, [], ◌∷◌, ◌++◌, ◌&&◌}
use deps.Prelude.{ltb, ◌==◌, if◌then◌else◌, length}
use deps.Marshal.Pack.{c_string}
use deps.Sys.LocalTime.{Tm, rotated_name}
use Line.{log_line}

-- A LogLevel is its number; `fd` is none for -1; `real_rotate` is a time.
pub record Logger : Type 0 where
  pub level : ℕ
  pub fd : Option ℕ
  pub real_rotate : ℕ
  pub rotate_interval : ℕ
  pub filename : List ℕ

-- What each open descriptor stands for, the calls made, the descriptors that a detached thread is to
-- close, and what was written.
pub record Files : Type 0 where
  pub descriptors : ℕ → Option ℕ
  pub calls : ℕ
  pub pending : List ℕ
  pub output : List (ℕ × List ℕ)

-- The answer of rename: done, refused with ENOENT, or refused otherwise.
pub data Rename : Type 0 where
  done : Rename
  missing : Rename
  failed : Rename

-- The system calls, by their number, and the time zone. `open_file` answers a descriptor and a file.
pub record Os : Type 0 where
  pub open_file : ℕ → List ℕ → Option (ℕ × ℕ)
  pub dup2 : ℕ → Bool
  pub rename : ℕ → List ℕ → List ℕ → Rename
  pub localtime : ℕ → Tm
  pub timezone : ℤ

abbrev pub top_level : ℕ
top_level = 7

abbrev pub info : ℕ
info = 4

-- m_levelStrs.
unfoldable pub level_strs : List (List ℕ)
level_strs =
    (b'F' ∷ b'A' ∷ b'T' ∷ b'A' ∷ b'L' ∷ [])
    ∷ (b'E' ∷ b'R' ∷ b'R' ∷ b'O' ∷ b'R' ∷ [])
    ∷ (b'U' ∷ b'E' ∷ b'R' ∷ b'R' ∷ [])
    ∷ (b'W' ∷ b'A' ∷ b'R' ∷ b'N' ∷ [])
    ∷ (b'I' ∷ b'N' ∷ b'F' ∷ b'O' ∷ [])
    ∷ (b'D' ∷ b'E' ∷ b'B' ∷ b'U' ∷ b'G' ∷ [])
    ∷ (b'T' ∷ b'R' ∷ b'A' ∷ b'C' ∷ b'E' ∷ [])
    ∷ (b'A' ∷ b'L' ∷ b'L' ∷ [])
    ∷ []

-- `m_levelStrs[i]`; none is a read behind the array.
unfoldable pub str_at : ℕ → List (List ℕ) → Option (List ℕ)
str_at i [] = none
str_at zero (s ∷ ss) = some s
str_at (suc i) (s ∷ ss) = str_at i ss

unfoldable pub get_log_level_str : Logger → Option (List ℕ)
get_log_level_str l = str_at l.level level_strs

-- The constructor, at the time `now`.
unfoldable pub new_logger : ℕ → Logger
new_logger now = record {
  level = info;
  fd = none;
  real_rotate = now;
  rotate_interval = 86400;
  filename = [];
}

-- `std::min(ALL, std::max(FATAL, level))`.
unfoldable pub clamp : ℤ → ℕ
clamp (pos n) = min top_level n
clamp (negsuc n) = 0

unfoldable pub set_log_level : ℤ → Logger → Logger
set_log_level level l = record l { level = clamp level }

unfoldable pub adjust_log_level : ℤ → Logger → Logger
adjust_log_level adjust l = set_log_level (pos l.level +ℤ adjust) l

unfoldable pub set_rotate_interval : ℕ → Logger → Logger
set_rotate_interval interval l = record l { rotate_interval = interval }

-- tolower, and strcasecmp as a test for 0.
unfoldable pub to_lower : ℕ → ℕ
to_lower c = if ltb b'@' c && ltb c b'[' then c + 32 else c

unfoldable pub same_folded : List ℕ → List ℕ → Bool
same_folded [] [] = true
same_folded [] (c ∷ cs) = false
same_folded (b ∷ bs) [] = false
same_folded (b ∷ bs) (c ∷ cs) = (to_lower b == to_lower c) && same_folded bs cs

-- The loop over the names, from `i` on: the first that is the text.
unfoldable pub search : ℕ → List (List ℕ) → List ℕ → Option ℕ
search i [] text = none
search i (s ∷ ss) text =
    let rest = search (suc i) ss text in if same_folded s text then some i else rest

unfoldable pub set_if_found : Option ℕ → Logger → Logger
set_if_found none l = l
set_if_found (some i) l = set_log_level (pos i) l

unfoldable pub set_log_level_named : List ℕ → Logger → Logger
set_log_level_named level l = set_if_found (search 0 level_strs (c_string level)) l

-- The table of descriptors after open, dup2 and close.
unfoldable pub put : ℕ → Option ℕ → Files → Files
put fd file f = record f { descriptors = λ j. if j == fd then file else f.descriptors j }

unfoldable pub count : Files → Files
count f = record f { calls = f.calls + 1 }

-- dup2(fd, m), where it succeeds.
unfoldable pub redirect : ℕ → ℕ → Files → Files
redirect fd m f = put m (f.descriptors fd) f

-- close(fd).
unfoldable pub close_fd : ℕ → Files → Files
close_fd fd f = put fd none f

unfoldable pub is_empty : List ℕ → Bool
is_empty [] = true
is_empty (c ∷ cs) = false

-- `m_fd == -1 ? 1 : m_fd`
unfoldable pub out_fd : Option ℕ → ℕ
out_fd none = 1
out_fd (some m) = m

module _ (os : Os) where
  -- setFileName with a descriptor: it becomes `m_fd`, or is copied onto it and closed.
  unfoldable pub adopt : ℕ → Option ℕ → Logger → Files → ℤ × Logger × Files
  adopt fd none l f = (pos 0, record l { fd = some fd }, f)
  adopt fd (some m) l f =
      (pos 0, l, close_fd fd (count (if os.dup2 f.calls then redirect fd m f else f)))

  unfoldable pub opened : List ℕ → Option (ℕ × ℕ) → Logger → Files → ℤ × Logger × Files
  opened name none l f = (negsuc 0, l, f)
  opened name (some (fd, file)) l f =
      adopt fd l.fd (record l { filename = name }) (put fd (some file) f)

  unfoldable pub set_file_name : List ℕ → Logger → Files → ℤ × Logger × Files
  set_file_name filename l f = opened filename (os.open_file f.calls filename) l (count f)

  -- The test of two times for the same period; none is a division by 0.
  unfoldable pub same_period : ℕ → ℕ → ℕ → Option Bool
  same_period interval now last =
      if interval == 0
      then none
      else some (
          same_int (quotient (pos now +ℤ neg os.timezone) interval)
            (quotient (pos last +ℤ neg os.timezone) interval))

  -- `m_realRotate.exchange(lastRotateBackup)` after a failure.
  unfoldable pub restore : ℕ → Logger → Logger
  restore backup l = record l { real_rotate = backup }

  -- dup2 of the new file onto `m_fd`; the new descriptor is closed later, or at once on a failure.
  unfoldable pub moved_onto : ℕ → ℕ → Option ℕ → Logger → Files → Logger × Files
  moved_onto backup fd none l f = (restore backup l, close_fd fd (count f))
  moved_onto backup fd (some m) l f =
      if os.dup2 f.calls
      then (l, (let f' = count (redirect fd m f) in record f' { pending = fd ∷ f'.pending }))
      else (restore backup l, close_fd fd (count f))

  unfoldable pub reopened : ℕ → Option (ℕ × ℕ) → Logger → Files → Logger × Files
  reopened backup none l f = (restore backup l, f)
  reopened backup (some (fd, file)) l f = moved_onto backup fd l.fd l (put fd (some file) f)

  unfoldable pub renamed : ℕ → Rename → Logger → Files → Logger × Files
  renamed backup failed l f = (restore backup l, f)
  renamed backup missing l f = reopened backup (os.open_file f.calls l.filename) l (count f)
  renamed backup done l f = reopened backup (os.open_file f.calls l.filename) l (count f)

  unfoldable pub rotate : ℕ → ℕ → Logger → Files → Logger × Files
  rotate now backup l f =
      let newname = rotated_name l.filename (os.localtime now) in
      renamed backup (os.rename f.calls l.filename newname) l (count f)

  -- After the exchange: the value that it answered decides whether this thread rotates.
  unfoldable pub exchanged : ℕ → ℕ → Option Bool → Logger → Files → Option (Logger × Files)
  exchanged now backup none l f = none
  exchanged now backup (some true) l f = some (l, f)
  exchanged now backup (some false) l f = some (rotate now backup l f)

  unfoldable pub tested : ℕ → Option Bool → Logger → Files → Option (Logger × Files)
  tested now none l f = none
  tested now (some true) l f = some (l, f)
  tested now (some false) l f =
      exchanged now l.real_rotate (same_period l.rotate_interval now l.real_rotate)
        (record l { real_rotate = now }) f

  -- maybeRotate at the time `now`, run by one thread alone.
  unfoldable pub maybe_rotate : ℕ → Logger → Files → Option (Logger × Files)
  maybe_rotate now l f =
      if is_empty l.filename
      then some (l, f)
      else tested now (same_period l.rotate_interval now l.real_rotate) l f

  unfoldable pub written : Option (List ℕ) → Logger → Files → Option (Logger × Files)
  written none l f = none
  written (some bytes) l f =
      some (l, record f { output = f.output ++ ((out_fd l.fd, bytes) ∷ []); calls = f.calls + 1 })

  -- The line in the local buffer, whose bytes are `garbage` before.
  unfoldable pub print_line : List ℕ → Option (List ℕ) → List ℕ → Option (List ℕ)
  print_line garbage none text = none
  print_line garbage (some str) text = log_line garbage str text

  unfoldable pub after_rotate :
      ℕ → List ℕ → List ℕ → Option (Logger × Files) → Option (Logger × Files)
  after_rotate level text garbage none = none
  after_rotate level text garbage (some (l, f)) =
      written (print_line garbage (str_at level level_strs) text) l f

  -- vlog, where `text` is what the format and its arguments come to.
  unfoldable pub vlog : ℕ → ℕ → List ℕ → List ℕ → Logger → Files → Option (Logger × Files)
  vlog now level text garbage l f =
      if ltb l.level level
      then some (l, f)
      else after_rotate level text garbage (maybe_rotate now l f)

  unfoldable pub logv : ℕ → ℕ → List ℕ → List ℕ → Logger → Files → Option (Logger × Files)
  logv now level text garbage l f =
      if ltb l.level level then some (l, f) else vlog now level text garbage l f
