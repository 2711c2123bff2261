-- ===== src/Sys/Logger/Levels.antt =====
-- The levels of sys/logger.cpp and what vlog writes.
use deps.Prelude.{ℕ, zero, suc, ◌+◌, ◌≤◌, ◌<◌, ◌≡◌, ◌⊎◌, refl, ap, arith, inl, inr}
use deps.Prelude.{ℤ, pos, negsuc, true, false, Option, none, some, List, [], ◌∷◌, ◌++◌}
use deps.Prelude.{All, ltb, length, Bool-cases, tests}
use mathlib.Core.Option.{some-injective}
use deps.Marshal.Pack.{c_string}
use deps.Sys.Logger.{Logger, Files, Os, level_strs, str_at, clamp, set_log_level}
use deps.Sys.Logger.{same_folded, search, set_if_found, set_log_level_named, get_log_level_str}
use deps.Sys.Logger.{
  adjust_log_level, set_rotate_interval, new_logger, set_file_name, adopt, opened,
}
use deps.Sys.Logger.{vlog, maybe_rotate, after_rotate, print_line, written, out_fd}
use deps.Sys.Logger.Line.{log_line_lem, level_tag, buffer_size}

-- Where a search ends: at the first name that the text is but for case, or behind all names.
abbrev Searched : ℕ → List (List ℕ) → List ℕ → Option ℕ → Type 0
Searched i ss text none = All (λ s. same_folded s text ≡ false) ss
Searched i ss text (some k) =
    (j : ℕ) × (s : List ℕ) × (k ≡ i + j) × (str_at j ss ≡ some s) × (same_folded s text ≡ true)

Searched-suc :
    (i : ℕ) (s : List ℕ) (ss : List (List ℕ)) (text : List ℕ) (o : Option ℕ)
    → same_folded s text ≡ false
    → Searched (suc i) ss text o
    → Searched i (s ∷ ss) text o
unfolding str_at
Searched-suc i s ss text none e h = (e, h)
Searched-suc i s ss text (some k) e (j, t, f, g, h) = (suc j, t, omega arith, g, h)

search-Searched :
    (i : ℕ) (ss : List (List ℕ)) (text : List ℕ) → Searched i ss text (search i ss text)
unfolding search str_at
search-Searched i [] text = tt
search-Searched i (s ∷ ss) text = elim (Bool-cases (same_folded s text)) [
  | inl z ↦ rw z (0, s, omega arith, refl, z)
  | inr z ↦ rw z (Searched-suc i s ss text _ z (search-Searched (suc i) ss text))
]

-- A name within the array has at most five characters.
str_at-short :
    (i : ℕ) (ss : List (List ℕ)) (s : List ℕ)
    → All (λ t. length t ≤ 5) ss
    → str_at i ss ≡ some s
    → length s ≤ 5
unfolding str_at
str_at-short i [] s h e = cc
str_at-short zero (t ∷ ss) s h e =
    let same = some-injective _ _ e in omega (arith, h.0, ap length same)
str_at-short (suc i) (t ∷ ss) s h e = str_at-short i ss s h.1 e

str_at-some : (i : ℕ) (ss : List (List ℕ)) → i < length ss → (s : List ℕ) × (str_at i ss ≡ some s)
unfolding str_at
str_at-some i [] h = absurd (omega arith)
str_at-some zero (s ∷ ss) h = (s, refl)
str_at-some (suc i) (s ∷ ss) h = str_at-some i ss (omega arith)

str_at_lt : (i : ℕ) (ss : List (List ℕ)) (s : List ℕ) → str_at i ss ≡ some s → i < length ss
unfolding str_at
str_at_lt i [] s e = cc
str_at_lt zero (t ∷ ss) s e = omega arith
str_at_lt (suc i) (t ∷ ss) s e = omega (arith, str_at_lt i ss s e)

level_strs-short : All (λ t. length t ≤ 5) level_strs
unfolding level_strs
level_strs-short = omega arith

length-level_strs : length level_strs ≡ 8
unfolding level_strs
length-level_strs = refl

named_lem :
    (text : List ℕ) (l : Logger) (o : Option ℕ)
    → Searched 0 level_strs (c_string text) o
    → ((i : ℕ) × (s : List ℕ) × (str_at i level_strs ≡ some s)
        × (same_folded s (c_string text) ≡ true)
        × (set_if_found o l ≡ record l { level = i }))
      ⊎ (All (λ s. same_folded s (c_string text) ≡ false) level_strs × (set_if_found o l ≡ l))
unfolding set_if_found set_log_level clamp
named_lem text l none h = inr (h, refl)
named_lem text l (some k) (j, s, e, f, g) =
    let bound = str_at_lt j level_strs s f in
    let same : clamp (pos k) ≡ j = omega (arith, length-level_strs) in
    inl (j, s, f, g, ap (λ n. record l { level = n }) same)

-- A level set by its name: the text is the name of a level but for case, and that is the level then; or
-- it is none, and the logger is as before.
pub set_log_level_named_lem :
    (text : List ℕ) (l : Logger)
    → ((i : ℕ) × (s : List ℕ) × (str_at i level_strs ≡ some s)
        × (same_folded s (c_string text) ≡ true)
        × (set_log_level_named text l ≡ record l { level = i }))
      ⊎ (All (λ s. same_folded s (c_string text) ≡ false) level_strs
          × (set_log_level_named text l ≡ l))
unfolding set_log_level_named
set_log_level_named_lem text l = named_lem text l _ (search-Searched 0 level_strs (c_string text))

-- The members that change the settings.
pub data Setting : Logger → Logger → Type 0 where
  to_level : {l : Logger} (level : ℤ) → Setting l (set_log_level level l)
  by : {l : Logger} (adjust : ℤ) → Setting l (adjust_log_level adjust l)
  to_name : {l : Logger} (text : List ℕ) → Setting l (set_log_level_named text l)
  interval : {l : Logger} (n : ℕ) → Setting l (set_rotate_interval n l)
  to_file :
      {l : Logger} (os : Os) (name : List ℕ) (f : Files) → Setting l (set_file_name os name l f).1

pub data Settings : Logger → Type 0 where
  fresh : (now : ℕ) → Settings (new_logger now)
  next : {l l' : Logger} → Settings l → Setting l l' → Settings l'

clamp_le : (z : ℤ) → clamp z ≤ 7
unfolding clamp
clamp_le (pos n) = omega arith
clamp_le (negsuc n) = omega arith

set_if_found_le : (o : Option ℕ) (l : Logger) → l.level ≤ 7 → (set_if_found o l).level ≤ 7
unfolding set_if_found set_log_level
set_if_found_le none l h = h
set_if_found_le (some i) l h = clamp_le (pos i)

adopt_level :
    (os : Os) (fd : ℕ) (m : Option ℕ) (l : Logger) (f : Files)
    → (adopt os fd m l f).1.level ≡ l.level
unfolding adopt
adopt_level os fd none l f = refl
adopt_level os fd (some m) l f = refl

opened_level :
    (os : Os) (name : List ℕ) (o : Option (ℕ × ℕ)) (l : Logger) (f : Files)
    → (opened os name o l f).1.level ≡ l.level
unfolding opened
opened_level os name none l f = refl
opened_level os name (some (fd, file)) l f = adopt_level os fd l.fd _ _

Setting-le : {l l' : Logger} → Setting l l' → l.level ≤ 7 → l'.level ≤ 7
unfolding set_log_level adjust_log_level set_log_level_named set_rotate_interval set_file_name
Setting-le (to_level level) h = clamp_le level
Setting-le (by adjust) h = clamp_le _
Setting-le {l} (to_name text) h = set_if_found_le _ l h
Setting-le (interval n) h = h
Setting-le {l} (to_file os name f) h = omega (arith, opened_level os name _ l _)

pub Settings-le : {l : Logger} → Settings l → l.level ≤ 7
unfolding new_logger
Settings-le (fresh now) = omega arith
Settings-le (next s t) = Setting-le t (Settings-le s)

-- However a logger is set up, by levels out of range, by names or by differences, its level has a name
-- in the array.
pub get_log_level_str-some :
    {l : Logger} → Settings l → (s : List ℕ) × (get_log_level_str l ≡ some s)
unfolding get_log_level_str
get_log_level_str-some {l} h =
    str_at-some l.level level_strs (omega (arith, Settings-le h, length-level_strs))

-- On a logger however set up, with a message shorter than 4087 characters and a rotation test that
-- returns: at a level above that of the logger, vlog changes nothing; at one up to it, the tag of the
-- level, the message, a zero and a line break are written, to the file or to the standard output,
-- after the file may have been rotated.
pub vlog_lem :
    {l : Logger} (os : Os) (now level : ℕ) (text garbage : List ℕ) (f f' : Files) (l' : Logger)
    → Settings l
    → length garbage ≡ buffer_size
    → length text < 4087
    → maybe_rotate os now l f ≡ some (l', f')
    → ((l.level < level) × (vlog os now level text garbage l f ≡ some (l, f)))
      ⊎ ((level ≤ l.level)
          × (s : List ℕ) × (str_at level level_strs ≡ some s)
          × (vlog os now level text garbage l f
              ≡ some (
                l',
                record f' {
                  output =
                      f'.output
                      ++ ((out_fd l'.fd, (level_tag s ++ (text ++ (0 ∷ []))) ++ (b'\n' ∷ [])) ∷ []);
                  calls = f'.calls + 1;
                },
              )))
unfolding vlog after_rotate written print_line
vlog_lem {l} os now level text garbage f f' l' h g n e = elim (Bool-cases (ltb l.level level)) [
  | inl z ↦ inl (omega tests, rw z refl)
  | inr z ↦
      let (s, k) = str_at-some level level_strs (omega (tests, Settings-le h, length-level_strs)) in
      let line =
        log_line_lem garbage s text g (str_at-short level level_strs s level_strs-short k) n in
      inr (omega tests, s, k, rw (z, e, k, line) refl)
]
