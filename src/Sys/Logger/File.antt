-- ===== src/Sys/Logger/File.antt =====
-- setFileName and maybeRotate of sys/logger.cpp, as changes of the table of descriptors.
use deps.Prelude.{ℕ, ◌+◌, ◌<◌, ◌≡◌, ◌≢◌, ◌⊎◌, refl, ap, sym, ◌∙◌, arith, inl, inr}
use deps.Prelude.{
  ℤ, pos, negsuc, ◌+ℤ◌, neg, quotient, same_int, Bool, true, false, Option, none, some, List, ◌∷◌,
}
use deps.Prelude.{◌==◌, if◌then◌else◌, Bool-cases, tests}
use deps.Sys.Logger.{
  Logger, Files, Os, Rename, done, missing, failed, count, put, redirect, close_fd,
}
use deps.Sys.Logger.{adopt, opened, set_file_name, restore, moved_onto, reopened, renamed, rotate}
use deps.Sys.Logger.{same_period, exchanged, tested, is_empty, maybe_rotate}

-- What open documents: the descriptor that it answers was not in use.
abbrev pub Unused : Os → Files → Type 0
Unused os f =
    (i : ℕ) (name : List ℕ) (fd file : ℕ)
    → os.open_file i name ≡ some (fd, file)
    → f.descriptors fd ≡ none

-- The descriptor of the log, if there is one, is in use.
abbrev pub InUse : Option ℕ → Files → Type 0
InUse none f = Unit {0}
InUse (some m) f = f.descriptors m ≢ none

-- The same descriptors, but for `m`, and nothing written or left to close.
pub record SameBut (m : ℕ) (f f' : Files) : Type 0 where
  pub others : (j : ℕ) → j ≢ m → f'.descriptors j ≡ f.descriptors j
  pub pending : f'.pending ≡ f.pending
  pub output : f'.output ≡ f.output

pub record SameFiles (f f' : Files) : Type 0 where
  pub all : (j : ℕ) → f'.descriptors j ≡ f.descriptors j
  pub pending : f'.pending ≡ f.pending
  pub output : f'.output ≡ f.output

apart : (j m : ℕ) → j ≢ m → (j == m) ≡ false
apart j m h = elim (Bool-cases (j == m)) [ inl z ↦ absurd (h (omega tests)) | inr z ↦ z ]

itself : (m : ℕ) → (m == m) ≡ true
itself m = ground arith

-- A descriptor that is in use is not a new one.
in_use_apart : (m fd : ℕ) (f : Files) → f.descriptors m ≢ none → f.descriptors fd ≡ none → m ≢ fd
in_use_apart m fd f u e h = u (ap f.descriptors h ∙ e)

-- A new descriptor that is closed again leaves no trace.
closed_again :
    (fd file j : ℕ) (f : Files)
    → f.descriptors fd ≡ none
    → (close_fd fd (put fd (some file) f)).descriptors j ≡ f.descriptors j
unfolding close_fd put
closed_again fd file j f e = elim (Bool-cases (j == fd)) [
  | inl z ↦ rw z (let same : j ≡ fd = omega tests in sym (ap f.descriptors same ∙ e))
  | inr z ↦ rw z refl
]

-- What `setFileName` leaves, by the answer of open and the descriptor of before.
abbrev pub Adopted : Bool → ℕ → ℕ → Option ℕ → Logger → Files → Logger → Files → Type 0
Adopted copied fd file none l f l' f' =
    (l'.fd ≡ some fd) × (f'.descriptors fd ≡ some file) × SameBut fd f f'
Adopted copied fd file (some m) l f l' f' =
    (l'.fd ≡ some m)
    × (f'.descriptors m ≡ (if copied then some file else f.descriptors m))
    × SameBut m f f'

abbrev pub FileSet : Bool → List ℕ → Option (ℕ × ℕ) → Logger → Files → ℤ × Logger × Files → Type 0
FileSet copied name none l f (r, l', f') = (r ≡ negsuc 0) × (l' ≡ l) × SameFiles f f'
FileSet copied name (some (fd, file)) l f (r, l', f') =
    (r ≡ pos 0) × (l'.filename ≡ name) × Adopted copied fd file l.fd l f l' f'

module _ (os : Os) where
  adopt-Adopted :
      (fd file : ℕ) (name : List ℕ) (m : Option ℕ) (l : Logger) (f : Files)
      → l.fd ≡ m
      → InUse m f
      → f.descriptors fd ≡ none
      → let (r, l', f') =
          adopt os fd m (record l { filename = name }) (put fd (some file) (count f)) in
        (r ≡ pos 0) × (l'.filename ≡ name) × Adopted (os.dup2 (f.calls + 1)) fd file m l f l' f'
  unfolding adopt put count close_fd redirect
  adopt-Adopted fd file name none l f e u z = (
    refl,
    refl,
    (
      refl,
      rw (itself fd) refl,
      record { others = λ j h. rw (apart j fd h) refl; pending = refl; output = refl },
    ),
  )
  adopt-Adopted fd file name (some m) l f e u z =
      let m_fd = in_use_apart m fd f u z in
      elim (Bool-cases (os.dup2 (f.calls + 1))) [
        | inl d ↦ rw d (
          refl,
          refl,
          (
            e,
            rw (apart m fd m_fd, itself m, itself fd) refl,
            record {
              others = λ j h. elim (Bool-cases (j == fd)) [
                | inl y ↦ rw y (let same : j ≡ fd = omega tests in sym (ap f.descriptors same ∙ z))
                | inr y ↦ rw (y, apart j m h) refl
              ];
              pending = refl;
              output = refl;
            },
          ),
        )
        | inr d ↦ rw d (
          refl,
          refl,
          (
            e,
            closed_again fd file m f z,
            record { others = λ j h. closed_again fd file j f z; pending = refl; output = refl },
          ),
        )
      ]

  opened-FileSet :
      (name : List ℕ) (o : Option (ℕ × ℕ)) (l : Logger) (f : Files)
      → InUse l.fd f
      → ((fd file : ℕ) → o ≡ some (fd, file) → f.descriptors fd ≡ none)
      → FileSet (os.dup2 (f.calls + 1)) name o l f (opened os name o l (count f))
  unfolding opened count
  opened-FileSet name none l f u h =
      (refl, refl, record { all = λ j. refl; pending = refl; output = refl })
  opened-FileSet name (some (fd, file)) l f u h =
      adopt-Adopted fd file name l.fd l f refl u (h fd file refl)

  -- setFileName: when open fails it answers -1 and changes nothing. Otherwise it answers 0 and has the
  -- name; a logger without a file takes the new descriptor, and one with a file keeps its
  -- descriptor, which stands for the new file if dup2 succeeds and else for the old one. No other
  -- descriptor is opened or closed.
  pub set_file_name-FileSet :
      (name : List ℕ) (l : Logger) (f : Files)
      → Unused os f
      → InUse l.fd f
      → FileSet
          (os.dup2 (f.calls + 1))
          name
          (os.open_file f.calls name)
          l
          f
          (set_file_name os name l f)
  unfolding set_file_name
  set_file_name-FileSet name l f h u =
      opened-FileSet name (os.open_file f.calls name) l f u (h f.calls name)

  -- What `maybeRotate` leaves: all as before; or the descriptor of the log stands for the file that
  -- open made for its name, of which one more descriptor is to be closed later.
  pub data Rotated (now : ℕ) (l : Logger) (f : Files) : Logger × Files → Type 0 where
    kept : {f' : Files} → SameFiles f f' → Rotated now l f (l, f')
    anew :
        {f' : Files} (m fd file i : ℕ)
        → os.open_file i l.filename ≡ some (fd, file)
        → l.fd ≡ some m
        → f.descriptors fd ≡ none
        → f'.descriptors m ≡ some file
        → f'.descriptors fd ≡ some file
        → ((j : ℕ) → j ≢ m → j ≢ fd → f'.descriptors j ≡ f.descriptors j)
        → f'.pending ≡ fd ∷ f.pending
        → f'.output ≡ f.output
        → Rotated now l f (record l { real_rotate = now }, f')

  module _ (now : ℕ) (l : Logger) (f : Files) where
    moved_onto-Rotated :
        (fd file : ℕ) (m : Option ℕ) (g : Files)
        → l.fd ≡ m
        → InUse m f
        → f.descriptors fd ≡ none
        → (i : ℕ) × (os.open_file i l.filename ≡ some (fd, file))
        → SameFiles f g
        → Rotated now l f (
            moved_onto os l.real_rotate fd m
              (record l { real_rotate = now })
              (put fd (some file) g))
    unfolding moved_onto restore put count redirect close_fd
    moved_onto-Rotated fd file none g e u z o s = kept (record {
      all = λ j. elim (Bool-cases (j == fd)) [
        | inl y ↦ rw y (let same : j ≡ fd = omega tests in sym (ap f.descriptors same ∙ z))
        | inr y ↦ rw y (s.all j)
      ];
      pending = s.pending;
      output = s.output;
    })
    moved_onto-Rotated fd file (some m) g e u z o s =
        let m_fd = in_use_apart m fd f u z in
        elim (Bool-cases (os.dup2 g.calls)) [
          | inl d ↦ rw d (
              anew m fd file o.0 o.1 e z (rw (itself m, itself fd) refl)
                (rw (apart fd m (λ h. m_fd (sym h)), itself fd) refl)
                (λ j p q. rw (apart j m p, apart j fd q) (s.all j)) (ap (λ xs. fd ∷ xs) s.pending)
                s.output)
          | inr d ↦ rw d (
              kept (record {
                all = λ j. elim (Bool-cases (j == fd)) [
                  | inl y ↦
                      rw y (let same : j ≡ fd = omega tests in sym (ap f.descriptors same ∙ z))
                  | inr y ↦ rw y (s.all j)
                ];
                pending = s.pending;
                output = s.output;
              }))
        ]

    reopened-Rotated :
        (o : Option (ℕ × ℕ)) (g : Files)
        → InUse l.fd f
        → (i : ℕ) × (os.open_file i l.filename ≡ o)
        → ((fd file : ℕ) → o ≡ some (fd, file) → f.descriptors fd ≡ none)
        → SameFiles f g
        → Rotated now l f (reopened os l.real_rotate o (record l { real_rotate = now }) g)
    unfolding reopened restore
    reopened-Rotated none g u i h s = kept s
    reopened-Rotated (some (fd, file)) g u i h s =
        moved_onto-Rotated fd file l.fd g refl u (h fd file refl) i s

    renamed-Rotated :
        (r : Rename) (g : Files)
        → InUse l.fd f
        → Unused os f
        → SameFiles f g
        → Rotated now l f (renamed os l.real_rotate r (record l { real_rotate = now }) g)
    unfolding renamed restore count
    renamed-Rotated failed g u h s = kept s
    renamed-Rotated missing g u h s =
        reopened-Rotated _ _ u (g.calls, refl) (h g.calls l.filename)
          (record { all = s.all; pending = s.pending; output = s.output })
    renamed-Rotated done g u h s =
        reopened-Rotated _ _ u (g.calls, refl) (h g.calls l.filename)
          (record { all = s.all; pending = s.pending; output = s.output })

    period_cases :
        (last : ℕ)
        → 0 < l.rotate_interval
        → (same_period os l.rotate_interval now last ≡ some true)
          ⊎ (same_period os l.rotate_interval now last ≡ some false)
    unfolding same_period
    period_cases last h =
        let positive : (l.rotate_interval == 0) ≡ false = ground arith in
        let same : Bool =
          same_int (quotient (pos now +ℤ neg os.timezone) l.rotate_interval)
            (quotient (pos last +ℤ neg os.timezone) l.rotate_interval) in
        rw positive (elim (Bool-cases same) [ inl d ↦ inl (ap some d) | inr d ↦ inr (ap some d) ])

    -- maybeRotate by a thread alone, with an interval that is not 0, comes to an end: nothing has
    -- changed, the time of the last rotation included, whether none was due or a call failed; or
    -- the time is the new one, the descriptor of the log stands for the file that open made for its
    -- name, the descriptor that open answered is one more of it, to be closed later, and all others
    -- are as before.
    pub maybe_rotate-Rotated :
        0 < l.rotate_interval
        → Unused os f
        → InUse l.fd f
        → (r : Logger × Files) × (maybe_rotate os now l f ≡ some r) × Rotated now l f r
    unfolding maybe_rotate tested exchanged rotate count
    maybe_rotate-Rotated h n u =
        let same : SameFiles f f = record { all = λ j. refl; pending = refl; output = refl } in
        elim (Bool-cases (is_empty l.filename)) [
          | inl z ↦ ((l, f), rw z refl, kept same)
          | inr z ↦ elim (period_cases l.real_rotate h) [
            | inl d ↦ ((l, f), rw (z, d) refl, kept same)
            | inr d ↦ (
              rotate os now l.real_rotate (record l { real_rotate = now }) f,
              rw (z, d)
                  (ap (λ o. exchanged os now l.real_rotate o (record l { real_rotate = now }) f) d),
              renamed-Rotated _ (count f) u n
                  (record { all = λ j. refl; pending = refl; output = refl }),
            )
          ]
        ]
