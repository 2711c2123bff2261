-- ===== src/Sys/Daemon/Detached.antt =====
-- What daemonize of sys/tool.cpp leaves where it returns 0.
use deps.Prelude.{ℕ, zero, suc, ◌≤◌, ◌<◌, ◌≡◌, refl, sym, ap, ◌∙◌, arith, inl, inr}
use mathlib.Core.Path.{subst}
use deps.Prelude.{pos, Bool, true, false, Option, none, some, [], ◌∷◌}
use deps.Prelude.{ltb, ◌==◌, if◌then◌else◌, Bool-cases, tests}
use deps.Sys.Daemon.{Process, Fork, refused, parent, child, Os, returned, limit_of}
use deps.Sys.Daemon.{
  set_descriptor, close_below, close_spare, duplicate, redirect, detach, fork_again,
}
use deps.Sys.Daemon.{
  change_directory, led, lead_session, forked, daemonize, IsDaemon, cleared, LowestFree,
}

close_below_closed : (n : ℕ) (p : Process) (j : ℕ) → j < n → (close_below n p).descriptors j ≡ none
unfolding close_below set_descriptor
close_below_closed zero p j h = absurd (omega arith)
close_below_closed (suc n) p j h = elim (Bool-cases (j == n)) [
  | inl z ↦ rw z refl
  | inr z ↦ rw z (close_below_closed n p j (omega tests))
]

close_below_others :
    (n : ℕ) (p : Process) (j : ℕ) → n ≤ j → (close_below n p).descriptors j ≡ p.descriptors j
unfolding close_below set_descriptor
close_below_others zero p j h = refl
close_below_others (suc n) p j h =
    let z : (j == n) ≡ false = ground arith in rw z (close_below_others n p j (omega arith))

-- Closing changes nothing but descriptors.
close_below_rest :
    (n : ℕ) (p : Process)
    → ((close_below n p).mask ≡ p.mask)
      × ((close_below n p).directory ≡ p.directory)
      × ((close_below n p).leads ≡ p.leads)
      × ((close_below n p).own_session ≡ p.own_session)
unfolding close_below set_descriptor
close_below_rest zero p = (refl, refl, refl, refl)
close_below_rest (suc n) p = close_below_rest n p

-- The table depends on nothing but the table of before.
close_below_table :
    (n : ℕ) (p q : Process) (j : ℕ)
    → q.descriptors ≡ p.descriptors
    → (close_below n q).descriptors j ≡ (close_below n p).descriptors j
unfolding close_below set_descriptor
close_below_table zero p q j e = ap (λ t. t j) e
close_below_table (suc n) p q j e = elim (Bool-cases (j == n)) [
  | inl z ↦ rw z refl
  | inr z ↦ rw z (close_below_table n p q j e)
]

change_directory_rest :
    (moved : Bool) (p : Process)
    → ((change_directory moved p).descriptors ≡ p.descriptors)
      × ((change_directory moved p).mask ≡ p.mask)
      × ((change_directory moved p).directory ≡ (if moved then b'/' ∷ [] else p.directory))
      × ((change_directory moved p).leads ≡ p.leads)
      × ((change_directory moved p).own_session ≡ p.own_session)
unfolding change_directory
change_directory_rest true p = (refl, refl, refl, refl, refl)
change_directory_rest false p = (refl, refl, refl, refl, refl)

-- The three copies, from descriptor 0.
abbrev copies : ℕ → Process → Process
copies null q =
    let p₀ = set_descriptor 0 (some null) q in
    let p₁ = set_descriptor 0 (p₀.descriptors 0) p₀ in
    let p₂ = set_descriptor 1 (p₁.descriptors 0) p₁ in set_descriptor 2 (p₂.descriptors 0) p₂

copies_lem :
    (null : ℕ) (q : Process) (j : ℕ)
    → (copies null q).descriptors j ≡ (if ltb j 3 then some null else q.descriptors j)
unfolding set_descriptor
copies_lem null q j = ground arith

copies-IsDaemon :
    (null limit : ℕ) (moved : Bool) (p q : Process)
    → 3 ≤ limit
    → ((j : ℕ) → q.descriptors j ≡ (close_below limit p).descriptors j)
    → (q.own_session ≡ true)
      × (q.leads ≡ false)
      × (q.directory ≡ (if moved then b'/' ∷ [] else p.directory))
      × (q.mask ≡ some 0)
    → IsDaemon null limit moved p (copies null q)
unfolding set_descriptor
copies-IsDaemon null limit moved p q h d (own, leads, directory, mask) = record {
  no_terminal = (own, leads);
  at_root = directory;
  unmasked = mask;
  standard = λ j k. (let z : ltb j 3 ≡ true = ground arith in rw z at (copies_lem null q j));
  closed = λ j k l.
      (let z : ltb j 3 ≡ false = ground arith in
        rw z at (copies_lem null q j) ∙ d j ∙ close_below_closed limit p j l);
  others = λ j k.
      (let z : ltb j 3 ≡ false = ground arith in
        rw z at (copies_lem null q j) ∙ d j ∙ close_below_others limit p j k);
}

module _ (os : Os) where
  redirect_done :
      (q : Process)
      → (redirect os (some 0) q).0 ≡ returned (pos 0)
      → (redirect os (some 0) q).1 ≡ copies os.null q
  unfolding redirect duplicate close_spare
  redirect_done q = elim (Bool-cases (os.dup2 0)) [
    | inr a ↦ rw a (λ x. absurd (cc))
    | inl a ↦ elim (Bool-cases (os.dup2 1)) [
      | inr b ↦ rw (a, b) (λ x. absurd (cc))
      | inl b ↦ elim (Bool-cases (os.dup2 2)) [
        | inr c ↦ rw (a, b, c) (λ x. absurd (cc))
        | inl c ↦ rw (a, b, c) (λ x. refl)
      ]
    ]
  ]

  pub first_free :
      (p : Process) (fd : ℕ)
      → os.open_null ≡ some fd
      → LowestFree os p
      → 3 ≤ limit_of os.limit
      → fd ≡ 0
  first_free p fd e f h = elim (Bool-cases (fd == 0)) [
    | inl z ↦ omega tests
    | inr z ↦
        absurd
          ((f fd e).1 0 (omega tests) (close_below_closed (limit_of os.limit) p 0 (omega arith)))
  ]

  pub none_fails : (q : Process) → ¬ ((redirect os none q).0 ≡ returned (pos 0))
  unfolding redirect
  none_fails q y = cc

  redirect-IsDaemon :
      (p q : Process) (o : Option ℕ)
      → os.open_null ≡ o
      → LowestFree os p
      → 3 ≤ limit_of os.limit
      → ((j : ℕ) → q.descriptors j ≡ (cleared os p).descriptors j)
      → (q.own_session ≡ true)
        × (q.leads ≡ false)
        × (q.directory ≡ (if os.chdir then b'/' ∷ [] else p.directory))
        × (q.mask ≡ some 0)
      → (redirect os o q).0 ≡ returned (pos 0)
      → IsDaemon os.null (limit_of os.limit) os.chdir p (redirect os o q).1
  redirect-IsDaemon p q none e f h d r x = absurd (none_fails q x)
  redirect-IsDaemon p q (some fd) e f h d r x =
      let z = first_free p fd e f h in
      subst
        (λ n.
          (redirect os (some n) q).0 ≡ returned (pos 0)
          → IsDaemon os.null (limit_of os.limit) os.chdir p (redirect os (some n) q).1)
        (sym z)
        (λ y.
          subst (IsDaemon os.null (limit_of os.limit) os.chdir p) (sym (redirect_done q y))
            (copies-IsDaemon os.null (limit_of os.limit) os.chdir p q h d r))
        x

  -- What the second child has done before it closes its descriptors.
  record IsDetached (p q : Process) : Type 0 where
    table : q.descriptors ≡ p.descriptors
    unmasked : q.mask ≡ some 0
    own : q.own_session ≡ true
    directory : q.directory ≡ p.directory

  detach-IsDaemon :
      (p q : Process)
      → IsDetached p q
      → q.leads ≡ false
      → LowestFree os p
      → 3 ≤ limit_of os.limit
      → (detach os q).0 ≡ returned (pos 0)
      → IsDaemon os.null (limit_of os.limit) os.chdir p (detach os q).1
  unfolding detach
  detach-IsDaemon p q d l f h =
      let q' = change_directory os.chdir q in
      let (table, same_mask, place, same_leads, same_own) = change_directory_rest os.chdir q in
      let (mask, directory, leads, own) = close_below_rest (limit_of os.limit) q' in
      redirect-IsDaemon p (close_below (limit_of os.limit) q') os.open_null refl f h
        (λ j. close_below_table (limit_of os.limit) p q' j (table ∙ d.table))
        (
          own ∙ same_own ∙ d.own,
          leads ∙ same_leads ∙ l,
          directory ∙ place ∙ ap (λ old. if os.chdir then b'/' ∷ [] else old) d.directory,
          mask ∙ same_mask ∙ d.unmasked,
        )

  fork_again-IsDaemon :
      (s : Fork) (p q : Process)
      → IsDetached p q
      → LowestFree os p
      → 3 ≤ limit_of os.limit
      → (fork_again os s q).0 ≡ returned (pos 0)
      → IsDaemon os.null (limit_of os.limit) os.chdir p (fork_again os s q).1
  unfolding fork_again
  fork_again-IsDaemon refused p q d f h x = absurd (cc)
  fork_again-IsDaemon parent p q d f h x = absurd (cc)
  fork_again-IsDaemon child p q d f h x =
      detach-IsDaemon p (record q { leads = false })
        (record { table = d.table; unmasked = d.unmasked; own = d.own; directory = d.directory })
        refl f h x

  led-IsDaemon :
      (s : Bool) (p q : Process)
      → q.descriptors ≡ p.descriptors
      → q.mask ≡ some 0
      → q.directory ≡ p.directory
      → LowestFree os p
      → 3 ≤ limit_of os.limit
      → (led os s q).0 ≡ returned (pos 0)
      → IsDaemon os.null (limit_of os.limit) os.chdir p (led os s q).1
  unfolding led
  led-IsDaemon true p q t m g f h x =
      fork_again-IsDaemon os.second_fork p _
        (record { table = t; unmasked = m; own = refl; directory = g }) f h x
  led-IsDaemon false p q t m g f h x = absurd (cc)

  forked-IsDaemon :
      (s : Fork) (p q : Process)
      → q.descriptors ≡ p.descriptors
      → q.mask ≡ some 0
      → q.directory ≡ p.directory
      → LowestFree os p
      → 3 ≤ limit_of os.limit
      → (forked os s q).0 ≡ returned (pos 0)
      → IsDaemon os.null (limit_of os.limit) os.chdir p (forked os s q).1
  unfolding forked lead_session
  forked-IsDaemon refused p q t m g f h x = absurd (cc)
  forked-IsDaemon parent p q t m g f h x = absurd (cc)
  forked-IsDaemon child p q t m g f h x = led-IsDaemon os.setsid p _ t m g f h x

  -- Where daemonize returns 0, the process is a daemon.
  pub daemonize-IsDaemon :
      (p : Process)
      → LowestFree os p
      → 3 ≤ limit_of os.limit
      → (daemonize os p).0 ≡ returned (pos 0)
      → IsDaemon os.null (limit_of os.limit) os.chdir p (daemonize os p).1
  unfolding daemonize
  daemonize-IsDaemon p f h x =
      forked-IsDaemon os.first_fork p (record p { mask = some 0 }) refl refl refl f h x
