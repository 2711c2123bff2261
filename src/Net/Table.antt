-- ===== src/Net/Table.antt =====
-- std::map<int, SocketBase*> and std::set<SocketBase*> of net/epoll_container.h: a list with
-- ascending keys, and a list without repetition.
use deps.Prelude.{ℕ, ◌+◌, ◌<◌, ◌≤◌, ◌≡◌, refl, sym, ap, ◌∙◌, arith}
use deps.Prelude.{Bool, true, false, ◌||◌, Option, none, some, List, [], ◌∷◌, inl, inr}
use deps.Prelude.{ltb, ◌==◌, if◌then◌else◌, length, Bool-cases, tests}
use mathlib.Core.Option.{none-ne-some, some-injective}

abbrev pub find : ℕ → List (ℕ × ℕ) → Option ℕ
find k [] = none
find k ((k', p) ∷ t) = let rest = find k t in if k == k' then some p else rest

abbrev pub insert : ℕ → ℕ → List (ℕ × ℕ) → List (ℕ × ℕ)
insert k p [] = (k, p) ∷ []
insert k p ((k', p') ∷ t) =
    let rest = insert k p t in if ltb k k' then (k, p) ∷ (k', p') ∷ t else (k', p') ∷ rest

abbrev pub remove : ℕ → List (ℕ × ℕ) → List (ℕ × ℕ)
remove k [] = []
remove k ((k', p) ∷ t) = let rest = remove k t in if k == k' then t else (k', p) ∷ rest

-- The first entry with a key above k.
abbrev pub upper_bound : ℕ → List (ℕ × ℕ) → Option (ℕ × ℕ)
upper_bound k [] = none
upper_bound k ((k', p) ∷ t) = let rest = upper_bound k t in if ltb k k' then some (k', p) else rest

abbrev pub member : ℕ → List ℕ → Bool
member p [] = false
member p (q ∷ qs) = (p == q) || member p qs

abbrev pub add_member : ℕ → List ℕ → List ℕ
add_member p ps = if member p ps then ps else p ∷ ps

-- Ascending keys, from lo on.
abbrev pub IsSorted : ℕ → List (ℕ × ℕ) → Type 0
IsSorted lo [] = Unit {0}
IsSorted lo ((k, p) ∷ t) = (lo ≤ k) × IsSorted (k + 1) t

abbrev pub IsDistinct : List ℕ → Type 0
IsDistinct [] = Unit {0}
IsDistinct (p ∷ ps) = (member p ps ≡ false) × IsDistinct ps

pub self_key : (k : ℕ) → (k == k) ≡ true
self_key k = ground arith

IsSorted-weaker : (lo lo' : ℕ) (t : List (ℕ × ℕ)) → lo' ≤ lo → IsSorted lo t → IsSorted lo' t
IsSorted-weaker lo lo' [] h s = s
IsSorted-weaker lo lo' ((k, p) ∷ t) h (l, s) = (omega arith, s)

find_below : (k lo : ℕ) (t : List (ℕ × ℕ)) → IsSorted lo t → k < lo → find k t ≡ none
find_below k lo [] s h = refl
find_below k lo ((k', p) ∷ t) (l, s) h = elim (Bool-cases (k == k')) [
  | inl e ↦ absurd (omega tests)
  | inr e ↦ rw e (find_below k (k' + 1) t s (omega arith))
]

pub remove-IsSorted : (k lo : ℕ) (t : List (ℕ × ℕ)) → IsSorted lo t → IsSorted lo (remove k t)
remove-IsSorted k lo [] s = s
remove-IsSorted k lo ((k', p) ∷ t) (l, s) = elim (Bool-cases (k == k')) [
  | inl e ↦ rw e (IsSorted-weaker (k' + 1) lo t (omega arith) s)
  | inr e ↦ rw e (l, remove-IsSorted k (k' + 1) t s)
]

pub find-remove : (k lo : ℕ) (t : List (ℕ × ℕ)) → IsSorted lo t → find k (remove k t) ≡ none
find-remove k lo [] s = refl
find-remove k lo ((k', p) ∷ t) (l, s) = elim (Bool-cases (k == k')) [
  | inl e ↦ rw e (find_below k (k' + 1) t s (omega tests))
  | inr e ↦ rw (e, e) (find-remove k (k' + 1) t s)
]

other_key : (k k' i : ℕ) → (k == k') ≡ false → (k' == i) ≡ true → (k == i) ≡ false
other_key k k' i h e = ground arith

pub find-remove_other :
    (k k' : ℕ) (t : List (ℕ × ℕ)) → (k == k') ≡ false → find k (remove k' t) ≡ find k t
find-remove_other k k' [] h = refl
find-remove_other k k' ((i, p) ∷ t) h = elim (Bool-cases (k' == i)) [
  | inl e ↦ rw (e, other_key k k' i h e) refl
  | inr e ↦
      rw e (elim (Bool-cases (k == i)) [
        | inl g ↦ rw g refl
        | inr g ↦ rw g (find-remove_other k k' t h)
      ])
]

pub length-remove :
    (k p : ℕ) (t : List (ℕ × ℕ)) → find k t ≡ some p → length (remove k t) + 1 ≡ length t
length-remove k p [] h = absurd (none-ne-some _ h)
length-remove k p ((k', p') ∷ t) h = elim (Bool-cases (k == k')) [
  | inl e ↦ rw e (omega arith)
  | inr e ↦ rw e (omega (arith, length-remove k p t (rw e at h)))
]

pub insert-IsSorted :
    (k p lo : ℕ) (t : List (ℕ × ℕ))
    → lo ≤ k
    → IsSorted lo t
    → find k t ≡ none
    → IsSorted lo (insert k p t)
insert-IsSorted k p lo [] h s f = (h, tt)
insert-IsSorted k p lo ((k', p') ∷ t) h (l, s) f = elim (Bool-cases (k == k')) [
  | inl e ↦ absurd (none-ne-some _ (sym (rw e at f)))
  | inr e ↦ elim (Bool-cases (ltb k k')) [
    | inl g ↦ rw g (h, (omega tests, s))
    | inr g ↦ rw g (l, insert-IsSorted k p (k' + 1) t (omega tests) s (rw e at f))
  ]
]

pub find-insert : (k p : ℕ) (t : List (ℕ × ℕ)) → find k t ≡ none → find k (insert k p t) ≡ some p
find-insert k p [] f = rw (self_key k) refl
find-insert k p ((k', p') ∷ t) f = elim (Bool-cases (k == k')) [
  | inl e ↦ absurd (none-ne-some _ (sym (rw e at f)))
  | inr e ↦ elim (Bool-cases (ltb k k')) [
    | inl g ↦ rw (g, self_key k) refl
    | inr g ↦ rw (g, e) (find-insert k p t (rw e at f))
  ]
]

pub find-insert_other :
    (k i p : ℕ) (t : List (ℕ × ℕ)) → (i == k) ≡ false → find i (insert k p t) ≡ find i t
find-insert_other k i p [] h = rw h refl
find-insert_other k i p ((k', p') ∷ t) h = elim (Bool-cases (ltb k k')) [
  | inl g ↦ rw (g, h) refl
  | inr g ↦ rw g (elim (Bool-cases (i == k')) [
    | inl e ↦ rw e refl
    | inr e ↦ rw e (find-insert_other k i p t h)
  ])
]

pub length-insert : (k p : ℕ) (t : List (ℕ × ℕ)) → length (insert k p t) ≡ length t + 1
length-insert k p [] = refl
length-insert k p ((k', p') ∷ t) = elim (Bool-cases (ltb k k')) [
  | inl g ↦ rw g (omega arith)
  | inr g ↦ rw g (omega (arith, length-insert k p t))
]

pub length-remove-none :
    (k : ℕ) (t : List (ℕ × ℕ)) → find k t ≡ none → length (remove k t) ≡ length t
length-remove-none k [] h = refl
length-remove-none k ((k', p) ∷ t) h = elim (Bool-cases (k == k')) [
  | inl e ↦ absurd (none-ne-some _ (sym (rw e at h)))
  | inr e ↦ rw e (omega (arith, length-remove-none k t (rw e at h)))
]

pub add_member-IsDistinct : (p : ℕ) (ps : List ℕ) → IsDistinct ps → IsDistinct (add_member p ps)
add_member-IsDistinct p ps d = elim (Bool-cases (member p ps)) [
  | inl e ↦ rw e d
  | inr e ↦ rw e (e, d)
]

pub member-add_member :
    (p q : ℕ) (ps : List ℕ) → (q == p) ≡ false → member q (add_member p ps) ≡ member q ps
member-add_member p q ps h = elim (Bool-cases (member p ps)) [
  | inl e ↦ rw e refl
  | inr e ↦ rw (e, h) refl
]

pub member_self : (p : ℕ) (ps : List ℕ) → member p (add_member p ps) ≡ true
member_self p ps = elim (Bool-cases (member p ps)) [
  | inl e ↦ rw (e, e) refl
  | inr e ↦ rw (e, self_key p) refl
]

-- The entry that upper_bound gives is in the table.
pub find-upper_bound :
    (k k' p lo : ℕ) (t : List (ℕ × ℕ))
    → IsSorted lo t
    → upper_bound k t ≡ some (k', p)
    → find k' t ≡ some p
find-upper_bound k k' p lo [] s h = absurd (none-ne-some _ h)
find-upper_bound k k' p lo ((i, q) ∷ t) (l, s) h = elim (Bool-cases (ltb k i)) [
  | inl g ↦
      let e = some-injective _ _ (rw g at h) in
      rw (← ap (λ x. x.0) e, ← ap (λ x. x.1) e, self_key i) refl
  | inr g ↦
      let f = find-upper_bound k k' p (i + 1) t s (rw g at h) in
      elim (Bool-cases (k' == i)) [
        | inl e ↦ absurd (none-ne-some p (sym (find_below k' (i + 1) t s (omega tests)) ∙ f))
        | inr e ↦ rw e f
      ]
]
