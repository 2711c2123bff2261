-- ===== src/Marshal/Ordered.antt =====
-- The operators << and >> of net/marshall.h for std::set and std::map, which keep their elements in
-- the order of `<`. The elements of a map are pairs that compare by their keys.
use deps.Prelude.{ℕ, zero, suc, ◌≡◌, refl, ap, sym}
use deps.Prelude.{Bool, true, false, Option, List, [], ◌∷◌, ◌++◌, append_assoc, append-nil, All}
use deps.Prelude.{if◌then◌else◌, length, Bool-cases, inl, inr}
use mathlib.Core.Path.{subst}
use deps.Buffer.Growth.{Answers}
use deps.Marshal.Outcome.{Outcome, ok, thrown, fault, M, pure, continue, ◌>>=◌}
use deps.Marshal.Bytes.{host_bytes}
use deps.Marshal.Unpack.{Unpack, pop_uint32}
use deps.Marshal.Parse.{Parses, Parses->>=, Parses-pure, pop_uint32-Parses}
use deps.Marshal.Stream.{Codec, marshal_container, pair_codec}
use deps.Marshal.RoundTrip.{Lawful, items, container_bytes, FitsAll, container-Emits, pair-Lawful}

-- `insert` of std::set and std::map: an element that compares as neither less nor greater stays.
unfoldable pub insert : {A : Type 0} → (A → A → Bool) → A → List A → List A
insert lt x [] = x ∷ []
insert lt x (y ∷ ys) =
    let rest = insert lt x ys in if lt x y then x ∷ y ∷ ys else if lt y x then y ∷ rest else y ∷ ys

module _ {A : Type 0} (lt : A → A → Bool) (c : Codec A) where
  -- The loop of `>>`, on the container as it is so far.
  unfoldable pub get_inserts : ℕ → List A → M Unpack (List A)
  get_inserts zero xs = pure xs
  get_inserts (suc count) xs = c.get c.fresh >>= λ tmp. get_inserts count (insert lt tmp xs)

  unfoldable pub get_set : List A → M Unpack (List A)
  get_set xs = pop_uint32 >>= λ count. get_inserts count xs

unfoldable pub set_codec :
    (ℕ → ℕ → Option (List ℕ)) → {A : Type 0} → (A → A → Bool) → Codec A → Codec (List A)
set_codec malloc lt c = record { fresh = []; put = marshal_container malloc c; get = get_set lt c }

-- The order of the elements of a map.
unfoldable pub by_key : {K V : Type 0} → (K → K → Bool) → K × V → K × V → Bool
by_key lt p q = lt p.0 q.0

unfoldable pub map_codec :
    (ℕ → ℕ → Option (List ℕ))
    → {K V : Type 0} → (K → K → Bool)
    → Codec K
    → Codec V
    → Codec (List (K × V))
map_codec malloc lt k v = set_codec malloc (by_key lt) (pair_codec malloc k v)

-- What the standard asks of `<`.
pub record StrictOrder {A : Type 0} (lt : A → A → Bool) : Type 0 where
  pub irreflexive : (x : A) → lt x x ≡ false
  pub transitive : (x y z : A) → lt x y ≡ true → lt y z ≡ true → lt x z ≡ true

-- The elements are in order, none twice.
abbrev pub Sorted : {A : Type 0} → (A → A → Bool) → List A → Type 0
Sorted lt [] = Unit {0}
Sorted lt (x ∷ xs) = All (λ y. lt x y ≡ true) xs × Sorted lt xs

pub by_key-StrictOrder :
    {K V : Type 0} {lt : K → K → Bool} → StrictOrder lt → StrictOrder (by_key {K = K} {V = V} lt)
unfolding by_key
by_key-StrictOrder o = record {
  irreflexive = λ p. o.irreflexive p.0;
  transitive = λ p q r. o.transitive p.0 q.0 r.0;
}

module _ {A : Type 0} {lt : A → A → Bool} (order : StrictOrder lt) where
  asymmetric : (x y : A) → lt x y ≡ true → lt y x ≡ false
  asymmetric x y h = elim (Bool-cases (lt y x)) [
    | inl g ↦ absurd (cc (order.transitive x y x h g, order.irreflexive x))
    | inr g ↦ g
  ]

  All-trans :
      (x y : A) (ys : List A)
      → lt x y ≡ true
      → All (λ z. lt y z ≡ true) ys
      → All (λ z. lt x z ≡ true) ys
  All-trans x y [] h a = tt
  All-trans x y (z ∷ zs) h a = (order.transitive x y z h a.0, All-trans x y zs h a.1)

  -- What is behind an element stays behind it.
  insert-All : (P : A → Type 0) (x : A) (ys : List A) → P x → All P ys → All P (insert lt x ys)
  unfolding insert
  insert-All P x [] h a = (h, tt)
  insert-All P x (y ∷ ys) h a = elim (Bool-cases (lt x y)) [
    | inl z ↦ rw z (h, a)
    | inr z ↦ elim (Bool-cases (lt y x)) [
      | inl g ↦ rw (z, g) (a.0, insert-All P x ys h a.1)
      | inr g ↦ rw (z, g) a
    ]
  ]

  pub insert-Sorted : (x : A) (ys : List A) → Sorted lt ys → Sorted lt (insert lt x ys)
  unfolding insert
  insert-Sorted x [] s = (tt, tt)
  insert-Sorted x (y ∷ ys) s = elim (Bool-cases (lt x y)) [
    | inl z ↦ rw z ((z, All-trans x y ys z s.0), s)
    | inr z ↦ elim (Bool-cases (lt y x)) [
      | inl g ↦ rw (z, g) (insert-All (λ w. lt y w ≡ true) x ys g s.0, insert-Sorted x ys s.1)
      | inr g ↦ rw (z, g) s
    ]
  ]

  -- An element greater than all goes to the end.
  insert_last :
      (x : A) (ys : List A) → All (λ y. lt y x ≡ true) ys → insert lt x ys ≡ ys ++ (x ∷ [])
  unfolding insert
  insert_last x [] a = refl
  insert_last x (y ∷ ys) a = rw (asymmetric y x a.0, a.0) (ap (λ zs. y ∷ zs) (insert_last x ys a.1))

  module _ (c : Codec A) where
    -- What is read, where anything is.
    abbrev Keeps : Outcome (List A) → Type 0
    Keeps (ok ys) = Sorted lt ys
    Keeps (thrown e) = Unit {0}
    Keeps fault = Unit {0}

    continue-Keeps :
        {B : Type 0} (o : Outcome B) (u : Unpack) (f : B → M Unpack (List A))
        → ((b : B) (v : Unpack) → Keeps (f b v).0)
        → Keeps (continue o u f).0
    continue-Keeps (ok b) u f h = h b u
    continue-Keeps (thrown e) u f h = tt
    continue-Keeps fault u f h = tt

    get_inserts-Keeps :
        (count : ℕ) (xs : List A) (u : Unpack)
        → Sorted lt xs
        → Keeps (get_inserts lt c count xs u).0
    unfolding get_inserts
    get_inserts-Keeps zero xs u s = s
    get_inserts-Keeps (suc count) xs u s =
        continue-Keeps (c.get c.fresh u).0 (c.get c.fresh u).1 _
          (λ tmp v. get_inserts-Keeps count (insert lt tmp xs) v (insert-Sorted tmp xs s))

    -- Whatever bytes arrive, a set or a map that is read has its elements in order and none twice.
    pub get_set-Sorted :
        (xs ys : List A) (u v : Unpack)
        → Sorted lt xs
        → get_set lt c xs u ≡ (ok ys, v)
        → Sorted lt ys
    unfolding get_set
    get_set-Sorted xs ys u v s e = subst Keeps (ap (λ r. r.0) e) (
        continue-Keeps (pop_uint32 u).0 (pop_uint32 u).1 _
          (λ count w. get_inserts-Keeps count xs w s))

All-snoc :
    {A : Type 0} (P : A → Type 0) (x : A) (zs : List A) → All P zs → P x → All P (zs ++ (x ∷ []))
All-snoc P x [] h p = (p, tt)
All-snoc P x (z ∷ zs) h p = (h.0, All-snoc P x zs h.1 p)

module _ (malloc : ℕ → ℕ → Option (List ℕ)) (answers : Answers malloc) {A : Type 0}
    {lt : A → A → Bool} (order : StrictOrder lt) {c : Codec A} {wire : A → List ℕ}
    {Fits : A → Type 0} (law : Lawful malloc c wire Fits) where
  -- The elements that are read stand behind those that are there.
  get_inserts-Parses :
      (xs ys : List A)
      → All Fits xs
      → Sorted lt xs
      → All (λ x. All (λ y. lt y x ≡ true) ys) xs
      → Parses (get_inserts lt c (length xs) ys) (items wire xs) (ys ++ xs)
  unfolding get_inserts
  get_inserts-Parses [] ys f s a = rw append-nil (Parses-pure ys)
  get_inserts-Parses (x ∷ xs) ys f s a =
      Parses->>= (c.get c.fresh) (λ tmp. get_inserts lt c (length xs) (insert lt tmp ys)) (wire x)
        (items wire xs) x (ys ++ (x ∷ xs)) (law.parses x f.0)
        (rw (insert_last order x ys a.0, sym (append_assoc ys (x ∷ []) xs))
          (get_inserts-Parses xs (ys ++ (x ∷ [])) f.1 s.1 (behind xs s.0 a.1)))
    where
      behind :
          (zs : List A)
          → All (λ y. lt x y ≡ true) zs
          → All (λ z. All (λ y. lt y z ≡ true) ys) zs
          → All (λ z. All (λ y. lt y z ≡ true) (ys ++ (x ∷ []))) zs
      behind [] h k = tt
      behind (z ∷ zs) h k = (All-snoc (λ y. lt y z ≡ true) x ys k.0 h.0, behind zs h.1 k.1)

  none_before : (xs : List A) → All (λ x. All (λ y. lt y x ≡ true) []) xs
  none_before [] = tt
  none_before (x ∷ xs) = (tt, none_before xs)

  -- A std::set goes through `<<` and `>>` into a new set unchanged, if its elements do and if their
  -- number fits 32 bits.
  pub set-Lawful :
      Lawful malloc
        (set_codec malloc lt c)
        (container_bytes wire)
        (λ xs. FitsAll Fits xs × Sorted lt xs)
  unfolding set_codec get_set
  set-Lawful = record {
    emits = λ xs h. container-Emits malloc answers law xs h.0;
    parses = λ xs h.
        Parses->>= pop_uint32 (λ count. get_inserts lt c count []) (host_bytes 4 (length xs))
          (items wire xs) (length xs) xs (pop_uint32-Parses (length xs) h.0.0)
          (get_inserts-Parses xs [] h.0.1 h.1 (none_before xs));
  }

module _ (malloc : ℕ → ℕ → Option (List ℕ)) (answers : Answers malloc) where
  -- A std::map goes through `<<` and `>>` into a new map unchanged, if its keys and its values do and if
  -- their number fits 32 bits: the bytes are the number of entries, and the entries by their keys.
  pub map-Lawful :
      {K V : Type 0} {lt : K → K → Bool} {k : Codec K} {v : Codec V} {wire : K → List ℕ}
      {wire' : V → List ℕ} {Fits : K → Type 0} {Fits' : V → Type 0}
      → StrictOrder lt
      → Lawful malloc k wire Fits
      → Lawful malloc v wire' Fits'
      → Lawful malloc
          (map_codec malloc lt k v)
          (container_bytes (λ p. wire p.0 ++ wire' p.1))
          (λ ps. FitsAll (λ p. Fits p.0 × Fits' p.1) ps × Sorted (by_key lt) ps)
  unfolding map_codec
  map-Lawful order law law' =
      set-Lawful malloc answers (by_key-StrictOrder order) (pair-Lawful malloc answers law law')

-- Reading into a map that has the key already keeps the old value of the key, and the new one is lost.
pub insert_kept :
    {K V : Type 0} {lt : K → K → Bool} (order : StrictOrder lt) (k : K) (v w : V)
    (rest : List (K × V))
    → insert (by_key lt) (k, w) ((k, v) ∷ rest) ≡ (k, v) ∷ rest
unfolding insert by_key
insert_kept order k v w rest = rw (order.irreflexive k) refl
