-- ===== src/Marshal/Unordered.antt =====
-- `>>` of net/marshall.h into a std::set, as the union of finite sets. What a set is, its elements and
-- not the order in which they arrived, is a quotient of the lists.
use deps.Prelude.{ℕ, ◌≡◌, refl, sym, ◌∙◌}
use deps.Prelude.{Bool, true, false, Option, List, [], ◌∷◌, All, ◌⊎◌, inl, inr}
use deps.Prelude.{length, Bool-cases}
use mathlib.Core.Path.{ap₂, subst}
use mathlib.Core.Logic.{◌↔◌}
use mathlib.Core.Quot
use mathlib.Core.Quot.{Quot}
use deps.Marshal.Outcome.{ok}
use deps.Marshal.Bytes.{host_bytes}
use deps.Marshal.Unpack.{pop_uint32}
use deps.Marshal.Parse.{Parses, Parses->>=, Parses-pure, pop_uint32-Parses, at, after}
use deps.Marshal.Stream.{Codec}
use deps.Marshal.RoundTrip.{Lawful, items, container_bytes, FitsAll}
use deps.Marshal.Ordered.{insert, get_inserts, get_set, StrictOrder, Sorted, insert-Sorted}

abbrev pub In : {A : Type 0} → A → List A → Type 0
In a [] = ⊥
In a (x ∷ xs) = (a ≡ x) ⊎ In a xs

abbrev pub SameElements : {A : Type 0} → List A → List A → Type 0
SameElements xs ys = (a : _) → In a xs ↔ In a ys

-- Elements that compare as neither less nor greater are the same.
abbrev pub IsTotal : {A : Type 0} → (A → A → Bool) → Type 0
IsTotal {A} lt = (x y : A) → lt x y ≡ false → lt y x ≡ false → x ≡ y

-- One element after the other.
abbrev pub inserts : {A : Type 0} → (A → A → Bool) → List A → List A → List A
inserts lt [] zs = zs
inserts lt (x ∷ xs) zs = inserts lt xs (insert lt x zs)

-- The first of three goes to the second place.
swapped : {P Q R T : Type 0} → T ↔ (P ⊎ R) → (Q ⊎ T) ↔ (P ⊎ (Q ⊎ R))
swapped {P} {Q} {R} {T} (f, g) = (there, back)
  where
    there : Q ⊎ T → P ⊎ (Q ⊎ R)
    there (inl q) = inr (inl q)
    there (inr t) = elim (f t) [ inl p ↦ inl p | inr r ↦ inr (inr r) ]

    back : P ⊎ (Q ⊎ R) → Q ⊎ T
    back (inl p) = inr (g (inl p))
    back (inr (inl q)) = inl q
    back (inr (inr r)) = inr (g (inr r))

-- What is put in first is found first.
gathered : {P Q R S T : Type 0} → T ↔ (Q ⊎ S) → S ↔ (P ⊎ R) → T ↔ ((P ⊎ Q) ⊎ R)
gathered {P} {Q} {R} {S} {T} (f, g) (h, k) = (there, back)
  where
    onward : S → (P ⊎ Q) ⊎ R
    onward x = elim (h x) [ inl p ↦ inl (inl p) | inr r ↦ inr r ]

    there : T → (P ⊎ Q) ⊎ R
    there t = elim (f t) [ inl q ↦ inl (inr q) | inr x ↦ onward x ]

    back : (P ⊎ Q) ⊎ R → T
    back (inl (inl p)) = g (inr (k (inl p)))
    back (inl (inr q)) = g (inl q)
    back (inr r) = g (inr (k (inr r)))

module _ {A : Type 0} {lt : A → A → Bool} (order : StrictOrder lt) (total : IsTotal lt) where
  insert-In : (a x : A) (zs : List A) → In a (insert lt x zs) ↔ ((a ≡ x) ⊎ In a zs)
  unfolding insert
  insert-In a x [] = (λ h. h, λ h. h)
  insert-In a x (z ∷ zs) = elim (Bool-cases (lt x z)) [
    | inl p ↦ rw p (λ h. h, λ h. h)
    | inr p ↦ elim (Bool-cases (lt z x)) [
      | inl q ↦ rw (p, q) (swapped (insert-In a x zs))
      | inr q ↦ rw (p, q) (λ h. inr h, there (total x z p q))
    ]
  ]
    where
      there : x ≡ z → (a ≡ x) ⊎ ((a ≡ z) ⊎ In a zs) → (a ≡ z) ⊎ In a zs
      there e (inl h) = inl (h ∙ e)
      there e (inr h) = h

  pub inserts-In : (a : A) (xs zs : List A) → In a (inserts lt xs zs) ↔ (In a xs ⊎ In a zs)
  inserts-In a [] zs = (λ h. inr h, λ h. elim h [ inl b ↦ absurd b | inr i ↦ i ])
  inserts-In a (x ∷ xs) zs = gathered (inserts-In a xs (insert lt x zs)) (insert-In a x zs)

  pub inserts-Sorted : (xs zs : List A) → Sorted lt zs → Sorted lt (inserts lt xs zs)
  inserts-Sorted [] zs s = s
  inserts-Sorted (x ∷ xs) zs s = inserts-Sorted xs (insert lt x zs) (insert-Sorted order x zs s)

  All-In : (P : A → Type 0) (a : A) (xs : List A) → All P xs → In a xs → P a
  All-In P a [] h i = absurd i
  All-In P a (x ∷ xs) h (inl e) = subst P (sym e) h.0
  All-In P a (x ∷ xs) h (inr i) = All-In P a xs h.1 i

  -- Nothing is less than itself, whichever way round.
  never : (x y : A) → lt x y ≡ true → ¬ (lt y x ≡ true)
  never x y h k = let e = order.transitive x y x h k in cc (e, order.irreflexive x)

  -- Two lists in order with the same elements start with the same.
  heads :
      (x y : A) (xs ys : List A)
      → Sorted lt (x ∷ xs)
      → Sorted lt (y ∷ ys)
      → In x (y ∷ ys)
      → In y (x ∷ xs)
      → x ≡ y
  heads x y xs ys s t (inl e) j = e
  heads x y xs ys s t (inr i) (inl e) = sym e
  heads x y xs ys s t (inr i) (inr j) =
      absurd (
        never x y (All-In (λ z. lt x z ≡ true) y xs s.0 j) (All-In (λ z. lt y z ≡ true) x ys t.0 i))

  -- Behind the same head, the elements are the same.
  tails :
      (x y : A) (xs ys : List A)
      → x ≡ y
      → Sorted lt (x ∷ xs)
      → ((a : A) → In a (x ∷ xs) → In a (y ∷ ys))
      → (a : A) → In a xs
      → In a ys
  tails x y xs ys e s h a i = elim (h a (inr i)) [
    | inl f ↦ absurd (
        cc (
          subst (λ z. lt x z ≡ true) (f ∙ sym e) (All-In (λ z. lt x z ≡ true) a xs s.0 i),
          order.irreflexive x,
        ))
    | inr j ↦ j
  ]

  -- A list in order is known by its elements.
  Sorted-ext : (xs ys : List A) → Sorted lt xs → Sorted lt ys → SameElements xs ys → xs ≡ ys
  Sorted-ext [] [] s t h = refl
  Sorted-ext [] (y ∷ ys) s t h = absurd ((h y).1 (inl refl))
  Sorted-ext (x ∷ xs) [] s t h = absurd ((h x).0 (inl refl))
  Sorted-ext (x ∷ xs) (y ∷ ys) s t h =
      let e = heads x y xs ys s t ((h x).0 (inl refl)) ((h y).1 (inl refl)) in
      ap₂ ◌∷◌ e (
        Sorted-ext xs ys s.1 t.1
          (λ a. (tails x y xs ys e s (λ b. (h b).0) a, tails y x ys xs (sym e) t (λ b. (h b).1) a)))

  pub inserts_same : (xs ys : List A) → SameElements xs ys → inserts lt xs [] ≡ inserts lt ys []
  inserts_same xs ys h =
      Sorted-ext (inserts lt xs []) (inserts lt ys []) (inserts-Sorted xs [] tt)
        (inserts-Sorted ys [] tt) (λ a. moved (inserts-In a xs []) (h a) (inserts-In a ys []))
    where
      moved : {P Q R T : Type 0} → P ↔ (Q ⊎ ⊥) → Q ↔ R → T ↔ (R ⊎ ⊥) → P ↔ T
      moved (f, g) (h, k) (l, m) = (
        λ p. elim (f p) [ inl q ↦ m (inl (h q)) | inr b ↦ absurd b ],
        λ t. elim (l t) [ inl r ↦ g (inl (k r)) | inr b ↦ absurd b ],
      )

  -- The std::set of a finite set: a list of its elements in any order, however often.
  unfoldable pub set_of : IsSet (List A) → Quot (SameElements {A = A}) → List A
  set_of is_set = Quot.lift is_set (λ xs. inserts lt xs []) inserts_same

module _ (malloc : ℕ → ℕ → Option (List ℕ)) {A : Type 0} {lt : A → A → Bool}
    (order : StrictOrder lt) (total : IsTotal lt) {c : Codec A} {wire : A → List ℕ}
    {Fits : A → Type 0} (law : Lawful malloc c wire Fits) where
  get_inserts-Parses :
      (xs ys : List A)
      → All Fits xs
      → Parses (get_inserts lt c (length xs) ys) (items wire xs) (inserts lt xs ys)
  unfolding get_inserts
  get_inserts-Parses [] ys f = Parses-pure ys
  get_inserts-Parses (x ∷ xs) ys f =
      Parses->>= (c.get c.fresh) (λ tmp. get_inserts lt c (length xs) (insert lt tmp ys)) (wire x)
        (items wire xs) x (inserts lt xs (insert lt x ys)) (law.parses x f.0)
        (get_inserts-Parses xs (insert lt x ys) f.1)

  get_set-Parses :
      (xs old : List A)
      → FitsAll Fits xs
      → Parses (get_set lt c old) (container_bytes wire xs) (inserts lt xs old)
  unfolding get_set
  get_set-Parses xs old h =
      Parses->>= pop_uint32 (λ count. get_inserts lt c count old) (host_bytes 4 (length xs))
        (items wire xs) (length xs) (inserts lt xs old) (pop_uint32-Parses (length xs) h.0)
        (get_inserts-Parses xs old h.1)

  -- If `<<` and `>>` of the element put and take its bytes, and `<` is a strict order in which only
  -- equal elements are not comparable, then `>>` of fewer than 2^32 elements, in any order and with any
  -- of them twice, into a set in order takes exactly their bytes, and leaves a set in order, whose
  -- elements are those that arrived and those that it had.
  pub get_set-Union :
      (xs old : List A) (rest : List ℕ) (n : ℕ)
      → FitsAll Fits xs
      → Sorted lt old
      → (r : List A) × (get_set lt c old (at (container_bytes wire xs) rest n)
          ≡ (ok r, after rest n))
        × Sorted lt r
        × ((a : A) → In a r ↔ (In a xs ⊎ In a old))
  get_set-Union xs old rest n h s = (
    inserts lt xs old,
    get_set-Parses xs old h rest n,
    inserts-Sorted order total xs old s,
    λ a. inserts-In order total a xs old,
  )

  -- If `<<` and `>>` of the element put and take its bytes, and `<` is a strict order in which only
  -- equal elements are not comparable, what `>>` makes of a new set of fewer than 2^32 elements is a
  -- function of the finite set of those that arrived, where lists with the same elements are equal.
  pub get_set-set_of :
      (is_set : IsSet (List A)) (xs : List A) (rest : List ℕ) (n : ℕ)
      → FitsAll Fits xs
      → get_set lt c [] (at (container_bytes wire xs) rest n)
        ≡ (ok (set_of order total is_set (Quot.mk xs)), after rest n)
  unfolding set_of
  get_set-set_of is_set xs rest n h = get_set-Parses xs [] h rest n
