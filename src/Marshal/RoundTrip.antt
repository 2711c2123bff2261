-- ===== src/Marshal/RoundTrip.antt =====
-- Round trips through the operators << and >> of net/marshall.h.
use deps.Prelude.{ℕ, suc, ◌%◌, ◌^◌, ◌≤◌, ◌<◌, ◌≡◌, arith}
use deps.Prelude.{Bool, true, false, Option, List, [], ◌∷◌, ◌++◌, All}
use deps.Prelude.{◌==◌, if◌then◌else◌, length}
use deps.Buffer.Growth.{Answers}
use deps.Marshal.Outcome.{ok, M, pure, ◌>>=◌}
use deps.Marshal.Bytes.{host_bytes}
use deps.Marshal.Pack.{push_uint8, push_uint16, push_uint32, push_uint64, push_int64, xhton}
use deps.Marshal.Unpack.{Unpack, pop_uint8, pop_uint32}
use deps.Marshal.Emit.{Emits, Emits->>, push_fixed-Emits, push_varstr-Emits, Emits-pure}
use deps.Marshal.Parse.{
  Parses, Parses->>=, Parses-map, Parses-pure, pop_uint8-Parses, pop_uint16-Parses,
  pop_uint32-Parses,
}
use deps.Marshal.Parse.{at, after, pop_uint64-Parses, pop_int64-Parses, pop_varstr-Parses}
use deps.Marshal.Stream
use deps.Marshal.Stream.{Codec}

-- What a pair of operators promises on the values of `Fits`: `<<` puts the bytes `wire a` behind those
-- packed before, and `>>` into a new variable takes exactly these bytes and answers `a`.
pub record Lawful (malloc : ℕ → ℕ → Option (List ℕ)) {A : Type 0} (c : Codec A) (wire : A → List ℕ)
    (Fits : A → Type 0) : Type 0 where
  pub emits : (a : A) → Fits a → Emits malloc (c.put a) (wire a)
  pub parses : (a : A) → Fits a → Parses (c.get c.fresh) (wire a) a

-- The bytes of the elements, one after the other.
abbrev pub items : {A : Type 0} → (A → List ℕ) → List A → List ℕ
items wire [] = []
items wire (x ∷ xs) = wire x ++ items wire xs

-- The bytes of a container: the number of its elements, then the elements.
abbrev pub container_bytes : {A : Type 0} → (A → List ℕ) → List A → List ℕ
container_bytes wire xs = host_bytes 4 (length xs) ++ items wire xs

abbrev pub FitsAll : {A : Type 0} → (A → Type 0) → List A → Type 0
FitsAll Fits xs = (length xs < 2 ^ 32) × All Fits xs

module _ (malloc : ℕ → ℕ → Option (List ℕ)) (answers : Answers malloc) where
  pub uint8-Lawful : Lawful malloc (Stream.uint8_codec malloc) (host_bytes 1) (λ v. v < 2 ^ 8)
  unfolding Stream.uint8_codec push_uint8
  uint8-Lawful = record {
    emits = λ v h. push_fixed-Emits malloc answers 1 v (omega arith);
    parses = pop_uint8-Parses;
  }

  pub uint16-Lawful : Lawful malloc (Stream.uint16_codec malloc) (host_bytes 2) (λ v. v < 2 ^ 16)
  unfolding Stream.uint16_codec push_uint16 xhton
  uint16-Lawful = record {
    emits = λ v h. push_fixed-Emits malloc answers 2 v (omega arith);
    parses = pop_uint16-Parses;
  }

  pub uint32-Lawful : Lawful malloc (Stream.uint32_codec malloc) (host_bytes 4) (λ v. v < 2 ^ 32)
  unfolding Stream.uint32_codec push_uint32 xhton
  uint32-Lawful = record {
    emits = λ v h. push_fixed-Emits malloc answers 4 v (omega arith);
    parses = pop_uint32-Parses;
  }

  pub uint64-Lawful : Lawful malloc (Stream.uint64_codec malloc) (host_bytes 8) (λ v. v < 2 ^ 64)
  unfolding Stream.uint64_codec push_uint64 xhton
  uint64-Lawful = record {
    emits = λ v h. push_fixed-Emits malloc answers 8 v (omega arith);
    parses = pop_uint64-Parses;
  }

  pub int64-Lawful : Lawful malloc (Stream.int64_codec malloc) (host_bytes 8) (λ v. v < 2 ^ 64)
  unfolding Stream.int64_codec push_int64 xhton
  int64-Lawful = record {
    emits = λ v h. push_fixed-Emits malloc answers 8 v (omega arith);
    parses = pop_int64-Parses;
  }

  pub bool-Lawful :
      Lawful malloc (Stream.bool_codec malloc) (λ b. host_bytes 1 (if b then 1 else 0)) (λ _. Unit)
  unfolding Stream.bool_codec push_uint8
  bool-Lawful = record {
    emits = λ b _. push_fixed-Emits malloc answers 1 (if b then 1 else 0) (omega arith);
    parses = λ b _. bool_parses b;
  }
    where
      bool_parses :
          (b : Bool)
          → Parses
              (pop_uint8 >>= λ v. pure (if v == 0 then false else true))
              (host_bytes 1 (if b then 1 else 0))
              b
      bool_parses true =
          Parses-map pop_uint8 (λ v. if v == 0 then false else true) _ 1
            (pop_uint8-Parses 1 (omega arith))
      bool_parses false =
          Parses-map pop_uint8 (λ v. if v == 0 then false else true) _ 0
            (pop_uint8-Parses 0 (omega arith))

  pub string-Lawful :
      Lawful malloc
        (Stream.string_codec malloc)
        (λ s. host_bytes 2 (length s) ++ s)
        (λ s. length s ≤ 0xffff)
  unfolding Stream.string_codec
  string-Lawful = record {
    emits = λ s h pb v. push_varstr-Emits malloc answers s pb h v;
    parses = pop_varstr-Parses;
  }

  module _ {A : Type 0} {c : Codec A} {wire : A → List ℕ} {Fits : A → Type 0}
      (law : Lawful malloc c wire Fits) where
    -- A std::pair goes through `<<` and `>>` into a new pair unchanged, if both parts do.
    pub pair-Lawful :
        {B : Type 0} {d : Codec B} {wire' : B → List ℕ} {Fits' : B → Type 0}
        → Lawful malloc d wire' Fits'
        → Lawful malloc
            (Stream.pair_codec malloc c d)
            (λ p. wire p.0 ++ wire' p.1)
            (λ p. Fits p.0 × Fits' p.1)
    unfolding Stream.pair_codec
    pair-Lawful {d = d} {wire' = wire'} law' = record {
      emits = λ p h.
          Emits->> malloc (c.put p.0) (d.put p.1) (wire p.0) (wire' p.1) (law.emits p.0 h.0)
            (law'.emits p.1 h.1);
      parses = λ p h.
          Parses->>= (c.get c.fresh) (λ a. d.get d.fresh >>= λ b. pure (a, b)) (wire p.0)
            (wire' p.1) p.0 p (law.parses p.0 h.0)
            (Parses-map (d.get d.fresh) (λ b. (p.0, b)) (wire' p.1) p.1 (law'.parses p.1 h.1));
    }

    put_items-Emits :
        (xs : List A) → All Fits xs → Emits malloc (Stream.put_items c xs) (items wire xs)
    unfolding Stream.put_items
    put_items-Emits [] h = Emits-pure malloc
    put_items-Emits (x ∷ xs) h =
        Emits->> malloc (c.put x) (Stream.put_items c xs) (wire x) (items wire xs) (law.emits x h.0)
          (put_items-Emits xs h.1)

    get_items-Parses :
        (xs : List A)
        → All Fits xs
        → Parses
            (Stream.get_items c (Stream.resize_vector c.fresh (length xs) []))
            (items wire xs)
            xs
    unfolding Stream.get_items Stream.resize_vector
    get_items-Parses [] h = Parses-pure []
    get_items-Parses (x ∷ xs) h =
        let more : M Unpack (List A) =
          Stream.get_items c (Stream.resize_vector c.fresh (length xs) []) in
        Parses->>= (c.get c.fresh) (λ y. more >>= λ ys. pure (y ∷ ys)) (wire x) (items wire xs) x
          (x ∷ xs) (law.parses x h.0)
          (Parses-map more (λ ys. x ∷ ys) (items wire xs) xs (get_items-Parses xs h.1))

    pub container-Emits :
        (xs : List A)
        → FitsAll Fits xs
        → Emits malloc (Stream.marshal_container malloc c xs) (container_bytes wire xs)
    unfolding Stream.marshal_container push_uint32 xhton
    container-Emits xs h =
        let e : length xs % 2 ^ 32 ≡ length xs = omega (arith, h.0) in
        rw e (
          Emits->> malloc _ _ _ _ (push_fixed-Emits malloc answers 4 (length xs) (omega arith))
            (put_items-Emits xs h.1))

    get_vector-Parses :
        (xs : List A)
        → FitsAll Fits xs
        → Parses (Stream.get_vector c []) (container_bytes wire xs) xs
    unfolding Stream.get_vector
    get_vector-Parses xs h =
        Parses->>= pop_uint32
          (λ count.
            if count == 0
            then pure []
            else Stream.get_items c (Stream.resize_vector c.fresh count []))
          (host_bytes 4 (length xs)) (items wire xs) (length xs) xs
          (pop_uint32-Parses (length xs) h.0) (body xs h)
      where
        body :
            (ys : List A)
            → FitsAll Fits ys
            → Parses
                (if length ys == 0
                  then pure []
                  else Stream.get_items c (Stream.resize_vector c.fresh (length ys) []))
                (items wire ys)
                ys
        body [] k = Parses-pure []
        body (y ∷ ys) k =
            let nonzero : (suc (length ys) == 0) ≡ false = ground arith in
            rw nonzero (get_items-Parses (y ∷ ys) k.1)

    -- A std::vector goes through `<<` and `>>` into a new vector unchanged, if its elements do and if
    -- their number fits 32 bits.
    pub vector-Lawful :
        Lawful malloc (Stream.vector_codec malloc c) (container_bytes wire) (FitsAll Fits)
    unfolding Stream.vector_codec
    vector-Lawful = record { emits = container-Emits; parses = get_vector-Parses }

    get_count-Parses :
        (xs : List A) → All Fits xs → Parses (Stream.get_count c (length xs)) (items wire xs) xs
    unfolding Stream.get_count
    get_count-Parses [] h = Parses-pure []
    get_count-Parses (x ∷ xs) h =
        let more : M Unpack (List A) = Stream.get_count c (length xs) in
        Parses->>= (c.get c.fresh) (λ y. more >>= λ ys. pure (y ∷ ys)) (wire x) (items wire xs) x
          (x ∷ xs) (law.parses x h.0)
          (Parses-map more (λ ys. x ∷ ys) (items wire xs) xs (get_count-Parses xs h.1))

    -- `unmarshal_container` hands out the elements that `marshal_container` packed, in their order, and
    -- `unmarshal_containerEx` puts them behind those that its container has.
    pub unmarshal-marshal :
        (xs old : List A) (rest : List ℕ) (n : ℕ)
        → FitsAll Fits xs
        → (Stream.unmarshal_container c (at (container_bytes wire xs) rest n)
            ≡ (ok xs, after rest n))
          × (Stream.unmarshal_container_ex c old (at (container_bytes wire xs) rest n)
              ≡ (ok (old ++ xs), after rest n))
    unfolding Stream.unmarshal_container Stream.unmarshal_container_ex
    unmarshal-marshal xs old rest n h = (
      Parses->>= pop_uint32 (Stream.get_count c) (host_bytes 4 (length xs)) (items wire xs)
          (length xs) xs (pop_uint32-Parses (length xs) h.0) (get_count-Parses xs h.1) rest n,
      Parses->>= pop_uint32 (λ count. Stream.get_count c count >>= λ ys. pure (old ++ ys))
          (host_bytes 4 (length xs)) (items wire xs) (length xs) (old ++ xs)
          (pop_uint32-Parses (length xs) h.0)
          (Parses-map (Stream.get_count c (length xs)) (λ ys. old ++ ys) (items wire xs) xs
            (get_count-Parses xs h.1))
          rest n,
    )

-- An empty vector that arrives leaves the vector that it is read into as it is, not empty.
pub get_vector_stale :
    {A : Type 0} (c : Codec A) (old : List A) (rest : List ℕ) (n : ℕ)
    → Stream.get_vector c old (at (container_bytes {A = A} (λ _. []) []) rest n)
      ≡ (ok old, after rest n)
unfolding Stream.get_vector
get_vector_stale {A} c old rest n =
    Parses->>= pop_uint32
      (λ count.
        if count == 0
        then pure old
        else Stream.get_items c (Stream.resize_vector c.fresh count old))
      (host_bytes 4 0) [] 0 old (pop_uint32-Parses 0 (omega arith)) (Parses-pure old) rest n
