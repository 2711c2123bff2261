-- ===== src/Marshal/Marshallable.antt =====
-- The helpers of net/marshall.h that derive from Marshallable, and the operators for a Varstr.
use deps.Prelude.{ℕ, ◌≤◌, ◌≡◌, refl, arith}
use deps.Prelude.{true, Option, List, []}
use deps.Prelude.{ltb, leb, if◌then◌else◌, length, take, length-take, Bool-cases, inl, inr}
use deps.Marshal.Outcome.{
  Outcome, ok, thrown, fault, pack_error, M, pure, throw, continue, ◌>>=◌, ◌>>◌,
}
use deps.Marshal.Pack.{PackBuffer, push, push_uint16, push_varstr}
use deps.Marshal.Unpack.{Varstr, read, pop_varstr_ptr}
use deps.Marshal.Stream.{Codec}

-- `assert(false)`.
unfoldable pub assert_false : {S A : Type 0} → M S A
assert_false s = (fault, s)

unfoldable pub voidmable : Codec (Unit {0})
voidmable = record { fresh = tt; put = λ _. pure tt; get = λ _. pure tt }

-- Two const objects, of which the second is packed behind the first.
unfoldable pub mulmable : {A B : Type 0} → Codec A → Codec B → Codec (A × B)
mulmable c d = record {
  fresh = (c.fresh, d.fresh);
  put = λ m. c.put m.0 >> d.put m.1;
  get = λ _. assert_false;
}

unfoldable pub mulumable : {A B : Type 0} → Codec A → Codec B → Codec (A × B)
mulumable c d = record {
  fresh = (c.fresh, d.fresh);
  put = λ m. c.put m.0 >> d.put m.1;
  get = λ m. c.get m.0 >>= λ a. d.get m.1 >>= λ b. pure (a, b);
}

-- What follows an outcome may be replaced by what does the same.
continue_same :
    {S A B : Type 0} (o : Outcome A) (s : S) (f g : A → M S B)
    → ((a : A) (t : S) → f a t ≡ g a t)
    → continue o s f ≡ continue o s g
continue_same (ok a) s f g h = h a s
continue_same (thrown e) s f g h = refl
continue_same fault s f g h = refl

module _ (malloc : ℕ → ℕ → Option (List ℕ)) where
  unfoldable pub rawmable : Codec (List ℕ)
  rawmable = record { fresh = []; put = push malloc; get = λ _. assert_false }

  -- `push_varstr(vs.data(), vs.size())`: the size is tested and packed before the memory is read.
  unfoldable pub push_varstr_ptr : Varstr → M PackBuffer (Unit {0})
  push_varstr_ptr vs =
      if ltb 0xffff vs.size
      then throw (pack_error "push_varstr: varstr too big")
      else (push_uint16 malloc vs.size >> (read vs.size vs.pointer >>= push malloc))

  unfoldable pub varstr_codec : Codec Varstr
  varstr_codec = record {
    fresh = record { pointer = []; size = 0 };
    put = push_varstr_ptr;
    get = λ _. pop_varstr_ptr;
  }

  read_there :
      (vs : Varstr) (pb : PackBuffer)
      → vs.size ≤ length vs.pointer
      → (read vs.size vs.pointer >>= push malloc) pb ≡ push malloc (take vs.size vs.pointer) pb
  unfolding read
  read_there vs pb h =
      let there : leb vs.size (length vs.pointer) ≡ true = ground arith in rw there refl

  -- A Varstr within its memory is packed as the text that it shows.
  pub push_varstr_ptr_lem :
      (vs : Varstr) (pb : PackBuffer)
      → vs.size ≤ length vs.pointer
      → push_varstr_ptr vs pb ≡ push_varstr malloc (take vs.size vs.pointer) pb
  unfolding push_varstr_ptr push_varstr
  push_varstr_ptr_lem vs pb h =
      let n : length (take vs.size vs.pointer) ≡ vs.size =
        omega (arith, length-take vs.size vs.pointer) in
      elim (Bool-cases (ltb 0xffff vs.size)) [
        | inl z ↦ rw (n, z) refl
        | inr z ↦
            rw (n, z)
              (continue_same (push_uint16 malloc vs.size pb).0 (push_uint16 malloc vs.size pb).1
                (λ _. read vs.size vs.pointer >>= push malloc)
                (λ _. push malloc (take vs.size vs.pointer)) (λ a t. read_there vs t h))
      ]
