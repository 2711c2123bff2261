-- ===== src/Marshal/Stream.antt =====
-- The operators << and >> of net/marshall.h, which pack and unpack one value of each type.
use deps.Prelude.{ℕ, zero, suc, ◌%◌, ◌^◌}
use deps.Prelude.{Bool, true, false, Option, List, [], ◌∷◌, ◌++◌}
use deps.Prelude.{◌==◌, if◌then◌else◌, length}
use deps.Marshal.Outcome.{M, pure, ◌>>=◌, ◌>>◌}
use deps.Marshal.Pack.{
  PackBuffer, push_uint8, push_uint16, push_uint32, push_uint64, push_int64, push_double,
}
use deps.Marshal.Pack.{push_varstr}
use deps.Marshal.Unpack.{
  Unpack, pop_uint8, pop_uint16, pop_uint32, pop_uint64, pop_int64, pop_double,
}
use deps.Marshal.Unpack.{pop_varstr}

-- The two operators for one type. `>>` changes a variable: `get` takes its old value and answers the
-- new one. `fresh` is the value that a new variable has.
pub record Codec (A : Type 0) : Type 0 where
  pub fresh : A
  pub put : A → M PackBuffer (Unit {0})
  pub get : A → M Unpack A

-- `c.resize(count)`: the first `count` elements, with new ones behind where there are fewer.
unfoldable pub resize_vector : {A : Type 0} → A → ℕ → List A → List A
resize_vector a zero xs = []
resize_vector a (suc n) [] = a ∷ resize_vector a n []
resize_vector a (suc n) (x ∷ xs) = x ∷ resize_vector a n xs

module _ {A : Type 0} (c : Codec A) where
  -- `for (i = begin; i != end; ++i) p << *i;`
  unfoldable pub put_items : List A → M PackBuffer (Unit {0})
  put_items [] = pure tt
  put_items (x ∷ xs) = c.put x >> put_items xs

  -- `for (i = 0; i < count; ++i) s >> c[i];`, over the elements of the resized vector.
  unfoldable pub get_items : List A → M Unpack (List A)
  get_items [] = pure []
  get_items (x ∷ xs) = do y ← c.get x; ys ← get_items xs; pure (y ∷ ys)

  -- `operator >>` into a std::vector.
  unfoldable pub get_vector : List A → M Unpack (List A)
  get_vector xs = do
    count ← pop_uint32
    if count == 0 then pure xs else get_items (resize_vector c.fresh count xs)

  -- The loop of `unmarshal_container`, `count` rounds, and what it hands to the output iterator.
  unfoldable pub get_count : ℕ → M Unpack (List A)
  get_count zero = pure []
  get_count (suc count) = do tmp ← c.get c.fresh; rest ← get_count count; pure (tmp ∷ rest)

  unfoldable pub unmarshal_container : M Unpack (List A)
  unmarshal_container = pop_uint32 >>= get_count

  -- `unmarshal_containerEx` puts the elements behind those that the container has.
  unfoldable pub unmarshal_container_ex : List A → M Unpack (List A)
  unmarshal_container_ex xs = do count ← pop_uint32; ys ← get_count count; pure (xs ++ ys)

-- `operator >>` into a variable of a base type or a std::string.
abbrev pub get_bool : Bool → M Unpack Bool
get_bool sign = pop_uint8 >>= λ v. pure (if v == 0 then false else true)

abbrev pub get_uint8 : ℕ → M Unpack ℕ
get_uint8 i8 = pop_uint8

abbrev pub get_uint16 : ℕ → M Unpack ℕ
get_uint16 i16 = pop_uint16

abbrev pub get_uint32 : ℕ → M Unpack ℕ
get_uint32 i32 = pop_uint32

abbrev pub get_uint64 : ℕ → M Unpack ℕ
get_uint64 i64 = pop_uint64

abbrev pub get_int64 : ℕ → M Unpack ℕ
get_int64 i64 = pop_int64

abbrev pub get_double : ℕ → M Unpack ℕ
get_double dbl = pop_double

abbrev pub get_string : List ℕ → M Unpack (List ℕ)
get_string str = pop_varstr

module _ (malloc : ℕ → ℕ → Option (List ℕ)) where
  unfoldable pub bool_codec : Codec Bool
  bool_codec = record {
    fresh = false;
    put = λ sign. push_uint8 malloc (if sign then 1 else 0);
    get = get_bool;
  }

  unfoldable pub uint8_codec : Codec ℕ
  uint8_codec = record { fresh = 0; put = push_uint8 malloc; get = get_uint8 }

  unfoldable pub uint16_codec : Codec ℕ
  uint16_codec = record { fresh = 0; put = push_uint16 malloc; get = get_uint16 }

  unfoldable pub uint32_codec : Codec ℕ
  uint32_codec = record { fresh = 0; put = push_uint32 malloc; get = get_uint32 }

  unfoldable pub uint64_codec : Codec ℕ
  uint64_codec = record { fresh = 0; put = push_uint64 malloc; get = get_uint64 }

  unfoldable pub int64_codec : Codec ℕ
  int64_codec = record { fresh = 0; put = push_int64 malloc; get = get_int64 }

  unfoldable pub double_codec : Codec ℕ
  double_codec = record { fresh = 0; put = push_double malloc; get = get_double }

  unfoldable pub string_codec : Codec (List ℕ)
  string_codec = record { fresh = []; put = push_varstr malloc; get = get_string }

  unfoldable pub pair_codec : {A B : Type 0} → Codec A → Codec B → Codec (A × B)
  pair_codec c d = record {
    fresh = (c.fresh, d.fresh);
    put = λ p. c.put p.0 >> d.put p.1;
    get = λ p. c.get p.0 >>= λ a. d.get p.1 >>= λ b. pure (a, b);
  }

  -- `marshal_container`, and `operator <<` of std::vector, std::set and std::map, which have its body:
  -- the elements are those that the iterator goes through.
  unfoldable pub marshal_container : {A : Type 0} → Codec A → List A → M PackBuffer (Unit {0})
  marshal_container c xs = push_uint32 malloc (length xs % 2 ^ 32) >> put_items c xs

  unfoldable pub vector_codec : {A : Type 0} → Codec A → Codec (List A)
  vector_codec c = record { fresh = []; put = marshal_container c; get = get_vector c }
