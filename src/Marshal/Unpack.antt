-- ===== src/Marshal/Unpack.antt =====
-- Unpack of net/marshall.h, and the Varstr of net/varstr.h that it hands out.
use deps.Prelude.{ℕ, ◌-◌}
use deps.Prelude.{Bool, List}
use deps.Prelude.{ltb, leb, ◌==◌, if◌then◌else◌, length, take, drop}
use Prim.Native.String.{String}
use deps.Marshal.Outcome.{ok, thrown, fault, unpack_error, M, pure, ◌>>=◌, ◌>>◌}
use deps.Marshal.Bytes.{host_value}

-- `bytes` is the memory from `m_data` on, as far as it may be read; the object knows only `m_size`.
pub record Unpack : Type 0 where
  pub bytes : List ℕ
  pub size : ℕ

-- struct Varstr: a pointer, given by the memory from there on, and a size.
pub record Varstr : Type 0 where
  pub pointer : List ℕ
  pub size : ℕ

unfoldable pub reset : List ℕ → ℕ → Unpack
reset bytes size = record { bytes = bytes; size = size }

unfoldable pub empty : Unpack → Bool
empty u = u.size == 0

-- A read of k bytes at a pointer.
unfoldable pub read : {S : Type 0} → ℕ → List ℕ → M S (List ℕ)
read k bytes s = if leb k (length bytes) then (ok (take k bytes), s) else (fault, s)

unfoldable pub require : ℕ → String → M Unpack (Unit {0})
require k what u = if ltb u.size k then (thrown (unpack_error what), u) else (ok tt, u)

-- `m_data += k; m_size -= k;`, where k is at most the size.
unfoldable pub advance : ℕ → M Unpack (Unit {0})
advance k u = (ok tt, record { bytes = drop k u.bytes; size = u.size - k })

unfoldable pub peek : ℕ → M Unpack (List ℕ)
peek k u = read k u.bytes u

-- XNTOHS, XNTOHL and XNTOHLL.
unfoldable pub xntoh : ℕ → ℕ
xntoh v = v

-- The common body of the readers of fixed width.
unfoldable pub pop_fixed : ℕ → String → (ℕ → ℕ) → M Unpack ℕ
unfolding require peek read advance
pop_fixed k what convert = do
  require k what
  raw ← peek k
  advance k
  pure (convert (host_value raw))

unfoldable pub pop_uint8 : M Unpack ℕ
unfolding pop_fixed
pop_uint8 = pop_fixed 1 "pop_uint8: not enough data" (λ v. v)

unfoldable pub pop_uint16 : M Unpack ℕ
unfolding pop_fixed xntoh
pop_uint16 = pop_fixed 2 "pop_uint16: not enough data" xntoh

unfoldable pub pop_uint32 : M Unpack ℕ
unfolding pop_fixed xntoh
pop_uint32 = pop_fixed 4 "pop_uint32: not enough data" xntoh

unfoldable pub pop_uint64 : M Unpack ℕ
unfolding pop_fixed xntoh
pop_uint64 = pop_fixed 8 "pop_uint64: not enough data" xntoh

-- The bit pattern of an int64_t.
unfoldable pub pop_int64 : M Unpack ℕ
unfolding pop_fixed xntoh
pop_int64 = pop_fixed 8 "pop_int64: not enough data" xntoh

unfoldable pub peek_uint32 : M Unpack ℕ
unfolding require peek read xntoh
peek_uint32 = do
  require 4 "peek_uint32: not enough data"
  raw ← peek 4
  pure (xntoh (host_value raw))

-- `m_data += sizeof(double);`: the size stays as it is.
unfoldable pub advance_pointer : ℕ → M Unpack (Unit {0})
advance_pointer k u = (ok tt, record u { bytes = drop k u.bytes })

-- The bit pattern of the double.
unfoldable pub pop_double : M Unpack ℕ
unfolding require peek read advance_pointer
pop_double = do
  require 8 "pop_double: not enough data"
  raw ← peek 8
  advance_pointer 8
  pure (host_value raw)

-- The pointer from before the advance.
unfoldable pub pointer : M Unpack (List ℕ)
pointer u = (ok u.bytes, u)

unfoldable pub pop_fetch_ptr : ℕ → M Unpack (List ℕ)
unfolding require pointer advance
pop_fetch_ptr k = do require k "pop_fetch_ptr: not enough data"; p ← pointer; advance k; pure p

-- std::string(pop_fetch_ptr(k), k)
unfoldable pub pop_fetch : ℕ → M Unpack (List ℕ)
pop_fetch k = pop_fetch_ptr k >>= read k

unfoldable pub pop_varstr_ptr : M Unpack Varstr
pop_varstr_ptr = do n ← pop_uint16; p ← pop_fetch_ptr n; pure (record { pointer = p; size = n })

unfoldable pub pop_varstr32_ptr : M Unpack Varstr
pop_varstr32_ptr = do n ← pop_uint32; p ← pop_fetch_ptr n; pure (record { pointer = p; size = n })

-- std::string(vs.data(), vs.size())
unfoldable pub string_of : Varstr → M Unpack (List ℕ)
string_of vs = read vs.size vs.pointer

unfoldable pub pop_varstr : M Unpack (List ℕ)
pop_varstr = pop_varstr_ptr >>= string_of

unfoldable pub pop_varstr32 : M Unpack (List ℕ)
pop_varstr32 = pop_varstr32_ptr >>= string_of

unfoldable pub finish : M Unpack (Unit {0})
unfolding empty
finish u = if empty u then (ok tt, u) else (thrown (unpack_error "finish: too much data"), u)
