-- ===== src/Marshal/Pack.antt =====
-- PackBuffer and Pack of net/marshall.h. Both Pack objects of a packet share one PackBuffer, which is
-- the state here; what a Pack has of its own is the offset `m_offset`.
use deps.Prelude.{ℕ}
use deps.Prelude.{Bool, true, false, Option, List, [], ◌∷◌}
use deps.Prelude.{ltb, ◌==◌, if◌then◌else◌, length, drop}
use Prim.Native.String.{String}
use deps.Buffer.{Buffer, Pool, add_size, sub_size}
use deps.Buffer
use deps.Buffer.Growth.{contents}
use deps.Marshal.Outcome.{Outcome, ok, thrown, pack_error, M, pure, throw, ◌>>=◌, ◌>>◌}
use deps.Marshal.Bytes.{host_bytes}

-- The private `bb`, a BlockBuffer<def_block_alloc_4k, 16>, with the counters of that class.
pub record PackBuffer : Type 0 where
  pub bb : Buffer
  pub pool : Pool

abbrev pub packet_blocks : ℕ
packet_blocks = 16

-- The answer of a member of `bb`: an exception where it is false.
unfoldable pub checked : String → Bool × Buffer × Pool → Outcome (Unit {0}) × PackBuffer
checked what (true, b, p) = (ok tt, record { bb = b; pool = p })
checked what (false, b, p) = (thrown (pack_error what), record { bb = b; pool = p })

-- A C string in memory up to its terminating zero.
unfoldable pub c_string : List ℕ → List ℕ
c_string [] = []
c_string (b ∷ bs) = if b == 0 then [] else b ∷ c_string bs

-- XHTONS, XHTONL and XHTONLL.
unfoldable pub xhton : ℕ → ℕ
xhton v = v

module _ (malloc : ℕ → ℕ → Option (List ℕ)) where
  unfoldable pub resize : ℕ → M PackBuffer (Unit {0})
  resize n pb = checked "resize buffer overflow" (Buffer.resize malloc n 0 pb.bb pb.pool)

  unfoldable pub append : List ℕ → M PackBuffer (Unit {0})
  append bytes pb = checked "append buffer overflow" (Buffer.append malloc bytes pb.bb pb.pool)

  unfoldable pub replace_bytes : ℕ → List ℕ → M PackBuffer (Unit {0})
  replace_bytes pos rep pb =
      checked "replace buffer overflow" (Buffer.replace malloc pos rep pb.bb pb.pool)

  unfoldable pub reserve : ℕ → M PackBuffer (Unit {0})
  reserve n pb = checked "reserve buffer overflow" (Buffer.reserve malloc n pb.bb pb.pool)

  -- Pack::Pack(pb, off): the result is `m_offset`.
  unfoldable pub new_pack : ℕ → M PackBuffer ℕ
  new_pack off pb = (resize (add_size pb.bb.size off) >>= λ _. pure (add_size pb.bb.size off)) pb

  unfoldable pub push : List ℕ → M PackBuffer (Unit {0})
  push bytes = append bytes

  unfoldable pub push_cstr : List ℕ → M PackBuffer (Unit {0})
  push_cstr s = append (c_string s)

  unfoldable pub push_uint8 : ℕ → M PackBuffer (Unit {0})
  push_uint8 u8 = push (host_bytes 1 u8)

  unfoldable pub push_uint16 : ℕ → M PackBuffer (Unit {0})
  push_uint16 u16 = push (host_bytes 2 (xhton u16))

  unfoldable pub push_uint32 : ℕ → M PackBuffer (Unit {0})
  push_uint32 u32 = push (host_bytes 4 (xhton u32))

  unfoldable pub push_uint64 : ℕ → M PackBuffer (Unit {0})
  push_uint64 u64 = push (host_bytes 8 (xhton u64))

  -- An int64_t is given by its bit pattern, as the parameter of the function is.
  unfoldable pub push_int64 : ℕ → M PackBuffer (Unit {0})
  push_int64 u64 = push (host_bytes 8 (xhton u64))

  -- A double is given by its bit pattern.
  unfoldable pub push_double : ℕ → M PackBuffer (Unit {0})
  push_double dbl = push (host_bytes 8 dbl)

  unfoldable pub push_varstr : List ℕ → M PackBuffer (Unit {0})
  push_varstr s =
      if ltb 0xffff (length s)
      then throw (pack_error "push_varstr: varstr too big")
      else (push_uint16 (length s) >> push s)

  unfoldable pub push_varstr32 : List ℕ → M PackBuffer (Unit {0})
  push_varstr32 s =
      if ltb 0xffff_ffff (length s)
      then throw (pack_error "push_varstr32: varstr too big")
      else (push_uint32 (length s) >> push s)

  -- `pos` is an offset in the buffer, not in this Pack.
  unfoldable pub replace : ℕ → List ℕ → M PackBuffer ℕ
  replace pos bytes = replace_bytes pos bytes >>= λ _. pure (add_size pos (length bytes))

  unfoldable pub replace_uint8 : ℕ → ℕ → M PackBuffer ℕ
  replace_uint8 pos u8 = replace pos (host_bytes 1 u8)

  unfoldable pub replace_uint16 : ℕ → ℕ → M PackBuffer ℕ
  replace_uint16 pos u16 = replace pos (host_bytes 2 (xhton u16))

  unfoldable pub replace_uint32 : ℕ → ℕ → M PackBuffer ℕ
  replace_uint32 pos u32 = replace pos (host_bytes 4 (xhton u32))

-- data() and size() of the Pack at offset `off`.
unfoldable pub pack_bytes : ℕ → PackBuffer → List ℕ
pack_bytes off pb = drop off (contents pb.bb)

unfoldable pub pack_size : ℕ → PackBuffer → ℕ
pack_size off pb = sub_size pb.bb.size off
