-- ===== src/Buffer.antt =====
-- net/blockbuffer.h: BlockBuffer, the growing byte buffer that packets and sockets are kept in.
--
-- The allocator is `def_block_alloc_4k`, the only one that the library uses, so a block has 4096
-- bytes; the template argument MaxBlocks stays a parameter. `size_t` is 64 bits wide.
pub mod Memory
pub mod Growth
pub mod Contents
pub mod Erase
pub mod Capacity
pub mod Counters
pub mod Run
pub mod Refine
pub mod Forward
mod Tests
use deps.Prelude.{ℕ, ◌+◌, ◌-◌, ◌*◌, ◌/◌, ◌%◌, ◌^◌, ◌≤◌, ◌<◌, ◌≡◌, arith}
use deps.Prelude.{Bool, true, false, ◌&&◌, not, Option, none, some, List, []}
use deps.Prelude.{ltb, leb, ◌==◌, if◌then◌else◌, length, take, drop, replicate}
use Memory.{write_at}

abbrev pub requested_size : ℕ
requested_size = 4096

-- size_t arithmetic.
abbrev pub add_size : ℕ → ℕ → ℕ
add_size a b = (a + b) % 2 ^ 64

abbrev pub sub_size : ℕ → ℕ → ℕ
sub_size a b = (a + 2 ^ 64 - b) % 2 ^ 64

abbrev pub mul_size : ℕ → ℕ → ℕ
mul_size a b = (a * b) % 2 ^ 64

abbrev pub npos : ℕ
npos = 2 ^ 64 - 1

-- The object. `mem` is what `m_data` points to, all bytes of all blocks; no bytes for NULL.
pub record Buffer : Type 0 where
  pub mem : List ℕ
  pub size : ℕ
  pub block : ℕ
  pub max_blocks : ℕ

-- The static members that all buffers of one instantiation share, and the number of calls of the
-- allocator so far.
pub record Pool : Type 0 where
  pub current_total_blocks : ℕ
  pub peak_total_blocks : ℕ
  pub calls : ℕ

-- The constructor, at the template argument MaxBlocks.
unfoldable pub new : ℕ → Buffer
new top = record { mem = []; size = 0; block = 0; max_blocks = top }

unfoldable pub empty : Buffer → Bool
empty b = b.size == 0

abbrev pub capacity : Buffer → ℕ
capacity b = mul_size b.block requested_size

abbrev pub maxsize : Buffer → ℕ
maxsize b = mul_size b.max_blocks requested_size

abbrev pub maxfree : Buffer → ℕ
maxfree b = sub_size (maxsize b) b.size

abbrev pub freespace : Buffer → ℕ
freespace b = sub_size (capacity b) b.size

unfoldable pub set_max_blocks : ℕ → ℕ → Buffer → Buffer
set_max_blocks top n b = record b { max_blocks = if ltb top n then top else n }

unfoldable pub free : Buffer → Pool → Buffer × Pool
free b p =
    if ltb 0 b.block
    then (
      record b { mem = []; block = 0 },
      record p { current_total_blocks = sub_size p.current_total_blocks b.block },
    )
    else (b, p)

-- The blocks that `increase_capacity` asks for, once the free space does not do.
unfoldable pub new_block : ℕ → Buffer → ℕ
new_block increase_size b =
    let need = sub_size increase_size (freespace b) in
    let whole = add_size b.block (need / requested_size) in
    if ltb 0 (need % requested_size) then add_size whole 1 else whole

-- The counters after an allocation that takes a buffer from `old` to `new` blocks.
unfoldable pub count_blocks : ℕ → ℕ → Pool → Pool
count_blocks old new p =
    let current = add_size p.current_total_blocks (sub_size new old) in
    record {
      current_total_blocks = current;
      peak_total_blocks = if ltb p.peak_total_blocks current then current else p.peak_total_blocks;
      calls = p.calls + 1;
    }

-- What `append` and `resize` do with the answer of `increase_capacity`.
unfoldable pub append_grown : List ℕ → Bool × Buffer × Pool → Bool × Buffer × Pool
append_grown app (true, b, p) =
    (true, record b { mem = write_at b.mem b.size app; size = add_size b.size (length app) }, p)
append_grown app (false, b, p) = (false, b, p)

unfoldable pub resize_grown : ℕ → List ℕ → Bool × Buffer × Pool → Bool × Buffer × Pool
resize_grown n padding (true, b, p) =
    (true, record b { mem = write_at b.mem b.size padding; size = n }, p)
resize_grown n padding (false, b, p) = (false, b, p)

-- `malloc i n` is what the i-th call of malloc answers to a request of n bytes: nothing, or n bytes
-- with whatever they hold.
module _ (malloc : ℕ → ℕ → Option (List ℕ)) where
  -- The rest of `increase_capacity`, from `ordered_malloc` on.
  unfoldable pub reallocate : ℕ → Buffer → Pool → Bool × Buffer × Pool
  reallocate newblock b p = elim (malloc p.calls (mul_size requested_size newblock)) [
    | none ↦ (false, b, record p { calls = p.calls + 1 })
    | some newdata ↦ (
      true,
      record b {
        mem = if ltb 0 b.block then write_at newdata 0 (take b.size b.mem) else newdata;
        block = newblock;
      },
      count_blocks b.block newblock p,
    )
  ]

  unfoldable pub increase_capacity : ℕ → Buffer → Pool → Bool × Buffer × Pool
  increase_capacity increase_size b p =
      if increase_size == 0
      then (true, b, p)
      else if leb increase_size (freespace b)
      then (true, b, p)
      else if ltb b.max_blocks (new_block increase_size b)
      then (false, b, p)
      else reallocate (new_block increase_size b) b p

  unfoldable pub append : List ℕ → Buffer → Pool → Bool × Buffer × Pool
  append app b p =
      if length app == 0
      then (true, b, p)
      else append_grown app (increase_capacity (length app) b p)

  unfoldable pub reserve : ℕ → Buffer → Pool → Bool × Buffer × Pool
  reserve n b p =
      if leb n (capacity b) then (true, b, p) else increase_capacity (sub_size n (capacity b)) b p

  unfoldable pub resize : ℕ → ℕ → Buffer → Pool → Bool × Buffer × Pool
  resize n c b p =
      if ltb b.size n
      then (let len = sub_size n b.size in
          resize_grown n (replicate len c) (increase_capacity len b p))
      else (true, record b { size = n }, p)

  unfoldable pub replace : ℕ → List ℕ → Buffer → Pool → Bool × Buffer × Pool
  replace pos rep b p =
      if leb b.size pos
      then append rep b p
      else if leb b.size (add_size pos (length rep))
      then append rep (record b { size = pos }) p
      else (true, (if ltb 0 (length rep) then record b { mem = write_at b.mem pos rep } else b), p)

-- `erase` up to the test for the blocks. `assert(pos <= size())` is the caller's duty.
unfoldable pub erase_bytes : ℕ → ℕ → Buffer → Buffer
erase_bytes pos n b =
    let m = sub_size b.size pos in
    if leb m n then record b { size = pos } else record b {
      size = sub_size b.size n;
      mem = write_at b.mem pos (take (m - n) (drop (pos + n) b.mem));
    }

unfoldable pub erase : ℕ → ℕ → Bool → Buffer → Pool → Buffer × Pool
erase pos n hold b p =
    let b' = erase_bytes pos n b in if empty b' && not hold then free b' p else (b', p)
