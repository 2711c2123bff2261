-- ===== src/Marshal/Tests.antt =====
-- Runs of net/marshall.h, and the theorems at concrete inputs.
use deps.Prelude.{ℕ, ◌^◌, ◌≤◌, ◌<◌, ◌≡◌, refl, arith, sym, ap, ◌∙◌}
use deps.Prelude.{Option, some, List, [], ◌∷◌, ◌++◌, length, replicate, length-replicate}
use mathlib.Core.Option.{some-injective}
use deps.Buffer.Growth.{Answers}
use deps.Marshal.Outcome.{ok, thrown, unpack_error}
use deps.Marshal.Bytes.{host_bytes, host_value, host_value-host_bytes}
use deps.Marshal.Pack.{PackBuffer}
use deps.Marshal.Unpack.{Unpack}
use deps.Marshal.Unpack.{pop_uint16, pop_fetch_ptr, pop_varstr_ptr, string_of, pop_varstr}
use deps.Marshal.Emit.{PackValid}
use deps.Marshal.Safe.{
  Kept, Reader, uint16, varstr, varstr_ptr, fetch, run_readers, run_readers-Kept,
}
use deps.Marshal.Stream
use deps.Marshal.Ordered.{StrictOrder, Sorted, by_key, map_codec, get_set, get_inserts, insert}
use deps.Marshal.Ordered.{map-Lawful}
use deps.Marshal.Unordered.{In, IsTotal, set_of, get_set-Union, get_set-set_of}
use deps.Marshal.ByteOrder.{swap16, swap32, swap64, swap16_signed, big_bytes, big_bytes-swap}
use deps.Prelude.{ltb, or_bits, tests, ◌⊎◌}
use mathlib.Core.Logic.{◌↔◌}
use mathlib.Core.Quot
use deps.Marshal.Parse.{at, after}
use deps.Marshal.Unpack.{pop_uint8, pop_uint32}
use deps.Marshal.Stream.{Codec}
use deps.Marshal.RoundTrip.{Lawful, container_bytes, FitsAll, uint16-Lawful, string-Lawful}
use deps.Marshal.RoundTrip.{pair-Lawful, vector-Lawful}

abbrev zeroed : ℕ → ℕ → Option (List ℕ)
zeroed i n = some (replicate n 0)

zeroed-Answers : Answers zeroed
zeroed-Answers i n bs e = ap length (sym (some-injective _ _ e)) ∙ length-replicate n 0

abbrev buffer : PackBuffer
buffer = record {
  bb = record { mem = []; size = 0; block = 0; max_blocks = 16 };
  pool = record { current_total_blocks = 0; peak_total_blocks = 0; calls = 0 };
}

buffer-PackValid : PackValid buffer
buffer-PackValid = record { valid = omega arith; limit = refl }

abbrev hello : List ℕ
hello = b'h' ∷ b'i' ∷ []

pop_varstr_run :
    pop_varstr (record { bytes = 2 ∷ 0 ∷ b'h' ∷ b'i' ∷ 9 ∷ []; size = 5 })
    ≡ (ok hello, record { bytes = 9 ∷ []; size = 1 })
unfolding pop_varstr pop_varstr_ptr pop_uint16 pop_fetch_ptr string_of host_value
pop_varstr_run = refl

pop_varstr_cut :
    (pop_varstr (record { bytes = 2 ∷ 0 ∷ b'h' ∷ []; size = 3 })).0
    ≡ thrown (unpack_error "pop_fetch_ptr: not enough data")
unfolding pop_varstr pop_varstr_ptr pop_uint16 pop_fetch_ptr string_of host_value
pop_varstr_cut = refl

host_value-host_bytes_example : host_value (host_bytes 4 0x1234_5678) ≡ 0x1234_5678
host_value-host_bytes_example = host_value-host_bytes 4 0x1234_5678 (omega arith)

abbrev input : Unpack
input = record { bytes = 1 ∷ 2 ∷ 3 ∷ 4 ∷ 5 ∷ 6 ∷ 7 ∷ 8 ∷ []; size = 8 }

abbrev script : List Reader
script = uint16 ∷ varstr_ptr ∷ fetch 3 ∷ varstr ∷ []

run_readers-Kept_example : Kept input (run_readers script input).0 (run_readers script input).1
run_readers-Kept_example = run_readers-Kept script input (omega arith)

-- std::vector<std::pair<uint16_t, std::string>>
abbrev entry_codec : Codec (ℕ × List ℕ)
entry_codec = Stream.pair_codec zeroed (Stream.uint16_codec zeroed) (Stream.string_codec zeroed)

abbrev entry_bytes : ℕ × List ℕ → List ℕ
entry_bytes p = host_bytes 2 p.0 ++ (host_bytes 2 (length p.1) ++ p.1)

abbrev FitsEntry : ℕ × List ℕ → Type 0
FitsEntry p = (p.0 < 2 ^ 16) × (length p.1 ≤ 0xffff)

vector-Lawful_example :
    Lawful zeroed
      (Stream.vector_codec zeroed entry_codec)
      (container_bytes entry_bytes)
      (FitsAll FitsEntry)
vector-Lawful_example = vector-Lawful zeroed zeroed-Answers (
    pair-Lawful zeroed zeroed-Answers (uint16-Lawful zeroed zeroed-Answers)
      (string-Lawful zeroed zeroed-Answers))

abbrev numbers : List ℕ
numbers = 7 ∷ 8 ∷ []

ltb-StrictOrder : StrictOrder ltb
ltb-StrictOrder = record { irreflexive = λ x. ground arith; transitive = λ x y z h k. ground arith }

-- std::map<uint16_t, std::string>
map-Lawful_example :
    Lawful zeroed
      (map_codec zeroed ltb (Stream.uint16_codec zeroed) (Stream.string_codec zeroed))
      (container_bytes entry_bytes)
      (λ ps. FitsAll FitsEntry ps × Sorted (by_key ltb) ps)
map-Lawful_example =
    map-Lawful zeroed zeroed-Answers ltb-StrictOrder (uint16-Lawful zeroed zeroed-Answers)
      (string-Lawful zeroed zeroed-Answers)

-- Three elements, two of them the same.
abbrev unordered : Unpack
unordered = record { bytes = 3 ∷ 0 ∷ 0 ∷ 0 ∷ 9 ∷ 4 ∷ 9 ∷ []; size = 7 }

get_set_run :
    get_set ltb (Stream.uint8_codec zeroed) [] unordered
    ≡ (ok (4 ∷ 9 ∷ []), record { bytes = []; size = 0 })
unfolding get_set get_inserts insert Stream.uint8_codec pop_uint8 pop_uint32 host_value
get_set_run = refl

ltb-IsTotal : IsTotal ltb
ltb-IsTotal x y h k = omega tests

-- std::set<uint16_t>
abbrev some_numbers : List ℕ
some_numbers = 9 ∷ 4 ∷ 9 ∷ []

some_numbers-FitsAll : FitsAll (λ x. x < 2 ^ 16) some_numbers
some_numbers-FitsAll = (omega arith, (omega arith, (omega arith, (omega arith, tt))))

get_set-Union_example :
    (r : List ℕ) × (get_set ltb
        (Stream.uint16_codec zeroed)
        (6 ∷ [])
        (at (container_bytes (host_bytes 2) some_numbers) [] 0)
      ≡ (ok r, after [] 0))
    × Sorted ltb r
    × ((a : ℕ) → In a r ↔ (In a some_numbers ⊎ In a (6 ∷ [])))
get_set-Union_example =
    get_set-Union zeroed ltb-StrictOrder ltb-IsTotal (uint16-Lawful zeroed zeroed-Answers)
      some_numbers (6 ∷ []) [] 0 some_numbers-FitsAll (tt, tt)

get_set-set_of_example :
    get_set ltb
      (Stream.uint16_codec zeroed)
      []
      (at (container_bytes (host_bytes 2) some_numbers) [] 0)
    ≡ (ok (set_of ltb-StrictOrder ltb-IsTotal (hlevel) (Quot.mk some_numbers)), after [] 0)
get_set-set_of_example =
    get_set-set_of zeroed ltb-StrictOrder ltb-IsTotal (uint16-Lawful zeroed zeroed-Answers) (hlevel)
      some_numbers [] 0 some_numbers-FitsAll

swap_runs : (swap16 0x1234 ≡ 0x3412) × (swap32 0x1234_5678 ≡ 0x7856_3412)
unfolding swap16 swap32 or_bits
swap_runs = (refl, refl)

-- The highest byte of the result is lost where the sign is filled in.
swap16_signed_run : (swap16_signed 0x8001 ≡ 0xff80) × (swap16 0x8001 ≡ 0x0180)
unfolding swap16 swap16_signed or_bits
swap16_signed_run = (refl, refl)

big_bytes-swap_example :
    (big_bytes 2 (swap16 1) ≡ host_bytes 2 1)
    × (big_bytes 4 (swap32 2) ≡ host_bytes 4 2)
    × (big_bytes 8 (swap64 3) ≡ host_bytes 8 3)
big_bytes-swap_example = big_bytes-swap 1 2 3 (omega arith) (omega arith) (omega arith)
