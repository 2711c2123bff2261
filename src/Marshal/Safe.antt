-- ===== src/Marshal/Safe.antt =====
-- Which readers of Unpack in net/marshall.h stay inside the memory that they were given.
use deps.Prelude.{ℕ, ◌≤◌, ◌<◌, ◌≡◌, ◌≢◌, refl, arith}
use deps.Prelude.{true, false, List, [], ◌∷◌, inl, inr, Bool-cases, tests}
use deps.Prelude.{ltb, leb, ◌==◌, length, drop, length-drop}
use Prim.Native.String.{String}
use deps.Marshal.Outcome.{Outcome, ok, thrown, fault, M, pure, continue, ◌>>=◌}
use deps.Marshal.Unpack.{Unpack, Varstr, read, xntoh, pop_fixed}
use deps.Marshal.Unpack.{
  pop_uint8, pop_uint16, pop_uint32, pop_uint64, pop_int64, pop_fetch_ptr, pop_fetch,
}
use deps.Marshal.Unpack.{pop_varstr_ptr, pop_varstr32_ptr, string_of, pop_varstr, pop_varstr32}
use deps.Marshal.Unpack.{peek_uint32, pop_double, finish}

-- The size of the object is no more than the memory at its pointer.
abbrev pub InBounds : Unpack → Type 0
InBounds u = u.size ≤ length u.bytes

-- The outcome of a reader that did not read outside and that keeps the object within its memory.
abbrev pub Kept : {A : Type 0} → Unpack → Outcome A → Unpack → Type 0
Kept u (ok a) u' = InBounds u' × (u'.size ≤ u.size)
Kept u (thrown e) u' = InBounds u' × (u'.size ≤ u.size)
Kept u fault u' = ⊥

pop_fixed-Kept :
    (k : ℕ) (what : String) (convert : ℕ → ℕ) (u : Unpack)
    → InBounds u
    → Kept u (pop_fixed k what convert u).0 (pop_fixed k what convert u).1
unfolding pop_fixed
pop_fixed-Kept k what convert u h = elim (Bool-cases (ltb u.size k)) [
  | inl l ↦ rw l (h, omega arith)
  | inr l ↦
      let there : leb k (length u.bytes) ≡ true = ground arith in
      rw (l, there) (omega (tests, length-drop k u.bytes), omega arith)
]

peek_uint32-Kept : (u : Unpack) → InBounds u → Kept u (peek_uint32 u).0 (peek_uint32 u).1
unfolding peek_uint32
peek_uint32-Kept u h = elim (Bool-cases (ltb u.size 4)) [
  | inl l ↦ rw l (h, omega arith)
  | inr l ↦
      let there : leb 4 (length u.bytes) ≡ true = ground arith in rw (l, there) (h, omega arith)
]

pop_fetch_ptr-Kept :
    (k : ℕ) (u : Unpack) → InBounds u → Kept u (pop_fetch_ptr k u).0 (pop_fetch_ptr k u).1
unfolding pop_fetch_ptr
pop_fetch_ptr-Kept k u h = elim (Bool-cases (ltb u.size k)) [
  | inl l ↦ rw l (h, omega arith)
  | inr l ↦ rw l (omega (tests, length-drop k u.bytes), omega arith)
]

-- A string made at once from the pointer that was fetched.
pop_fetch-Kept : (k : ℕ) (u : Unpack) → InBounds u → Kept u (pop_fetch k u).0 (pop_fetch k u).1
unfolding pop_fetch pop_fetch_ptr read
pop_fetch-Kept k u h = elim (Bool-cases (ltb u.size k)) [
  | inl l ↦ rw l (h, omega arith)
  | inr l ↦
      let there : leb k (length u.bytes) ≡ true = ground arith in
      rw (l, there) (omega (tests, length-drop k u.bytes), omega arith)
]

abbrev varstr_at : ℕ → M Unpack Varstr
varstr_at n = pop_fetch_ptr n >>= λ p. pure (record { pointer = p; size = n })

string_at-Kept :
    (n : ℕ) (u : Unpack)
    → InBounds u
    → Kept u ((varstr_at n >>= string_of) u).0 ((varstr_at n >>= string_of) u).1
unfolding pop_fetch_ptr string_of read
string_at-Kept n u h = elim (Bool-cases (ltb u.size n)) [
  | inl l ↦ rw l (h, omega arith)
  | inr l ↦
      let there : leb n (length u.bytes) ≡ true = ground arith in
      rw (l, there) (omega (tests, length-drop n u.bytes), omega arith)
]

Kept-after :
    {A : Type 0} (u v : Unpack) (o : Outcome A) (w : Unpack)
    → v.size ≤ u.size
    → Kept v o w
    → Kept u o w
Kept-after u v (ok a) w h k = (k.0, omega arith)
Kept-after u v (thrown e) w h k = (k.0, omega arith)
Kept-after u v fault w h k = k

string_after-Kept :
    (u : Unpack) (o : Outcome ℕ) (v : Unpack)
    → Kept u o v
    → let r = continue o v varstr_at in
      Kept u (continue r.0 r.1 string_of).0 (continue r.0 r.1 string_of).1
string_after-Kept u (ok n) v k = Kept-after u v _ _ k.1 (string_at-Kept n v k.0)
string_after-Kept u (thrown e) v k = k
string_after-Kept u fault v k = k

varstr_at-Kept : (n : ℕ) (u : Unpack) → InBounds u → Kept u (varstr_at n u).0 (varstr_at n u).1
unfolding pop_fetch_ptr
varstr_at-Kept n u h = elim (Bool-cases (ltb u.size n)) [
  | inl l ↦ rw l (h, omega arith)
  | inr l ↦ rw l (omega (tests, length-drop n u.bytes), omega arith)
]

varstr_after-Kept :
    (u : Unpack) (o : Outcome ℕ) (v : Unpack)
    → Kept u o v
    → Kept u (continue o v varstr_at).0 (continue o v varstr_at).1
varstr_after-Kept u (ok n) v k = Kept-after u v _ _ k.1 (varstr_at-Kept n v k.0)
varstr_after-Kept u (thrown e) v k = k
varstr_after-Kept u fault v k = k

pop_varstr_ptr-Kept : (u : Unpack) → InBounds u → Kept u (pop_varstr_ptr u).0 (pop_varstr_ptr u).1
unfolding pop_varstr_ptr
pop_varstr_ptr-Kept u h =
    varstr_after-Kept u _ _ (unfold pop_uint16 in pop_fixed-Kept 2 _ xntoh u h)

pop_varstr32_ptr-Kept :
    (u : Unpack) → InBounds u → Kept u (pop_varstr32_ptr u).0 (pop_varstr32_ptr u).1
unfolding pop_varstr32_ptr
pop_varstr32_ptr-Kept u h =
    varstr_after-Kept u _ _ (unfold pop_uint32 in pop_fixed-Kept 4 _ xntoh u h)

pop_varstr-Kept : (u : Unpack) → InBounds u → Kept u (pop_varstr u).0 (pop_varstr u).1
unfolding pop_varstr pop_varstr_ptr
pop_varstr-Kept u h = string_after-Kept u _ _ (unfold pop_uint16 in pop_fixed-Kept 2 _ xntoh u h)

pop_varstr32-Kept : (u : Unpack) → InBounds u → Kept u (pop_varstr32 u).0 (pop_varstr32 u).1
unfolding pop_varstr32 pop_varstr32_ptr
pop_varstr32-Kept u h = string_after-Kept u _ _ (unfold pop_uint32 in pop_fixed-Kept 4 _ xntoh u h)

finish-Kept : (u : Unpack) → InBounds u → Kept u (finish u).0 (finish u).1
unfolding finish
finish-Kept u h = elim (Bool-cases (u.size == 0)) [
  | inl z ↦ rw z (h, omega arith)
  | inr z ↦ rw z (h, omega arith)
]

-- The calls that a program can make on an Unpack, but for `pop_double`.
pub data Reader : Type 0 where
  uint8 uint16 uint32 uint64 int64 peek32 varstr varstr32 varstr_ptr varstr32_ptr finished : Reader
  fetch fetch_ptr : ℕ → Reader

ignore : {A : Type 0} → M Unpack A → M Unpack (Unit {0})
ignore m = m >>= λ _. pure tt

unfoldable pub run_reader : Reader → M Unpack (Unit {0})
unfolding ignore
run_reader uint8 = ignore pop_uint8
run_reader uint16 = ignore pop_uint16
run_reader uint32 = ignore pop_uint32
run_reader uint64 = ignore pop_uint64
run_reader int64 = ignore pop_int64
run_reader peek32 = ignore peek_uint32
run_reader varstr = ignore pop_varstr
run_reader varstr32 = ignore pop_varstr32
run_reader varstr_ptr = ignore pop_varstr_ptr
run_reader varstr32_ptr = ignore pop_varstr32_ptr
run_reader finished = finish
run_reader (fetch k) = ignore (pop_fetch k)
run_reader (fetch_ptr k) = ignore (pop_fetch_ptr k)

unfoldable pub run_readers : List Reader → M Unpack (Unit {0})
run_readers [] = pure tt
run_readers (r ∷ rs) = run_reader r >>= λ _. run_readers rs

ignore-Kept :
    {A : Type 0} (u : Unpack) (o : Outcome A) (v : Unpack)
    → Kept u o v
    → Kept u (continue o v (λ _. pure tt)).0 (continue o v (λ _. pure tt)).1
ignore-Kept u (ok a) v k = k
ignore-Kept u (thrown e) v k = k
ignore-Kept u fault v k = k

run_reader-Kept :
    (r : Reader) (u : Unpack) → InBounds u → Kept u (run_reader r u).0 (run_reader r u).1
unfolding run_reader
run_reader-Kept uint8 u h = ignore-Kept u _ _ (unfold pop_uint8 in pop_fixed-Kept 1 _ (λ w. w) u h)
run_reader-Kept uint16 u h = ignore-Kept u _ _ (unfold pop_uint16 in pop_fixed-Kept 2 _ xntoh u h)
run_reader-Kept uint32 u h = ignore-Kept u _ _ (unfold pop_uint32 in pop_fixed-Kept 4 _ xntoh u h)
run_reader-Kept uint64 u h = ignore-Kept u _ _ (unfold pop_uint64 in pop_fixed-Kept 8 _ xntoh u h)
run_reader-Kept int64 u h = ignore-Kept u _ _ (unfold pop_int64 in pop_fixed-Kept 8 _ xntoh u h)
run_reader-Kept peek32 u h = ignore-Kept u _ _ (peek_uint32-Kept u h)
run_reader-Kept varstr u h = ignore-Kept u _ _ (pop_varstr-Kept u h)
run_reader-Kept varstr32 u h = ignore-Kept u _ _ (pop_varstr32-Kept u h)
run_reader-Kept varstr_ptr u h = ignore-Kept u _ _ (pop_varstr_ptr-Kept u h)
run_reader-Kept varstr32_ptr u h = ignore-Kept u _ _ (pop_varstr32_ptr-Kept u h)
run_reader-Kept finished u h = finish-Kept u h
run_reader-Kept (fetch k) u h = ignore-Kept u _ _ (pop_fetch-Kept k u h)
run_reader-Kept (fetch_ptr k) u h = ignore-Kept u _ _ (pop_fetch_ptr-Kept k u h)

readers_after :
    (rs : List Reader) (u : Unpack) (o : Outcome (Unit {0})) (v : Unpack)
    → Kept u o v
    → ((w : Unpack) → InBounds w → Kept w (run_readers rs w).0 (run_readers rs w).1)
    → let r = continue o v (λ _. run_readers rs) in Kept u r.0 r.1
readers_after rs u (ok tt) v k ih = Kept-after u v _ _ k.1 (ih v k.0)
readers_after rs u (thrown e) v k ih = k
readers_after rs u fault v k ih = k

-- No sequence of calls without `pop_double`, started within the memory, reads outside it, whether the
-- calls return or throw; and the object stays within the memory and never grows.
pub run_readers-Kept :
    (rs : List Reader) (u : Unpack) → InBounds u → Kept u (run_readers rs u).0 (run_readers rs u).1
unfolding run_readers
run_readers-Kept [] u h = (h, omega arith)
run_readers-Kept (r ∷ rs) u h = readers_after rs u _ _ (run_reader-Kept r u h) (run_readers-Kept rs)

-- `pop_double` does not take its eight bytes off the size: behind it, `finish` throws on every input,
-- also on one that holds a double and nothing else.
pub finish-pop_double : (u : Unpack) → ((pop_double >>= λ _. finish) u).0 ≢ ok tt
unfolding pop_double finish
finish-pop_double u e = ground arith

-- Where a double stands at the end of the memory with less than eight bytes before it, reading eight
-- bytes more passes every check and runs outside the memory.
pub pop_uint64-pop_double :
    (u : Unpack)
    → u.size ≡ length u.bytes
    → 8 ≤ u.size
    → u.size < 16
    → ((pop_double >>= λ _. pop_uint64) u).0 ≡ fault
unfolding pop_double pop_uint64
pop_uint64-pop_double u e h l =
    let enough : ltb u.size 8 ≡ false = ground arith in
    let there : leb 8 (length u.bytes) ≡ true = ground arith in
    let gone : leb 8 (length (drop 8 u.bytes)) ≡ false = ground (arith, length-drop 8 u.bytes) in
    rw (enough, there, enough, gone) refl
