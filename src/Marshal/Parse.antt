-- ===== src/Marshal/Parse.antt =====
-- The readers of Unpack in net/marshall.h, on the bytes that the packing functions write.
use deps.Prelude.{ℕ, ◌+◌, ◌^◌, ◌≤◌, ◌<◌, ◌≡◌, refl, sym, ap, ◌∙◌, arith}
use deps.Prelude.{true, false, List, [], ◌++◌, append_assoc}
use deps.Prelude.{ltb, leb, length, length-append, take-append_at, drop-append_at}
use Prim.Native.String.{String}
use mathlib.Core.Path.{ap₂}
use deps.Marshal.Outcome.{ok, M, pure, continue, ◌>>=◌}
use deps.Marshal.Bytes.{host_bytes, host_value, length-host_bytes, host_value-host_bytes}
use deps.Marshal.Unpack.{Unpack, read, xntoh, pop_fixed}
use deps.Marshal.Unpack.{
  pop_uint8, pop_uint16, pop_uint32, pop_uint64, pop_int64, pop_fetch_ptr, pop_fetch,
}
use deps.Marshal.Unpack.{pop_varstr_ptr, pop_varstr32_ptr, string_of, pop_varstr, pop_varstr32}

-- An Unpack that stands before `bs`, with n bytes of its size behind them.
abbrev pub at : List ℕ → List ℕ → ℕ → Unpack
at bs rest n = record { bytes = bs ++ rest; size = length bs + n }

abbrev pub after : List ℕ → ℕ → Unpack
after rest n = record { bytes = rest; size = n }

-- A reader that takes exactly `bs`, whatever follows, and answers `a`.
abbrev pub Parses : {A : Type 0} → M Unpack A → List ℕ → A → Type 0
Parses m bs a = (rest : List ℕ) (n : ℕ) → m (at bs rest n) ≡ (ok a, after rest n)

at-append :
    (bs cs rest : List ℕ) (n : ℕ) → at (bs ++ cs) rest n ≡ at bs (cs ++ rest) (length cs + n)
at-append bs cs rest n =
    ap₂ (λ (b : List ℕ) (k : ℕ). record { bytes = b; size = k }) (append_assoc bs cs rest)
      (omega (arith, length-append bs cs))

pub Parses->>= :
    {A B : Type 0} (m : M Unpack A) (f : A → M Unpack B) (bs cs : List ℕ) (a : A) (b : B)
    → Parses m bs a
    → Parses (f a) cs b
    → Parses (m >>= f) (bs ++ cs) b
Parses->>= m f bs cs a b hm hf rest n =
    ap (m >>= f) (at-append bs cs rest n)
    ∙ ap (λ r. continue r.0 r.1 f) (hm (cs ++ rest) (length cs + n))
    ∙ hf rest n

pub Parses-pure : {A : Type 0} (a : A) → Parses (pure a) [] a
Parses-pure a rest n = ap (λ k. (ok a, after rest k)) (omega arith)

-- The steps of a reader of fixed width on enough bytes.
pop_fixed-at :
    (k : ℕ) (what : String) (convert : ℕ → ℕ) (bs rest : List ℕ) (n : ℕ)
    → k ≡ length bs
    → pop_fixed k what convert (at bs rest n) ≡ (ok (convert (host_value bs)), after rest n)
unfolding pop_fixed
pop_fixed-at k what convert bs rest n e =
    let enough : ltb (length bs + n) k ≡ false = ground arith in
    let there : leb k (length (bs ++ rest)) ≡ true = ground (arith, length-append bs rest) in
    rw (enough, there, take-append_at k bs rest e, drop-append_at k bs rest e)
      (ap (λ j. (ok (convert (host_value bs)), after rest j)) (omega arith))

pub pop_fixed-Parses :
    (k : ℕ) (what : String) (convert : ℕ → ℕ) (v : ℕ)
    → v < 256 ^ k
    → Parses (pop_fixed k what convert) (host_bytes k v) (convert v)
pop_fixed-Parses k what convert v h rest n =
    pop_fixed-at k what convert (host_bytes k v) rest n (sym (length-host_bytes k v))
    ∙ ap (λ w. (ok (convert w), after rest n)) (host_value-host_bytes k v h)

-- An integer in the bytes that the matching push writes.
pub pop_uint8-Parses : (v : ℕ) → v < 2 ^ 8 → Parses pop_uint8 (host_bytes 1 v) v
unfolding pop_uint8
pop_uint8-Parses v h = pop_fixed-Parses 1 _ (λ w. w) v h

pub pop_uint16-Parses : (v : ℕ) → v < 2 ^ 16 → Parses pop_uint16 (host_bytes 2 v) v
unfolding pop_uint16
pop_uint16-Parses v h = pop_fixed-Parses 2 _ xntoh v h

pub pop_uint32-Parses : (v : ℕ) → v < 2 ^ 32 → Parses pop_uint32 (host_bytes 4 v) v
unfolding pop_uint32
pop_uint32-Parses v h = pop_fixed-Parses 4 _ xntoh v h

pub pop_uint64-Parses : (v : ℕ) → v < 2 ^ 64 → Parses pop_uint64 (host_bytes 8 v) v
unfolding pop_uint64
pop_uint64-Parses v h = pop_fixed-Parses 8 _ xntoh v h

pub pop_int64-Parses : (v : ℕ) → v < 2 ^ 64 → Parses pop_int64 (host_bytes 8 v) v
unfolding pop_int64
pop_int64-Parses v h = pop_fixed-Parses 8 _ xntoh v h

-- The pointer that `pop_fetch_ptr` answers points at the bytes and at what follows them.
pub pop_fetch_ptr-at :
    (bs rest : List ℕ) (n : ℕ)
    → pop_fetch_ptr (length bs) (at bs rest n) ≡ (ok (bs ++ rest), after rest n)
unfolding pop_fetch_ptr
pop_fetch_ptr-at bs rest n =
    let enough : ltb (length bs + n) (length bs) ≡ false = ground arith in
    rw (enough, drop-append_at (length bs) bs rest refl)
      (ap (λ j. (ok (bs ++ rest), after rest j)) (omega arith))

read_at : {S : Type 0} (bs rest : List ℕ) (s : S) → read (length bs) (bs ++ rest) s ≡ (ok bs, s)
unfolding read
read_at bs rest s =
    let there : leb (length bs) (length (bs ++ rest)) ≡ true =
      ground (arith, length-append bs rest) in
    rw (there, take-append_at (length bs) bs rest refl) refl

pub pop_fetch-Parses : (bs : List ℕ) → Parses (pop_fetch (length bs)) bs bs
unfolding pop_fetch
pop_fetch-Parses bs rest n = rw (pop_fetch_ptr-at bs rest n) (read_at bs rest (after rest n))

pub pop_varstr-Parses :
    (text : List ℕ)
    → length text ≤ 0xffff
    → Parses pop_varstr (host_bytes 2 (length text) ++ text) text
unfolding pop_varstr pop_varstr_ptr string_of
pop_varstr-Parses text h rest n =
    let a = at-append (host_bytes 2 (length text)) text rest n in
    let p = pop_uint16-Parses (length text) (omega arith) (text ++ rest) (length text + n) in
    rw (a, p, pop_fetch_ptr-at text rest n) (read_at text rest (after rest n))

pub pop_varstr32-Parses :
    (text : List ℕ)
    → length text ≤ 0xffff_ffff
    → Parses pop_varstr32 (host_bytes 4 (length text) ++ text) text
unfolding pop_varstr32 pop_varstr32_ptr string_of
pop_varstr32-Parses text h rest n =
    let a = at-append (host_bytes 4 (length text)) text rest n in
    let p = pop_uint32-Parses (length text) (omega arith) (text ++ rest) (length text + n) in
    rw (a, p, pop_fetch_ptr-at text rest n) (read_at text rest (after rest n))

-- A reader whose answer is worked on.
pub Parses-map :
    {A B : Type 0} (m : M Unpack A) (f : A → B) (bs : List ℕ) (a : A)
    → Parses m bs a
    → Parses (m >>= λ x. pure (f x)) bs (f a)
Parses-map m f bs a h rest n = ap (λ r. continue r.0 r.1 (λ x. pure (f x))) (h rest n)
