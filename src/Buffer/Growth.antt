-- ===== src/Buffer/Growth.antt =====
-- What `increase_capacity` promises: its comment says that after success the free space is at least
-- what was asked for, and that a failure does not affect the data.
use deps.Prelude.{ℕ, ◌+◌, ◌*◌, ◌^◌, ◌≤◌, ◌<◌, ◌≡◌, refl, ◌∙◌, sym, arith}
use deps.Prelude.{Bool, true, false, Option, none, some, List, inl, inr}
use deps.Prelude.{ltb, leb, ◌==◌, if◌then◌else◌, length, take, take_none, length-take}
use deps.Prelude.{Bool-cases, Option-cases, tests, leb→gt, ltb→ge}
use deps.Buffer.{Buffer, Pool, requested_size, mul_size, freespace}
use deps.Buffer.{new_block, count_blocks, reallocate, increase_capacity}
use deps.Buffer.Memory.{write_at, length-write_at, take-write_at_end}

-- The bytes that the buffer holds.
abbrev pub contents : Buffer → List ℕ
contents b = take b.size b.mem

-- The representation invariant, at the template argument MaxBlocks, an `unsigned`.
pub record IsValid (top : ℕ) (b : Buffer) : Type 0 where
  pub filled : length b.mem ≡ b.block * 4096
  pub fits : b.size ≤ b.block * 4096
  pub bounded : b.block ≤ top
  pub limited : b.max_blocks ≤ top
  pub unsigned : top < 2 ^ 32

-- What malloc documents: an answer has as many bytes as were asked for.
abbrev pub Answers : (ℕ → ℕ → Option (List ℕ)) → Type 0
Answers malloc = (i n : ℕ) (bs : List ℕ) → malloc i n ≡ some bs → length bs ≡ n

pub length-contents : {top : ℕ} {b : Buffer} → IsValid top b → length (contents b) ≡ b.size
length-contents {top} {b} v = omega (arith, length-take b.size b.mem)

-- How many blocks a growth asks for: the least number that holds `size + n` bytes.
pub new_block_least :
    {top : ℕ} {b : Buffer} (n : ℕ)
    → IsValid top b
    → n < 2 ^ 64
    → freespace b < n
    → (b.size + n ≤ new_block n b * 4096)
      × (new_block n b * 4096 < b.size + n + 4096)
      × (b.block < new_block n b)
unfolding new_block
new_block_least {top} {b} n v h g = ground arith

-- A buffer after a growth: the bytes, the size and the limit are those of before.
pub record Grown (top : ℕ) (b : Buffer) (b' : Buffer) : Type 0 where
  pub valid : IsValid top b'
  pub same_bytes : contents b' ≡ contents b
  pub same_size : b'.size ≡ b.size
  pub same_limit : b'.max_blocks ≡ b.max_blocks
  pub wider : b.block ≤ b'.block

pub Grown-refl : {top : ℕ} {b : Buffer} → IsValid top b → Grown top b b
Grown-refl v = record {
  valid = v;
  same_bytes = refl;
  same_size = refl;
  same_limit = refl;
  wider = omega arith;
}

-- The buffer that `reallocate` leaves when malloc answers `newdata`.
abbrev pub moved : ℕ → List ℕ → Buffer → Buffer
moved newblock newdata b = record b {
  mem = if ltb 0 b.block then write_at newdata 0 (take b.size b.mem) else newdata;
  block = newblock;
}

moved-Grown :
    {top : ℕ} {b : Buffer} (newblock : ℕ) (newdata : List ℕ)
    → IsValid top b
    → length newdata ≡ newblock * 4096
    → b.block < newblock
    → newblock ≤ top
    → Grown top b (moved newblock newdata b)
moved-Grown {top} {b} newblock newdata v e g l = elim (Bool-cases (ltb 0 b.block)) [
  | inl t ↦ record {
    valid = record {
      filled = rw (t, length-write_at newdata 0 (take b.size b.mem)) e;
      fits = omega tests;
      bounded = l;
      limited = v.limited;
      unsigned = v.unsigned;
    };
    same_bytes = rw t (
        take-write_at_end b.size newdata 0 (take b.size b.mem) (omega (arith, length-contents v))
          (omega arith));
    same_size = refl;
    same_limit = refl;
    wider = omega arith;
  }
  | inr t ↦ record {
    valid = record {
      filled = rw t e;
      fits = omega tests;
      bounded = l;
      limited = v.limited;
      unsigned = v.unsigned;
    };
    same_bytes =
        rw t (take_none b.size newdata (omega tests) ∙ sym (take_none b.size b.mem (omega tests)));
    same_size = refl;
    same_limit = refl;
    wider = omega arith;
  }
]

-- Every answer of `increase_capacity`, and what it leaves.
abbrev pub Increased : ℕ → ℕ → Buffer → Bool → Buffer → Type 0
Increased top n b true b' = Grown top b b' × (b.size + n ≤ b'.block * 4096)
Increased top n b false b' = b' ≡ b

module _ (malloc : ℕ → ℕ → Option (List ℕ)) where
  pub reallocate-none :
      (newblock : ℕ) (b : Buffer) (p : Pool)
      → malloc p.calls (mul_size requested_size newblock) ≡ none
      → reallocate malloc newblock b p ≡ (false, b, record p { calls = p.calls + 1 })
  unfolding reallocate
  reallocate-none newblock b p e = rw (e, reallocate)

  pub reallocate-some :
      (newblock : ℕ) (b : Buffer) (p : Pool) {newdata : List ℕ}
      → malloc p.calls (mul_size requested_size newblock) ≡ some newdata
      → reallocate malloc newblock b p
        ≡ (true, moved newblock newdata b, count_blocks b.block newblock p)
  unfolding reallocate
  reallocate-some newblock b p e = rw (e, reallocate)

module _ (malloc : ℕ → ℕ → Option (List ℕ)) (answers : Answers malloc) where
  reallocate-Increased :
      {top : ℕ} {b : Buffer} (newblock n : ℕ) (p : Pool)
      → IsValid top b
      → b.block < newblock
      → newblock ≤ b.max_blocks
      → b.size + n ≤ newblock * 4096
      → let (grown, b', _) = reallocate malloc newblock b p in Increased top n b grown b'
  reallocate-Increased {top} {b} newblock n p v g l h =
      elim (Option-cases (malloc p.calls (mul_size requested_size newblock))) [
        | inl e ↦ rw (reallocate-none malloc newblock b p e) refl
        | inr (newdata, e) ↦
            rw (reallocate-some malloc newblock b p e)
              (moved-Grown newblock newdata v (omega (arith, answers _ _ _ e)) g (omega arith), h)
      ]

  -- After success the bytes, the size and the limit are those of before and the free space is at
  -- least what was asked for; after a failure the buffer is the one of before.
  pub increase_capacity-Increased :
      {top : ℕ} {b : Buffer} (n : ℕ) (p : Pool)
      → IsValid top b
      → n < 2 ^ 64
      → let (grown, b', _) = increase_capacity malloc n b p in Increased top n b grown b'
  unfolding increase_capacity
  increase_capacity-Increased {top} {b} n p v h = elim (Bool-cases (n == 0)) [
    | inl z ↦ rw z (Grown-refl v, omega tests)
    | inr z ↦ elim (Bool-cases (leb n (freespace b))) [
      | inl f ↦ rw (z, f) (Grown-refl v, omega (tests, v))
      | inr f ↦ elim (Bool-cases (ltb b.max_blocks (new_block n b))) [
        | inl m ↦ rw (z, f, m) refl
        | inr m ↦
            rw (z, f, m)
              (let (enough, tight, more) = new_block_least n v h (leb→gt n (freespace b) f) in
                reallocate-Increased (new_block n b) n p v more (ltb→ge _ _ m) enough)
      ]
    ]
  ]
