-- ===== src/Buffer/Capacity.antt =====
-- When the operations of net/blockbuffer.h succeed, and how far a buffer grows.
use deps.Prelude.{ℕ, ◌+◌, ◌*◌, ◌^◌, ◌≤◌, ◌<◌, ◌≡◌, refl, arith}
use deps.Prelude.{Bool, true, false, Option, none, List, inl, inr, ◌⊎◌}
use deps.Prelude.{ltb, leb, ◌==◌, length}
use deps.Prelude.{Bool-cases, Option-cases, tests, leb→gt}
use mathlib.Core.Logic.{◌≢◌, ◌↔◌}
use deps.Buffer.{Buffer, Pool, requested_size, mul_size, sub_size, capacity, freespace, new_block}
use deps.Buffer.{
  replace, resize, resize_grown, add_size, reallocate, increase_capacity, append_grown, append,
  reserve,
}
use deps.Buffer.Contents.{cut-Edited}
use deps.Buffer.Growth.{IsValid, Answers, Increased, new_block_least, increase_capacity-Increased}
use deps.Buffer.Growth.{reallocate-some}

-- A machine with memory to spare.
abbrev pub Supplies : (ℕ → ℕ → Option (List ℕ)) → Type 0
Supplies malloc = (i n : ℕ) → malloc i n ≢ none

-- A call of malloc that has no answer.
abbrev pub Starved : (ℕ → ℕ → Option (List ℕ)) → Type 0
Starved malloc = (i : ℕ) × (n : ℕ) × (malloc i n ≡ none)

module _ (malloc : ℕ → ℕ → Option (List ℕ)) where
  reallocate_cases :
      (newblock : ℕ) (b : Buffer) (p : Pool)
      → ((reallocate malloc newblock b p).0 ≡ true) ⊎ Starved malloc
  reallocate_cases newblock b p =
      elim (Option-cases (malloc p.calls (mul_size requested_size newblock))) [
        | inl e ↦ inr (_, _, e)
        | inr (newdata, e) ↦ inl (rw (reallocate-some malloc newblock b p e) refl)
      ]

  -- A growth succeeds, unless it passes the limit of the buffer or memory runs out.
  pub increase_capacity_cases :
      {top : ℕ} {b : Buffer} (n : ℕ) (p : Pool)
      → IsValid top b
      → n < 2 ^ 64
      → ((increase_capacity malloc n b p).0 ≡ true)
        ⊎ ((b.max_blocks * 4096 < b.size + n) ⊎ Starved malloc)
  unfolding increase_capacity
  increase_capacity_cases {top} {b} n p v h = elim (Bool-cases (n == 0)) [
    | inl z ↦ inl (rw z refl)
    | inr z ↦ elim (Bool-cases (leb n (freespace b))) [
      | inl g ↦ inl (rw (z, g) refl)
      | inr g ↦ elim (Bool-cases (ltb b.max_blocks (new_block n b))) [
        | inl m ↦ inr (inl (omega (tests, new_block_least n v h (leb→gt n (freespace b) g))))
        | inr m ↦
            rw (z, g, m)
              (elim (reallocate_cases (new_block n b) b p) [ inl t ↦ inl t | inr s ↦ inr (inr s) ])
      ]
    ]
  ]

  -- While memory lasts, a growth that fits the limit of the buffer succeeds.
  pub increase_capacity-true :
      {top : ℕ} {b : Buffer} (n : ℕ) (p : Pool)
      → Supplies malloc
      → IsValid top b
      → n < 2 ^ 64
      → b.size + n ≤ b.max_blocks * 4096
      → (increase_capacity malloc n b p).0 ≡ true
  increase_capacity-true n p supplies v h f = elim (increase_capacity_cases n p v h) [
    | inl t ↦ t
    | inr (inl l) ↦ absurd (omega arith)
    | inr (inr (i, k, e)) ↦ absurd (supplies i k e)
  ]

append_grown_done : (bs : List ℕ) (r : Bool × Buffer × Pool) → (append_grown bs r).0 ≡ r.0
unfolding append_grown
append_grown_done bs (true, b, p) = refl
append_grown_done bs (false, b, p) = refl

Increased-fits :
    (top : ℕ) (b : Buffer) (n : ℕ) (done : Bool) (b' : Buffer)
    → Increased top n b done b'
    → done ≡ true
    → b.size + n ≤ top * 4096
Increased-fits top b n true b' (g, h) e = omega (arith, g.valid)
Increased-fits top b n false b' i e = cc

-- `append` answers true, unless the bytes pass the limit of the buffer or memory runs out.
pub append_cases :
    (malloc : ℕ → ℕ → Option (List ℕ)) {top : ℕ} {b : Buffer} (bs : List ℕ) (p : Pool)
    → IsValid top b
    → length bs < 2 ^ 64
    → ((append malloc bs b p).0 ≡ true)
      ⊎ ((b.max_blocks * 4096 < b.size + length bs) ⊎ Starved malloc)
unfolding append
append_cases malloc {top} {b} bs p v h = elim (Bool-cases (length bs == 0)) [
  | inl z ↦ inl (rw z refl)
  | inr z ↦ rw (z, append_grown_done) (increase_capacity_cases malloc (length bs) p v h)
]

module _ (malloc : ℕ → ℕ → Option (List ℕ)) (answers : Answers malloc)
    (supplies : Supplies malloc) where
  -- While memory lasts, `append` answers true exactly if the limit of the buffer has room for all the
  -- bytes, for a buffer whose limit has not been set below its blocks.
  pub append_iff :
      {b : Buffer} (bs : List ℕ) (p : Pool)
      → IsValid b.max_blocks b
      → length bs < 2 ^ 64
      → ((append malloc bs b p).0 ≡ true) ↔ (b.size + length bs ≤ b.max_blocks * 4096)
  unfolding append
  append_iff {b} bs p v h = elim (Bool-cases (length bs == 0)) [
    | inl z ↦ rw z (λ _. omega tests, λ _. refl)
    | inr z ↦
        rw (z, append_grown_done)
          (
            Increased-fits _ b (length bs) _ _
                (increase_capacity-Increased malloc answers (length bs) p v h),
            increase_capacity-true malloc (length bs) p supplies v h,
          )
  ]

-- `reserve` answers true without growing where the blocks are too few for n bytes and the free space
-- covers the difference.
pub reserve_short :
    {top : ℕ} {b : Buffer} (malloc : ℕ → ℕ → Option (List ℕ)) (n : ℕ) (p : Pool)
    → IsValid top b
    → capacity b < n
    → n + b.size ≤ 2 * capacity b
    → reserve malloc n b p ≡ (true, b, p)
unfolding reserve increase_capacity
reserve_short {top} {b} malloc n p v h g = ground arith

-- Room that is there already needs no memory.
increase_capacity_room :
    (malloc : ℕ → ℕ → Option (List ℕ)) {top : ℕ} {b : Buffer} (n : ℕ) (p : Pool)
    → IsValid top b
    → b.size + n ≤ b.block * 4096
    → (increase_capacity malloc n b p).0 ≡ true
unfolding increase_capacity
increase_capacity_room malloc {top} {b} n p v h = elim (Bool-cases (n == 0)) [
  | inl z ↦ rw z refl
  | inr z ↦ let there : leb n (freespace b) ≡ true = ground (arith, v) in rw (z, there) refl
]

append_room :
    (malloc : ℕ → ℕ → Option (List ℕ)) {top : ℕ} {b : Buffer} (bs : List ℕ) (p : Pool)
    → IsValid top b
    → b.size + length bs ≤ b.block * 4096
    → (append malloc bs b p).0 ≡ true
unfolding append
append_room malloc {top} {b} bs p v h = elim (Bool-cases (length bs == 0)) [
  | inl z ↦ rw z refl
  | inr z ↦ rw (z, append_grown_done) (increase_capacity_room malloc (length bs) p v h)
]

-- A replacement within the bytes held always succeeds.
pub replace_inside_true :
    (malloc : ℕ → ℕ → Option (List ℕ)) {top : ℕ} {b : Buffer} (pos : ℕ) (rep : List ℕ) (p : Pool)
    → IsValid top b
    → pos + length rep ≤ b.size
    → (replace malloc pos rep b p).0 ≡ true
unfolding replace
replace_inside_true malloc {top} {b} pos rep p v h = elim (Bool-cases (leb b.size pos)) [
  | inl g ↦ rw g (append_room malloc rep p v (omega tests))
  | inr g ↦ elim (Bool-cases (leb b.size (add_size pos (length rep)))) [
    | inl k ↦
        rw (g, k)
          (append_room malloc rep p (cut-Edited pos v (omega tests)).valid (omega (arith, v)))
    | inr k ↦ rw (g, k) refl
  ]
]

resize_grown_done : (n : ℕ) (bs : List ℕ) (r : Bool × Buffer × Pool) → (resize_grown n bs r).0 ≡ r.0
unfolding resize_grown
resize_grown_done n bs (true, b, p) = refl
resize_grown_done n bs (false, b, p) = refl

-- `resize` answers true, unless n passes the limit of the buffer or memory runs out.
pub resize_cases :
    (malloc : ℕ → ℕ → Option (List ℕ)) {top : ℕ} {b : Buffer} (n c : ℕ) (p : Pool)
    → IsValid top b
    → n < 2 ^ 64
    → ((resize malloc n c b p).0 ≡ true) ⊎ ((b.max_blocks * 4096 < n) ⊎ Starved malloc)
unfolding resize
resize_cases malloc {top} {b} n c p v h = elim (Bool-cases (ltb b.size n)) [
  | inl z ↦
      rw (z, resize_grown_done)
        (elim (increase_capacity_cases malloc (sub_size n b.size) p v (omega arith)) [
          | inl t ↦ inl t
          | inr (inl l) ↦ inr (inl (omega (tests, v)))
          | inr (inr w) ↦ inr (inr w)
        ])
  | inr z ↦ inl (rw z refl)
]
