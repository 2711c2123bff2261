-- ===== src/Buffer/Counters.antt =====
-- The static counters of net/blockbuffer.h, current_total_blocks and peak_total_blocks.
use deps.Prelude.{ℕ, ◌+◌, ◌^◌, ◌≤◌, ◌<◌, ◌≡◌, refl, arith}
use deps.Prelude.{Bool, true, false, Option, List, inl, inr, not, max, ◌&&◌}
use deps.Prelude.{ltb, leb, ◌==◌, length}
use deps.Prelude.{Bool-cases, Option-cases, tests, leb→gt, ltb→ge}
use deps.Buffer.{
  Buffer, Pool, requested_size, add_size, mul_size, sub_size, capacity, freespace, new_block,
}
use deps.Buffer.{reallocate, increase_capacity, append_grown, resize_grown, append, resize, reserve}
use deps.Buffer.{replace, erase_bytes, erase, empty, free, count_blocks}
use deps.Buffer.Contents.{cut-Edited}
use deps.Buffer.Growth.{IsValid, new_block_least, moved, reallocate-some, reallocate-none}

-- The counters at a buffer: they count its blocks, with those of the other buffers.
pub record IsCounted (b : Buffer) (p : Pool) : Type 0 where
  pub own : b.block ≤ p.current_total_blocks
  pub below : p.current_total_blocks ≤ p.peak_total_blocks
  pub small : p.peak_total_blocks < 2 ^ 63

-- From (b, p) to (b', p') the current count moves with the blocks of the buffer, and the peak is the
-- larger of the old peak and the new count.
pub record Counts (b : Buffer) (p : Pool) (b' : Buffer) (p' : Pool) : Type 0 where
  pub current : p'.current_total_blocks + b.block ≡ p.current_total_blocks + b'.block
  pub peak : p'.peak_total_blocks ≡ max p.peak_total_blocks p'.current_total_blocks

count_blocks-Counts :
    {b : Buffer} {p : Pool} (b' : Buffer)
    → IsCounted b p
    → b.block < b'.block
    → b'.block < 2 ^ 32
    → Counts b p b' (count_blocks b.block b'.block p)
unfolding count_blocks
count_blocks-Counts {b} {p} b' c h l = ground arith

Counts-refl : {b b' : Buffer} {p : Pool} → IsCounted b p → b'.block ≡ b.block → Counts b p b' p
Counts-refl c e = record { current = omega arith; peak = omega arith }

module _ (malloc : ℕ → ℕ → Option (List ℕ)) where
  reallocate-Counts :
      {top : ℕ} {b : Buffer} (newblock : ℕ) (p : Pool)
      → IsValid top b
      → IsCounted b p
      → b.block < newblock
      → newblock ≤ b.max_blocks
      → let (_, b', p') = reallocate malloc newblock b p in Counts b p b' p'
  reallocate-Counts {top} {b} newblock p v c g l =
      elim (Option-cases (malloc p.calls (mul_size requested_size newblock))) [
        | inl e ↦
            rw (reallocate-none malloc newblock b p e)
              (record { current = omega arith; peak = omega arith })
        | inr (newdata, e) ↦
            rw (reallocate-some malloc newblock b p e)
              (count_blocks-Counts (moved newblock newdata b) c g (omega arith))
      ]

  pub increase_capacity-Counts :
      {top : ℕ} {b : Buffer} (n : ℕ) (p : Pool)
      → IsValid top b
      → IsCounted b p
      → n < 2 ^ 64
      → let (_, b', p') = increase_capacity malloc n b p in Counts b p b' p'
  unfolding increase_capacity
  increase_capacity-Counts {top} {b} n p v c h = elim (Bool-cases (n == 0)) [
    | inl z ↦ rw z (Counts-refl c refl)
    | inr z ↦ elim (Bool-cases (leb n (freespace b))) [
      | inl g ↦ rw (z, g) (Counts-refl c refl)
      | inr g ↦ elim (Bool-cases (ltb b.max_blocks (new_block n b))) [
        | inl m ↦ rw (z, g, m) (Counts-refl c refl)
        | inr m ↦
            rw (z, g, m)
              (let (_, _, more) = new_block_least n v h (leb→gt n (freespace b) g) in
                reallocate-Counts (new_block n b) p v c more (ltb→ge _ _ m))
      ]
    ]
  ]

  append_grown-Counts :
      {b : Buffer} {p : Pool} (bs : List ℕ) (r : Bool × Buffer × Pool)
      → Counts b p r.1 r.2
      → let (_, b', p') = append_grown bs r in Counts b p b' p'
  unfolding append_grown
  append_grown-Counts bs (true, b', p') c = record { current = c.current; peak = c.peak }
  append_grown-Counts bs (false, b', p') c = c

  resize_grown-Counts :
      {b : Buffer} {p : Pool} (n : ℕ) (bs : List ℕ) (r : Bool × Buffer × Pool)
      → Counts b p r.1 r.2
      → let (_, b', p') = resize_grown n bs r in Counts b p b' p'
  unfolding resize_grown
  resize_grown-Counts n bs (true, b', p') c = record { current = c.current; peak = c.peak }
  resize_grown-Counts n bs (false, b', p') c = c

  module _ {top : ℕ} {b : Buffer} (p : Pool) (v : IsValid top b) (c : IsCounted b p) where
    pub append-Counts :
        (bs : List ℕ)
        → length bs < 2 ^ 64
        → let (_, b', p') = append malloc bs b p in Counts b p b' p'
    unfolding append
    append-Counts bs h = elim (Bool-cases (length bs == 0)) [
      | inl z ↦ rw z (Counts-refl c refl)
      | inr z ↦ rw z (append_grown-Counts bs _ (increase_capacity-Counts (length bs) p v c h))
    ]

    pub resize-Counts : (n x : ℕ) → let (_, b', p') = resize malloc n x b p in Counts b p b' p'
    unfolding resize
    resize-Counts n x = elim (Bool-cases (ltb b.size n)) [
      | inl z ↦ rw z (
          resize_grown-Counts n _ _
            (increase_capacity-Counts (sub_size n b.size) p v c (omega arith)))
      | inr z ↦ rw z (Counts-refl c refl)
    ]

    pub reserve-Counts : (n : ℕ) → let (_, b', p') = reserve malloc n b p in Counts b p b' p'
    unfolding reserve
    reserve-Counts n = elim (Bool-cases (leb n (capacity b))) [
      | inl z ↦ rw z (Counts-refl c refl)
      | inr z ↦ rw z (increase_capacity-Counts (sub_size n (capacity b)) p v c (omega arith))
    ]

  replace_cut-Counts :
      {top : ℕ} {b : Buffer} (pos : ℕ) (rep : List ℕ) (p : Pool)
      → IsValid top b
      → IsCounted b p
      → pos ≤ b.size
      → length rep < 2 ^ 64
      → let (_, b', p') = append malloc rep (record b { size = pos }) p in Counts b p b' p'
  replace_cut-Counts {top} {b} pos rep p v c l h =
      let r =
        append-Counts {b = record b { size = pos }} p ((cut-Edited pos v l).valid)
          (record { own = c.own; below = c.below; small = c.small }) rep h in
      record { current = r.current; peak = r.peak }

  pub replace-Counts :
      {top : ℕ} {b : Buffer} (pos : ℕ) (rep : List ℕ) (p : Pool)
      → IsValid top b
      → IsCounted b p
      → length rep < 2 ^ 64
      → let (_, b', p') = replace malloc pos rep b p in Counts b p b' p'
  unfolding replace
  replace-Counts {top} {b} pos rep p v c h = elim (Bool-cases (leb b.size pos)) [
    | inl g ↦ rw g (append-Counts p v c rep h)
    | inr g ↦ elim (Bool-cases (leb b.size (add_size pos (length rep)))) [
      | inl k ↦ rw (g, k) (replace_cut-Counts pos rep p v c (omega tests) h)
      | inr k ↦
          rw (g, k)
            (elim (Bool-cases (ltb 0 (length rep))) [
              | inl z ↦ rw z (Counts-refl c refl)
              | inr z ↦ rw z (Counts-refl c refl)
            ])
    ]
  ]

free-Counts : {b : Buffer} {p : Pool} → IsCounted b p → let (b', p') = free b p in Counts b p b' p'
unfolding free
free-Counts {b} {p} c = elim (Bool-cases (ltb 0 b.block)) [
  | inl g ↦ rw g (record { current = omega arith; peak = omega arith })
  | inr g ↦ rw g (Counts-refl c refl)
]

erase_bytes_block : (pos n : ℕ) (b : Buffer) → (erase_bytes pos n b).block ≡ b.block
unfolding erase_bytes
erase_bytes_block pos n b = ground arith

-- `erase` gives back the blocks that it frees.
pub erase-Counts :
    {b : Buffer} (pos n : ℕ) (hold : Bool) (p : Pool)
    → IsCounted b p
    → let (b', p') = erase pos n hold b p in Counts b p b' p'
unfolding erase empty
erase-Counts {b} pos n hold p c =
    let e = erase_bytes_block pos n b in
    let f =
      free-Counts {b = erase_bytes pos n b} {p = p}
        (record { own = omega arith; below = c.below; small = c.small }) in
    elim (Bool-cases ((erase_bytes pos n b).size == 0 && not hold)) [
      | inl z ↦ rw z (record { current = omega arith; peak = f.peak })
      | inr z ↦ rw z (Counts-refl c e)
    ]
