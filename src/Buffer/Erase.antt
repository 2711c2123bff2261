-- ===== src/Buffer/Erase.antt =====
-- erase and the release of the blocks, in net/blockbuffer.h.
use deps.Prelude.{ℕ, ◌+◌, ◌-◌, ◌≤◌, ◌<◌, ◌≡◌, refl, ◌∙◌, sym, arith}
use deps.Prelude.{Bool, true, false, List, [], ◌++◌, inl, inr, ◌⊎◌, append-nil}
use deps.Prelude.{ltb, leb, ◌==◌, length, take, drop, length-take, length-drop, drop_all}
use deps.Prelude.{take_none, take-take, take-drop, Bool-cases, tests}
use mathlib.Core.Path.{ap₂}
use deps.Buffer.{Buffer, Pool, sub_size, erase_bytes, erase, empty, free}
use deps.Buffer.Memory.{write_at, length-write_at, take-write_at_end}
use deps.Buffer.Growth.{IsValid, contents, length-contents}
use deps.Buffer.Contents.{Edited, cut-Edited}

-- The bytes `cs` without the n bytes from `pos` on.
abbrev pub removed : ℕ → ℕ → List ℕ → List ℕ
removed pos n cs = take pos cs ++ drop (pos + n) cs

erase_tail :
    {top : ℕ} {b : Buffer} (pos n : ℕ)
    → IsValid top b
    → pos ≤ b.size
    → b.size ≤ pos + n
    → Edited top b (removed pos n (contents b)) (record b { size = pos })
erase_tail {top} {b} pos n v h g =
    rw (drop_all (pos + n) (contents b) (omega (arith, length-contents v)), append-nil)
      (cut-Edited pos v h)

erase_inside :
    {top : ℕ} {b : Buffer} (pos n m size : ℕ)
    → IsValid top b
    → pos + n + m ≡ b.size
    → size ≡ pos + m
    → Edited top b
        (removed pos n (contents b))
        (record b { size = size; mem = write_at b.mem pos (take m (drop (pos + n) b.mem)) })
erase_inside {top} {b} pos n m size v h e = record {
  valid = record {
    filled = rw (length-write_at b.mem pos moved) v.filled;
    fits = omega arith;
    bounded = v.bounded;
    limited = v.limited;
    unsigned = v.unsigned;
  };
  bytes =
      take-write_at_end size b.mem pos moved (omega (arith, len)) (omega arith)
      ∙ ap₂ ◌++◌ (sym (take-take pos b.size b.mem (omega arith)))
          (take-drop (pos + n) m b.size b.mem h);
  limit = refl;
}
  where
    moved : List ℕ
    moved = take m (drop (pos + n) b.mem)

    len : length (take m (drop (pos + n) b.mem)) ≡ m
    len = omega (arith, length-take m (drop (pos + n) b.mem), length-drop (pos + n) b.mem)

-- The bytes and the size after an erase, before the blocks are looked at.
erase_bytes-Edited :
    {top : ℕ} {b : Buffer} (pos n : ℕ)
    → IsValid top b
    → pos ≤ b.size
    → Edited top b (removed pos n (contents b)) (erase_bytes pos n b)
unfolding erase_bytes
erase_bytes-Edited {top} {b} pos n v h = elim (Bool-cases (leb (sub_size b.size pos) n)) [
  | inl g ↦ rw g (erase_tail pos n v h (omega tests))
  | inr g ↦ rw g (
      let e : sub_size b.size pos ≡ b.size - pos = omega arith in
      rw e (erase_inside pos n (b.size - pos - n) _ v (omega tests) (omega tests)))
]

-- Releasing the blocks of an empty buffer.
free-Edited :
    {top : ℕ} {b : Buffer} (p : Pool) → IsValid top b → b.size ≡ 0 → Edited top b [] (free b p).0
unfolding free
free-Edited {top} {b} p v e = elim (Bool-cases (ltb 0 b.block)) [
  | inl g ↦ rw g (record {
    valid = record {
      filled = refl;
      fits = omega arith;
      bounded = omega arith;
      limited = v.limited;
      unsigned = v.unsigned;
    };
    bytes = take_none b.size [] e;
    limit = refl;
  })
  | inr g ↦ rw g (record { valid = v; bytes = take_none b.size b.mem e; limit = refl })
]

-- `free` leaves no blocks, and keeps the size.
free_blocks : (b : Buffer) (p : Pool) → ((free b p).0.block ≡ 0) × ((free b p).0.size ≡ b.size)
unfolding free
free_blocks b p = ground arith

Emptied : ℕ → Buffer → List ℕ → Bool → Buffer → Type 0
Emptied top b cs hold b' = Edited top b cs b' × ((hold ≡ true) ⊎ ((0 < b'.size) ⊎ (b'.block ≡ 0)))

Emptied-free :
    {top : ℕ} {b b' : Buffer} (cs : List ℕ) (hold : Bool) (p : Pool)
    → Edited top b cs b'
    → b'.size ≡ 0
    → Emptied top b cs hold (free b' p).0
unfolding Emptied
Emptied-free {top} {b} {b'} cs hold p e z =
    let f = free-Edited p e.valid z in
    (
      record {
        valid = f.valid;
        bytes = f.bytes ∙ sym (take_none b'.size b'.mem z) ∙ e.bytes;
        limit = f.limit ∙ e.limit;
      },
      inr (inr (free_blocks b' p).0),
    )

-- `erase` removes the n bytes from `pos` on, or all from there on if there are no n of them, and a
-- buffer left empty without `hold` has no blocks any more.
pub erase-Edited :
    {top : ℕ} {b : Buffer} (pos n : ℕ) (hold : Bool) (p : Pool)
    → IsValid top b
    → pos ≤ b.size
    → let (b', _) = erase pos n hold b p in
      Edited top b (removed pos n (contents b)) b'
      × ((hold ≡ true) ⊎ ((0 < b'.size) ⊎ (b'.block ≡ 0)))
unfolding erase empty Emptied
erase-Edited {top} {b} pos n hold p v h =
    let e = erase_bytes-Edited pos n v h in
    elim (Bool-cases ((erase_bytes pos n b).size == 0)) [
      | inl z ↦ elim (Bool-cases hold) [
        | inl k ↦ rw (z, k) (e, inl refl)
        | inr k ↦ rw (z, k) (Emptied-free _ false p e (omega tests))
      ]
      | inr z ↦ rw z (e, inr (inl (omega tests)))
    ]
