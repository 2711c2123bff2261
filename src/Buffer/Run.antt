-- ===== src/Buffer/Run.antt =====
-- A buffer under any sequence of calls: what holds of each that is reached from the constructor.
use deps.Prelude.{ℕ, ◌+◌, ◌*◌, ◌^◌, ◌≤◌, ◌<◌, ◌≡◌, arith}
use deps.Prelude.{Bool, true, false, Option, List, inl, inr}
use deps.Prelude.{leb, length, Bool-cases}
use deps.Buffer.{
  Buffer, Pool, new, set_max_blocks, append, resize, reserve, replace, erase, capacity, sub_size,
}
use deps.Buffer.Growth.{IsValid, Answers, Increased, increase_capacity-Increased}
use deps.Buffer.Contents.{Answer, append-Answer, resize-Answer, replace-Answer}
use deps.Buffer.Erase.{erase-Edited}
use deps.Buffer.Counters.{
  IsCounted, Counts, append-Counts, resize-Counts, reserve-Counts, replace-Counts, erase-Counts,
}

module _ (malloc : ℕ → ℕ → Option (List ℕ)) (top : ℕ) where
  -- One call of a public member that changes the object. The premises are what `size_t` and the
  -- assertion of `erase` ask of the caller.
  pub data Step : Buffer → Pool → Buffer → Pool → Type 0 where
    set_max : {b : Buffer} {p : Pool} (n : ℕ) → Step b p (set_max_blocks top n b) p
    add :
        {b : Buffer} {p : Pool} (bs : List ℕ)
        → length bs < 2 ^ 64
        → Step b p (append malloc bs b p).1 (append malloc bs b p).2
    size_to :
        {b : Buffer} {p : Pool} (n c : ℕ)
        → n < 2 ^ 64
        → Step b p (resize malloc n c b p).1 (resize malloc n c b p).2
    room :
        {b : Buffer} {p : Pool} (n : ℕ)
        → n < 2 ^ 64
        → Step b p (reserve malloc n b p).1 (reserve malloc n b p).2
    over :
        {b : Buffer} {p : Pool} (pos : ℕ) (rep : List ℕ)
        → pos + length rep < 2 ^ 64
        → Step b p (replace malloc pos rep b p).1 (replace malloc pos rep b p).2
    cut :
        {b : Buffer} {p : Pool} (pos n : ℕ) (hold : Bool)
        → pos ≤ b.size
        → Step b p (erase pos n hold b p).0 (erase pos n hold b p).1

  -- The buffers that calls lead to, from a new one.
  pub data Reach : Buffer → Pool → Type 0 where
    fresh : (p : Pool) → Reach (new top) p
    next : {b b' : Buffer} {p p' : Pool} → Reach b p → Step b p b' p' → Reach b' p'

Answer-IsValid :
    (top : ℕ) (b : Buffer) (cs ds : List ℕ) (done : Bool) (b' : Buffer)
    → Answer top b cs ds done b'
    → IsValid top b'
Answer-IsValid top b cs ds true b' e = e.valid
Answer-IsValid top b cs ds false b' e = e.valid

Increased-IsValid :
    (top n : ℕ) (b : Buffer) (done : Bool) (b' : Buffer)
    → IsValid top b
    → Increased top n b done b'
    → IsValid top b'
Increased-IsValid top n b true b' v (g, _) = g.valid
Increased-IsValid top n b false b' v e = rw e v

pub new-IsValid : (top : ℕ) → top < 2 ^ 32 → IsValid top (new top)
unfolding new
new-IsValid top h = omega arith

set_max_blocks-IsValid :
    {top : ℕ} {b : Buffer} (n : ℕ) → IsValid top b → IsValid top (set_max_blocks top n b)
unfolding set_max_blocks
set_max_blocks-IsValid n v = ground arith

set_max_blocks-Counts :
    (top : ℕ) {b : Buffer} {p : Pool} (n : ℕ)
    → IsCounted b p
    → Counts b p (set_max_blocks top n b) p
unfolding set_max_blocks
set_max_blocks-Counts top n c = record { current = omega arith; peak = omega arith }

module _ (malloc : ℕ → ℕ → Option (List ℕ)) (answers : Answers malloc) where
  reserve-IsValid :
      {top : ℕ} {b : Buffer} (n : ℕ) (p : Pool)
      → IsValid top b
      → IsValid top (reserve malloc n b p).1
  unfolding reserve
  reserve-IsValid {top} {b} n p v = elim (Bool-cases (leb n (capacity b))) [
    | inl g ↦ rw g v
    | inr g ↦ rw g (
        Increased-IsValid top _ b _ _ v
          (increase_capacity-Increased malloc answers (sub_size n (capacity b)) p v (omega arith)))
  ]

  Step-IsValid :
      {top : ℕ} {b : Buffer} {p : Pool} {b' : Buffer} {p' : Pool}
      → Step malloc top b p b' p'
      → IsValid top b
      → IsValid top b'
  Step-IsValid (set_max n) v = set_max_blocks-IsValid n v
  Step-IsValid {p = p} (add bs h) v =
      Answer-IsValid _ _ _ _ _ _ (append-Answer malloc answers bs p v h)
  Step-IsValid {p = p} (size_to n c h) v =
      Answer-IsValid _ _ _ _ _ _ (resize-Answer malloc answers n c p v h)
  Step-IsValid {p = p} (room n h) v = reserve-IsValid n p v
  Step-IsValid {p = p} (over pos rep h) v =
      Answer-IsValid _ _ _ _ _ _ (replace-Answer malloc answers pos rep p v h)
  Step-IsValid {p = p} (cut pos n hold h) v = (erase-Edited pos n hold p v h).0.valid

  Reach-IsValid :
      {top : ℕ} {b : Buffer} {p : Pool} → top < 2 ^ 32 → Reach malloc top b p → IsValid top b
  Reach-IsValid {top} h (fresh p) = new-IsValid top h
  Reach-IsValid h (next r s) = Step-IsValid s (Reach-IsValid h r)

  -- However the members are called, the allocation has exactly the bytes of the blocks counted, the
  -- bytes held lie within it, and it never has more than MaxBlocks blocks.
  pub Reach-bounded :
      {top : ℕ} {b : Buffer} {p : Pool}
      → top < 2 ^ 32
      → Reach malloc top b p
      → (length b.mem ≡ capacity b) × (b.size ≤ length b.mem) × (length b.mem ≤ top * 4096)
  Reach-bounded h r = omega (arith, Reach-IsValid h r)

  -- Every call of a public member moves the shared count by the blocks that the buffer gains or loses,
  -- and the peak is the larger of the old peak and the new count.
  pub Step-Counts :
      {top : ℕ} {b : Buffer} {p : Pool} {b' : Buffer} {p' : Pool}
      → Step malloc top b p b' p'
      → IsValid top b
      → IsCounted b p
      → Counts b p b' p'
  Step-Counts {b = b} (set_max n) v c = set_max_blocks-Counts _ n c
  Step-Counts {p = p} (add bs h) v c = append-Counts malloc p v c bs h
  Step-Counts {p = p} (size_to n x h) v c = resize-Counts malloc p v c n x
  Step-Counts {p = p} (room n h) v c = reserve-Counts malloc p v c n
  Step-Counts {p = p} (over pos rep h) v c = replace-Counts malloc pos rep p v c (omega arith)
  Step-Counts {p = p} (cut pos n hold h) v c = erase-Counts pos n hold p c
