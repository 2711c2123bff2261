-- ===== src/Buffer/Contents.antt =====
-- append, resize, replace and erase of net/blockbuffer.h, as operations on the list of bytes held.
use deps.Prelude.{ℕ, ◌+◌, ◌-◌, ◌*◌, ◌^◌, ◌≤◌, ◌<◌, ◌≡◌, refl, ◌∙◌, sym, ap, arith}
use deps.Prelude.{Bool, true, false, Option, List, ◌++◌, inl, inr, append-nil}
use deps.Prelude.{ltb, leb, ◌==◌, length, take, drop, replicate}
use deps.Prelude.{length-replicate, take_all, drop_all, length_zero, take-take}
use deps.Prelude.{drop-drop, Bool-cases, tests, leb→gt, leb→le, ltb→ge, ltb→lt}
use deps.Buffer.{Buffer, Pool, add_size, sub_size, increase_capacity, append, resize}
use deps.Buffer.{append_grown, resize_grown, replace}
use deps.Buffer.Memory.{
  write_at, length-write_at, take-write_at_end, take-write_at, write_at_lem, write_at-nil,
}
use mathlib.Core.Path.{subst}
use deps.Buffer.Growth.{IsValid, Answers, Grown, Increased, contents, length-contents}
use deps.Buffer.Growth.{increase_capacity-Increased}

-- What an operation leaves: a valid buffer that holds `cs`, with the limit of before.
pub record Edited (top : ℕ) (b : Buffer) (cs : List ℕ) (b' : Buffer) : Type 0 where
  pub valid : IsValid top b'
  pub bytes : contents b' ≡ cs
  pub limit : b'.max_blocks ≡ b.max_blocks

-- The two answers of an operation: `yes_bytes` are held on true, `no_bytes` on false.
abbrev pub Answer : ℕ → Buffer → List ℕ → List ℕ → Bool → Buffer → Type 0
Answer top b yes_bytes no_bytes true b' = Edited top b yes_bytes b'
Answer top b yes_bytes no_bytes false b' = Edited top b no_bytes b'

-- Bytes written behind the size, where the blocks have room for them.
write_end-Edited :
    {top : ℕ} {b b' : Buffer} (bs : List ℕ) (size : ℕ)
    → Grown top b b'
    → b.size + length bs ≤ b'.block * 4096
    → size ≡ b.size + length bs
    → Edited top b (contents b ++ bs) (record b' { mem = write_at b'.mem b'.size bs; size = size })
write_end-Edited {top} {b} {b'} bs size g h e = record {
  valid = record {
    filled = rw (length-write_at b'.mem b'.size bs) g.valid.filled;
    fits = omega arith;
    bounded = g.valid.bounded;
    limited = g.valid.limited;
    unsigned = g.valid.unsigned;
  };
  bytes =
      take-write_at_end size b'.mem b'.size bs (omega (arith, g)) (omega (arith, g))
      ∙ ap (λ cs. cs ++ bs) g.same_bytes;
  limit = g.same_limit;
}

-- A buffer cut at `n`.
pub cut-Edited :
    {top : ℕ} {b : Buffer} (n : ℕ)
    → IsValid top b
    → n ≤ b.size
    → Edited top b (take n (contents b)) (record b { size = n })
cut-Edited {top} {b} n v h = record {
  valid = record {
    filled = v.filled;
    fits = omega arith;
    bounded = v.bounded;
    limited = v.limited;
    unsigned = v.unsigned;
  };
  bytes = sym (take-take n b.size b.mem h);
  limit = refl;
}

Edited-refl : {top : ℕ} {b : Buffer} → IsValid top b → Edited top b (contents b) b
Edited-refl v = record { valid = v; bytes = refl; limit = refl }

Edited-false : {top : ℕ} {b b' : Buffer} → IsValid top b → b' ≡ b → Edited top b (contents b) b'
Edited-false v e = rw e (Edited-refl v)

-- What holds after a first edit carries over to the buffer before it.
Answer-after :
    {top : ℕ} {b b₁ : Buffer} {cs : List ℕ} (ys : List ℕ) (done : Bool) (b' : Buffer)
    → Edited top b cs b₁
    → Answer top b₁ (contents b₁ ++ ys) (contents b₁) done b'
    → Answer top b (cs ++ ys) cs done b'
Answer-after ys true b' c a = record {
  valid = a.valid;
  bytes = a.bytes ∙ ap (λ cs. cs ++ ys) c.bytes;
  limit = a.limit ∙ c.limit;
}
Answer-after ys false b' c a = record {
  valid = a.valid;
  bytes = a.bytes ∙ c.bytes;
  limit = a.limit ∙ c.limit;
}

-- What append leaves: on true the bytes behind those held, on false the buffer of before.
abbrev pub Appended : ℕ → Buffer → List ℕ → Bool → Buffer → Type 0
Appended top b bs true b' = Edited top b (contents b ++ bs) b'
Appended top b bs false b' = b' ≡ b

Appended-Answer :
    {top : ℕ} {b : Buffer} (bs : List ℕ) (done : Bool) (b' : Buffer)
    → IsValid top b
    → Appended top b bs done b'
    → Answer top b (contents b ++ bs) (contents b) done b'
Appended-Answer bs true b' v a = a
Appended-Answer bs false b' v a = Edited-false v a

append_grown-Appended :
    (top : ℕ) (b : Buffer) (bs : List ℕ) (r : Bool × Buffer × Pool)
    → Increased top (length bs) b r.0 r.1
    → let (done, b', _) = append_grown bs r in Appended top b bs done b'
unfolding append_grown
append_grown-Appended top b bs (true, b', p) (g, h) = write_end-Edited bs _ g h (omega (arith, g))
append_grown-Appended top b bs (false, b', p) e = e

resize_grown-Answer :
    {top : ℕ} {b : Buffer} (n : ℕ) (bs : List ℕ) (r : Bool × Buffer × Pool)
    → IsValid top b
    → n ≡ b.size + length bs
    → Increased top (length bs) b r.0 r.1
    → let (done, b', _) = resize_grown n bs r in
      Answer top b (contents b ++ bs) (contents b) done b'
unfolding resize_grown
resize_grown-Answer {top} {b} n bs (true, b', p) v e (g, h) = write_end-Edited bs n g h e
resize_grown-Answer n bs (false, b', p) v e k = Edited-false v k

module _ (malloc : ℕ → ℕ → Option (List ℕ)) (answers : Answers malloc) where
  -- `append` on a valid buffer: on true the bytes stand behind those held, and the buffer is valid and
  -- has the limit of before; on false the buffer is the one of before, its memory included.
  pub append-Appended :
      {top : ℕ} {b : Buffer} (bs : List ℕ) (p : Pool)
      → IsValid top b
      → length bs < 2 ^ 64
      → let (done, b', _) = append malloc bs b p in Appended top b bs done b'
  unfolding append
  append-Appended {top} {b} bs p v h = elim (Bool-cases (length bs == 0)) [
    | inl z ↦ rw z (rw (length_zero bs (omega tests), append-nil) (Edited-refl v))
    | inr z ↦ rw z (
        append_grown-Appended top b bs _
          (increase_capacity-Increased malloc answers (length bs) p v h))
  ]

  pub append-Answer :
      {top : ℕ} {b : Buffer} (bs : List ℕ) (p : Pool)
      → IsValid top b
      → length bs < 2 ^ 64
      → let (done, b', _) = append malloc bs b p in
        Answer top b (contents b ++ bs) (contents b) done b'
  append-Answer bs p v h = Appended-Answer bs _ _ v (append-Appended bs p v h)

  -- `resize` cuts the bytes held at n, or pads them with `c` up to n; or it answers false and changes
  -- nothing.
  pub resize-Answer :
      {top : ℕ} {b : Buffer} (n c : ℕ) (p : Pool)
      → IsValid top b
      → n < 2 ^ 64
      → let (done, b', _) = resize malloc n c b p in
        Answer top b (take n (contents b) ++ replicate (n - b.size) c) (contents b) done b'
  unfolding resize
  resize-Answer {top} {b} n c p v h = elim (Bool-cases (ltb b.size n)) [
    | inl l ↦ rw l (longer (ltb→lt b.size n l))
    | inr l ↦ rw l (shorter (ltb→ge b.size n l))
  ]
    where
      shorter :
          n ≤ b.size
          → Edited top b (take n (contents b) ++ replicate (n - b.size) c) (record b { size = n })
      shorter g = let z : n - b.size ≡ 0 = omega arith in rw (z, append-nil) (cut-Edited n v g)

      longer :
          b.size < n
          → let (done, b', _) =
              resize_grown n
                (replicate (sub_size n b.size) c)
                (increase_capacity malloc (sub_size n b.size) b p) in
            Answer top b (take n (contents b) ++ replicate (n - b.size) c) (contents b) done b'
      longer g =
          let e : sub_size n b.size ≡ n - b.size = omega arith in
          let k : length (replicate (n - b.size) c) ≡ n - b.size =
            length-replicate (n - b.size) c in
          let whole : take n (contents b) ≡ contents b =
            take_all n (contents b) (omega (arith, length-contents v)) in
          rw (e, whole)
            (resize_grown-Answer n (replicate (n - b.size) c) _ v (omega arith)
              (rw k (increase_capacity-Increased malloc answers (n - b.size) p v (omega arith))))

-- The bytes `cs` with `rep` over those from `pos` on.
abbrev pub overwritten : ℕ → List ℕ → List ℕ → List ℕ
overwritten pos rep cs = take pos cs ++ (rep ++ drop (pos + length rep) cs)

-- A write inside the bytes held.
write_inside-Edited :
    {top : ℕ} {b : Buffer} (pos : ℕ) (rep : List ℕ)
    → IsValid top b
    → pos + length rep ≤ b.size
    → Edited top b (overwritten pos rep (contents b)) (record b { mem = write_at b.mem pos rep })
write_inside-Edited {top} {b} pos rep v h = record {
  valid = record {
    filled = rw (length-write_at b.mem pos rep) v.filled;
    fits = v.fits;
    bounded = v.bounded;
    limited = v.limited;
    unsigned = v.unsigned;
  };
  bytes =
      take-write_at b.size b.mem pos rep
      ∙ write_at_lem (contents b) pos rep (omega (arith, length-contents v))
      ∙ ap (λ r. take pos (contents b) ++ (rep ++ r)) (drop-drop pos (length rep) (contents b));
  limit = refl;
}

-- Where `rep` reaches the end of the bytes held, nothing of them stands behind it.
overwritten_end :
    {top : ℕ} {b : Buffer} (pos : ℕ) (rep : List ℕ)
    → IsValid top b
    → b.size ≤ pos + length rep
    → overwritten pos rep (contents b) ≡ take pos (contents b) ++ rep
overwritten_end {top} {b} pos rep v h =
    rw (drop_all (pos + length rep) (contents b) (omega (arith, length-contents v)), append-nil)

module _ (malloc : ℕ → ℕ → Option (List ℕ)) (answers : Answers malloc) where
  replace_behind :
      {top : ℕ} {b : Buffer} (pos : ℕ) (rep : List ℕ) (p : Pool)
      → IsValid top b
      → length rep < 2 ^ 64
      → b.size ≤ pos
      → let (done, b', _) = append malloc rep b p in
        Answer top b (overwritten pos rep (contents b)) (take pos (contents b)) done b'
  replace_behind {top} {b} pos rep p v h g =
      let whole : take pos (contents b) ≡ contents b =
        take_all pos (contents b) (omega (arith, length-contents v)) in
      rw (overwritten_end pos rep v (omega arith), whole) (append-Answer malloc answers rep p v h)

  replace_tail :
      {top : ℕ} {b : Buffer} (pos : ℕ) (rep : List ℕ) (p : Pool)
      → IsValid top b
      → length rep < 2 ^ 64
      → pos < b.size
      → b.size ≤ pos + length rep
      → let (done, b', _) = append malloc rep (record b { size = pos }) p in
        Answer top b (overwritten pos rep (contents b)) (take pos (contents b)) done b'
  replace_tail {top} {b} pos rep p v h g k =
      let c = cut-Edited pos v (omega arith) in
      rw (overwritten_end pos rep v k)
        (Answer-after rep _ _ c (append-Answer malloc answers rep p c.valid h))

  -- `replace` writes `rep` over the bytes from `pos` on, appending what reaches behind the end. If it
  -- answers false, the bytes from `pos` on are gone.
  pub replace-Answer :
      {top : ℕ} {b : Buffer} (pos : ℕ) (rep : List ℕ) (p : Pool)
      → IsValid top b
      → pos + length rep < 2 ^ 64
      → let (done, b', _) = replace malloc pos rep b p in
        Answer top b (overwritten pos rep (contents b)) (take pos (contents b)) done b'
  unfolding replace
  replace-Answer {top} {b} pos rep p v h = elim (Bool-cases (leb b.size pos)) [
    | inl g ↦ rw g (replace_behind pos rep p v (omega arith) (leb→le _ _ g))
    | inr g ↦ elim (Bool-cases (leb b.size (add_size pos (length rep)))) [
      | inl k ↦ rw (g, k) (replace_tail pos rep p v (omega arith) (leb→gt _ _ g) (omega tests))
      | inr k ↦
          rw (g, k)
            (elim (Bool-cases (ltb 0 (length rep))) [
              | inl z ↦ rw z (write_inside-Edited pos rep v (omega tests))
              | inr z ↦ rw z (
                  subst
                    (λ m. Edited top b (overwritten pos rep (contents b)) (record b { mem = m }))
                    (ap (write_at b.mem pos) (length_zero rep (omega tests))
                      ∙ write_at-nil b.mem pos)
                    (write_inside-Edited pos rep v (omega tests)))
            ])
    ]
  ]
