-- ===== src/Buffer/Refine.antt =====
-- net/blockbuffer.h as what its users see of it: a list of bytes with an upper limit. Blocks, memory
-- and the counters are forgotten.
use deps.Prelude.{ℕ, ◌+◌, ◌-◌, ◌*◌, ◌^◌, ◌≤◌, ◌<◌, ◌≡◌, refl, ap, ◌∙◌, arith, min}
use deps.Prelude.{Bool, true, false, Option, none, some, List, [], ◌∷◌, ◌++◌, ◌⊎◌, inl, inr}
use deps.Prelude.{leb, if◌then◌else◌, length, take, drop, replicate, Bool-cases, tests}
use deps.Prelude.{length-append, length-take, length-replicate}
use deps.Buffer.{Buffer, Pool, new, append, resize, reserve, replace, erase}
use deps.Buffer.{capacity, sub_size, add_size}
use deps.Buffer.Growth.{IsValid, Answers, Increased, contents, length-contents}
use deps.Buffer.Growth.{increase_capacity-Increased}
use deps.Buffer.Contents.{Answer, Edited, cut-Edited, overwritten}
use deps.Buffer.Contents.{append-Answer, resize-Answer, replace-Answer}
use deps.Buffer.Erase.{removed, erase-Edited}
use deps.Buffer.Capacity.{Supplies, Starved, append_cases, resize_cases}
use mathlib.Core.Path.{ap₂, subst}
use deps.Buffer.Run.{new-IsValid}

-- A call of a member that changes the object.
pub data Request : Type 0 where
  to_append : List ℕ → Request
  to_resize : ℕ → ℕ → Request
  to_reserve : ℕ → Request
  to_replace : ℕ → List ℕ → Request
  to_erase : ℕ → ℕ → Bool → Request

-- The answer of a call that has one on which its users act: `reserve` only hints.
unfoldable pub shown : Bool × Buffer × Pool → Option Bool × Buffer × Pool
shown (done, b, p) = (some done, b, p)

unfoldable pub kept_back : Bool × Buffer × Pool → Option Bool × Buffer × Pool
kept_back (done, b, p) = (none, b, p)

unfoldable pub hidden : Buffer × Pool → Option Bool × Buffer × Pool
hidden (b, p) = (none, b, p)

unfoldable pub perform :
    (ℕ → ℕ → Option (List ℕ)) → Request → Buffer → Pool → Option Bool × Buffer × Pool
perform malloc (to_append bs) b p = shown (append malloc bs b p)
perform malloc (to_resize n c) b p = shown (resize malloc n c b p)
perform malloc (to_reserve n) b p = kept_back (reserve malloc n b p)
perform malloc (to_replace pos rep) b p = shown (replace malloc pos rep b p)
perform malloc (to_erase pos n hold) b p = hidden (erase pos n hold b p)

-- The answers of a sequence of calls, and the buffer that it leaves.
unfoldable pub run :
    (ℕ → ℕ → Option (List ℕ)) → List Request → Buffer → Pool → List (Option Bool) × Buffer
run malloc [] b p = ([], b)
run malloc (r ∷ rs) b p =
    let (a, b', p') = perform malloc r b p in let (rest, b₂) = run malloc rs b' p' in (a ∷ rest, b₂)

-- The same calls on a list of bytes that may have `top` blocks of bytes.
unfoldable pub within : ℕ → ℕ → List ℕ → List ℕ → Option Bool × List ℕ
within top n yes_bytes no_bytes =
    if leb n (top * 4096) then (some true, yes_bytes) else (some false, no_bytes)

unfoldable pub ideal : ℕ → Request → List ℕ → Option Bool × List ℕ
ideal top (to_append bs) cs = within top (length cs + length bs) (cs ++ bs) cs
ideal top (to_resize n c) cs = within top n (take n cs ++ replicate (n - length cs) c) cs
ideal top (to_reserve n) cs = (none, cs)
ideal top (to_replace pos rep) cs =
    within top (min pos (length cs) + length rep) (overwritten pos rep cs) (take pos cs)
ideal top (to_erase pos n hold) cs = (none, removed pos n cs)

unfoldable pub ideal_run : ℕ → List Request → List ℕ → List (Option Bool) × List ℕ
ideal_run top [] cs = ([], cs)
ideal_run top (r ∷ rs) cs =
    let (a, cs') = ideal top r cs in let (rest, ds) = ideal_run top rs cs' in (a ∷ rest, ds)

-- What size_t and the assertion of `erase` ask of a caller that holds `cs`.
unfoldable pub IsLegal : Request → List ℕ → Type 0
IsLegal (to_append bs) cs = length bs < 2 ^ 64
IsLegal (to_resize n c) cs = n < 2 ^ 64
IsLegal (to_reserve n) cs = n < 2 ^ 64
IsLegal (to_replace pos rep) cs = pos + length rep < 2 ^ 64
IsLegal (to_erase pos n hold) cs = pos ≤ length cs

unfoldable pub AreLegal : ℕ → List Request → List ℕ → Type 0
AreLegal top [] cs = Unit
AreLegal top (r ∷ rs) cs = IsLegal r cs × AreLegal top rs (ideal top r cs).1

-- A buffer that stands for the bytes `cs`, with its limit at the template argument.
pub record Shows (top : ℕ) (b : Buffer) (cs : List ℕ) : Type 0 where
  pub valid : IsValid top b
  pub limit : b.max_blocks ≡ top
  pub bytes : contents b ≡ cs

-- The outcome of a call shows the outcome of the ideal one.
pub record Matches (top : ℕ) (r : Option Bool × Buffer × Pool) (s : Option Bool × List ℕ)
    : Type 0 where
  pub same : r.0 ≡ s.0
  pub shows : Shows top r.1 s.1

Edited-Shows :
    {top : ℕ} {b : Buffer} {cs : List ℕ} {b' : Buffer}
    → b.max_blocks ≡ top
    → Edited top b cs b'
    → Shows top b' cs
Edited-Shows e d = record { valid = d.valid; limit = d.limit ∙ e; bytes = d.bytes }

-- A call that may refuse: it is done exactly if its bytes fit.
within-Matches :
    {top : ℕ} (b : Buffer) (malloc : ℕ → ℕ → Option (List ℕ)) (n : ℕ) (yes_bytes no_bytes : List ℕ)
    (r : Bool × Buffer × Pool)
    → Supplies malloc
    → b.max_blocks ≡ top
    → n ≤ length yes_bytes
    → Answer top b yes_bytes no_bytes r.0 r.1
    → (r.0 ≡ true) ⊎ ((b.max_blocks * 4096 < n) ⊎ Starved malloc)
    → Matches top (shown r) (within top n yes_bytes no_bytes)
unfolding shown within
within-Matches {top} b malloc n ys ns (true, b', p) supplies e h d c =
    let small : length ys ≤ top * 4096 =
      omega (arith, ap length d.bytes, length-contents d.valid, d.valid) in
    let fits : leb n (top * 4096) ≡ true = ground arith in
    rw fits (record { same = refl; shows = Edited-Shows e d })
within-Matches b malloc n ys ns (false, b', p) supplies e h d (inl t) = absurd (cc)
within-Matches {top} b malloc n ys ns (false, b', p) supplies e h d (inr (inl l)) =
    let over : leb n (top * 4096) ≡ false = ground arith in
    rw over (record { same = refl; shows = Edited-Shows e d })
within-Matches b malloc n ys ns (false, b', p) supplies e h d (inr (inr (i, k, z))) =
    absurd (supplies i k z)

-- `replace` answers true, unless the bytes up to its end pass the limit or memory runs out.
replace_cases :
    (malloc : ℕ → ℕ → Option (List ℕ)) {top : ℕ} {b : Buffer} (pos : ℕ) (rep : List ℕ) (p : Pool)
    → IsValid top b
    → pos + length rep < 2 ^ 64
    → ((replace malloc pos rep b p).0 ≡ true)
      ⊎ ((b.max_blocks * 4096 < min pos b.size + length rep) ⊎ Starved malloc)
unfolding replace
replace_cases malloc {top} {b} pos rep p v h = elim (Bool-cases (leb b.size pos)) [
  | inl g ↦ rw g (
      let m : min pos b.size ≡ b.size = omega tests in
      rw m (append_cases malloc rep p v (omega arith)))
  | inr g ↦
      let m : min pos b.size ≡ pos = omega tests in
      elim (Bool-cases (leb b.size (add_size pos (length rep)))) [
        | inl k ↦
            rw (g, k, m)
              (append_cases malloc rep p (cut-Edited pos v (omega tests)).valid (omega arith))
        | inr k ↦ inl (rw (g, k) refl)
      ]
]

Increased-Edited :
    (top n : ℕ) (b : Buffer) (done : Bool) (b' : Buffer)
    → IsValid top b
    → Increased top n b done b'
    → Edited top b (contents b) b'
Increased-Edited top n b true b' v (g, _) = record {
  valid = g.valid;
  bytes = g.same_bytes;
  limit = g.same_limit;
}
Increased-Edited top n b false b' v e = rw e (record { valid = v; bytes = refl; limit = refl })

module _ (malloc : ℕ → ℕ → Option (List ℕ)) (answers : Answers malloc) where
  reserve-Edited :
      {top : ℕ} {b : Buffer} (n : ℕ) (p : Pool)
      → IsValid top b
      → Edited top b (contents b) (reserve malloc n b p).1
  unfolding reserve
  reserve-Edited {top} {b} n p v = elim (Bool-cases (leb n (capacity b))) [
    | inl g ↦ rw g (record { valid = v; bytes = refl; limit = refl })
    | inr g ↦ rw g (
        Increased-Edited top _ b _ _ v
          (increase_capacity-Increased malloc answers (sub_size n (capacity b)) p v (omega arith)))
  ]

  module _ (supplies : Supplies malloc) where
    perform-Matches :
        {top : ℕ} {b : Buffer} (r : Request) (p : Pool)
        → IsValid top b
        → b.max_blocks ≡ top
        → IsLegal r (contents b)
        → Matches top (perform malloc r b p) (ideal top r (contents b))
    unfolding perform ideal hidden kept_back IsLegal
    perform-Matches {b = b} (to_append bs) p v e h =
        let s = length-contents v in
        within-Matches b malloc _ _ _ _ supplies e (omega (arith, length-append (contents b) bs))
          (append-Answer malloc answers bs p v h) (rw s (append_cases malloc bs p v h))
    perform-Matches {b = b} (to_resize n c) p v e h =
        let s = length-contents v in
        within-Matches b malloc _ _ _ _ supplies e
          (omega (
            arith,
            s,
            length-append (take n (contents b)) (replicate (n - length (contents b)) c),
            length-take n (contents b),
            length-replicate (n - length (contents b)) c,
          ))
          (rw s (resize-Answer malloc answers n c p v h)) (resize_cases malloc n c p v h)
    perform-Matches (to_reserve n) p v e h = record {
      same = refl;
      shows = Edited-Shows e (reserve-Edited n p v);
    }
    perform-Matches {b = b} (to_replace pos rep) p v e h =
        let s = length-contents v in
        within-Matches b malloc _ _ _ _ supplies e
          (omega (
            arith,
            length-append (take pos (contents b)) (rep ++ drop (pos + length rep) (contents b)),
            length-append rep (drop (pos + length rep) (contents b)),
            length-take pos (contents b),
          ))
          (replace-Answer malloc answers pos rep p v h) (rw s (replace_cases malloc pos rep p v h))
    perform-Matches {b = b} (to_erase pos n hold) p v e h = record {
      same = refl;
      shows = Edited-Shows e (erase-Edited pos n hold p v (omega (arith, length-contents v))).0;
    }

    Shows-Matches :
        {top : ℕ} {b : Buffer} {cs : List ℕ} (r : Request) (p : Pool)
        → Shows top b cs
        → IsLegal r cs
        → Matches top (perform malloc r b p) (ideal top r cs)
    Shows-Matches {top} {b} r p s =
        subst (λ ds. IsLegal r ds → Matches top (perform malloc r b p) (ideal top r ds)) s.bytes
          (perform-Matches r p s.valid s.limit)

    run_lem :
        {top : ℕ} (rs : List Request) {b : Buffer} {cs : List ℕ} (p : Pool)
        → Shows top b cs
        → AreLegal top rs cs
        → ((run malloc rs b p).0 ≡ (ideal_run top rs cs).0)
          × Shows top (run malloc rs b p).1 (ideal_run top rs cs).1
    unfolding run ideal_run AreLegal
    run_lem [] p s h = (refl, s)
    run_lem {top} (r ∷ rs) {b} p s h =
        let m = Shows-Matches r p s h.0 in
        let (e, t) = run_lem rs (perform malloc r b p).2 m.shows h.1 in (ap₂ ◌∷◌ m.same e, t)

    -- While malloc answers, a new buffer and an empty list of bytes with room for `top` blocks cannot
    -- be told apart by calls of their members that keep the callers' promises: each call is
    -- answered the same, and the buffer holds the bytes of the list.
    pub run-Refines :
        {top : ℕ} (rs : List Request) (p : Pool)
        → top < 2 ^ 32
        → AreLegal top rs []
        → ((run malloc rs (new top) p).0 ≡ (ideal_run top rs []).0)
          × (contents (run malloc rs (new top) p).1 ≡ (ideal_run top rs []).1)
    unfolding new
    run-Refines {top} rs p h legal =
        let s : Shows top (new top) [] = record {
          valid = new-IsValid top h;
          limit = refl;
          bytes = refl;
        } in
        let (e, t) = run_lem rs p s legal in (e, t.bytes)
