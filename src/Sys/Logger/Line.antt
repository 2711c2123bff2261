-- ===== src/Sys/Logger/Line.antt =====
-- The line that Logger::vlog of sys/logger.cpp makes in its buffer of 4096 bytes.
use deps.Prelude.{ℕ, ◌+◌, ◌-◌, ◌≤◌, ◌<◌, ◌≡◌, refl, ap, ◌∙◌, arith, min}
use deps.Prelude.{true, false, Option, none, some, List, [], ◌∷◌, ◌++◌}
use deps.Prelude.{leb, if◌then◌else◌, length, take, replicate, length-append}
use deps.Prelude.{length-replicate, take_all, take-append_at, Bool-cases, sym, inl, inr}
use deps.Prelude.{take-take}
use deps.Buffer.Memory.{write_at, length-write_at, take-write_at_end, take-write_at_before}

abbrev pub buffer_size : ℕ
buffer_size = 4096

-- A write into the buffer; none is one that passes its end.
unfoldable pub store : ℕ → List ℕ → List ℕ → Option (List ℕ)
store pos bs mem = if leb (pos + length bs) (length mem) then some (write_at mem pos bs) else none

abbrev pub then_store : ℕ → List ℕ → Option (List ℕ) → Option (List ℕ)
then_store pos bs none = none
then_store pos bs (some mem) = store pos bs mem

-- snprintf and vsnprintf at `pos`, with the rest of the buffer as their limit: what fits, and a 0.
unfoldable pub printed : List ℕ → ℕ → List ℕ
printed text pos = take (buffer_size - pos - 1) text ++ (0 ∷ [])

-- "[%5s]"
unfoldable pub level_tag : List ℕ → List ℕ
level_tag str = (b'[' ∷ replicate (5 - length str) b' ') ++ (str ++ (b']' ∷ []))

-- The bytes of the buffer up to `p`.
unfoldable pub up_to : ℕ → Option (List ℕ) → Option (List ℕ)
up_to p none = none
up_to p (some mem) = some (take p mem)

-- What `vlog` hands to `write`: each `*++p = c` first moves p on and then writes there.
unfoldable pub log_line : List ℕ → List ℕ → List ℕ → Option (List ℕ)
log_line garbage str text =
    let tag = level_tag str in
    let start = length tag in
    let p = min (start + length text) (buffer_size - 2) in
    let tagged = store 0 (printed tag 0) garbage in
    let filled = then_store start (printed text start) tagged in
    let broken = then_store (p + 1) (b'\n' ∷ []) filled in
    let ended = then_store (p + 2) (0 ∷ []) broken in up_to (p + 2) ended

length-level_tag : (str : List ℕ) → length str ≤ 5 → length (level_tag str) ≡ 7
unfolding level_tag
length-level_tag str h = omega (
  arith,
  length-append (b'[' ∷ replicate (5 - length str) b' ') (str ++ (b']' ∷ [])),
  length-append str (b']' ∷ []),
  length-replicate {A = ℕ} (5 - length str) b' ',
)

-- A write that fits.
store-some :
    (pos : ℕ) (bs mem : List ℕ)
    → pos + length bs ≤ length mem
    → store pos bs mem ≡ some (write_at mem pos bs)
unfolding store
store-some pos bs mem h =
    let t : leb (pos + length bs) (length mem) ≡ true = ground arith in rw t refl

store-none : (pos : ℕ) (bs mem : List ℕ) → length mem < pos + length bs → store pos bs mem ≡ none
unfolding store
store-none pos bs mem h =
    let t : leb (pos + length bs) (length mem) ≡ false = ground arith in rw t refl

-- A buffer of the size declared.
abbrev IsWhole : Option (List ℕ) → Type 0
IsWhole none = Unit {0}
IsWhole (some mem) = length mem ≡ 4096

then_store-IsWhole :
    (pos : ℕ) (bs : List ℕ) (o : Option (List ℕ)) → IsWhole o → IsWhole (then_store pos bs o)
unfolding store
then_store-IsWhole pos bs none h = tt
then_store-IsWhole pos bs (some mem) h = elim (Bool-cases (leb (pos + length bs) (length mem))) [
  | inl z ↦ rw z (length-write_at mem pos bs ∙ h)
  | inr z ↦ rw z tt
]

then_store_behind : (o : Option (List ℕ)) → IsWhole o → then_store 4096 (0 ∷ []) o ≡ none
then_store_behind none h = refl
then_store_behind (some mem) h = store-none 4096 (0 ∷ []) mem (omega arith)

up_to-none : (p : ℕ) (o : Option (List ℕ)) → o ≡ none → up_to p o ≡ none
unfolding up_to
up_to-none p o e = rw e refl

-- A message of 4087 characters or more makes `vlog` write behind its buffer.
pub log_line_over :
    (garbage str text : List ℕ)
    → length garbage ≡ buffer_size
    → length str ≤ 5
    → 4087 ≤ length text
    → log_line garbage str text ≡ none
unfolding log_line
log_line_over garbage str text g s h =
    let t = length-level_tag str s in
    let p : min (length (level_tag str) + length text) (buffer_size - 2) ≡ 4094 = omega arith in
    let tagged = then_store-IsWhole 0 (printed (level_tag str) 0) (some garbage) g in
    let filled = then_store-IsWhole (length (level_tag str)) (printed text _) _ tagged in
    let broken = then_store-IsWhole 4095 (b'\n' ∷ []) _ filled in
    rw p (up_to-none 4096 _ (then_store_behind _ broken))

-- The four writes into the buffer, where they fit.
line_bytes :
    (garbage tag text : List ℕ)
    → length garbage ≡ 4096
    → length tag ≡ 7
    → length text < 4087
    → let mem = write_at (write_at garbage 0 (tag ++ (0 ∷ []))) 7 (text ++ (0 ∷ [])) in
      let ended =
        write_at (write_at mem (7 + length text + 1) (b'\n' ∷ [])) (7 + length text + 2) (0 ∷ []) in
      take (7 + length text + 2) ended ≡ (tag ++ (text ++ (0 ∷ []))) ++ (b'\n' ∷ [])
line_bytes garbage tag text g t h =
    let first = write_at garbage 0 (tag ++ (0 ∷ [])) in
    let second = write_at first 7 (text ++ (0 ∷ [])) in
    let l₁ = length-write_at garbage 0 (tag ++ (0 ∷ [])) in
    let l₂ = length-write_at first 7 (text ++ (0 ∷ [])) in
    let n = length-append text (0 ∷ []) in
    let k = length-append tag (0 ∷ []) in
    let start : take 7 first ≡ tag =
      sym (take-take 7 8 first (omega arith))
      ∙ ap (take 7) (take-write_at_end 8 garbage 0 (tag ++ (0 ∷ [])) (omega arith) (omega arith))
      ∙ take-append_at 7 tag (0 ∷ []) (sym t) in
    take-write_at_before (7 + length text + 2) _ (7 + length text + 2) (0 ∷ []) (omega arith)
    ∙ take-write_at_end (7 + length text + 2) second (7 + length text + 1) (b'\n' ∷ [])
        (omega arith) (omega arith)
    ∙ ap (λ xs. xs ++ (b'\n' ∷ []))
        (take-write_at_end (7 + length text + 1) first 7 (text ++ (0 ∷ [])) (omega arith)
            (omega arith)
          ∙ ap (λ xs. xs ++ (text ++ (0 ∷ []))) start)

-- A shorter message is handed to `write` with the tag of its level before it and, behind it, the 0 that
-- ends the text and a line break.
pub log_line_lem :
    (garbage str text : List ℕ)
    → length garbage ≡ buffer_size
    → length str ≤ 5
    → length text < 4087
    → log_line garbage str text ≡ some ((level_tag str ++ (text ++ (0 ∷ []))) ++ (b'\n' ∷ []))
unfolding log_line up_to printed
log_line_lem garbage str text g s h =
    let tag = level_tag str in
    let t : length tag ≡ 7 = length-level_tag str s in
    let p : min (7 + length text) (buffer_size - 2) ≡ 7 + length text = omega arith in
    let a : take (buffer_size - 0 - 1) tag ≡ tag =
      take_all (buffer_size - 0 - 1) tag (omega arith) in
    let b : take (buffer_size - 7 - 1) text ≡ text =
      take_all (buffer_size - 7 - 1) text (omega arith) in
    let first = write_at garbage 0 (tag ++ (0 ∷ [])) in
    let second = write_at first 7 (text ++ (0 ∷ [])) in
    let third = write_at second (7 + length text + 1) (b'\n' ∷ []) in
    let l₁ = length-write_at garbage 0 (tag ++ (0 ∷ [])) in
    let l₂ = length-write_at first 7 (text ++ (0 ∷ [])) in
    let l₃ = length-write_at second (7 + length text + 1) (b'\n' ∷ []) in
    let n = length-append text (0 ∷ []) in
    let k = length-append tag (0 ∷ []) in
    rw
      (
        t,
        p,
        a,
        b,
        store-some 0 (tag ++ (0 ∷ [])) garbage (omega arith),
        store-some 7 (text ++ (0 ∷ [])) first (omega arith),
        store-some (7 + length text + 1) (b'\n' ∷ []) second (omega arith),
        store-some (7 + length text + 2) (0 ∷ []) third (omega arith),
      )
      (ap some (line_bytes garbage tag text g t h))
