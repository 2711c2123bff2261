-- ===== src/Buffer/Memory.antt =====
-- memmove, memcpy and memset of net/blockbuffer.h on the bytes of one allocation.
use deps.Prelude.{ℕ, zero, suc, ◌+◌, ◌≤◌, ◌≡◌, refl, ap, arith}
use deps.Prelude.{List, [], ◌∷◌, ◌++◌, length, take, drop}

-- Writes `bs` from offset `pos` on. What would fall behind the allocation is lost.
unfoldable pub write_at : List ℕ → ℕ → List ℕ → List ℕ
write_at [] pos bs = []
write_at (x ∷ xs) (suc pos) bs = x ∷ write_at xs pos bs
write_at (x ∷ xs) zero [] = x ∷ xs
write_at (x ∷ xs) zero (b ∷ bs) = b ∷ write_at xs zero bs

pub length-write_at :
    (xs : List ℕ) (pos : ℕ) (bs : List ℕ) → length (write_at xs pos bs) ≡ length xs
unfolding write_at
length-write_at [] pos bs = refl
length-write_at (x ∷ xs) (suc pos) bs = ap suc (length-write_at xs pos bs)
length-write_at (x ∷ xs) zero [] = refl
length-write_at (x ∷ xs) zero (b ∷ bs) = ap suc (length-write_at xs zero bs)

-- A write that ends the kept part: appending.
pub take-write_at_end :
    (k : ℕ) (xs : List ℕ) (pos : ℕ) (bs : List ℕ)
    → k ≡ pos + length bs
    → k ≤ length xs
    → take k (write_at xs pos bs) ≡ take pos xs ++ bs
unfolding write_at
take-write_at_end zero xs zero [] e h = refl
take-write_at_end zero xs zero (b ∷ bs) e h = absurd (omega arith)
take-write_at_end zero xs (suc pos) bs e h = absurd (omega arith)
take-write_at_end (suc k) [] pos bs e h = absurd (omega arith)
take-write_at_end (suc k) (x ∷ xs) zero [] e h = absurd (omega arith)
take-write_at_end (suc k) (x ∷ xs) zero (b ∷ bs) e h =
    ap (◌∷◌ b) (take-write_at_end k xs zero bs (omega arith) (omega arith))
take-write_at_end (suc k) (x ∷ xs) (suc pos) bs e h =
    ap (◌∷◌ x) (take-write_at_end k xs pos bs (omega arith) (omega arith))

-- A write behind the kept part does not show in it.
pub take-write_at_before :
    (k : ℕ) (xs : List ℕ) (pos : ℕ) (bs : List ℕ)
    → k ≤ pos
    → take k (write_at xs pos bs) ≡ take k xs
unfolding write_at
take-write_at_before zero xs pos bs h = refl
take-write_at_before (suc k) [] pos bs h = refl
take-write_at_before (suc k) (x ∷ xs) zero bs h = absurd (omega arith)
take-write_at_before (suc k) (x ∷ xs) (suc pos) bs h =
    ap (◌∷◌ x) (take-write_at_before k xs pos bs (omega arith))

-- Keeping a part and writing commute.
pub take-write_at :
    (k : ℕ) (xs : List ℕ) (pos : ℕ) (bs : List ℕ)
    → take k (write_at xs pos bs) ≡ write_at (take k xs) pos bs
unfolding write_at
take-write_at zero xs pos bs = refl
take-write_at (suc k) [] pos bs = refl
take-write_at (suc k) (x ∷ xs) (suc pos) bs = ap (◌∷◌ x) (take-write_at k xs pos bs)
take-write_at (suc k) (x ∷ xs) zero [] = refl
take-write_at (suc k) (x ∷ xs) zero (b ∷ bs) = ap (◌∷◌ b) (take-write_at k xs zero bs)

-- A write within the allocation, in full: what stands before it and behind it is kept.
pub write_at_lem :
    (xs : List ℕ) (pos : ℕ) (bs : List ℕ)
    → pos + length bs ≤ length xs
    → write_at xs pos bs ≡ take pos xs ++ (bs ++ drop (length bs) (drop pos xs))
unfolding write_at
write_at_lem [] zero [] h = refl
write_at_lem [] zero (b ∷ bs) h = absurd (omega arith)
write_at_lem [] (suc pos) bs h = absurd (omega arith)
write_at_lem (x ∷ xs) zero [] h = refl
write_at_lem (x ∷ xs) zero (b ∷ bs) h = ap (◌∷◌ b) (write_at_lem xs zero bs (omega arith))
write_at_lem (x ∷ xs) (suc pos) bs h = ap (◌∷◌ x) (write_at_lem xs pos bs (omega arith))

pub write_at-nil : (xs : List ℕ) (pos : ℕ) → write_at xs pos [] ≡ xs
unfolding write_at
write_at-nil [] pos = refl
write_at-nil (x ∷ xs) zero = refl
write_at-nil (x ∷ xs) (suc pos) = ap (◌∷◌ x) (write_at-nil xs pos)
