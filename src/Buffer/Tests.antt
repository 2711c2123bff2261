-- ===== src/Buffer/Tests.antt =====
-- Runs of net/blockbuffer.h, and the theorems at concrete buffers.
use deps.Prelude.{ℕ, ◌⊎◌, ◌*◌, ◌≤◌, ◌<◌, ◌≡◌, refl, arith, ap, ◌∙◌}
use deps.Prelude.{true, false, Option, none, some, List, [], ◌∷◌, length, take, replicate}
use deps.Prelude.{length-replicate, sym}
use mathlib.Core.Option.{some-injective}
use deps.Buffer.{Buffer, Pool, new, capacity, append_grown}
use deps.Buffer.{increase_capacity, append, replace, erase}
use deps.Buffer.Memory.{write_at}
use deps.Buffer.Growth.{IsValid, Answers, Increased, contents, increase_capacity-Increased}
use deps.Buffer.Contents.{Answer, Edited, overwritten, Appended, append-Appended, replace-Answer}
use deps.Buffer.Erase.{removed, erase-Edited}
use deps.Buffer.Capacity.{Supplies}
use deps.Buffer.Counters.{Counts}
use deps.Buffer.Run.{Reach, add, fresh, next, cut, Reach-bounded, Step-Counts}
use deps.Buffer.Refine.{Request, to_append, to_resize, to_replace, to_erase, run, ideal_run}
use deps.Buffer.Refine.{run-Refines, AreLegal, IsLegal, ideal, within}
use deps.Buffer.Forward.{Forward, view, destroy, contents-destroy}

-- A malloc that hands out zeroed memory.
abbrev zeroed : ℕ → ℕ → Option (List ℕ)
zeroed i n = some (replicate n 0)

zeroed-Answers : Answers zeroed
zeroed-Answers i n bs e = ap length (sym (some-injective _ _ e)) ∙ length-replicate n 0

zeroed-Supplies : Supplies zeroed
zeroed-Supplies i n e = cc

-- Three bytes in one block.
abbrev three : Buffer
three = record { mem = 1 ∷ 2 ∷ 3 ∷ replicate 4093 0; size = 3; block = 1; max_blocks = 16 }

abbrev pool : Pool
pool = record { current_total_blocks = 1; peak_total_blocks = 1; calls = 1 }

three-IsValid : IsValid 16 three
three-IsValid = record {
  filled = omega (arith, length-replicate {A = ℕ} 4093 0);
  fits = omega arith;
  bounded = omega arith;
  limited = omega arith;
  unsigned = omega arith;
}

append_run : contents (append zeroed (4 ∷ 5 ∷ []) three pool).1 ≡ 1 ∷ 2 ∷ 3 ∷ 4 ∷ 5 ∷ []
unfolding append increase_capacity append_grown write_at
append_run = refl

abbrev two : List ℕ
two = 4 ∷ 5 ∷ []

increase_capacity-Increased_example :
    let (grown, b', _) = increase_capacity zeroed 5000 three pool in
    Increased 16 5000 three grown b'
increase_capacity-Increased_example =
    increase_capacity-Increased zeroed zeroed-Answers 5000 pool three-IsValid (omega arith)

append-Appended_example :
    let (done, b', _) = append zeroed (4 ∷ 5 ∷ []) three pool in
    Appended 16 three (4 ∷ 5 ∷ []) done b'
append-Appended_example =
    append-Appended zeroed zeroed-Answers (4 ∷ 5 ∷ []) pool three-IsValid (omega arith)

replace-Answer_example :
    let (done, b', _) = replace zeroed 1 (8 ∷ 9 ∷ 7 ∷ []) three pool in
    Answer 16 three
      (overwritten 1 (8 ∷ 9 ∷ 7 ∷ []) (contents three))
      (take 1 (contents three))
      done
      b'
replace-Answer_example =
    replace-Answer zeroed zeroed-Answers 1 (8 ∷ 9 ∷ 7 ∷ []) pool three-IsValid (omega arith)

erase-Edited_example :
    let (b', _) = erase 1 1 false three pool in
    Edited 16 three (removed 1 1 (contents three)) b'
    × ((false ≡ true) ⊎ ((0 < b'.size) ⊎ (b'.block ≡ 0)))
erase-Edited_example = erase-Edited 1 1 false pool three-IsValid (omega arith)

reached :
    Reach zeroed 16
      (append zeroed (4 ∷ []) (new 16) pool).1
      (append zeroed (4 ∷ []) (new 16) pool).2
reached = next (fresh pool) (add (4 ∷ []) (omega arith))

Reach-bounded_example :
    let (_, b, _) = append zeroed (4 ∷ []) (new 16) pool in
    (length b.mem ≡ capacity b) × (b.size ≤ length b.mem) × (length b.mem ≤ 16 * 4096)
Reach-bounded_example = Reach-bounded zeroed zeroed-Answers (omega arith) reached

Step-Counts_example : let (b', p') = erase 0 3 false three pool in Counts three pool b' p'
Step-Counts_example =
    Step-Counts zeroed zeroed-Answers (cut {b = three} {p = pool} 0 3 false (omega arith))
      three-IsValid (omega arith)

abbrev seen : Forward
seen = record { sb = three; attached = true; pos = 1 }

contents-destroy_example : contents (destroy seen pool).0 ≡ view seen
contents-destroy_example =
    contents-destroy {f = seen} pool (record { valid = three-IsValid; inside = omega arith }) refl

abbrev requests : List Request
requests = to_append (1 ∷ 2 ∷ 3 ∷ []) ∷ to_replace 2 two ∷ to_resize 5000 0 ∷ to_erase 0 1 true ∷ []

requests_ideal :
    ideal_run 1 requests [] ≡ (some true ∷ some true ∷ some false ∷ none ∷ [], 2 ∷ 4 ∷ 5 ∷ [])
unfolding ideal_run ideal within
requests_ideal = refl

requests-AreLegal : AreLegal 1 requests []
unfolding AreLegal IsLegal ideal within
requests-AreLegal = omega arith

run-Refines_example :
    ((run zeroed requests (new 1) pool).0 ≡ (ideal_run 1 requests []).0)
    × (contents (run zeroed requests (new 1) pool).1 ≡ (ideal_run 1 requests []).1)
run-Refines_example =
    run-Refines zeroed zeroed-Answers zeroed-Supplies requests pool (omega arith) requests-AreLegal
