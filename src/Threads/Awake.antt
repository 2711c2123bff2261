-- ===== src/Threads/Awake.antt =====
-- No item of a ThreadQueue of sys/thread_queue.h waits for a thread that nobody wakes.
use deps.Prelude.{ℕ, suc, ◌+◌, ◌-◌, ◌≤◌, ◌≡◌, refl, sym, ap, ◌∙◌, arith, ◌⊎◌, inl, inr}
use deps.Prelude.{Bool, true, false, List, [], ◌∷◌, ◌++◌, ◌&&◌, ltb, leb, length, length-append}
use deps.Prelude.{Bool-cases, tests}
use deps.Buffer.{add_size}
use deps.Threads.{ThreadQueue, Next, with_data, no_data, waits, clear, woken}
use deps.Threads.{push_front, push_front_all, push_back, push_back_all}
use deps.Threads.{pop_items, swap_items}
use deps.Threads.Run.{Call, pop_front, swap, attempt, swaps_in}
use deps.Threads.Order.{both_true, is_empty_lem, woken_lem, length-fronts, backs_lem}
use deps.Threads.Signals.{
  Push, front, front_all, back, back_all, Sleeper, World, pushed, count, Signal,
}
use deps.Threads.Signals.{nobody, one, tested, Step, pushes, clears, calls, goes_on, wakes}
use deps.Threads.Signals.{Reach, start, next}

module _ {A : Type 0} where
  -- No thread sleeps without a signal, or the items are not more than the threads with one.
  abbrev pub IsAwake : World A → Type 0
  IsAwake w = (length w.sleeping ≡ 0) ⊎ (length w.queue.items ≤ length w.signalled)

  length-pushed :
      (p : Push A) (q : ThreadQueue A) → length (pushed p q).1.items ≤ length q.items + count p
  unfolding pushed count push_front push_front_all push_back push_back_all
  length-pushed (front t) q = elim (Bool-cases (ltb q.max_size (add_size (length q.items) 1))) [
    | inl z ↦ rw z (omega arith)
    | inr z ↦ rw z (omega arith)
  ]
  length-pushed (back t) q = elim (Bool-cases (ltb q.max_size (add_size (length q.items) 1))) [
    | inl z ↦ rw z (omega arith)
    | inr z ↦ rw z (omega (arith, length-append q.items (t ∷ [])))
  ]
  length-pushed (front_all ts) q =
      elim (Bool-cases (ltb q.max_size (add_size (length q.items) (length ts)))) [
        | inl z ↦ rw z (omega arith)
        | inr z ↦ rw z (omega (arith, length-fronts ts q.items))
      ]
  length-pushed (back_all ts) q =
      elim (Bool-cases (ltb q.max_size (add_size (length q.items) (length ts)))) [
        | inl z ↦ rw z (omega arith)
        | inr z ↦ rw (z, backs_lem ts q.items) (omega (arith, length-append q.items ts))
      ]

  -- A member takes an item if there is one, and sleeps only where there is none.
  record Takes (items : List A) (r : Next A × List A) : Type 0 where
    fewer : length r.1 ≤ length items - 1
    asleep : r.0 ≡ waits → length r.1 ≡ 0

  attempt-Takes :
      (call : Call A) (millsecond : ℕ) (items : List A)
      → swaps_in call ≡ true
      → Takes items (attempt call millsecond items)
  unfolding pop_items swap_items
  attempt-Takes pop_front millsecond [] e = record { fewer = omega arith; asleep = λ f. refl }
  attempt-Takes pop_front millsecond (t ∷ ts) e = record {
    fewer = omega arith;
    asleep = λ f. absurd (cc);
  }
  attempt-Takes (swap mine) millsecond [] e = record { fewer = omega arith; asleep = λ f. refl }
  attempt-Takes (swap mine) millsecond (t ∷ ts) e = record {
    fewer = rw (is_empty_lem mine e) (omega arith);
    asleep = λ f. absurd (cc);
  }

  -- After a test, if a thread was awake for each item but one.
  tested-IsAwake :
      (s : Sleeper A) (r : Next A × List A) (w : World A)
      → (length w.sleeping ≡ 0) ⊎ (length w.queue.items ≤ suc (length w.signalled))
      → Takes w.queue.items r
      → IsAwake (tested s r w)
  unfolding tested
  tested-IsAwake s (waits, items) w h k = let z = k.asleep refl in inr (omega arith)
  tested-IsAwake s (with_data xs, items) w (inl e) k = inl e
  tested-IsAwake s (with_data xs, items) w (inr l) k = let f = k.fewer in inr (omega arith)
  tested-IsAwake s (no_data, items) w (inl e) k = inl e
  tested-IsAwake s (no_data, items) w (inr l) k = let f = k.fewer in inr (omega arith)

  tested_single :
      (s : Sleeper A) (r : Next A × List A) (w : World A)
      → (tested s r w).is_single ≡ (w.is_single && swaps_in s.call)
  unfolding tested
  tested_single s (waits, items) w = refl
  tested_single s (with_data xs, items) w = refl
  tested_single s (no_data, items) w = refl

  length_middle :
      (xs ys : List (Sleeper A)) (s : Sleeper A) → length (xs ++ (s ∷ ys)) ≡ suc (length (xs ++ ys))
  length_middle [] ys s = refl
  length_middle (x ∷ xs) ys s = ap suc (length_middle xs ys s)

  -- What a signal does to the two lists.
  Signal_lem :
      {a b c d : List (Sleeper A)}
      → Signal a b c d
      → (length a ≡ 0 → length c ≡ 0) × ((length c ≡ 0) ⊎ (length d ≡ suc (length b)))
  Signal_lem nobody = (λ e. refl, inl refl)
  Signal_lem (one xs ys s) = (λ e. let m = length_middle xs ys s in absurd (omega arith), inr refl)

  pushed-IsAwake :
      (p : Push A) (w : World A) (sleeping signalled : List (Sleeper A)) (single : Bool)
      → IsAwake w
      → Signal w.sleeping w.signalled sleeping signalled
      → leb (count p) 1 ≡ true
      → IsAwake (record {
        queue = (pushed p w.queue).1;
        sleeping = sleeping;
        signalled = signalled;
        is_single = single;
      })
  pushed-IsAwake p w sleeping signalled single h g l =
      let (f, o) = Signal_lem g in
      let b = length-pushed p w.queue in
      elim h [
        | inl e ↦ inl (f e)
        | inr e ↦ elim o [ inl z ↦ inl z | inr z ↦ inr (omega (tests, arith)) ]
      ]

  Step-IsAwake :
      {w w' : World A}
      → Step w w'
      → (w.is_single ≡ true → IsAwake w)
      → w'.is_single ≡ true
      → IsAwake w'
  unfolding clear
  Step-IsAwake {w} (pushes {sleeping = sleeping} {signalled = signalled} p g) h e =
      let (f, l) = both_true w.is_single (leb (count p) 1) e in
      pushed-IsAwake p w sleeping signalled (w.is_single && leb (count p) 1) (h f) g l
  Step-IsAwake {w} clears h e = inr (omega arith)
  Step-IsAwake {w} (calls s) h e =
      let r = attempt s.call s.millsecond w.queue.items in
      let (f, l) = both_true w.is_single (swaps_in s.call) (sym (tested_single s r w) ∙ e) in
      tested-IsAwake s r w (elim (h f) [ inl z ↦ inl z | inr z ↦ inr (omega arith) ])
        (attempt-Takes s.call s.millsecond w.queue.items l)
  Step-IsAwake {w} (goes_on xs ys s m) h e =
      let w₁ : World A = record w { signalled = xs ++ ys } in
      let r = woken false s.millsecond (attempt s.call s.millsecond) w.queue.items in
      let (f, l) = both_true w.is_single (swaps_in s.call) (sym (tested_single s r w₁) ∙ e) in
      let n : length w.signalled ≡ suc (length (xs ++ ys)) = ap length m ∙ length_middle xs ys s in
      tested-IsAwake s r w₁ (elim (h f) [ inl z ↦ inl z | inr z ↦ inr (omega arith) ])
        (rw (woken_lem false s.millsecond (attempt s.call s.millsecond) w.queue.items)
          (attempt-Takes s.call s.millsecond w.queue.items l))
  Step-IsAwake {w} (wakes xs ys s timed_out m) h e =
      let w₁ : World A = record w { sleeping = xs ++ ys } in
      let r = woken timed_out s.millsecond (attempt s.call s.millsecond) w.queue.items in
      let (f, l) = both_true w.is_single (swaps_in s.call) (sym (tested_single s r w₁) ∙ e) in
      let n : length w.sleeping ≡ suc (length (xs ++ ys)) = ap length m ∙ length_middle xs ys s in
      tested-IsAwake s r w₁
        (elim (h f) [ inl z ↦ absurd (omega arith) | inr z ↦ inr (omega arith) ])
        (rw (woken_lem timed_out s.millsecond (attempt s.call s.millsecond) w.queue.items)
          (attempt-Takes s.call s.millsecond w.queue.items l))

  -- However the steps of the threads are mixed, whomever a signal wakes and whoever wakes without one,
  -- while only single items, or queues of at most one, are pushed and only empty queues swapped in:
  -- where a thread sleeps without a signal, there are not more items than threads with one, so that
  -- no item is left when those have gone on.
  pub Reach-IsAwake : {top : ℕ} {w : World A} → Reach top w → w.is_single ≡ true → IsAwake w
  Reach-IsAwake start e = inl refl
  Reach-IsAwake (next r s) e = Step-IsAwake s (Reach-IsAwake r) e
