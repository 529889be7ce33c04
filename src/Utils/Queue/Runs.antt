-- ===== src/Utils/Queue/Runs.antt =====
-- Whole sequences of calls on a queue of lethe-utils/queue.c made by `new_queue`.
use uefi_bare_bones.Prelude.{ℕ, ◌≡◌, refl, Option, List, [], ◌∷◌, arith, length}
use uefi_bare_bones.Utils.Queue.{
  Queue, Outcome, done, push_queue, pop, rotate_queue, new_queue, ◌>>=◌, task_queue_size,
}
use uefi_bare_bones.Utils.Queue.OneSlot.{
  OneSlot, vacant, push_slot, pop_slot, StandsFor, empty, IsValid, push_queue-StandsFor,
  pop-StandsFor,
}

-- A caller's call.
pub data Call : Type 0 where
  push : ℕ → Call
  pop_one rotate : Call

-- The pointers that a sequence of calls returns; `push_queue` returns none.
unfoldable pub run : (List ℕ → ℕ → Option (List ℕ)) → Queue → List Call → Outcome (List ℕ)
run realloc q [] = done []
run realloc q (push x ∷ calls) = do q' ← push_queue realloc q x; run realloc q' calls
run realloc q (pop_one ∷ calls) = do
  (ptr, q') ← pop q
  ptrs ← run realloc q' calls
  done (ptr ∷ ptrs)
run realloc q (rotate ∷ calls) = do
  (ptr, q') ← rotate_queue realloc q
  ptrs ← run realloc q' calls
  done (ptr ∷ ptrs)

-- The same calls on a buffer of one slot.
pub run_slot : OneSlot → List Call → List ℕ
run_slot s [] = []
run_slot s (push x ∷ calls) = run_slot (push_slot s x) calls
run_slot s (pop_one ∷ calls) = (pop_slot s).0 ∷ run_slot (pop_slot s).1 calls
run_slot s (rotate ∷ calls) =
    (pop_slot s).0 ∷ run_slot (push_slot (pop_slot s).1 (pop_slot s).0) calls

module _ (realloc : List ℕ → ℕ → Option (List ℕ)) where
  -- `rotate_queue` gives the pointer that the buffer holds and keeps it there.
  pub rotate_queue-StandsFor :
      {q : Queue} {s : OneSlot}
      → IsValid q
      → StandsFor q s
      → (q' : Queue) × (rotate_queue realloc q ≡ done ((pop_slot s).0, q'))
        × IsValid q'
        × StandsFor q' (push_slot (pop_slot s).1 (pop_slot s).0)
  unfolding rotate_queue
  rotate_queue-StandsFor {q} {s} v r =
      let (q1, e1, v1, r1) = pop-StandsFor v r in
      let (q2, e2, v2, r2) = push_queue-StandsFor realloc v1 r1 (pop_slot s).0 in
      (q2, rw e1 (rw e2 refl), v2, r2)

  run_from :
      (calls : List Call) {q : Queue} {s : OneSlot}
      → IsValid q
      → StandsFor q s
      → run realloc q calls ≡ done (run_slot s calls)
  unfolding run run_slot
  run_from [] v r = refl
  run_from (push x ∷ calls) v r =
      let (q', e, v', r') = push_queue-StandsFor realloc v r x in rw e (run_from calls v' r')
  run_from (pop_one ∷ calls) v r =
      let (q', e, v', r') = pop-StandsFor v r in rw e (rw (run_from calls v' r') refl)
  run_from (rotate ∷ calls) v r =
      let (q', e, v', r') = rotate_queue-StandsFor v r in rw e (rw (run_from calls v' r') refl)

  -- On a queue of `new_queue`, over a block of ten cells, every sequence of pushes, pops and
  -- rotations returns what a buffer of one slot returns: a push while a pointer waits is lost,
  -- although nine more cells are free.
  pub run-new_queue :
      (block : List ℕ) (calls : List Call)
      → length block ≡ task_queue_size
      → run realloc (new_queue block) calls ≡ done (run_slot vacant calls)
  unfolding new_queue
  run-new_queue block calls cells =
      run_from calls
        (record { cells = cells; wide = omega arith; head_in = omega arith; fixed = refl })
        (empty refl)
