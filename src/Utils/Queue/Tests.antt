-- ===== src/Utils/Queue/Tests.antt =====
-- Runs of lethe-utils/queue.c, and its theorems at concrete queues.
use uefi_bare_bones.Prelude.{
  ℕ, ◌/◌, ◌≡◌, refl, true, false, Option, some, List, [], ◌∷◌, arith, replicate, length-replicate,
}
use uefi_bare_bones.Utils.Queue.{
  Queue, done, out_of_block, push_queue, pop, rotate_queue, new_queue,
}
use uefi_bare_bones.Utils.Queue.OneSlot.{
  vacant, holds, push_slot, pop_slot, StandsFor, one, IsValid, push_queue-StandsFor, pop-StandsFor,
}
use uefi_bare_bones.Utils.Queue.Runs.{
  Call, push, pop_one, rotate, run, run_slot, rotate_queue-StandsFor, run-new_queue,
}
use uefi_bare_bones.Utils.Queue.Resize.{GivesSize, push_queue_overflows}

-- A `realloc` that gives fresh cells.
abbrev fresh_cells : List ℕ → ℕ → Option (List ℕ)
fresh_cells cells bytes = some (replicate (bytes / 8) 0)

fresh_cells-GivesSize : GivesSize fresh_cells
fresh_cells-GivesSize cells bytes cells' h =
    ground (arith, length-replicate (bytes / 8) (zero_cell))
  where
    zero_cell : ℕ
    zero_cell = 0

abbrev block : List ℕ
block = replicate 10 0

abbrev calls : List Call
calls = push 7 ∷ push 8 ∷ rotate ∷ pop_one ∷ pop_one ∷ []

-- The second of two pushes is lost.
second_push_lost : run fresh_cells (new_queue block) calls ≡ done (7 ∷ 7 ∷ 0 ∷ [])
unfolding run new_queue rotate_queue
second_push_lost = refl

run-new_queue_example : run fresh_cells (new_queue block) calls ≡ done (run_slot vacant calls)
run-new_queue_example = run-new_queue fresh_cells block calls refl

abbrev waiting : Queue
waiting = record { inner = 5 ∷ 0 ∷ 0 ∷ []; head = 0; tail = 1; capacity = 3; resizable = false }

waiting-IsValid : IsValid waiting
waiting-IsValid = record { cells = refl; wide = omega arith; head_in = omega arith; fixed = refl }

waiting-StandsFor : StandsFor waiting (holds 5)
waiting-StandsFor = one 5 refl refl

push_queue-StandsFor_example :
    (q' : Queue) × (push_queue fresh_cells waiting 9 ≡ done q')
    × IsValid q'
    × StandsFor q' (push_slot (holds 5) 9)
push_queue-StandsFor_example = push_queue-StandsFor fresh_cells waiting-IsValid waiting-StandsFor 9

pop-StandsFor_example :
    (q' : Queue) × (pop waiting ≡ done ((pop_slot (holds 5)).0, q'))
    × IsValid q'
    × StandsFor q' (pop_slot (holds 5)).1
pop-StandsFor_example = pop-StandsFor waiting-IsValid waiting-StandsFor

rotate_queue-StandsFor_example :
    (q' : Queue) × (rotate_queue fresh_cells waiting ≡ done ((pop_slot (holds 5)).0, q'))
    × IsValid q'
    × StandsFor q' (push_slot (pop_slot (holds 5)).1 (pop_slot (holds 5)).0)
rotate_queue-StandsFor_example =
    rotate_queue-StandsFor fresh_cells waiting-IsValid waiting-StandsFor

abbrev growing : Queue
growing = record { inner = 7 ∷ replicate 9 0; head = 0; tail = 1; capacity = 10; resizable = true }

push_queue_overflows_example : push_queue fresh_cells growing 8 ≡ out_of_block
push_queue_overflows_example =
    push_queue_overflows fresh_cells growing 8 (0 ∷ 0 ∷ []) fresh_cells-GivesSize refl refl
      (omega arith) (omega arith) refl
