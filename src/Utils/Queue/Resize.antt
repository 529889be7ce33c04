-- ===== src/Utils/Queue/Resize.antt =====
-- The growth of a resizable queue of lethe-utils/queue.c: `realloc` takes bytes and gets cells.
use uefi_bare_bones.Prelude.{
  ℕ, ◌+◌, ◌*◌, ◌/◌, ◌%◌, ◌<◌, ◌≡◌, true, Option, some, List, arith, length,
}
use native.Mathlib.Nat.{mod-eq_of_lt}
use uefi_bare_bones.Utils.Queue.{Queue, out_of_block, push_queue, pointer_size}

-- What `realloc` documents of the size: the block has the bytes asked for, in whole cells.
abbrev pub GivesSize : (List ℕ → ℕ → Option (List ℕ)) → Type 0
GivesSize realloc =
    (cells : List ℕ) (bytes : ℕ) (cells' : List ℕ)
    → realloc cells bytes ≡ some cells'
    → length cells' ≡ bytes / pointer_size

-- A push that doubles the capacity of a queue whose tail stands within the old capacity writes
-- outside the block, where the old capacity is less than four times the index two past the tail.
pub push_queue_overflows :
    (realloc : List ℕ → ℕ → Option (List ℕ)) (q : Queue) (task : ℕ) (inner : List ℕ)
    → GivesSize realloc
    → q.resizable ≡ true
    → q.tail ≡ (q.head + 1) % q.capacity
    → 1 < q.capacity
    → q.capacity < 4 * (q.tail + 2)
    → realloc q.inner (q.capacity * 2) ≡ some inner
    → push_queue realloc q task ≡ out_of_block
unfolding push_queue
push_queue_overflows realloc q task inner size res full wide past given =
    let next : (q.tail + 1) % (q.capacity * 2) ≡ q.tail + 1 =
      mod-eq_of_lt (omega (arith, full, wide)) in
    ground (arith, size q.inner (q.capacity * 2) inner given, next)
