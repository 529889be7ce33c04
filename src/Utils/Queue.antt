-- ===== src/Utils/Queue.antt =====
-- lethe-utils/queue.c: the ring of pointers that the scheduler uses. A pointer is a number, 0 is
-- NULL; the block that `_inner` leads to is the list of its cells of eight bytes.
-- `malloc` and `realloc` are liballoc's and are parameters: the block that they give, if any.
pub mod OneSlot
pub mod Runs
pub mod Resize
mod Tests
use uefi_bare_bones.Prelude.{
  ℕ, zero, suc, ◌+◌, ◌*◌, ◌%◌, Bool, true, false, Option, none, some, List, [], ◌∷◌, ltb, ◌==◌,
  if◌then◌else◌, get_or, set, length,
}

-- `struct queue_t`
pub record Queue : Type 0 where
  pub inner : List ℕ
  pub head : ℕ
  pub tail : ℕ
  pub capacity : ℕ
  pub resizable : Bool

-- How a call ends: with a result, in a failed `assert`, with an access outside the block, or, for
-- `pop_queue`, in a recursion deeper than the fuel.
pub data Outcome (A : Type 0) : Type 0 where
  done : A → Outcome A
  assert_failed out_of_block too_deep : Outcome A

infixl 5 ◌>>=◌
abbrev pub ◌>>=◌ : {A B : Type 0} → Outcome A → (A → Outcome B) → Outcome B
done a >>= f = f a
assert_failed >>= f = assert_failed
out_of_block >>= f = out_of_block
too_deep >>= f = too_deep

-- `TASK_QUEUE_SIZE`, `RESIZE_VAL`, `sizeof(void*)`
abbrev pub task_queue_size : ℕ
task_queue_size = 10

abbrev pub resize_val : ℕ
resize_val = 2

abbrev pub pointer_size : ℕ
pointer_size = 8

-- The end of `push_queue`: the write at the tail.
pub put : Queue → ℕ → Outcome Queue
put queue task =
    if ltb queue.tail (length queue.inner)
    then done (record queue {
      inner = set queue.inner queue.tail task;
      tail = (queue.tail + 1) % queue.capacity;
    })
    else out_of_block

-- The number that `realloc` gets is a number of bytes. It is a product of ints, which an int holds
-- for a capacity below 2 ^ 30.
pub grow : (List ℕ → ℕ → Option (List ℕ)) → Queue → Outcome Queue
grow realloc queue =
    let capacity = queue.capacity * resize_val in
    elim (realloc queue.inner capacity) [
      | none ↦ assert_failed
      | some inner ↦
          done (record queue {
            inner = inner;
            capacity = capacity;
            tail = (queue.tail + 1) % capacity;
          })
    ]

pub push_queue : (List ℕ → ℕ → Option (List ℕ)) → Queue → ℕ → Outcome Queue
unfolding put grow
push_queue realloc queue task =
    if (queue.head + 1) % queue.capacity == queue.tail
    then if queue.resizable then grow realloc queue >>= (λ q. put q task) else done queue
    else put queue task

-- A NULL pointer is passed over by a recursive call, hence the fuel.
pub pop_queue : ℕ → Queue → Outcome (ℕ × Queue)
pop_queue zero queue = too_deep
pop_queue (suc fuel) queue =
    let ptr = get_or queue.inner queue.head 0 in
    let queue' = record queue { head = (queue.head + 1) % queue.capacity } in
    let rest = pop_queue fuel queue' in
    if queue.head == queue.tail
    then done (0, queue)
    else if ltb queue.head (length queue.inner)
    then if ptr == 0 then rest else done (ptr, queue')
    else out_of_block

-- Each call passes one cell, so `capacity + 1` calls are enough.
pub pop : Queue → Outcome (ℕ × Queue)
unfolding pop_queue
pop queue = pop_queue (queue.capacity + 1) queue

pub rotate_queue : (List ℕ → ℕ → Option (List ℕ)) → Queue → Outcome (ℕ × Queue)
unfolding pop push_queue
rotate_queue realloc queue = do
  (ptr, queue') ← pop queue
  queue'' ← push_queue realloc queue' ptr
  done (ptr, queue'')

-- `malloc` of the struct succeeds, as the `assert` demands; the block has one cell for each
-- pointer asked for, with whatever was in memory.
pub new_queue : List ℕ → Queue
new_queue block = record {
  inner = block;
  head = 0;
  tail = 0;
  capacity = task_queue_size;
  resizable = false;
}

pub new_queue_resizable : List ℕ → Queue
unfolding new_queue
new_queue_resizable block = record (new_queue block) { resizable = true }
