-- ===== src/Cpu/Task/Remove.antt =====
-- `remove_task` of lethe-kernel/cpu/task.c: the search through the cells of a queue.
use uefi_bare_bones.Prelude.{
  ℕ, zero, suc, ◌+◌, ◌-◌, ◌≤◌, ◌<◌, ◌≡◌, refl, sym, ap, ◌≢◌, ◌∙◌, arith, false, true, ◌==◌, get_or,
  set,
}
use uefi_bare_bones.Utils.Queue.{Queue}
use uefi_bare_bones.Cpu.Task.{Task, returns, null_pointer, remove_from, remove_task}

abbrev pub cell : Queue → ℕ → ℕ
cell queue i = get_or queue.inner i 0

-- The cells before index `k` lead to tasks with other ids.
abbrev pub Passed : (ℕ → Task) → Queue → ℕ → ℕ → Type 0
Passed tasks queue id k =
    (j : ℕ) → j < k → (cell queue j ≢ 0) × ((tasks (cell queue j)).task_id ≢ id)

-- The rounds that pass a task with another id.
pass :
    (tasks : ℕ → Task) (queue : Queue) (id left i : ℕ)
    → cell queue i ≢ 0
    → (tasks (cell queue i)).task_id ≢ id
    → remove_from tasks (suc left) i id queue ≡ remove_from tasks left (i + 1) id queue
unfolding remove_from
pass tasks queue id left i n1 n2 =
    let a : (cell queue i == 0) ≡ false = ground arith in
    let b : ((tasks (cell queue i)).task_id == id) ≡ false = ground arith in rw (a, b) refl

pass_all :
    (tasks : ℕ → Task) (queue : Queue) (id left i k : ℕ)
    → Passed tasks queue id k
    → i + left ≡ k
    → (more : ℕ) → remove_from tasks (left + more) i id queue ≡ remove_from tasks more k id queue
pass_all tasks queue id zero i k h e more =
    let q : i ≡ k = omega arith in rw q (let z : 0 + more ≡ more = omega arith in rw z refl)
pass_all tasks queue id (suc left) i k h e more =
    let (n1, n2) = h i (omega arith) in
    let s : suc left + more ≡ suc (left + more) = omega arith in
    rw s (
      pass tasks queue id (left + more) i n1 n2
      ∙ pass_all tasks queue id left (i + 1) k h (omega arith) more)

stop_null :
    (tasks : ℕ → Task) (queue : Queue) (id left i : ℕ)
    → cell queue i ≡ 0
    → remove_from tasks (suc left) i id queue ≡ null_pointer
unfolding remove_from
stop_null tasks queue id left i e = let a : (cell queue i == 0) ≡ true = ground arith in rw a refl

stop_found :
    (tasks : ℕ → Task) (queue : Queue) (id left i : ℕ)
    → cell queue i ≢ 0
    → (tasks (cell queue i)).task_id ≡ id
    → remove_from tasks (suc left) i id queue
      ≡ returns (cell queue i, record queue { inner = set queue.inner i 0 })
unfolding remove_from
stop_found tasks queue id left i n e =
    let a : (cell queue i == 0) ≡ false = ground arith in
    let b : ((tasks (cell queue i)).task_id == id) ≡ true = ground arith in rw (a, b) refl

started :
    (tasks : ℕ → Task) (queue : Queue) (id k : ℕ)
    → id ≢ 0
    → k ≤ queue.capacity
    → Passed tasks queue id k
    → remove_task tasks queue id ≡ remove_from tasks (queue.capacity - k) k id queue
unfolding remove_task
started tasks queue id k n le h =
    let a : (id == 0) ≡ false = ground arith in
    let s : k + (queue.capacity - k) ≡ queue.capacity = omega arith in
    rw a (
      ap (λ (t : ℕ). remove_from tasks t 0 id queue) (sym s)
      ∙ pass_all tasks queue id k 0 k h (omega arith) (queue.capacity - k))

run_out :
    (tasks : ℕ → Task) (queue : Queue) (id i : ℕ)
    → remove_from tasks 0 i id queue ≡ returns (0, queue)
unfolding remove_from
run_out tasks queue id i = refl

-- The search for an id other than 0 takes the first cell that leads to the task with that id, and
-- clears that cell alone, where no cell before it is empty.
remove_task_found :
    (tasks : ℕ → Task) (queue : Queue) (id k : ℕ)
    → id ≢ 0
    → Passed tasks queue id k
    → k < queue.capacity
    → cell queue k ≢ 0
    → (tasks (cell queue k)).task_id ≡ id
    → remove_task tasks queue id
      ≡ returns (cell queue k, record queue { inner = set queue.inner k 0 })
remove_task_found tasks queue id k n h lt n' e =
    let rounds : queue.capacity - k ≡ suc (queue.capacity - k - 1) = omega arith in
    started tasks queue id k n (omega arith) h
    ∙ ap (λ (t : ℕ). remove_from tasks t k id queue) rounds
    ∙ stop_found tasks queue id (queue.capacity - k - 1) k n' e

-- The search uses a NULL pointer when it meets an empty cell before the task.
remove_task-null_pointer :
    (tasks : ℕ → Task) (queue : Queue) (id k : ℕ)
    → id ≢ 0
    → Passed tasks queue id k
    → k < queue.capacity
    → cell queue k ≡ 0
    → remove_task tasks queue id ≡ null_pointer
remove_task-null_pointer tasks queue id k n h lt e =
    let rounds : queue.capacity - k ≡ suc (queue.capacity - k - 1) = omega arith in
    started tasks queue id k n (omega arith) h
    ∙ ap (λ (t : ℕ). remove_from tasks t k id queue) rounds
    ∙ stop_null tasks queue id (queue.capacity - k - 1) k e

-- Where every cell leads to a task with another id, the search finds none and changes nothing.
remove_task_nothing :
    (tasks : ℕ → Task) (queue : Queue) (id : ℕ)
    → id ≢ 0
    → Passed tasks queue id queue.capacity
    → remove_task tasks queue id ≡ returns (0, queue)
remove_task_nothing tasks queue id n h =
    let rounds : queue.capacity - queue.capacity ≡ 0 = omega arith in
    started tasks queue id queue.capacity n (omega arith) h
    ∙ ap (λ (t : ℕ). remove_from tasks t queue.capacity id queue) rounds
    ∙ run_out tasks queue id queue.capacity
