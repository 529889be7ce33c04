-- ===== src/Cpu/Task.antt =====
-- lethe-kernel/cpu/task.c: the scheduler. Tasks and saved registers are in a store that pointers
-- lead into, 0 is NULL; `kmalloc` is liballoc's, so the pointers that it gave are arguments.
pub mod Switch
pub mod Create
pub mod Remove
mod Tests
use uefi_bare_bones.Prelude.{
  ℕ, zero, suc, ◌+◌, Bool, true, false, ◌||◌, Option, List, ◌==◌, if◌then◌else◌, get_or, set,
}
use uefi_bare_bones.Utils.Queue.{
  Queue, done, assert_failed, out_of_block, too_deep, push_queue, pop, new_queue,
}
use uefi_bare_bones.Utils.Queue

-- `isr_stack_t` of cpu/idt.h
pub record IsrStack : Type 0 where
  pub r15 : ℕ
  pub r14 : ℕ
  pub r13 : ℕ
  pub r12 : ℕ
  pub r11 : ℕ
  pub r10 : ℕ
  pub r9 : ℕ
  pub r8 : ℕ
  pub rbp : ℕ
  pub rdi : ℕ
  pub rsi : ℕ
  pub rdx : ℕ
  pub rcx : ℕ
  pub rbx : ℕ
  pub rax : ℕ
  pub isr : ℕ
  pub err : ℕ
  pub rip : ℕ
  pub cs : ℕ
  pub rflags : ℕ

-- `task_t` of cpu/task.h; `ctx` is a pointer.
pub record Task : Type 0 where
  pub ctx : ℕ
  pub task_id : ℕ
  pub deadline : ℕ

-- The variables of the file, and what their pointers lead to.
pub record Scheduler : Type 0 where
  pub current : ℕ
  pub kernel : ℕ
  pub task_count : ℕ
  pub live_queue : Queue
  pub idle_queue : Queue
  pub tasks : ℕ → Task
  pub stacks : ℕ → IsrStack

-- How a call ends: with a result, in the use of a NULL pointer, or in a queue operation that does
-- not end well.
pub data Outcome (A : Type 0) : Type 0 where
  returns : A → Outcome A
  null_pointer queue_failed : Outcome A

infixl 5 ◌>>=◌
abbrev pub ◌>>=◌ : {A B : Type 0} → Outcome A → (A → Outcome B) → Outcome B
returns a >>= f = f a
null_pointer >>= f = null_pointer
queue_failed >>= f = queue_failed

abbrev pub from_queue : {A : Type 0} → Queue.Outcome A → Outcome A
from_queue (done a) = returns a
from_queue assert_failed = queue_failed
from_queue out_of_block = queue_failed
from_queue too_deep = queue_failed

-- A write through a pointer.
abbrev pub update : {A : Type 0} → (ℕ → A) → ℕ → A → ℕ → A
update store ptr v p = if p == ptr then v else store p

-- What the copy of all members leaves in `dest`.
pub copy_ctx : IsrStack → IsrStack → IsrStack
copy_ctx dest src = record dest {
  r15 = src.r15;
  r14 = src.r14;
  r13 = src.r13;
  r12 = src.r12;
  r11 = src.r11;
  r10 = src.r10;
  r9 = src.r9;
  r8 = src.r8;
  rbp = src.rbp;
  rdi = src.rdi;
  rsi = src.rsi;
  rdx = src.rdx;
  rcx = src.rcx;
  rbx = src.rbx;
  rax = src.rax;
  isr = src.isr;
  err = src.err;
  rip = src.rip;
  cs = src.cs;
  rflags = src.rflags;
}

-- `copy_ctx(dest, src)` on the store.
abbrev pub copy_at : (ℕ → IsrStack) → ℕ → ℕ → ℕ → IsrStack
copy_at stacks dest src = update stacks dest (copy_ctx (stacks dest) (stacks src))

-- A new task's registers and those of the idle task: where they start, with interrupts on.
abbrev pub start_ctx : IsrStack → ℕ → IsrStack
start_ctx ctx rip = record ctx { rip = rip; rflags = 0x202; isr = 2; err = 0; cs = 0x08 }

-- `init_tasks`, with the blocks of the two queues, the pointers for `kernel` and its `ctx`, and the
-- address of `idle`. The handler of interrupt 128 is the interrupt table's.
pub init_tasks : List ℕ → List ℕ → ℕ → ℕ → ℕ → (ℕ → Task) → (ℕ → IsrStack) → Outcome Scheduler
init_tasks live idle_block kernel ctx idle tasks stacks =
    if kernel == 0 || ctx == 0
    then null_pointer
    else returns (record {
      current = kernel;
      kernel = kernel;
      task_count = 1;
      live_queue = new_queue live;
      idle_queue = new_queue idle_block;
      tasks = update tasks kernel (record { ctx = ctx; task_id = 0; deadline = 0 });
      stacks = update stacks ctx (start_ctx (stacks ctx) idle);
    })

-- The loop of `remove_task` from index `i` on, with `left` rounds left; 0 for no task.
pub remove_from : (ℕ → Task) → ℕ → ℕ → ℕ → Queue → Outcome (ℕ × Queue)
remove_from tasks zero i id queue = returns (0, queue)
remove_from tasks (suc left) i id queue =
    let ptr = get_or queue.inner i 0 in
    let rest = remove_from tasks left (i + 1) id queue in
    if ptr == 0
    then null_pointer
    else if (tasks ptr).task_id == id
    then returns (ptr, record queue { inner = set queue.inner i 0 })
    else rest

pub remove_task : (ℕ → Task) → Queue → ℕ → Outcome (ℕ × Queue)
unfolding remove_from
remove_task tasks queue id =
    if id == 0 then returns (0, queue) else remove_from tasks queue.capacity 0 id queue

-- The end of `task_wrapper`, after the task's function; the two blocks go back to liballoc.
pub end_task : Scheduler → ℕ → Outcome Scheduler
unfolding remove_task
end_task s id =
    remove_task s.tasks s.live_queue id >>= λ found. returns (record s { live_queue = found.1 })

module _ (realloc : List ℕ → ℕ → Option (List ℕ)) where
  -- `switch_task`; `ctx` is where the interrupted registers are.
  pub switch_task : Scheduler → ℕ → Outcome Scheduler
  unfolding copy_ctx
  switch_task s ctx =
      let saved = copy_at s.stacks (s.tasks s.current).ctx ctx in
      let switched = from_queue (pop s.live_queue) >>= λ popped.
      from_queue (push_queue realloc popped.1 s.current) >>= λ live.
      if popped.0 == 0
      then null_pointer
      else returns (record s {
        current = popped.0;
        live_queue = live;
        stacks = copy_at saved ctx (s.tasks popped.0).ctx;
      }) in
      if s.current == 0 then null_pointer else switched

  -- `create_task`, with the pointers from `kmalloc` and the address of `task_wrapper`.
  pub create_task : Scheduler → ℕ → ℕ → ℕ → ℕ → ℕ → Outcome Scheduler
  create_task s new_task ctx task_wrapper rip data_ptr =
      let registers = record (start_ctx (s.stacks ctx) task_wrapper) {
        rdi = s.task_count;
        rsi = rip;
        rdx = data_ptr;
      } in
      let created = from_queue (push_queue realloc s.live_queue new_task) >>= λ live.
      returns (record s {
        task_count = s.task_count + 1;
        live_queue = live;
        tasks =
            update s.tasks new_task (record { ctx = ctx; task_id = s.task_count; deadline = 0 });
        stacks = update s.stacks ctx registers;
      }) in
      if new_task == 0 || ctx == 0 then null_pointer else created

  pub signal_idle : Scheduler → ℕ → Outcome Scheduler
  unfolding remove_task
  signal_idle s deadline = remove_task s.tasks s.live_queue (s.tasks s.current).task_id >>= λ found.
      if found.0 == 0
      then returns s
      else (from_queue (push_queue realloc s.idle_queue found.0) >>= λ idle_queue.
          returns (record s {
            live_queue = found.1;
            idle_queue = idle_queue;
            tasks = update s.tasks found.0 (record (s.tasks found.0) { deadline = deadline });
          }))
