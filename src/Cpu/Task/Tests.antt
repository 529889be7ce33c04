-- ===== src/Cpu/Task/Tests.antt =====
-- The scheduler of lethe-kernel/cpu/task.c with a kernel task and a created one.
use uefi_bare_bones.Prelude.{
  ℕ, zero, suc, ◌+◌, ◌-◌, ◌≡◌, refl, false, Option, none, List, [], ◌∷◌, arith,
}
use uefi_bare_bones.Utils.Queue.{Queue}
use uefi_bare_bones.Utils.Queue.OneSlot.{holds, one, StandsFor, IsValid}
use uefi_bare_bones.Cpu.Task.{IsrStack, Task, Scheduler, returns, update, switch_task}
use uefi_bare_bones.Cpu.Task.Switch.{Apart, saved_at, switch_task_twice}
use uefi_bare_bones.Cpu.Task.Remove.{Passed}

-- A `realloc` that has no memory; a queue of tasks never asks it.
abbrev no_memory : List ℕ → ℕ → Option (List ℕ)
no_memory cells bytes = none

-- Registers that all hold one number.
abbrev filled : ℕ → IsrStack
filled n = record {
  r15 = n;
  r14 = n;
  r13 = n;
  r12 = n;
  r11 = n;
  r10 = n;
  r9 = n;
  r8 = n;
  rbp = n;
  rdi = n;
  rsi = n;
  rdx = n;
  rcx = n;
  rbx = n;
  rax = n;
  isr = n;
  err = n;
  rip = n;
  cs = n;
  rflags = n;
}

-- The task at 100 is the kernel's and the one at 101 is created; the task at `p` saves its
-- registers at 200 more.
abbrev two_tasks : ℕ → Task
two_tasks p = record { ctx = p + 200; task_id = p - 100; deadline = 0 }

abbrev queue_of : List ℕ → ℕ → Queue
queue_of cells tail = record {
  inner = cells;
  head = 0;
  tail = tail;
  capacity = 3;
  resizable = false;
}

abbrev one_waits : Queue
one_waits = queue_of (101 ∷ 0 ∷ 0 ∷ []) 1

abbrev scheduler_with : Queue → Scheduler
scheduler_with live = record {
  current = 100;
  kernel = 100;
  task_count = 2;
  live_queue = live;
  idle_queue = queue_of (0 ∷ 0 ∷ 0 ∷ []) 0;
  tasks = two_tasks;
  stacks = filled;
}

queue_of-IsValid : (a b c tail : ℕ) → IsValid (queue_of (a ∷ b ∷ c ∷ []) tail)
queue_of-IsValid a b c tail = record {
  cells = refl;
  wide = omega arith;
  head_in = omega arith;
  fixed = refl;
}

one_waits-StandsFor : StandsFor one_waits (holds 101)
one_waits-StandsFor = one 101 refl refl

apart : Apart (scheduler_with one_waits) 50 101
apart = record { current_ctx = omega arith; waiting_ctx = omega arith; both = omega arith }

switch_task_twice_example :
    (s' s'' : Scheduler) × (switch_task no_memory (scheduler_with one_waits) 50 ≡ returns s')
    × (switch_task no_memory (record s' { stacks = update s'.stacks 50 (filled 7) }) 50
        ≡ returns s'')
    × (s''.current ≡ 100)
    × (s''.stacks 50 ≡ filled 50)
    × (s''.stacks (saved_at (scheduler_with one_waits) 101) ≡ filled 7)
switch_task_twice_example =
    switch_task_twice no_memory (scheduler_with one_waits) 50 101 (filled 7) (omega arith)
      (omega arith) (queue_of-IsValid 101 0 0 1) one_waits-StandsFor apart

first-Passed : Passed two_tasks (queue_of (101 ∷ 102 ∷ 0 ∷ []) 2) 2 1
first-Passed zero lt = (omega arith, omega arith)
first-Passed (suc j) lt = absurd (omega arith)

only-Passed : Passed two_tasks one_waits 2 1
only-Passed zero lt = (omega arith, omega arith)
only-Passed (suc j) lt = absurd (omega arith)
