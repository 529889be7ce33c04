-- ===== src/Cpu/Task/Create.antt =====
-- `create_task` and `init_tasks` of lethe-kernel/cpu/task.c: which tasks get to the queue.
use uefi_bare_bones.Prelude.{ℕ, ◌+◌, ◌≡◌, refl, ◌≢◌, true, false, Option, List, arith, ◌==◌, ◌||◌}
use uefi_bare_bones.Utils.Queue.{Queue, done, push_queue}
use uefi_bare_bones.Utils.Queue.OneSlot.{
  OneSlot, push_slot, StandsFor, IsValid, push_queue-StandsFor,
}
use uefi_bare_bones.Cpu.Task.{IsrStack, Scheduler, returns, update, start_ctx, create_task}

-- What a new task's registers hold: it starts in `task_wrapper` with its id, its function and its
-- data as arguments, with interrupts on.
pub record Starts (registers : IsrStack) (id task_wrapper rip data_ptr : ℕ) : Type 0 where
  pub at_wrapper : registers.rip ≡ task_wrapper
  pub first : registers.rdi ≡ id
  pub second : registers.rsi ≡ rip
  pub third : registers.rdx ≡ data_ptr
  pub interrupts : registers.rflags ≡ 0x202

pub record Creates (s : Scheduler) (slot : OneSlot) (new_task ctx task_wrapper rip data_ptr : ℕ)
    (s' : Scheduler) : Type 0 where
  pub valid : IsValid s'.live_queue
  pub queued : StandsFor s'.live_queue (push_slot slot new_task)
  pub counts : s'.task_count ≡ s.task_count + 1
  pub runs : s'.current ≡ s.current
  pub task : s'.tasks new_task ≡ record { ctx = ctx; task_id = s.task_count; deadline = 0 }
  pub starts : Starts (s'.stacks ctx) s.task_count task_wrapper rip data_ptr
  pub other_tasks : (p : ℕ) → p ≢ new_task → s'.tasks p ≡ s.tasks p
  pub other_stacks : (p : ℕ) → p ≢ ctx → s'.stacks p ≡ s.stacks p

module _ (realloc : List ℕ → ℕ → Option (List ℕ)) where
  -- The state after the call.
  abbrev created : Scheduler → ℕ → ℕ → ℕ → ℕ → ℕ → Queue → Scheduler
  created s new_task ctx task_wrapper rip data_ptr live = record s {
    task_count = s.task_count + 1;
    live_queue = live;
    tasks = update s.tasks new_task (record { ctx = ctx; task_id = s.task_count; deadline = 0 });
    stacks = update s.stacks ctx (record (start_ctx (s.stacks ctx) task_wrapper) {
      rdi = s.task_count;
      rsi = rip;
      rdx = data_ptr;
    });
  }

  created-Creates :
      (s : Scheduler) (slot : OneSlot) (new_task ctx task_wrapper rip data_ptr : ℕ) (live : Queue)
      → new_task ≢ 0
      → ctx ≢ 0
      → push_queue realloc s.live_queue new_task ≡ done live
      → IsValid live
      → StandsFor live (push_slot slot new_task)
      → (s' : Scheduler) × (create_task realloc s new_task ctx task_wrapper rip data_ptr
          ≡ returns s')
        × Creates s slot new_task ctx task_wrapper rip data_ptr s'
  unfolding create_task
  created-Creates s slot new_task ctx task_wrapper rip data_ptr live n1 n2 e v r =
      let null : (new_task == 0 || ctx == 0) ≡ false = ground arith in
      let here : (new_task == new_task) ≡ true = ground arith in
      let at : (ctx == ctx) ≡ true = ground arith in
      (
        created s new_task ctx task_wrapper rip data_ptr live,
        rw (null, e) refl,
        record {
          valid = v;
          queued = r;
          counts = refl;
          runs = refl;
          task = rw here refl;
          starts = rw at (record {
            at_wrapper = refl;
            first = refl;
            second = refl;
            third = refl;
            interrupts = refl;
          });
          other_tasks = λ p n. (let q : (p == new_task) ≡ false = ground arith in rw q refl);
          other_stacks = λ p n. (let q : (p == ctx) ≡ false = ground arith in rw q refl);
        },
      )

  -- A task that is created gets the next id, and registers with which it starts in `task_wrapper`;
  -- no other task changes. It gets to the queue if no task waits there, and is lost otherwise.
  create_task-Creates :
      (s : Scheduler) (slot : OneSlot) (new_task ctx task_wrapper rip data_ptr : ℕ)
      → new_task ≢ 0
      → ctx ≢ 0
      → IsValid s.live_queue
      → StandsFor s.live_queue slot
      → (s' : Scheduler) × (create_task realloc s new_task ctx task_wrapper rip data_ptr
          ≡ returns s')
        × Creates s slot new_task ctx task_wrapper rip data_ptr s'
  create_task-Creates s slot new_task ctx task_wrapper rip data_ptr n1 n2 v r =
      let (live, e, v', r') = push_queue-StandsFor realloc v r new_task in
      created-Creates s slot new_task ctx task_wrapper rip data_ptr live n1 n2 e v' r'
