-- ===== src/Cpu/Task/Switch.antt =====
-- `switch_task` of lethe-kernel/cpu/task.c: two tasks that take turns.
use native.Mathlib.Decide.{ℕ_discrete}
use uefi_bare_bones.Prelude.{
  ℕ, ◌≡◌, refl, sym, ap, ◌≢◌, ◌∙◌, true, false, Option, List, arith, ◌==◌,
}
use uefi_bare_bones.Utils.Queue.{Queue, done, push_queue, pop}
use uefi_bare_bones.Utils.Queue.OneSlot.{
  vacant, holds, StandsFor, IsValid, push_queue-StandsFor, pop-StandsFor,
}
use uefi_bare_bones.Cpu.Task.{
  IsrStack, Task, Scheduler, returns, null_pointer, copy_ctx, copy_at, update, switch_task,
}

copy_ctx_lem : (dest src : IsrStack) → copy_ctx dest src ≡ src
unfolding copy_ctx
copy_ctx_lem dest src = refl

update_self : (f : ℕ → IsrStack) (p : ℕ) (v : IsrStack) → update f p v p ≡ v
update_self f p v = let e : (p == p) ≡ true = ground arith in rw e refl

update_ne : (f : ℕ → IsrStack) (p q : ℕ) (v : IsrStack) → q ≢ p → update f p v q ≡ f q
update_ne f p q v n = let e : (q == p) ≡ false = ground arith in rw e refl

copy_at_self : (f : ℕ → IsrStack) (dest src : ℕ) → copy_at f dest src dest ≡ f src
copy_at_self f dest src =
    let e : (dest == dest) ≡ true = ground arith in rw e (copy_ctx_lem (f dest) (f src))

copy_at_ne : (f : ℕ → IsrStack) (dest src p : ℕ) → p ≢ dest → copy_at f dest src p ≡ f p
copy_at_ne f dest src p n = let e : (p == dest) ≡ false = ground arith in rw e refl

-- Where registers are saved.
abbrev pub saved_at : Scheduler → ℕ → ℕ
saved_at s task = (s.tasks task).ctx

-- The interrupted task and the one that waits save their registers at two places, and not on the
-- interrupted stack.
pub record Apart (s : Scheduler) (ctx waiting : ℕ) : Type 0 where
  pub current_ctx : saved_at s s.current ≢ ctx
  pub waiting_ctx : saved_at s waiting ≢ ctx
  pub both : saved_at s waiting ≢ saved_at s s.current

-- One switch from `s`, interrupted at `ctx`, to the task that waits.
pub record Switches (s : Scheduler) (ctx waiting : ℕ) (s' : Scheduler) : Type 0 where
  pub valid : IsValid s'.live_queue
  pub queued : StandsFor s'.live_queue (holds s.current)
  pub runs : s'.current ≡ waiting
  pub saves : s'.stacks (saved_at s s.current) ≡ s.stacks ctx
  pub loads : s'.stacks ctx ≡ s.stacks (saved_at s waiting)
  pub tasks : s'.tasks ≡ s.tasks
  pub others : (p : ℕ) → p ≢ ctx → p ≢ saved_at s s.current → s'.stacks p ≡ s.stacks p

module _ (realloc : List ℕ → ℕ → Option (List ℕ)) where
  -- The state after a switch.
  abbrev switched : Scheduler → ℕ → ℕ → Queue → Scheduler
  switched s ctx waiting live = record s {
    current = waiting;
    live_queue = live;
    stacks = copy_at (copy_at s.stacks (saved_at s s.current) ctx) ctx (saved_at s waiting);
  }

  switch_runs :
      (s : Scheduler) (ctx waiting : ℕ) (q live : Queue)
      → s.current ≢ 0
      → waiting ≢ 0
      → pop s.live_queue ≡ done (waiting, q)
      → push_queue realloc q s.current ≡ done live
      → switch_task realloc s ctx ≡ returns (switched s ctx waiting live)
  unfolding switch_task
  switch_runs s ctx waiting q live n1 n2 e1 e2 =
      let c : (s.current == 0) ≡ false = ground arith in
      let w : (waiting == 0) ≡ false = ground arith in rw (c, e1, e2, w) refl

  switched-Switches :
      (s : Scheduler) (ctx waiting : ℕ) (live : Queue)
      → Apart s ctx waiting
      → IsValid live
      → StandsFor live (holds s.current)
      → Switches s ctx waiting (switched s ctx waiting live)
  switched-Switches s ctx waiting live apart v r = record {
    valid = v;
    queued = r;
    runs = refl;
    saves =
        copy_at_ne (copy_at s.stacks (saved_at s s.current) ctx) ctx (saved_at s waiting)
          (saved_at s s.current) apart.current_ctx
        ∙ copy_at_self s.stacks (saved_at s s.current) ctx;
    loads =
        copy_at_self (copy_at s.stacks (saved_at s s.current) ctx) ctx (saved_at s waiting)
        ∙ copy_at_ne s.stacks (saved_at s s.current) ctx (saved_at s waiting) apart.both;
    tasks = refl;
    others = λ p n1 n2.
        copy_at_ne (copy_at s.stacks (saved_at s s.current) ctx) ctx (saved_at s waiting) p n1
        ∙ copy_at_ne s.stacks (saved_at s s.current) ctx p n2;
  }

  -- A switch saves the interrupted registers with the task that ran, loads those of the task that
  -- waited, which runs from then on, and queues the other; it touches no other registers.
  switch_task-Switches :
      (s : Scheduler) (ctx waiting : ℕ)
      → s.current ≢ 0
      → waiting ≢ 0
      → IsValid s.live_queue
      → StandsFor s.live_queue (holds waiting)
      → Apart s ctx waiting
      → (s' : Scheduler) × (switch_task realloc s ctx ≡ returns s') × Switches s ctx waiting s'
  switch_task-Switches s ctx waiting n1 n2 v r apart =
      let (q, e1, v1, r1) = pop-StandsFor v r in
      let (live, e2, v2, r2) = push_queue-StandsFor realloc v1 r1 s.current in
      (
        switched s ctx waiting live,
        switch_runs s ctx waiting q live n1 n2 e1 e2,
        switched-Switches s ctx waiting live apart v2 r2,
      )

  -- A switch with no task in the queue uses a NULL pointer.
  switch_task-null_pointer :
      (s : Scheduler) (ctx : ℕ)
      → IsValid s.live_queue
      → StandsFor s.live_queue vacant
      → switch_task realloc s ctx ≡ null_pointer
  unfolding switch_task
  switch_task-null_pointer s ctx v r =
      let (q, e1, v1, r1) = pop-StandsFor v r in
      let (live, e2, _, _) = push_queue-StandsFor realloc v1 r1 s.current in
      elim (ℕ_discrete s.current 0) [
        | yes z ↦ let c : (s.current == 0) ≡ true = ground arith in rw c refl
        | no n ↦ let c : (s.current == 0) ≡ false = ground arith in rw (c, e1, e2) refl
      ]

  -- Two switches in turn: the task that was interrupted first runs again with the registers that
  -- it had, whatever the other task left in its own, which are saved.
  pub switch_task_twice :
      (s : Scheduler) (ctx waiting : ℕ) (left : IsrStack)
      → s.current ≢ 0
      → waiting ≢ 0
      → IsValid s.live_queue
      → StandsFor s.live_queue (holds waiting)
      → Apart s ctx waiting
      → (s' s'' : Scheduler) × (switch_task realloc s ctx ≡ returns s')
        × (switch_task realloc (record s' { stacks = update s'.stacks ctx left }) ctx ≡ returns s'')
        × (s''.current ≡ s.current)
        × (s''.stacks ctx ≡ s.stacks ctx)
        × (s''.stacks (saved_at s waiting) ≡ left)
  switch_task_twice s ctx waiting left n1 n2 v r apart =
      let (s', e, w) = switch_task-Switches s ctx waiting n1 n2 v r apart in
      let between = record s' { stacks = update s'.stacks ctx left } in
      let (s'', e', w') =
        switch_task-Switches between ctx s.current (rw w.runs n2) n1 w.valid w.queued
          (swapped s' w) in
      (s', s'', e, e', w'.runs, w'.loads ∙ reloaded s' w, saved s' s'' w w')
    where
      place :
          (s' : Scheduler)
          → Switches s ctx waiting s'
          → (t : ℕ) → (s'.tasks t).ctx ≡ (s.tasks t).ctx
      place s' w t = ap (λ (f : ℕ → Task). (f t).ctx) w.tasks

      place_running :
          (s' : Scheduler)
          → Switches s ctx waiting s'
          → (s'.tasks s'.current).ctx ≡ (s.tasks waiting).ctx
      place_running s' w = place s' w s'.current ∙ ap (λ (t : ℕ). (s.tasks t).ctx) w.runs

      swapped :
          (s' : Scheduler)
          → Switches s ctx waiting s'
          → Apart (record s' { stacks = update s'.stacks ctx left }) ctx s.current
      swapped s' w = record {
        current_ctx = λ h. apart.waiting_ctx (sym (place_running s' w) ∙ h);
        waiting_ctx = λ h. apart.current_ctx (sym (place s' w s.current) ∙ h);
        both = λ h. apart.both (sym (place_running s' w) ∙ sym h ∙ place s' w s.current);
      }

      reloaded :
          (s' : Scheduler)
          → Switches s ctx waiting s'
          → update s'.stacks ctx left (s'.tasks s.current).ctx ≡ s.stacks ctx
      reloaded s' w =
          update_ne s'.stacks ctx (s'.tasks s.current).ctx left
            (λ h. apart.current_ctx (sym (place s' w s.current) ∙ h))
          ∙ ap s'.stacks (place s' w s.current)
          ∙ w.saves

      saved :
          (s' s'' : Scheduler)
          → Switches s ctx waiting s'
          → Switches (record s' { stacks = update s'.stacks ctx left }) ctx s.current s''
          → s''.stacks (saved_at s waiting) ≡ left
      saved s' s'' w w' =
          ap s''.stacks (sym (place_running s' w)) ∙ w'.saves ∙ update_self s'.stacks ctx left
