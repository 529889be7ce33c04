-- ===== src/Cpu/Idt/Dispatch.antt =====
-- The dispatch of interrupts by lethe-kernel/cpu/idt.c and isr.c.
use uefi_bare_bones.Prelude.{ℕ, ◌+◌, ◌≤◌, ◌<◌, ◌≡◌, refl, ◌≢◌, true, false, arith, leb, ◌==◌}
use uefi_bare_bones.Cpu.Task.{IsrStack}
use uefi_bare_bones.Cpu.Idt.{
  Interrupts, resumes, null_call, idt_entry_count, register_handler, unregister_handler, load_idt,
  interrupt_handler, exception_handler,
}
use uefi_bare_bones.Cpu.Idt.Table.{load_idt_cleared}

module _ (call : ℕ → IsrStack → IsrStack) (stack : IsrStack) where
  -- An interrupt with a handler in the table.
  handled :
      (state : Interrupts) (handler : ℕ)
      → 32 ≤ stack.isr
      → stack.isr < idt_entry_count
      → state.isr_handler_table stack.isr ≡ handler
      → handler ≢ 0
      → exception_handler call stack state
        ≡ resumes (call handler stack) (record state { eoi_count = state.eoi_count + 1 })
  unfolding exception_handler interrupt_handler
  handled state handler lo hi e n =
      let a : leb 32 stack.isr ≡ true = ground arith in
      let b : leb idt_entry_count stack.isr ≡ false = ground arith in
      let c : (handler == 0) ≡ false = ground arith in rw (a, b, e, c) refl

  unhandled :
      (state : Interrupts)
      → 32 ≤ stack.isr
      → stack.isr < idt_entry_count
      → state.isr_handler_table stack.isr ≡ 0
      → exception_handler call stack state ≡ null_call
  unfolding exception_handler interrupt_handler
  unhandled state lo hi e =
      let a : leb 32 stack.isr ≡ true = ground arith in
      let b : leb idt_entry_count stack.isr ≡ false = ground arith in rw (a, b, e) refl

  -- After a handler is registered for a vector from 32 on, the interrupt of that vector runs it on
  -- the interrupted registers, and tells the local APIC of the end once.
  exception_handler-register_handler :
      (state : Interrupts) (handler : ℕ)
      → 32 ≤ stack.isr
      → stack.isr < idt_entry_count
      → handler ≢ 0
      → exception_handler call stack (register_handler state stack.isr handler)
        ≡ resumes
            (call handler stack)
            (record (register_handler state stack.isr handler) { eoi_count = state.eoi_count + 1 })
  unfolding register_handler
  exception_handler-register_handler state handler lo hi n =
      handled (register_handler state stack.isr handler) handler lo hi
        (let e : (stack.isr == stack.isr) ≡ true = ground arith in rw e refl) n

  -- An interrupt from 32 on whose vector had no handler registered since `load_idt` calls NULL.
  exception_handler-load_idt :
      (stubs : ℕ → ℕ) (state : Interrupts)
      → 32 ≤ stack.isr
      → stack.isr < idt_entry_count
      → exception_handler call stack (load_idt stubs state) ≡ null_call
  exception_handler-load_idt stubs state lo hi =
      unhandled (load_idt stubs state) lo hi (load_idt_cleared stubs state stack.isr hi)

  -- An interrupt whose handler was taken out calls NULL.
  exception_handler-unregister_handler :
      (state : Interrupts)
      → 32 ≤ stack.isr
      → stack.isr < idt_entry_count
      → exception_handler call stack (unregister_handler state stack.isr) ≡ null_call
  unfolding unregister_handler
  exception_handler-unregister_handler state lo hi =
      unhandled (unregister_handler state stack.isr) lo hi
        (let e : (stack.isr == stack.isr) ≡ true = ground arith in rw e refl)
