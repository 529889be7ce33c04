-- ===== src/Cpu/Idt.antt =====
-- lethe-kernel/cpu/idt.c and isr.c: the interrupt table, the table of handlers and the dispatch.
-- A handler is a pointer, 0 is NULL; the code that it leads to is a parameter.
pub mod Table
pub mod Dispatch
mod Tests
use uefi_bare_bones.Prelude.{
  ℕ, zero, suc, ◌+◌, ◌*◌, Bool, true, false, List, [], ◌∷◌, ltb, leb, ◌==◌, if◌then◌else◌, bit_and,
  u16, u32, shr,
}
use uefi_bare_bones.Cpu.Task.{IsrStack}

-- `idt_entry_t`
pub record IdtEntry : Type 0 where
  pub offset_low : ℕ
  pub segment_selector : ℕ
  pub ist : ℕ
  pub flags : ℕ
  pub offset_mid : ℕ
  pub offset_high : ℕ
  pub reserved_high : ℕ

-- `IDT_ENTRY_COUNT`
abbrev pub idt_entry_count : ℕ
idt_entry_count = 256

-- `idt`, `isr_handler_table`, and how often the local APIC was told of an end of interrupt.
pub record Interrupts : Type 0 where
  pub entries : ℕ → IdtEntry
  pub isr_handler_table : ℕ → ℕ
  pub eoi_count : ℕ

-- `set_idt_entry_simple`: what is written for a handler, …
pub idt_entry : ℕ → IdtEntry
idt_entry handler = record {
  offset_low = u16 (bit_and handler 0xFFFF);
  segment_selector = 0x08;
  ist = 0;
  flags = 0x8E;
  offset_mid = u16 (bit_and (shr handler 16) 0xFFFF);
  offset_high = u32 (bit_and (shr handler 32) 0xFFFFFFFF);
  reserved_high = 0;
}

-- … and where.
pub set_idt_entry_simple : Interrupts → ℕ → ℕ → Interrupts
unfolding idt_entry
set_idt_entry_simple state vector handler = record state {
  entries = λ v. if v == vector then idt_entry handler else state.entries v;
}

-- `register_handler`, and `unregister_handler` with NULL.
pub register_handler : Interrupts → ℕ → ℕ → Interrupts
register_handler state vector handler = record state {
  isr_handler_table = λ v. if v == vector then handler else state.isr_handler_table v;
}

pub unregister_handler : Interrupts → ℕ → Interrupts
unregister_handler state vector = record state {
  isr_handler_table = λ v. if v == vector then 0 else state.isr_handler_table v;
}

-- The loop of `load_idt` from `i` on, with `left` rounds left.
pub load_from : (ℕ → ℕ) → ℕ → ℕ → Interrupts → Interrupts
unfolding set_idt_entry_simple unregister_handler
load_from isr_stub_table zero i state = state
load_from isr_stub_table (suc left) i state =
    load_from isr_stub_table left (i + 1)
      (unregister_handler (set_idt_entry_simple state i (isr_stub_table i)) i)

pub load_idt : (ℕ → ℕ) → Interrupts → Interrupts
unfolding load_from
load_idt isr_stub_table state = load_from isr_stub_table idt_entry_count 0 state

-- How an interrupt ends: back in the registers given, in `halt`, in a call of NULL, or in a read
-- outside the table.
pub data Handled : Type 0 where
  resumes : IsrStack → Interrupts → Handled
  halted null_call out_of_table : Handled

module _ (call : ℕ → IsrStack → IsrStack) where
  pub interrupt_handler : IsrStack → Interrupts → Handled
  interrupt_handler stack state =
      if leb idt_entry_count stack.isr
      then out_of_table
      else if state.isr_handler_table stack.isr == 0
      then null_call
      else resumes (call (state.isr_handler_table stack.isr) stack)
          (record state { eoi_count = state.eoi_count + 1 })

  -- The messages before `halt` are left out; the cases 8, 13, 14 and `default` all end in it.
  pub exception_handler : IsrStack → Interrupts → Handled
  unfolding interrupt_handler
  exception_handler stack state =
      if leb 32 stack.isr
      then interrupt_handler stack state
      else if stack.isr == 2
      then resumes stack state
      else halted
