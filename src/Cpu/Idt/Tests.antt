-- ===== src/Cpu/Idt/Tests.antt =====
-- The interrupt table of lethe-kernel/cpu/idt.c at concrete vectors.
use uefi_bare_bones.Prelude.{ℕ, ◌+◌, ◌*◌}
use uefi_bare_bones.Cpu.Task.{IsrStack}
use uefi_bare_bones.Cpu.Idt.{IdtEntry, Interrupts}

abbrev empty_entry : IdtEntry
empty_entry = record {
  offset_low = 0;
  segment_selector = 0;
  ist = 0;
  flags = 0;
  offset_mid = 0;
  offset_high = 0;
  reserved_high = 0;
}

abbrev at_boot : Interrupts
at_boot = record { entries = λ v. empty_entry; isr_handler_table = λ v. 0; eoi_count = 0 }

-- The stubs, 16 bytes each, in the kernel's half of the addresses.
abbrev stubs : ℕ → ℕ
stubs v = 0xFFFFFFFF80001230 + 16 * v

-- The keyboard's interrupt, 33.
abbrev key_stack : IsrStack
key_stack = record {
  r15 = 1;
  r14 = 2;
  r13 = 3;
  r12 = 4;
  r11 = 5;
  r10 = 6;
  r9 = 7;
  r8 = 8;
  rbp = 9;
  rdi = 10;
  rsi = 11;
  rdx = 12;
  rcx = 13;
  rbx = 14;
  rax = 15;
  isr = 33;
  err = 0;
  rip = 16;
  cs = 8;
  rflags = 0x202;
}

-- A handler at 77 that counts in `rax`.
abbrev call : ℕ → IsrStack → IsrStack
call handler stack = record stack { rax = stack.rax + handler }
