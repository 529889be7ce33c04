-- ===== src/Cpu.antt =====
-- lethe-kernel/cpu: the scheduler of task.c, and the descriptors of gdt.c and idt.c.
pub mod Task
pub mod Gdt
pub mod Idt
