-- ===== src/Lib.antt =====
-- A model of parts of this repository, a kernel with its libc, its utilities and a boot loader,
-- and the theorems about them. Paths are from the repository's root.
--
-- The program. The boot loader (lethe-bootloaders) or Limine starts lethe-kernel, which sets up
-- physical frames (memory/initial_frame_allocator.c), a list of free page regions under a heap
-- (memory/list_allocator.c, called by the liballoc copy through memory/alloc.c), descriptors and
-- interrupts (cpu/gdt.c, cpu/idt.c, cpu/isr.c), tasks (cpu/task.c over lethe-utils/queue.c), and
-- a shell that the keyboard feeds (misc/keyboard.c, misc/shell.c). lethe-utils also has a hash
-- table, which the AML interpreter (lethe-aml) keeps its namespace in; lethe-libc is used by all.
--
-- The modules.
--   Prelude: shared names; lists with native indices (Lists), words and shifts (Words), masks and
--     unions of bits (Bits), integers (Int), Boolean tests (Tests).
--   Libc.Str: lethe-libc/string.c, memcpy to strncmp, on one memory of bytes.
--   Libc.Stdio: lethe-libc/stdio.c, the output of numbers, ntoa_long to putchar. Libc.Stdio.Format:
--     vprintf of the same file, its flags, width, precision, length and conversions.
--   Utils.Hashmap: lethe-utils/hashmap.c, hm_create, hm_get, hm_set, hm_expand, hm_next.
--   Utils.Queue: lethe-utils/queue.c, push_queue, pop_queue, rotate_queue.
--   Utils.LinkedList: lethe-utils/linked_list.c, append_node, linked_list_foreach.
--   Memory.FrameAllocator: lethe-kernel/memory/initial_frame_allocator.c, allocate_frame.
--   Memory.ListAllocator: lethe-kernel/memory/list_allocator.c, list_alloc, add_region. Its new
--     pages come from Memory.FrameAllocator and Memory.Paging, a round of the loop in Paging.Backed.
--   Memory.Paging: lethe-kernel/memory/paging.c, map_page, unmap_page, map_page_nearest. Its
--     tables take their frames from Memory.FrameAllocator, whose invariant its own contains.
--   Cpu.Task: lethe-kernel/cpu/task.c, switch_task, create_task, remove_task, signal_idle. It
--     uses the operations of Utils.Queue and the theorems of Utils.Queue.OneSlot.
--   Cpu.Gdt, Cpu.Idt: lethe-kernel/cpu/gdt.c, idt.c and isr.c, the encoding of descriptors, the
--     table of interrupts and the dispatch of an interrupt.
--   Devices.Shell, Devices.Keyboard: lethe-kernel/misc/shell.c and keyboard.c with
--     include/scancodes.h; kb_handle_key calls the operations of the shell.
--   Devices.Trace: lethe-kernel/misc/trace.c, the search for a symbol of the kernel's file.
--   Devices.Terminal: lethe-kernel/terminal/tty.c with the pixels of terminal/pixel.c.
--   Aml.Code: what lethe-aml reads off its code, the package lengths of aml/helpers.c and the names
--     of aml/name.c. Aml.Namespace: the tree of namespaces of aml/namespace.c, resolve_name of
--     aml/name.c and locate_object of aml/helpers.c. Aml.Interp: the state that the interpreter works
--     on, with the objects of aml/include/types.h. Aml.Terms and Aml.DataObjects: term_arg_to_int,
--     term_arg_to_buffer and parse_data_object of aml/helpers.c. Aml.Fields and Aml.Defs: the
--     definitions of aml/defs.c. Aml.Run: parse_next and parse_termlist of aml/helpers.c and
--     parse_table of aml/defs.c. Aml.Interface: aml/interface.c.
--   Acpi.Tables: lethe-kernel/acpi/acpi.c, the checksum of a table and the search for a table.
-- A component's own file has its state and operations, under the names of the code; the modules
-- below it have the theorems, and its Tests has runs and the theorems at concrete inputs.
--
-- Conventions. Numbers are native naturals; a cut to w bits is written out (u8, u16, u32, u64),
-- and so is subtraction below 0 (sub64). Pointers are numbers, 0 is NULL, and blocks are lists of
-- their cells. The product of PAGE_SIZE and a number of pages is an int product in list_allocator.c: it
-- is cut to 32 bits and extended with its sign, and the theorems are about fewer than 2 ^ 19
-- pages, where it does not overflow. The size of a queue's
-- realloc, an int product as well, and a negative width of a format, which vprintf negates, are
-- taken to be such that an int holds the result. An access outside of its block, a use of NULL, a panic and a failed assertion are
-- results of their own. Code outside of the repository or copied into it (liballoc, FNV, Limine,
-- the processor) is a parameter: whether memory is found, the hash of a key, the block that a
-- realloc gives, the code behind a handler's pointer.
--
-- Fuel. The probe of the hash table has as many rounds as slots, and the load bound keeps a
-- slot free, which the invariant IsHm says. pop_queue passes a cell with each call, so
-- capacity + 1 calls are enough. allocate_frame marks an entry of the memory map with each
-- call, so one call more than there are entries is enough. strlen takes fuel, and any that is
-- above the length is enough. linked_list_foreach takes fuel above the number of nodes. The
-- digits of a number have the 48 rounds that NTOA_MAX gives the loop of the code. A round of
-- vprintf takes a character off the format, so fuel above its length is enough. The ways up
-- the namespaces take as many steps as are given, and a walk that is longer is an outcome of
-- its own with the namespaces that there are then: no number is enough where the parents form
-- a cycle. The way down has a round for each segment of the name. The terms, the data objects, the elements of a field and the lists of
-- terms of the interpreter have as much fuel as there are bytes from where they begin, and one
-- more, which is enough since each of them has a byte of its own. A pointer into a table is
-- the list of the bytes from there on, and a read past the table's end is an outcome.
-- map_page_nearest takes fuel above the number of pages that have a translation where it
-- begins.
--
-- Not modelled. The CPIO reader, the other ACPI tables and the interrupt controllers, PCI and
-- AHCI and the boot loader are left for later. Assembly, port input and output, waiting loops,
-- log messages and copies of other projects are left out. The length of a text is below 2 ^
-- 32, as is the count of characters that vprintf prints. strcmp's lengths are int in the code,
-- and texts of 2 GB or more are out of the model; the load test of the hash table is exact
-- below 2 ^ 24 entries.
pub mod Prelude
pub mod Libc
pub mod Utils
pub mod Memory
pub mod Cpu
pub mod Devices
pub mod Aml
pub mod Acpi
