-- ===== src/Cpu/Gdt/Tests.antt =====
-- The descriptors of lethe-kernel/cpu/gdt.c at concrete values.
use uefi_bare_bones.Prelude.{◌≡◌, refl, arith}
use uefi_bare_bones.Cpu.Gdt.{gdt_set_gate, gdt_set_long_gate, gdt_set_gate_simple, load_gdt}
use uefi_bare_bones.Cpu.Gdt.Decode.{LongDescribes, gdt_set_long_gate-LongDescribes}

-- The code segment of the kernel: access 0x9A, flags 0xA above no limit.
kernel_code_byte : load_gdt.kernel_code.flags_and_limit_high ≡ 0xA0
unfolding load_gdt gdt_set_gate_simple gdt_set_gate
kernel_code_byte = refl

gdt_set_long_gate-LongDescribes_example :
    LongDescribes (gdt_set_long_gate 0xFFFF800012345678 103 0x89 0) 0xFFFF800012345678 103 0x89 0
gdt_set_long_gate-LongDescribes_example =
    gdt_set_long_gate-LongDescribes 0xFFFF800012345678 103 0x89 0 (omega arith) (omega arith)
      (omega arith)
