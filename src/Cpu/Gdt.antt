-- ===== src/Cpu/Gdt.antt =====
-- lethe-kernel/cpu/gdt.c: the encoding of segment descriptors. The arguments have the widths of
-- their types; a stored field is cut to its own width.
pub mod Decode
mod Tests
use uefi_bare_bones.Prelude.{ℕ, ◌-◌, bit_and, bit_or, u8, u16, u32, shl, shr}

-- `gdt_entry_t`
pub record GdtEntry : Type 0 where
  pub limit_low : ℕ
  pub base_low : ℕ
  pub base_mid : ℕ
  pub access : ℕ
  pub flags_and_limit_high : ℕ
  pub base_high : ℕ

-- `gdt_long_entry_t`
pub record GdtLongEntry : Type 0 where
  pub limit_low : ℕ
  pub base_low : ℕ
  pub base_low_mid : ℕ
  pub access : ℕ
  pub flags_and_limit_high : ℕ
  pub base_upper_mid : ℕ
  pub base_high : ℕ
  pub reserved : ℕ

-- `gdt_t`
pub record Gdt : Type 0 where
  pub null : GdtEntry
  pub kernel_code : GdtEntry
  pub kernel_data : GdtEntry
  pub user_data : GdtEntry
  pub user_code : GdtEntry
  pub tss : GdtLongEntry

pub gdt_set_long_gate : ℕ → ℕ → ℕ → ℕ → GdtLongEntry
gdt_set_long_gate base limit access flags = record {
  limit_low = u16 (bit_and limit 0xFFFF);
  base_low = u16 (bit_and base 0xFFFF);
  base_low_mid = u8 (bit_and (shr base 16) 0xFF);
  access = access;
  flags_and_limit_high = u8 (bit_or (bit_and (shl flags 4) 0xF0) (bit_and (shr limit 16) 0x0F));
  base_upper_mid = u8 (bit_and (shr base 24) 0xFF);
  base_high = u32 (bit_and (shr base 32) 0xFFFFFFFF);
  reserved = 0;
}

pub gdt_set_gate : ℕ → ℕ → ℕ → ℕ → GdtEntry
gdt_set_gate base limit access flags = record {
  limit_low = u16 (bit_and limit 0xFFFF);
  flags_and_limit_high = u8 (bit_or (bit_and (shr limit 16) 0xF) (shl flags 4));
  base_low = u16 (bit_and base 0xFFFF);
  base_mid = u8 (bit_and (shr base 16) 0xFF);
  base_high = u8 (bit_and (shr base 24) 0xFF);
  access = access;
}

pub gdt_set_gate_simple : ℕ → ℕ → GdtEntry
unfolding gdt_set_gate
gdt_set_gate_simple access flags = gdt_set_gate 0 0 access flags

-- `sizeof(tss_t)`
abbrev pub tss_size : ℕ
tss_size = 104

pub gdt_set_tss : Gdt → ℕ → Gdt
unfolding gdt_set_long_gate
gdt_set_tss gdt tss = record gdt { tss = gdt_set_long_gate tss (tss_size - 1) 0x89 0 }

-- The table that `load_gdt` hands to the processor.
pub load_gdt : Gdt
unfolding gdt_set_gate_simple gdt_set_long_gate
load_gdt = record {
  null = gdt_set_gate_simple 0 0;
  kernel_code = gdt_set_gate_simple 0x9A 0xA;
  kernel_data = gdt_set_gate_simple 0x92 0xC;
  user_code = gdt_set_gate_simple 0xFA 0xA;
  user_data = gdt_set_gate_simple 0xF2 0xC;
  tss = gdt_set_long_gate 0 0 0x89 0x0;
}
