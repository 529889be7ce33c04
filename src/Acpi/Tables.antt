-- ===== src/Acpi/Tables.antt =====
-- lethe-kernel/acpi/acpi.c: the checksum of a table and the search for a table. Memory gives the
-- header of the table at an address. The entries of the XSDT are a list, whose length is the number
-- that the code computes from the length in the XSDT's header.
pub mod Scan
mod Tests
use uefi_bare_bones.Prelude.{
  ℕ, zero, suc, ◌+◌, ◌%◌, ◌^◌, Bool, true, false, List, [], ◌∷◌, Option, none, some, ◌==◌,
  if◌then◌else◌, is_zero, u8, u64, get_or,
}
use uefi_bare_bones.Libc.Str.{Bytes, strncmp}

-- `acpi_header_t` with the bytes of its table, and `x_dsdt` where it is an `acpi_fadt_t`.
pub record Sdt : Type 0 where
  pub signature : Bytes
  pub length : ℕ
  pub bytes : Bytes
  pub x_dsdt : ℕ

-- `hhdm_mapping`, the table at each address, and the entries of `XSDT`.
pub record Acpi : Type 0 where
  pub hhdm_mapping : ℕ
  pub table_at : ℕ → Sdt
  pub tables : List ℕ

-- The loop of sdt_checksum from byte `i` on.
pub sum_bytes : ℕ → ℕ → ℕ → Bytes → ℕ
sum_bytes zero i sum bytes = sum
sum_bytes (suc left) i sum bytes = sum_bytes left (i + 1) (u8 (sum + bytes i)) bytes

pub sdt_checksum : Sdt → Bool
unfolding sum_bytes
sdt_checksum sdt = sum_bytes sdt.length 0 0 sdt.bytes == 0

-- `strncmp(sig, signature, 4) == 0`
abbrev pub is_signed : Bytes → Bytes → Bool
is_signed sig signature = is_zero (strncmp sig signature 4)

-- The loop of scan_tables; 0 is NULL.
pub scan_from : Acpi → Bytes → ℕ → ℕ → List ℕ → ℕ
scan_from acpi sig index current_index [] = 0
scan_from acpi sig index current_index (table ∷ tables) =
    let sdt = u64 (table + acpi.hhdm_mapping) in
    elim (is_signed sig (acpi.table_at sdt).signature) [
      | true ↦ elim (current_index == index) [
        | true ↦ sdt
        | false ↦ scan_from acpi sig index (current_index + 1) tables
      ]
      | false ↦ scan_from acpi sig index current_index tables
    ]

-- "DSDT" and "FACP"
abbrev pub dsdt : Bytes
dsdt i = get_or (b'D' ∷ b'S' ∷ b'D' ∷ b'T' ∷ []) i 0

abbrev pub facp : Bytes
facp i = get_or (b'F' ∷ b'A' ∷ b'C' ∷ b'P' ∷ []) i 0

-- `none` is the read of `x_dsdt` through a NULL pointer.
pub scan_tables : Acpi → Bytes → ℕ → Option ℕ
unfolding scan_from
scan_tables acpi sig index =
    let fadt = scan_from acpi facp 0 0 acpi.tables in
    if is_signed sig dsdt
    then if fadt == 0 then none else some (u64 ((acpi.table_at fadt).x_dsdt + acpi.hhdm_mapping))
    else some (scan_from acpi sig index 0 acpi.tables)
