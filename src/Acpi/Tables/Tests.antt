-- ===== src/Acpi/Tables/Tests.antt =====
-- The search through two tables, and a checksum.
use uefi_bare_bones.Prelude.{◌≡◌, refl, true, false, [], ◌∷◌, some, ◌==◌, if◌then◌else◌, get_or}
use uefi_bare_bones.Libc.Str.{Bytes, strncmp}
use uefi_bare_bones.Acpi.Tables.{Acpi, is_signed, dsdt, facp, sdt_checksum, scan_tables}
use uefi_bare_bones.Acpi.Tables.Scan.{signed_tables, scan_tables-signed_tables}

abbrev ssdt : Bytes
ssdt i = get_or (b'S' ∷ b'S' ∷ b'D' ∷ b'T' ∷ []) i 0

-- "SSDT" at 108 and 124, and "FACP" between them.
abbrev acpi : Acpi
acpi = record {
  hhdm_mapping = 100;
  table_at = λ p. record {
    signature = if p == 116 then facp else ssdt;
    length = 2;
    bytes = λ i. if i == 0 then 200 else 56;
    x_dsdt = 64;
  };
  tables = 8 ∷ 16 ∷ 24 ∷ [];
}

not_dsdt : is_signed ssdt dsdt ≡ false
unfolding strncmp
not_dsdt = refl

scan_tables-signed_tables_example :
    scan_tables acpi ssdt 1 ≡ some (get_or (signed_tables acpi ssdt (8 ∷ 16 ∷ 24 ∷ [])) 1 0)
scan_tables-signed_tables_example = scan_tables-signed_tables acpi ssdt 1 not_dsdt

second : scan_tables acpi ssdt 1 ≡ some 124
unfolding scan_tables strncmp
second = refl

fadt_dsdt : scan_tables acpi dsdt 0 ≡ some 164
unfolding scan_tables strncmp
fadt_dsdt = refl

sound : sdt_checksum (acpi.table_at 108) ≡ true
unfolding sdt_checksum
sound = refl
