-- ===== src/Acpi/Tables/Scan.antt =====
-- scan_tables of lethe-kernel/acpi/acpi.c against the list of the tables with a signature.
use native.Mathlib.Decide.{ℕ_discrete}
use uefi_bare_bones.Prelude.{
  ℕ, suc, ◌+◌, ◌-◌, ◌≤◌, ◌≡◌, refl, ap, ◌∙◌, true, false, List, [], ◌∷◌, some, ◌==◌, if◌then◌else◌,
  arith, u64, get_or, Bool-cases, inl, inr,
}
use uefi_bare_bones.Libc.Str.{Bytes}
use uefi_bare_bones.Acpi.Tables.{Acpi, is_signed, dsdt, scan_from, scan_tables}

-- The addresses of the tables with a signature, in the order of the entries.
pub signed_tables : Acpi → Bytes → List ℕ → List ℕ
signed_tables acpi sig [] = []
signed_tables acpi sig (table ∷ tables) =
    let sdt = u64 (table + acpi.hhdm_mapping) in
    let rest = signed_tables acpi sig tables in
    if is_signed sig (acpi.table_at sdt).signature then sdt ∷ rest else rest

scan_from-signed_tables :
    (acpi : Acpi) (sig : Bytes) (index current : ℕ) (tables : List ℕ)
    → current ≤ index
    → scan_from acpi sig index current tables
      ≡ get_or (signed_tables acpi sig tables) (index - current) 0
unfolding scan_from signed_tables
scan_from-signed_tables acpi sig index current [] l = refl
scan_from-signed_tables acpi sig index current (table ∷ tables) l =
    let sdt = u64 (table + acpi.hhdm_mapping) in
    elim (Bool-cases (is_signed sig (acpi.table_at sdt).signature)) [
      | inr f ↦
          rw (scan_from, signed_tables, f) (scan_from-signed_tables acpi sig index current tables l)
      | inl t ↦ elim (ℕ_discrete current index) [
        | yes e ↦
            let same : (current == index) ≡ true = ground arith in
            let least : index - current ≡ 0 = omega arith in
            rw (scan_from, signed_tables, t, same, least) refl
        | no n ↦
            let other : (current == index) ≡ false = ground arith in
            let more : index - current ≡ suc (index - (current + 1)) = omega arith in
            rw (scan_from, signed_tables, t, other, more)
              (scan_from-signed_tables acpi sig index (current + 1) tables (omega arith))
      ]
    ]

-- For a signature other than "DSDT" the search gives the table with that index among the tables with
-- the signature, and NULL where there are no more than the index.
pub scan_tables-signed_tables :
    (acpi : Acpi) (sig : Bytes) (index : ℕ)
    → is_signed sig dsdt ≡ false
    → scan_tables acpi sig index ≡ some (get_or (signed_tables acpi sig acpi.tables) index 0)
unfolding scan_tables
scan_tables-signed_tables acpi sig index d =
    let all : index - 0 ≡ index = omega arith in
    let found =
      scan_from-signed_tables acpi sig index 0 acpi.tables (omega arith)
      ∙ ap (λ k. get_or (signed_tables acpi sig acpi.tables) k 0) all in
    rw (scan_tables, d) (ap (λ p. some p) found)
