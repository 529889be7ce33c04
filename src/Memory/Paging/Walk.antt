-- ===== src/Memory/Paging/Walk.antt =====
-- The translation of lethe-kernel/memory/paging.c as a recursion over the levels.
use uefi_bare_bones.Prelude.{
  ℕ, zero, suc, ◌%◌, ◌^◌, ◌<◌, ◌≡◌, refl, ◌≢◌, true, false, arith, ◌==◌, if◌then◌else◌, bit_and,
  and_low_mask,
}
use uefi_bare_bones.Memory.Paging.{
  Paging, physical, child, page_bits, table_index, virtual_to_physical, set_entry,
}

-- The translation from a table `k` levels above the lowest.
unfoldable pub walk : ℕ → Paging → ℕ → ℕ → ℕ
walk zero s table virtual = physical (s.tables table (table_index 0 virtual))
walk (suc k) s table virtual =
    let rest = walk k s (child s table (table_index (suc k) virtual)) virtual in
    if physical (s.tables table (table_index (suc k) virtual)) == 0 then 0 else rest

pub virtual_to_physical_lem :
    (s : Paging) (virtual : ℕ) → virtual_to_physical s virtual ≡ walk 3 s s.page_table virtual
unfolding virtual_to_physical walk
virtual_to_physical_lem s virtual = ground arith

pub walk_absent :
    (k : ℕ) (s : Paging) (table virtual : ℕ)
    → physical (s.tables table (table_index k virtual)) ≡ 0
    → walk k s table virtual ≡ 0
unfolding walk
walk_absent zero s table virtual e = e
walk_absent (suc k) s table virtual e =
    let t : (physical (s.tables table (table_index (suc k) virtual)) == 0) ≡ true = ground arith in
    rw t refl

pub walk_down :
    (k : ℕ) (s : Paging) (table virtual : ℕ)
    → physical (s.tables table (table_index (suc k) virtual)) ≢ 0
    → walk (suc k) s table virtual ≡ walk k s (child s table (table_index (suc k) virtual)) virtual
unfolding walk
walk_down k s table virtual n =
    let t : (physical (s.tables table (table_index (suc k) virtual)) == 0) ≡ false = ground arith in
    rw t refl

pub table_index-lt : (k virtual : ℕ) → table_index k virtual < 512
table_index-lt k virtual =
    let e : bit_and (page_bits k virtual) 0x1FF ≡ page_bits k virtual % 2 ^ 9 =
      and_low_mask 9 (page_bits k virtual) in
    rw e (omega arith)

-- An entry that is set leads to the address that it was set to.
pub physical-set_entry :
    (address flags : ℕ)
    → address % 4096 ≡ 0
    → address < 2 ^ 52
    → physical (set_entry address flags) ≡ address
unfolding set_entry
physical-set_entry address flags e lt = omega arith

pub present-set_entry : (address flags : ℕ) → flags % 2 ≡ 1 → (set_entry address flags).present ≡ 1
unfolding set_entry
present-set_entry address flags e =
    let m : bit_and flags 0x1 ≡ flags % 2 ^ 1 = and_low_mask 1 flags in omega (arith, m)
