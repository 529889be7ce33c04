-- ===== src/Memory/Paging/Levels.antt =====
-- The well-formed page tables of lethe-kernel/memory/paging.c: a tree of four levels, whose tables
-- are apart from the frames that are free.
use uefi_bare_bones.Prelude.{ℕ, suc, ◌+◌, ◌%◌, ◌^◌, ◌<◌, ◌≡◌, ◌≢◌, List, [], ◌∷◌, u64}
use uefi_bare_bones.Memory.FrameAllocator.Laws.{IsValid, free_frames}
use uefi_bare_bones.Memory.Paging.{Paging, physical, child}

abbrev pub Misses : ℕ → List ℕ → Type 0
Misses f [] = Unit {0}
Misses f (g ∷ fs) = (g ≢ f) × Misses f fs

-- Frames at page boundaries, no two the same, none of which is read at a table.
abbrev pub AreFresh : ℕ → (ℕ → ℕ) → List ℕ → Type 0
AreFresh hhdm_mapping level [] = Unit {0}
AreFresh hhdm_mapping level (f ∷ fs) =
    (f ≢ 0)
    × (f % 4096 ≡ 0)
    × (f < 2 ^ 52)
    × (level (u64 (f + hhdm_mapping)) ≡ 0)
    × Misses f fs
    × AreFresh hhdm_mapping level fs

-- `level` gives each table its level, from 4 for the root down to 1, and 0 to all else.
pub record IsPaging (s : Paging) (level : ℕ → ℕ) : Type 0 where
  pub root : level s.page_table ≡ 4
  -- An entry above the lowest level that is present leads to a table of the next level, …
  pub below :
      (t k i : ℕ)
      → level t ≡ suc (suc k)
      → i < 512
      → (s.tables t i).present ≢ 0
      → (level (child s t i) ≡ suc k) × (physical (s.tables t i) ≢ 0)
  -- … and one that is not has no address.
  pub absent :
      (t k i : ℕ)
      → level t ≡ suc (suc k)
      → i < 512
      → (s.tables t i).present ≡ 0
      → physical (s.tables t i) ≡ 0
  -- No table has two entries that lead to it.
  pub unique :
      (t k i t' k' i' : ℕ)
      → level t ≡ suc (suc k)
      → level t' ≡ suc (suc k')
      → i < 512
      → i' < 512
      → (s.tables t i).present ≢ 0
      → (s.tables t' i').present ≢ 0
      → child s t i ≡ child s t' i'
      → (t ≡ t') × (i ≡ i')
  -- A page is mapped to a frame other than the one at address 0.
  pub leaf : (t i : ℕ) → level t ≡ 1 → (s.tables t i).present ≢ 0 → physical (s.tables t i) ≢ 0
  pub leaf_absent :
      (t i : ℕ) → level t ≡ 1 → (s.tables t i).present ≡ 0 → physical (s.tables t i) ≡ 0
  pub frames : IsValid s.allocator
  pub fresh : AreFresh s.hhdm_mapping level (free_frames s.allocator)
