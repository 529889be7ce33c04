-- ===== src/Memory/Paging/Tests.antt =====
-- The page tables of lethe-kernel/memory/paging.c with an empty root.
use uefi_bare_bones.Prelude.{◌≤◌, ◌<◌, ◌≢◌, ℕ, ◌≡◌, refl, arith}
use uefi_bare_bones.Memory.FrameAllocator.{done}
use uefi_bare_bones.Memory.Paging.{Paging, map_page, unmap_page, virtual_to_physical}
use uefi_bare_bones.Memory.Paging.Levels.{IsPaging}
use uefi_bare_bones.Memory.Paging.Sample.{empty_root, root_level, empty_root-IsPaging}
use uefi_bare_bones.Memory.Paging.Pages.{Maps, map_page-Maps}
use uefi_bare_bones.Memory.Paging.Regions.{
  map_page_nearest, pages_on, behind_null, map_page_nearest-Maps,
}
use uefi_bare_bones.Memory.Paging.Unmap.{Unmaps, unmap_page-map_page}

not_mapped : virtual_to_physical empty_root 0x400000 ≡ 0
unfolding virtual_to_physical
not_mapped = refl

map_page-Maps_example :
    (s' : Paging) × (level' : ℕ → ℕ) × (map_page empty_root 0x400000 0x9000 3 ≡ done s')
    × IsPaging s' level'
    × Maps empty_root 0x400000 0x9000 s'
map_page-Maps_example =
    map_page-Maps empty_root root_level empty_root-IsPaging 0x400000 0x9000 3 refl (omega arith)
      refl (omega arith) not_mapped (omega arith)

unmap_page-map_page_example :
    (s' : Paging) × (map_page empty_root 0x400000 0x9000 3 ≡ done s')
    × Unmaps empty_root 0x400000 (unmap_page s' 0x400000)
unmap_page-map_page_example =
    unmap_page-map_page empty_root root_level empty_root-IsPaging 0x400000 0x9000 3 refl
      (omega arith) refl (omega arith) not_mapped (omega arith)

start_free : virtual_to_physical empty_root (pages_on 0 4096) ≡ 0
unfolding virtual_to_physical
start_free = refl

-- The search begins behind address 0, and the first page there is free.
map_page_nearest-Maps_example :
    (j : ℕ) × (s' : Paging) × (level' : ℕ → ℕ) × (j ≤ 0)
    × (virtual_to_physical empty_root (pages_on j 4096) ≡ 0)
    × ((i : ℕ) → i < j → virtual_to_physical empty_root (pages_on i 4096) ≢ 0)
    × (map_page_nearest 1 empty_root 0 0x9000 3 ≡ done (pages_on j 4096, s'))
    × IsPaging s' level'
    × Maps empty_root (pages_on j 4096) 0x9000 s'
map_page_nearest-Maps_example =
    map_page_nearest-Maps 1 0 empty_root root_level 0 4096 0x9000 3 empty_root-IsPaging
      (behind_null refl) (omega arith) start_free refl (omega arith) refl (omega arith)
      (omega arith)
