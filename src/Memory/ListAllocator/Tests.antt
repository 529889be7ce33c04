-- ===== src/Memory/ListAllocator/Tests.antt =====
-- lethe-kernel/memory/list_allocator.c at concrete heaps.
use uefi_bare_bones.Prelude.{ℕ, ◌*◌, ◌≡◌, refl, ◌↔◌, [], ◌∷◌, arith}
use uefi_bare_bones.Memory.Paging.Sample.{empty_root}
use uefi_bare_bones.Memory.ListAllocator.{
  Region, Heap, returns, get_valid_region, split, list_alloc,
}
use uefi_bare_bones.Memory.ListAllocator.Alloc.{Within, Disjoint, split_leftover_iff}

abbrev ten : Region
ten = record { addr = 0x10000; pages = 10 }

abbrev heap : Heap
heap = record {
  regions = record { addr = 0x8000; pages = 1 } ∷ ten ∷ [];
  heap_end = 0x20000;
  paging = empty_root;
}

-- The two pages left over from ten begin two pages into the block of eight.
eight_of_ten :
    list_alloc heap 8
    ≡ returns (
      0x10000,
      record heap {
        regions = record { addr = 0x12000; pages = 2 } ∷ record { addr = 0x8000; pages = 1 } ∷ [];
      },
    )
unfolding list_alloc get_valid_region
eight_of_ten = refl

split_leftover_iff_example :
    (leftover : Region) × (split heap ten 8
      ≡ (0x10000, record heap { regions = leftover ∷ heap.regions }))
    × ((Within leftover ten × Disjoint (record { addr = 0x10000; pages = 8 }) leftover)
        ↔ (◌≡◌ {A = ℕ} 10 (2 * 8)))
split_leftover_iff_example =
    split_leftover_iff heap ten 8 (omega arith) (omega arith) (omega arith) (omega arith)
