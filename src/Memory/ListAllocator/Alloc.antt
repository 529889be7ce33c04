-- ===== src/Memory/ListAllocator/Alloc.antt =====
-- `list_alloc` of lethe-kernel/memory/list_allocator.c: which block it gives, when the heap grows,
-- and where the pages that are too many end up.
use uefi_bare_bones.Prelude.{
  ℕ, ◌+◌, ◌-◌, ◌*◌, ◌^◌, ◌≤◌, ◌<◌, ◌≡◌, refl, ◌↔◌, ◌⊎◌, inl, true, List, ◌∷◌, ◌++◌, arith, ltb, u64,
}
use uefi_bare_bones.Memory.FrameAllocator
use uefi_bare_bones.Memory.FrameAllocator.{done, panic}
use uefi_bare_bones.Memory.Paging.{Paging}
use uefi_bare_bones.Memory.ListAllocator.{
  Region, Heap, Outcome, returns, panics, page_size, page_bytes, split,
}
use uefi_bare_bones.Memory.ListAllocator.FirstFit.{AllSmaller, FirstFit}
use uefi_bare_bones.Memory.ListAllocator.Growth.{Grows}

-- Addresses of a region's first byte and of the byte after its last.
abbrev pub region_end : Region → ℕ
region_end r = r.addr + r.pages * page_size

-- `inner` lies within `outer`.
abbrev pub Within : Region → Region → Type 0
Within inner outer = (outer.addr ≤ inner.addr) × (region_end inner ≤ region_end outer)

abbrev pub Disjoint : Region → Region → Type 0
Disjoint a b = (region_end a ≤ b.addr) ⊎ (region_end b ≤ a.addr)

-- What `list_alloc` does with a request for `pages` pages.
pub data Allocates (heap : Heap) (pages : ℕ) : Outcome (ℕ × Heap) → Type 0 where
  from_list :
      (before : List Region) (region : Region) (after : List Region)
      → heap.regions ≡ before ++ (region ∷ after)
      → AllSmaller pages before
      → pages ≤ region.pages
      → Allocates heap pages
          (returns (split (record heap { regions = before ++ after }) region pages))
  from_growth :
      (s : Paging)
      → AllSmaller pages heap.regions
      → Grows (pages + 1) (heap.heap_end + 4096) heap.paging (done s)
      → Allocates heap pages (
          returns (
            heap.heap_end + 4096,
            record heap { heap_end = heap.heap_end + 4096 + 4096 * pages; paging = s },
          ))
  no_memory :
      AllSmaller pages heap.regions
      → Grows (pages + 1) (heap.heap_end + 4096) heap.paging panic
      → Allocates heap pages panics

-- The product of ints is the number of bytes for fewer than 2 ^ 19 pages.
page_bytes_lem : (pages : ℕ) → pages < 2 ^ 19 → page_bytes pages ≡ 4096 * pages
unfolding page_bytes
page_bytes_lem pages h = ground arith

-- In a region of fewer than 2 ^ 19 pages, the region that goes back after a block has been cut from
-- it lies within that region and apart from the block exactly when the region is twice as large as
-- the block: its address is computed from the number of pages left over and not from those given
-- out.
pub split_leftover_iff :
    (heap : Heap) (region : Region) (pages : ℕ)
    → pages < region.pages
    → 0 < pages
    → region.pages < 2 ^ 19
    → region_end region < 2 ^ 64
    → (leftover : Region) × (split heap region pages
        ≡ (region.addr, record heap { regions = leftover ∷ heap.regions }))
      × ((Within leftover region × Disjoint (record { addr = region.addr; pages = pages }) leftover)
          ↔ (region.pages ≡ 2 * pages))
unfolding split
split_leftover_iff heap region pages more some_pages few below =
    let excess = page_bytes_lem (region.pages - pages) (omega arith) in
    let leftover : Region = record {
      addr = region.addr + (region.pages - pages) * 4096;
      pages = region.pages - pages;
    } in
    let starts : u64 (region.addr + 4096 * (region.pages - pages)) ≡ leftover.addr = omega arith in
    let some_left : ltb 0 (region.pages - pages) ≡ true = ground arith in
    (
      leftover,
      rw (excess, starts, some_left) refl,
      (λ (w, d). omega arith, λ e. ((omega arith, omega arith), inl (omega arith))),
    )
