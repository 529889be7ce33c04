-- ===== src/Memory/ListAllocator.antt =====
-- lethe-kernel/memory/list_allocator.c and the hooks of alloc.c: whole pages for liballoc, from a
-- list of free regions. A node of the list stands in the first bytes of its region; the list is
-- modelled as its regions in order, so what the owner of a block writes is not in the model. New
-- pages come from the frame allocator and the page tables of Memory.Paging.
pub mod FirstFit
pub mod Growth
pub mod Alloc
mod Tests
use uefi_bare_bones.Prelude.{
  ℕ, zero, suc, ◌+◌, ◌-◌, ◌*◌, ◌/◌, ◌%◌, ◌^◌, Bool, true, false, Option, none, some, List, [], ◌∷◌,
  ltb, if◌then◌else◌, u64,
}
use uefi_bare_bones.Memory.FrameAllocator
use uefi_bare_bones.Memory.FrameAllocator.{done, panic, too_deep}
use uefi_bare_bones.Memory.Paging
use uefi_bare_bones.Memory.Paging.{Paging}
use uefi_bare_bones.Memory.Paging.Backed.{back_page}

-- `list_node_t`, with its address.
pub record Region : Type 0 where
  pub addr : ℕ
  pub pages : ℕ

-- The variables of list_allocator.c, and those of paging.c and initial_frame_allocator.c.
pub record Heap : Type 0 where
  pub regions : List Region
  pub heap_end : ℕ
  pub paging : Paging

-- How a call ends: with a result, in a `panic` of its own or of what it calls, in `abort`, or with
-- the fuel of the frame allocator used up.
pub data Outcome (A : Type 0) : Type 0 where
  returns : A → Outcome A
  panics aborts exhausts : Outcome A

infixl 5 ◌>>=◌
abbrev pub ◌>>=◌ : {A B : Type 0} → Outcome A → (A → Outcome B) → Outcome B
returns a >>= f = f a
panics >>= f = panics
aborts >>= f = aborts
exhausts >>= f = exhausts

abbrev pub lift_outcome : {A : Type 0} → FrameAllocator.Outcome A → Outcome A
lift_outcome (done a) = returns a
lift_outcome panic = panics
lift_outcome too_deep = exhausts

abbrev pub page_size : ℕ
page_size = 4096

pub set_heap_end : Heap → ℕ → Heap
set_heap_end heap val = record heap { heap_end = val }

abbrev pub add_region : Heap → ℕ → ℕ → Heap
add_region heap start pages = record heap {
  regions = record { addr = start; pages = pages } ∷ heap.regions;
}

-- `try_alloc`: whether the region is large enough.
abbrev pub try_alloc : Region → ℕ → Bool
try_alloc region pages = if ltb region.pages pages then false else true

-- The loop of `get_valid_region`: the first region that is large enough, and the list without it.
pub get_valid_region : List Region → ℕ → Option (Region × List Region)
get_valid_region [] pages = none
get_valid_region (region ∷ regions) pages =
    let rest = get_valid_region regions pages in
    elim (try_alloc region pages) [
      | true ↦ some (region, regions)
      | false ↦ elim rest [ none ↦ none | some (found, others) ↦ some (found, region ∷ others) ]
    ]

-- `PAGE_SIZE * pages` is a product of ints, which is then converted to 64 bits; where it overflows,
-- which C leaves undefined, it is taken to wrap around.
unfoldable pub page_bytes : ℕ → ℕ
page_bytes pages =
    let product = page_size * pages % 2 ^ 32 in
    if ltb product (2 ^ 31) then product else 2 ^ 64 - 2 ^ 32 + product

-- How often a loop runs that begins at `start` and runs while `i <= end`, a page at a time.
unfoldable pub loop_rounds : ℕ → ℕ → ℕ
loop_rounds start end = if ltb end start then 0 else (end - start) / page_size + 1

-- `count` rounds of a loop that gives each page from `i` on a frame and maps it.
pub map_pages : ℕ → ℕ → Paging → FrameAllocator.Outcome Paging
map_pages zero i s = done s
map_pages (suc count) i s = Paging.◌>>=◌ (back_page s i) (λ s'. map_pages count (i + page_size) s')

pub increase_heap_size : Heap → ℕ → Outcome Heap
unfolding map_pages page_bytes loop_rounds
increase_heap_size heap pages =
    let heap_start = u64 (heap.heap_end + page_size) in
    let new_heap_end = u64 (heap_start + page_bytes pages) in
    lift_outcome (map_pages (loop_rounds heap_start new_heap_end) heap_start heap.paging) >>= λ s.
    returns (add_region (record heap { heap_end = new_heap_end; paging = s }) heap_start pages)

-- The end of `list_alloc`, with the region found: the pages that it has too many go back.
pub split : Heap → Region → ℕ → ℕ × Heap
unfolding page_bytes
split heap region pages =
    let excess = region.pages - pages in
    let alloc_end = u64 (region.addr + page_bytes excess) in
    (region.addr, if ltb 0 excess then add_region heap alloc_end excess else heap)

pub list_alloc : Heap → ℕ → Outcome (ℕ × Heap)
unfolding increase_heap_size split
list_alloc heap pages = elim (get_valid_region heap.regions pages) [
  | some (region, others) ↦ returns (split (record heap { regions = others }) region pages)
  | none ↦ increase_heap_size heap pages >>= λ larger.
      elim (get_valid_region larger.regions pages) [
        | some (region, others) ↦ returns (split (record larger { regions = others }) region pages)
        | none ↦ aborts
      ]
]

-- `liballoc_free` of alloc.c
pub liballoc_free : Heap → ℕ → ℕ → Heap
liballoc_free heap ptr pages = add_region heap ptr pages
