-- ===== src/Memory/FrameAllocator.antt =====
-- lethe-kernel/memory/initial_frame_allocator.c: physical frames handed out from the usable entries
-- of the boot loader's memory map, one entry after the other. Clearing the frame changes no state of
-- the allocator and is a part of Memory.Paging.
pub mod Laws
pub mod Refine
mod Tests
use uefi_bare_bones.Prelude.{
  ℕ, zero, suc, ◌+◌, ◌-◌, Bool, true, false, Option, none, some, List, [], ◌∷◌, ltb, ◌==◌,
  if◌then◌else◌, length, sub64, u64,
}

-- `struct limine_memmap_entry`
pub record MemmapEntry : Type 0 where
  pub base : ℕ
  pub length : ℕ
  pub type : ℕ

-- `LIMINE_MEMMAP_USABLE`, `KERNEL_USED`, `PAGE_SIZE`
abbrev pub memmap_usable : ℕ
memmap_usable = 0

abbrev pub kernel_used : ℕ
kernel_used = 0xA9

abbrev pub page_size : ℕ
page_size = 4096

-- `frame_t`
pub record Frame : Type 0 where
  pub start : Bool
  pub base : ℕ
  pub length : ℕ

-- `frame_allocator_t`
pub record FrameAllocator : Type 0 where
  pub memory_map : List MemmapEntry
  pub next : Frame

-- How a call ends: with a result, in a `panic`, or with its recursion deeper than the fuel.
pub data Outcome (A : Type 0) : Type 0 where
  done : A → Outcome A
  panic too_deep : Outcome A

-- The loop of `next_usable`: the first usable entry, and the map with that entry marked.
pub claim : List MemmapEntry → Option (MemmapEntry × List MemmapEntry)
claim [] = none
claim (entry ∷ entries) = elim (entry.type == memmap_usable) [
  | true ↦ some (entry, record entry { type = kernel_used } ∷ entries)
  | false ↦ elim (claim entries) [ none ↦ none | some (found, rest) ↦ some (found, entry ∷ rest) ]
]

pub next_usable : FrameAllocator → Outcome FrameAllocator
next_usable allocator = elim (claim allocator.memory_map) [
  | none ↦ panic
  | some (entry, entries) ↦ done (record {
    memory_map = entries;
    next = record { start = false; base = entry.base; length = entry.length };
  })
]

-- The frame at address 0 is passed over.
pub skip_zero : Frame → Frame
skip_zero next =
    if next.base == 0
    then record next { base = next.base + 4096; length = sub64 next.length 4096 }
    else next

-- The tail of `allocate_frame`, where the current entry has a frame.
pub take_frame : FrameAllocator → ℕ × FrameAllocator
take_frame allocator = (
  allocator.next.base,
  record allocator {
    next = record allocator.next {
      base = u64 (allocator.next.base + 4096);
      length = allocator.next.length - 4096;
    };
  },
)

-- `allocate_frame`; 0 where the allocator has not been set up. The recursive call follows
-- `next_usable`, hence the fuel.
pub allocate : ℕ → FrameAllocator → Outcome (ℕ × FrameAllocator)
allocate zero allocator = too_deep
allocate (suc fuel) allocator =
    let allocator' = record allocator { next = skip_zero allocator.next } in
    elim allocator.next.start [
      | true ↦ done (0, allocator)
      | false ↦ elim (ltb allocator'.next.length 4096) [
        | false ↦ done (take_frame allocator')
        | true ↦ elim (next_usable allocator') [
          | done following ↦ allocate fuel following
          | panic ↦ panic
          | too_deep ↦ too_deep
        ]
      ]
    ]

-- Each recursion marks an entry, so one call for each entry and one more are enough.
pub allocate_frame : FrameAllocator → Outcome (ℕ × FrameAllocator)
unfolding allocate
allocate_frame allocator = allocate (length allocator.memory_map + 1) allocator

pub init_frame_allocator : List MemmapEntry → Outcome FrameAllocator
unfolding next_usable
init_frame_allocator memory_map =
    next_usable
      (record { memory_map = memory_map; next = record { start = true; base = 0; length = 0 } })
