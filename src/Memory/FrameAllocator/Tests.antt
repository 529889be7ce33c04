-- ===== src/Memory/FrameAllocator/Tests.antt =====
-- lethe-kernel/memory/initial_frame_allocator.c at a memory map of three entries.
use uefi_bare_bones.Prelude.{◌≡◌, refl, false, List, [], ◌∷◌, arith}
use uefi_bare_bones.Memory.FrameAllocator.{MemmapEntry, FrameAllocator, allocate_frame}
use uefi_bare_bones.Memory.FrameAllocator.Laws.{free_frames, AreStretches, IsValid, Allocates}
use uefi_bare_bones.Memory.FrameAllocator.Refine.{allocate_frame-Allocates}

-- Two frames at address 0, a reserved entry, one frame and a half.
abbrev entries : List MemmapEntry
entries =
    record { base = 0; length = 8192; type = 0 }
    ∷ record { base = 8192; length = 4096; type = 1 }
    ∷ record { base = 16384; length = 6144; type = 0 }
    ∷ []

entries-AreStretches : AreStretches entries
entries-AreStretches = omega arith

-- The allocator after the frame of the first entry has been taken.
abbrev spent : FrameAllocator
spent = record {
  memory_map =
      record { base = 0; length = 8192; type = 0xA9 }
      ∷ record { base = 8192; length = 4096; type = 1 }
      ∷ record { base = 16384; length = 6144; type = 0 }
      ∷ [];
  next = record { start = false; base = 8192; length = 0 };
}

spent-IsValid : IsValid spent
spent-IsValid = record {
  started = refl;
  current = record { ends = omega arith; first = λ h. absurd (omega arith) };
  entries = omega arith;
}

free_frames-spent : free_frames spent ≡ 16384 ∷ []
free_frames-spent = refl

allocate_frame-Allocates_example : Allocates spent (allocate_frame spent)
allocate_frame-Allocates_example = allocate_frame-Allocates spent spent-IsValid
