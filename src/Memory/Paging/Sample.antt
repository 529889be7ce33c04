-- ===== src/Memory/Paging/Sample.antt =====
-- The state of lethe-kernel/memory/paging.c with an empty root, for the tests.
use uefi_bare_bones.Prelude.{ℕ, ◌≡◌, refl, false, [], arith, ◌==◌, if◌then◌else◌}
use uefi_bare_bones.Memory.FrameAllocator.{FrameAllocator}
use uefi_bare_bones.Memory.FrameAllocator.Laws.{IsValid}
use uefi_bare_bones.Memory.Paging.{Paging, no_entry, virtual_to_physical}
use uefi_bare_bones.Memory.Paging.Levels.{IsPaging}

-- Eight free frames from 0x5000 on.
abbrev eight_frames : FrameAllocator
eight_frames = record {
  memory_map = [];
  next = record { start = false; base = 0x5000; length = 0x8000 };
}

eight_frames-IsValid : IsValid eight_frames
eight_frames-IsValid = record {
  started = refl;
  current = record { ends = omega arith; first = λ h. absurd (omega arith) };
  entries = tt;
}

abbrev pub empty_root : Paging
empty_root = record {
  page_table = 0xFFFF800000001000;
  hhdm_mapping = 0xFFFF800000000000;
  tables = λ t i. no_entry;
  allocator = eight_frames;
  flushed = [];
}

abbrev pub root_level : ℕ → ℕ
root_level t = if t == 0xFFFF800000001000 then 4 else 0

pub empty_root-IsPaging : IsPaging empty_root root_level
empty_root-IsPaging = record {
  root = refl;
  below = λ t k i h lt p. absurd (p refl);
  absent = λ t k i h lt p. refl;
  unique = λ t k i t' k' i' h h' lt lt' p p' e. absurd (p refl);
  leaf = λ t i h p. absurd (p refl);
  leaf_absent = λ t i h p. refl;
  frames = eight_frames-IsValid;
  fresh = omega arith;
}

pub all_unmapped : (virtual : ℕ) → virtual_to_physical empty_root virtual ≡ 0
unfolding virtual_to_physical
all_unmapped virtual = refl
