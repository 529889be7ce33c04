-- ===== src/Memory/ListAllocator/Growth.antt =====
-- The loop of `increase_heap_size` in lethe-kernel/memory/list_allocator.c: the pages it maps.
use uefi_bare_bones.Prelude.{
  ℕ, zero, suc, ◌+◌, ◌*◌, ◌/◌, ◌%◌, ◌^◌, ◌≤◌, ◌<◌, ◌≡◌, ◌≢◌, refl, ap, ◌∙◌, List, ◌∷◌, arith,
  length,
}
use uefi_bare_bones.Memory.FrameAllocator.{Outcome, done, panic, too_deep}
use uefi_bare_bones.Memory.FrameAllocator.Laws.{free_frames}
use uefi_bare_bones.Memory.Paging.{Paging, virtual_to_physical}
use uefi_bare_bones.Memory.Paging.Backed.{Backs, backs, few_frames, back_page, back_page-Backs}
use uefi_bare_bones.Memory.Paging.Levels.{IsPaging}
use uefi_bare_bones.Memory.Paging.Pages.{Maps}
use uefi_bare_bones.Memory.ListAllocator.{map_pages}

-- From page `i` on each page in turn is mapped to the first of the free frames, `count` of them, or
-- up to one at which fewer than four frames are free.
pub data Grows : ℕ → ℕ → Paging → Outcome Paging → Type 0 where
  all_backed : (i : ℕ) (s : Paging) (level : ℕ → ℕ) → IsPaging s level → Grows 0 i s (done s)
  next_backed :
      (count i first : ℕ) (others : List ℕ) (s s' : Paging) (o : Outcome Paging)
      → free_frames s.allocator ≡ first ∷ others
      → Maps s i first s'
      → Grows count (i + 4096) s' o
      → Grows (suc count) i s o
  none_left :
      (count i : ℕ) (s : Paging)
      → length (free_frames s.allocator) < 4
      → Grows (suc count) i s panic

pub Grows-ends : (count i : ℕ) (s : Paging) → Grows count i s too_deep → ⊥
Grows-ends _ _ s (next_backed count i _ _ _ s' _ _ _ g) = Grows-ends count (i + 4096) s' g

-- No page from `i` on has a translation, `count` of them.
abbrev pub AreUnmapped : ℕ → ℕ → Paging → Type 0
AreUnmapped count i s = (k : ℕ) → k < count → virtual_to_physical s (i + k * 4096) ≡ 0

AreUnmapped-Maps :
    (count i frame : ℕ) (s s' : Paging)
    → count ≤ 2 ^ 20
    → AreUnmapped (suc count) i s
    → Maps s i frame s'
    → AreUnmapped count (i + 4096) s'
AreUnmapped-Maps count i frame s s' few free m k l =
    let apart : (i + 4096 + k * 4096) / 4096 % 2 ^ 36 ≢ i / 4096 % 2 ^ 36 =
      (λ e. absurd (omega arith)) in
    let same : i + 4096 + k * 4096 ≡ i + suc k * 4096 = omega arith in
    m.others (i + 4096 + k * 4096) apart
    ∙ ap (virtual_to_physical s) same
    ∙ free (suc k) (omega arith)

grow_step :
    (count i : ℕ) (s : Paging) (o : Outcome Paging)
    → back_page s i ≡ o
    → Backs s i o
    → ((frame : ℕ) (s' : Paging) (level' : ℕ → ℕ)
        → IsPaging s' level'
        → Maps s i frame s'
        → Grows count (i + 4096) s' (map_pages count (i + 4096) s'))
    → Grows (suc count) i s (map_pages (suc count) i s)
unfolding map_pages
grow_step count i s (done s') q (backs first others _ level' e tree m) rest = rw q (
    next_backed count i first others s s' (map_pages count (i + 4096) s') e m
      (rest first s' level' tree m))
grow_step count i s panic q (few_frames few) rest = rw q (none_left count i s few)
grow_step count i s too_deep q none_fits rest = elim none_fits [ ]

pub map_pages-Grows :
    (count i : ℕ) (s : Paging) (level : ℕ → ℕ)
    → IsPaging s level
    → count ≤ 2 ^ 20
    → AreUnmapped count i s
    → Grows count i s (map_pages count i s)
map_pages-Grows zero i s level v few free = unfold map_pages in all_backed i s level v
map_pages-Grows (suc count) i s level v few free =
    let first : virtual_to_physical s i ≡ 0 =
      ap (virtual_to_physical s) (let e : i ≡ i + 0 * 4096 = omega arith in e)
      ∙ free 0 (omega arith) in
    grow_step count i s (back_page s i) refl (back_page-Backs s level v i first)
      (λ frame s' level' tree m.
        map_pages-Grows count (i + 4096) s' level' tree (omega arith)
          (AreUnmapped-Maps count i frame s s' (omega arith) free m))
