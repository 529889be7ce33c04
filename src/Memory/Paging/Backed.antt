-- ===== src/Memory/Paging/Backed.antt =====
-- A new page of the heap in lethe-kernel/memory/list_allocator.c: `allocate_frame`, which clears the
-- frame, and `map_page`.
use mathlib.Core.Path.{subst}
use native.Mathlib.Decide.{ℕ_discrete}
use uefi_bare_bones.Prelude.{
  ℕ, zero, suc, ◌+◌, ◌<◌, ◌≡◌, refl, sym, ap, ◌≢◌, ◌∙◌, false, List, ◌∷◌, arith, ◌==◌,
  if◌then◌else◌, length, u64,
}
use uefi_bare_bones.Memory.FrameAllocator.{
  FrameAllocator, Outcome, done, panic, too_deep, allocate_frame,
}
use uefi_bare_bones.Memory.FrameAllocator.Laws.{IsValid, free_frames, Allocates, frame, exhausted}
use uefi_bare_bones.Memory.FrameAllocator.Refine.{allocate_frame-Allocates}
use uefi_bare_bones.Memory.Paging.{
  PageEntry, Paging, physical, child, table_index, map_page, virtual_to_physical, clear_table,
}
use uefi_bare_bones.Memory.Paging.Walk.{
  walk, walk_absent, walk_down, virtual_to_physical_lem, table_index-lt,
}
use uefi_bare_bones.Memory.Paging.Levels.{IsPaging, AreFresh}
use uefi_bare_bones.Memory.Paging.Pages.{Maps, MapsOrFull, maps, no_tables, map_page-MapsOrFull}

-- One round of the loop: `PAGE_WRITABLE | PAGE_PRESENT` is 3.
pub use_page : Paging → ℕ → ℕ → FrameAllocator → Outcome Paging
use_page s page address allocator =
    let cleared =
      clear_table (record s { allocator = allocator }) (u64 (address + s.hhdm_mapping)) in
    let mapped = map_page cleared page address 3 in if address == 0 then panic else mapped

pub back_page : Paging → ℕ → Outcome Paging
unfolding use_page
back_page s page = elim (allocate_frame s.allocator) [
  | done (address, allocator) ↦ use_page s page address allocator
  | panic ↦ panic
  | too_deep ↦ too_deep
]

-- What a round comes to: the page is mapped to the first free frame, or fewer than four frames are
-- free, one for the page and one for a table at each of three levels.
pub data Backs (s : Paging) (page : ℕ) : Outcome Paging → Type 0 where
  backs :
      (first : ℕ) (others : List ℕ) (s' : Paging) (level' : ℕ → ℕ)
      → free_frames s.allocator ≡ first ∷ others
      → IsPaging s' level'
      → Maps s page first s'
      → Backs s page (done s')
  few_frames : length (free_frames s.allocator) < 4 → Backs s page panic

-- A frame that is no table is cleared, and taken from the free frames.
module _ (s : Paging) (level : ℕ → ℕ) (v : IsPaging s level) (a : ℕ) (al : FrameAllocator)
    (new : level (u64 (a + s.hhdm_mapping)) ≡ 0) where
  abbrev taken : Paging
  taken = clear_table (record s { allocator = al }) (u64 (a + s.hhdm_mapping))

  same_entry : (t n i : ℕ) → level t ≡ suc n → taken.tables t i ≡ s.tables t i
  same_entry t n i h =
      let apart : t ≢ u64 (a + s.hhdm_mapping) = (λ e. omega (arith, new, h, ap level e)) in
      let b : (t == u64 (a + s.hhdm_mapping)) ≡ false = ground arith in rw b refl

  same_child : (t n i : ℕ) → level t ≡ suc n → child taken t i ≡ child s t i
  same_child t n i h =
      ap (λ (x : PageEntry). u64 (physical x + s.hhdm_mapping)) (same_entry t n i h)

  taken-IsPaging :
      IsValid al → AreFresh s.hhdm_mapping level (free_frames al) → IsPaging taken level
  taken-IsPaging valid fresh = record {
    root = v.root;
    below = λ t k i h l p.
        let (b, c) = v.below t k i h l (λ z. p (present_of t (suc k) i h ∙ z)) in
        (ap level (same_child t (suc k) i h) ∙ b, λ z. c (sym (physical_of t (suc k) i h) ∙ z));
    absent = λ t k i h l p.
        physical_of t (suc k) i h ∙ v.absent t k i h l (sym (present_of t (suc k) i h) ∙ p);
    unique = λ t k i t' k' i' h h' l l' p p' e.
        v.unique t k i t' k' i' h h' l l' (λ z. p (present_of t (suc k) i h ∙ z))
          (λ z. p' (present_of t' (suc k') i' h' ∙ z))
          (sym (same_child t (suc k) i h) ∙ e ∙ same_child t' (suc k') i' h');
    leaf =
        λ t i h p z. v.leaf t i h (λ q. p (present_of t 0 i h ∙ q)) (sym (physical_of t 0 i h) ∙ z);
    leaf_absent =
        λ t i h p. physical_of t 0 i h ∙ v.leaf_absent t i h (sym (present_of t 0 i h) ∙ p);
    frames = valid;
    fresh = fresh;
  }
    where
      present_of :
          (t n i : ℕ) → level t ≡ suc n → (taken.tables t i).present ≡ (s.tables t i).present
      present_of t n i h = ap (λ (x : PageEntry). x.present) (same_entry t n i h)

      physical_of :
          (t n i : ℕ) → level t ≡ suc n → physical (taken.tables t i) ≡ physical (s.tables t i)
      physical_of t n i h = ap (λ (x : PageEntry). physical x) (same_entry t n i h)

  walk-taken : (k t virtual : ℕ) → level t ≡ suc k → walk k taken t virtual ≡ walk k s t virtual
  unfolding walk
  walk-taken zero t virtual h =
      ap (λ (x : PageEntry). physical x) (same_entry t 0 (table_index 0 virtual) h)
  walk-taken (suc k) t virtual h =
      let i = table_index (suc k) virtual in
      let e : physical (taken.tables t i) ≡ physical (s.tables t i) =
        ap (λ (x : PageEntry). physical x) (same_entry t (suc k) i h) in
      elim (ℕ_discrete (physical (s.tables t i)) 0) [
        | yes z ↦
            walk_absent (suc k) taken t virtual (e ∙ z) ∙ sym (walk_absent (suc k) s t virtual z)
        | no nz ↦
            let (b, _) =
              v.below t k i h (table_index-lt (suc k) virtual)
                (λ q. nz (v.absent t k i h (table_index-lt (suc k) virtual) q)) in
            walk_down k taken t virtual (λ q. nz (sym e ∙ q))
            ∙ ap (λ (x : ℕ). walk k taken x virtual) (same_child t (suc k) i h)
            ∙ walk-taken k (child s t i) virtual b
            ∙ sym (walk_down k s t virtual nz)
      ]

  taken-translates :
      (virtual : ℕ) → virtual_to_physical taken virtual ≡ virtual_to_physical s virtual
  taken-translates virtual =
      virtual_to_physical_lem taken virtual
      ∙ walk-taken 3 s.page_table virtual v.root
      ∙ sym (virtual_to_physical_lem s virtual)

  -- The page that was not mapped before is mapped, or the tables find no frame.
  mapped-Backs :
      (page : ℕ)
      → free_frames s.allocator ≡ a ∷ free_frames al
      → (o : Outcome Paging) → MapsOrFull taken page a o
      → Backs s page o
  mapped-Backs page e (done s') (maps _ level' tree m) =
      backs a (free_frames al) s' level' e tree (record {
        translates = m.translates;
        others = λ virtual n. m.others virtual n ∙ taken-translates virtual;
        flushes = m.flushes;
      })
  mapped-Backs page e panic (no_tables few) =
      few_frames (omega (arith, ap (λ (x : List ℕ). length x) e))
  mapped-Backs page e too_deep none_fits = elim none_fits [ ]

module _ (s : Paging) (level : ℕ → ℕ) (v : IsPaging s level) (page : ℕ)
    (free : virtual_to_physical s page ≡ 0) where
  use_page-Backs :
      (a : ℕ) (al : FrameAllocator)
      → IsValid al
      → free_frames s.allocator ≡ a ∷ free_frames al
      → AreFresh s.hhdm_mapping level (a ∷ free_frames al)
      → Backs s page (use_page s page a al)
  unfolding use_page
  use_page-Backs a al valid e (f0, f4, f52, new, _, fresh) =
      let some_frame : (a == 0) ≡ false = ground arith in
      let tables = taken-IsPaging s level v a al new valid fresh in
      let before = taken-translates s level v a al new page in
      rw some_frame (
        mapped-Backs s level v a al new page e (map_page (taken s level v a al new) page a 3) (
          map_page-MapsOrFull (taken s level v a al new) level tables page a 3 refl f0 f4 f52
            (before ∙ free)))

  allocated-Backs :
      (o : Outcome (ℕ × FrameAllocator))
      → allocate_frame s.allocator ≡ o
      → Allocates s.allocator o
      → Backs s page (back_page s page)
  unfolding back_page
  allocated-Backs (done (a, al)) q (frame _ _ valid e) =
      rw (q, back_page)
        (use_page-Backs a al valid e (subst (AreFresh s.hhdm_mapping level) e v.fresh))
  allocated-Backs panic q (exhausted e) =
      rw (q, back_page) (few_frames (omega (arith, ap (λ (x : List ℕ). length x) e)))
  allocated-Backs too_deep q none_fits = elim none_fits [ ]

  -- With well-formed tables, a page without a translation is mapped to the first free frame, or
  -- fewer than four frames are free.
  pub back_page-Backs : Backs s page (back_page s page)
  back_page-Backs =
      allocated-Backs (allocate_frame s.allocator) refl
        (allocate_frame-Allocates s.allocator v.frames)
