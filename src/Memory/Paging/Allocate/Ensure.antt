-- ===== src/Memory/Paging/Allocate/Ensure.antt =====
-- The upper levels of `map_page` in lethe-kernel/memory/paging.c: each has its entry when it is
-- passed.
use mathlib.Core.Path.{subst}
use native.Mathlib.Decide.{ℕ_discrete}
use uefi_bare_bones.Prelude.{
  ℕ, suc, ◌+◌, ◌%◌, ◌≤◌, ◌<◌, ◌≡◌, refl, ap, ◌≢◌, ◌∙◌, true, false, List, [], ◌∷◌, arith, ◌==◌,
  length,
}
use uefi_bare_bones.Memory.FrameAllocator.{
  FrameAllocator, Outcome, done, panic, too_deep, allocate_frame,
}
use uefi_bare_bones.Memory.FrameAllocator.Laws.{IsValid, free_frames, Allocates, frame, exhausted}
use uefi_bare_bones.Memory.FrameAllocator.Refine.{allocate_frame-Allocates}
use uefi_bare_bones.Memory.Paging.{
  PageEntry, Paging, child, use_frame, allocate_entry, ensure_entry,
}
use uefi_bare_bones.Memory.Paging.Walk.{walk, present-set_entry}
use uefi_bare_bones.Memory.Paging.Levels.{IsPaging, AreFresh}
use uefi_bare_bones.Memory.Paging.Allocate.Entries.{
  seen_at, extended, relevel, relevel_ne, entry_here, entry_other,
}
use uefi_bare_bones.Memory.Paging.Allocate.Tree.{HasRoom, not_fresh}
use uefi_bare_bones.Memory.Paging.Allocate.Fresh.{extended-IsPaging, walk-extended}

-- The tables have grown, and all that was there still is.
pub record Grown (s : Paging) (level : ℕ → ℕ) (s' : Paging) (level' : ℕ → ℕ) : Type 0 where
  pub tree : IsPaging s' level'
  pub root : s'.page_table ≡ s.page_table
  pub mapping : s'.hhdm_mapping ≡ s.hhdm_mapping
  pub flushes : s'.flushed ≡ s.flushed
  pub levels : (u n : ℕ) → level u ≡ suc n → level' u ≡ suc n
  pub kept :
      (u n j : ℕ) → level u ≡ suc n → (s.tables u j).present ≢ 0 → s'.tables u j ≡ s.tables u j
  pub walks : (k u virtual : ℕ) → level u ≡ suc k → walk k s' u virtual ≡ walk k s u virtual
  pub left : length (free_frames s.allocator) ≤ length (free_frames s'.allocator) + 1

pub Grown-refl : (s : Paging) (level : ℕ → ℕ) → IsPaging s level → Grown s level s level
Grown-refl s level v = record {
  tree = v;
  root = refl;
  mapping = refl;
  flushes = refl;
  levels = λ u n h. h;
  kept = λ u n j h p. refl;
  walks = λ k u virtual h. refl;
  left = omega arith;
}

extended-Grown :
    (s : Paging) (level : ℕ → ℕ) (t k i a flags : ℕ) (al : FrameAllocator) (v : IsPaging s level)
    → (r : HasRoom s level t k i a flags) → IsValid al
    → AreFresh s.hhdm_mapping level (a ∷ free_frames al)
    → free_frames s.allocator ≡ a ∷ free_frames al
    → Grown s level (extended s t i a flags al) (relevel level (seen_at s a) (suc k))
extended-Grown s level t k i a flags al v r valid (_, _, _, _, misses, fresh) e = record {
  tree = extended-IsPaging s level v t k i a flags al r valid misses fresh;
  root = refl;
  mapping = refl;
  flushes = refl;
  levels = λ u n h.
      relevel_ne level (seen_at s a) (suc k) u (not_fresh s level v t k i a flags al r u n h) ∙ h;
  kept = λ u n j h p.
      entry_other s t i a flags al u j (not_fresh s level v t k i a flags al r u n h) (λ eu ej. p (
        ap (λ (x : ℕ). (s.tables x j).present) eu
        ∙ ap (λ (x : ℕ). (s.tables t x).present) ej
        ∙ r.gone));
  walks = walk-extended s level v t k i a flags al r;
  left = omega (arith, ap (λ (x : List ℕ). length x) e);
}

-- What `ensure_entry` comes to.
pub data Ensures (s : Paging) (level : ℕ → ℕ) (t k i : ℕ) : Outcome Paging → Type 0 where
  ensured :
      (s' : Paging) (level' : ℕ → ℕ)
      → Grown s level s' level'
      → (s'.tables t i).present ≢ 0
      → level' (child s' t i) ≡ suc k
      → Ensures s level t k i (done s')
  no_frame : free_frames s.allocator ≡ [] → Ensures s level t k i panic

use_frame_runs :
    (s : Paging) (t i flags a : ℕ) (al : FrameAllocator)
    → a ≢ 0
    → use_frame s t i flags a al ≡ done (extended s t i a flags al)
unfolding use_frame
use_frame_runs s t i flags a al n = let e : (a == 0) ≡ false = ground arith in rw e refl

module _ (s : Paging) (level : ℕ → ℕ) (v : IsPaging s level) (t k i flags : ℕ)
    (ht : level t ≡ suc (suc k)) (hi : i < 512) (odd : flags % 2 ≡ 1) where
  with_frame :
      (gone : (s.tables t i).present ≡ 0) (a : ℕ) (al : FrameAllocator)
      → IsValid al
      → free_frames s.allocator ≡ a ∷ free_frames al
      → AreFresh s.hhdm_mapping level (a ∷ free_frames al)
      → Ensures s level t k i (use_frame s t i flags a al)
  with_frame gone a al valid e (f0, f4, f52, new, misses, fresh) =
      let room : HasRoom s level t k i a flags = record {
        table = ht;
        entry = hi;
        gone = gone;
        some_frame = f0;
        boundary = f4;
        small = f52;
        present_flag = odd;
        new = new;
      } in
      let grown =
        extended-Grown s level t k i a flags al v room valid (f0, f4, f52, new, misses, fresh) e in
      let set : ((extended s t i a flags al).tables t i).present ≡ 1 =
        ap (λ (x : PageEntry). x.present) (entry_here s t i a flags al)
        ∙ present-set_entry a flags odd in
      let on : ((extended s t i a flags al).tables t i).present ≢ 0 = omega (arith, set) in
      rw (use_frame_runs s t i flags a al f0) (
        ensured (extended s t i a flags al) (relevel level (seen_at s a) (suc k)) grown on
          (grown.tree.below t k i (grown.levels t (suc k) ht) hi on).0)

  allocated :
      (gone : (s.tables t i).present ≡ 0) (o : Outcome (ℕ × FrameAllocator))
      → allocate_frame s.allocator ≡ o
      → Allocates s.allocator o
      → Ensures s level t k i (allocate_entry s t i flags)
  unfolding allocate_entry
  allocated gone (done (a, al)) q (frame _ _ valid e) =
      let fresh : AreFresh s.hhdm_mapping level (a ∷ free_frames al) =
        subst (AreFresh s.hhdm_mapping level) e v.fresh in
      rw (q, allocate_entry) (with_frame gone a al valid e fresh)
  allocated gone too_deep q none_fits = elim none_fits [ ]
  allocated gone panic q (exhausted e) = rw (q, allocate_entry) (no_frame e)

  pub ensure_entry-Ensures : Ensures s level t k i (ensure_entry s t i flags)
  unfolding ensure_entry
  ensure_entry-Ensures = elim (ℕ_discrete (s.tables t i).present 0) [
    | yes gone ↦
        let e : ((s.tables t i).present == 0) ≡ true = ground arith in
        rw e (
          allocated gone (allocate_frame s.allocator) refl
            (allocate_frame-Allocates s.allocator v.frames))
    | no on ↦
        let e : ((s.tables t i).present == 0) ≡ false = ground arith in
        rw e (ensured s level (Grown-refl s level v) on (v.below t k i ht hi on).0)
  ]
