-- ===== src/Memory/Paging/Allocate/Entries.antt =====
-- The entries after `__allocate_entry` of lethe-kernel/memory/paging.c.
use native.Mathlib.Decide.{ℕ_discrete}
use uefi_bare_bones.Prelude.{
  ℕ, ◌+◌, ◌%◌, ◌^◌, ◌<◌, ◌≡◌, refl, ap, ◌≢◌, ◌∙◌, true, false, ◌&&◌, arith, ◌==◌, if◌then◌else◌,
  u64,
}
use uefi_bare_bones.Memory.FrameAllocator.{FrameAllocator}
use uefi_bare_bones.Memory.Paging.{
  PageEntry, Paging, no_entry, physical, child, set_entry, write_entry, clear_table,
}
use uefi_bare_bones.Memory.Paging.Walk.{physical-set_entry}

-- Where the frame at address `a` is read.
abbrev pub seen_at : Paging → ℕ → ℕ
seen_at s a = u64 (a + s.hhdm_mapping)

-- The state with the frame at `a` as the table that entry `i` of `t` leads to.
abbrev pub extended : Paging → ℕ → ℕ → ℕ → ℕ → FrameAllocator → Paging
extended s t i a flags al =
    write_entry (clear_table (record s { allocator = al }) (seen_at s a)) t i (set_entry a flags)

-- The level of each table, the new one included.
abbrev pub relevel : (ℕ → ℕ) → ℕ → ℕ → ℕ → ℕ
relevel level f k u = if u == f then k else level u

pub relevel_self : (level : ℕ → ℕ) (f k : ℕ) → relevel level f k f ≡ k
relevel_self level f k = let e : (f == f) ≡ true = ground arith in rw e refl

pub relevel_ne : (level : ℕ → ℕ) (f k u : ℕ) → u ≢ f → relevel level f k u ≡ level u
relevel_ne level f k u n = let e : (u == f) ≡ false = ground arith in rw e refl

module _ (s : Paging) (t i a flags : ℕ) (al : FrameAllocator) where
  pub entry_here : (extended s t i a flags al).tables t i ≡ set_entry a flags
  entry_here = let e : (t == t && i == i) ≡ true = ground arith in rw e refl

  pub entry_fresh :
      (j : ℕ) → seen_at s a ≢ t → (extended s t i a flags al).tables (seen_at s a) j ≡ no_entry
  entry_fresh j n =
      let e : (seen_at s a == t && j == i) ≡ false = ground arith in
      let f : (seen_at s a == seen_at s a) ≡ true = ground arith in rw (e, f) refl

  pub entry_other :
      (u j : ℕ)
      → u ≢ seen_at s a
      → (u ≡ t → j ≢ i)
      → (extended s t i a flags al).tables u j ≡ s.tables u j
  entry_other u j n out = elim (ℕ_discrete u t) [
    | yes q ↦
        let nj = out q in
        let e : (u == t && j == i) ≡ false = ground arith in
        let f : (u == seen_at s a) ≡ false = ground arith in rw (e, f) refl
    | no nu ↦
        let e : (u == t && j == i) ≡ false = ground arith in
        let f : (u == seen_at s a) ≡ false = ground arith in rw (e, f) refl
  ]

  pub child_here : a % 4096 ≡ 0 → a < 2 ^ 52 → child (extended s t i a flags al) t i ≡ seen_at s a
  child_here e lt =
      ap (λ (x : PageEntry). u64 (physical x + s.hhdm_mapping)) entry_here
      ∙ ap (λ (x : ℕ). u64 (x + s.hhdm_mapping)) (physical-set_entry a flags e lt)

  pub child_other :
      (u j : ℕ)
      → u ≢ seen_at s a
      → (u ≡ t → j ≢ i)
      → child (extended s t i a flags al) u j ≡ child s u j
  child_other u j n out =
      ap (λ (x : PageEntry). u64 (physical x + s.hhdm_mapping)) (entry_other u j n out)
