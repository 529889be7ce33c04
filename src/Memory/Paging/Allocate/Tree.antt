-- ===== src/Memory/Paging/Allocate/Tree.antt =====
-- The tree of tables after `__allocate_entry` of lethe-kernel/memory/paging.c.
use native.Mathlib.Decide.{ℕ_discrete}
use uefi_bare_bones.Prelude.{ℕ, suc, ◌%◌, ◌^◌, ◌<◌, ◌≡◌, sym, ap, ◌≢◌, ◌∙◌, arith}
use uefi_bare_bones.Memory.FrameAllocator.{FrameAllocator}
use uefi_bare_bones.Memory.Paging.{PageEntry, Paging, physical, child}
use uefi_bare_bones.Memory.Paging.Walk.{physical-set_entry, present-set_entry}
use uefi_bare_bones.Memory.Paging.Levels.{IsPaging}
use uefi_bare_bones.Memory.Paging.Allocate.Entries.{
  seen_at, extended, relevel, relevel_self, relevel_ne, entry_here, entry_fresh, entry_other,
  child_here, child_other,
}

-- An entry `i` of a table `t` that is not present, and a frame for it.
pub record HasRoom (s : Paging) (level : ℕ → ℕ) (t k i a flags : ℕ) : Type 0 where
  pub table : level t ≡ suc (suc k)
  pub entry : i < 512
  pub gone : (s.tables t i).present ≡ 0
  pub some_frame : a ≢ 0
  pub boundary : a % 4096 ≡ 0
  pub small : a < 2 ^ 52
  pub present_flag : flags % 2 ≡ 1
  pub new : level (seen_at s a) ≡ 0

module _ (s : Paging) (level : ℕ → ℕ) (v : IsPaging s level) (t k i a flags : ℕ)
    (al : FrameAllocator) (r : HasRoom s level t k i a flags) where
  abbrev after : Paging
  after = extended s t i a flags al

  abbrev level' : ℕ → ℕ
  level' = relevel level (seen_at s a) (suc k)

  pub not_fresh : (u n : ℕ) → level u ≡ suc n → u ≢ seen_at s a
  not_fresh u n h e = omega (arith, r.new, ap level e)

  -- A table other than the new one keeps its level; the new one has no entry that is present.
  old_level : (u n : ℕ) → u ≢ seen_at s a → level' u ≡ n → level u ≡ n
  old_level u n ne h = sym (relevel_ne level (seen_at s a) (suc k) u ne) ∙ h

  no_present : (u j : ℕ) → u ≡ seen_at s a → (after.tables u j).present ≡ 0
  no_present u j e =
      ap (λ (x : ℕ). (after.tables x j).present) e
      ∙ ap (λ (x : PageEntry). x.present)
          (entry_fresh s t i a flags al j (λ q. not_fresh t (suc k) r.table (sym q)))

  below_here : (level' (child after t i) ≡ suc k) × (physical (after.tables t i) ≢ 0)
  below_here = (
    ap level' (child_here s t i a flags al r.boundary r.small)
        ∙ relevel_self level (seen_at s a) (suc k),
    λ h. r.some_frame (
        sym (physical-set_entry a flags r.boundary r.small)
        ∙ sym (ap (λ (x : PageEntry). physical x) (entry_here s t i a flags al))
        ∙ h),
  )

  below_other :
      (u k' j : ℕ)
      → level u ≡ suc (suc k')
      → j < 512
      → (u ≡ t → j ≢ i)
      → (after.tables u j).present ≢ 0
      → (level' (child after u j) ≡ suc k') × (physical (after.tables u j) ≢ 0)
  below_other u k' j hu hj out hp =
      let ne = not_fresh u (suc k') hu in
      let e = entry_other s t i a flags al u j ne out in
      let (b, c) = v.below u k' j hu hj (λ h. hp (ap (λ (x : PageEntry). x.present) e ∙ h)) in
      (
        ap level' (child_other s t i a flags al u j ne out)
            ∙ relevel_ne level (seen_at s a) (suc k) (child s u j) (not_fresh (child s u j) k' b)
            ∙ b,
        λ h. c (sym (ap (λ (x : PageEntry). physical x) e) ∙ h),
      )

  pub below' :
      (u k' j : ℕ)
      → level' u ≡ suc (suc k')
      → j < 512
      → (after.tables u j).present ≢ 0
      → (level' (child after u j) ≡ suc k') × (physical (after.tables u j) ≢ 0)
  below' u k' j hu hj hp = elim (ℕ_discrete u (seen_at s a)) [
    | yes e ↦ absurd (hp (no_present u j e))
    | no ne ↦
        let lu = old_level u (suc (suc k')) ne hu in
        elim (ℕ_discrete u t) [
          | yes eu ↦ elim (ℕ_discrete j i) [
            | yes ej ↦
                let q : k' ≡ k = omega (arith, lu, ap level eu, r.table) in
                rw (eu, ej, q) below_here
            | no nj ↦ below_other u k' j lu hj (λ _. nj) hp
          ]
          | no nu ↦ below_other u k' j lu hj (λ e. absurd (nu e)) hp
        ]
  ]

  pub absent' :
      (u k' j : ℕ)
      → level' u ≡ suc (suc k')
      → j < 512
      → (after.tables u j).present ≡ 0
      → physical (after.tables u j) ≡ 0
  absent' u k' j hu hj hp = elim (ℕ_discrete u (seen_at s a)) [
    | yes e ↦
        ap (λ (x : ℕ). physical (after.tables x j)) e
        ∙ ap (λ (x : PageEntry). physical x)
            (entry_fresh s t i a flags al j (λ q. not_fresh t (suc k) r.table (sym q)))
    | no ne ↦
        let lu = old_level u (suc (suc k')) ne hu in
        elim (ℕ_discrete u t) [
          | yes eu ↦ elim (ℕ_discrete j i) [
            | yes ej ↦
                let here : (after.tables u j).present ≡ 1 =
                  rw (eu, ej)
                    (ap (λ (x : PageEntry). x.present) (entry_here s t i a flags al)
                      ∙ present-set_entry a flags r.present_flag) in
                absurd (omega arith)
            | no nj ↦ absent_other u k' j lu hj (λ _. nj) hp
          ]
          | no nu ↦ absent_other u k' j lu hj (λ e. absurd (nu e)) hp
        ]
  ]
    where
      absent_other :
          (u k' j : ℕ)
          → level u ≡ suc (suc k')
          → j < 512
          → (u ≡ t → j ≢ i)
          → (after.tables u j).present ≡ 0
          → physical (after.tables u j) ≡ 0
      absent_other u k' j hu hj out hp =
          let e = entry_other s t i a flags al u j (not_fresh u (suc k') hu) out in
          ap (λ (x : PageEntry). physical x) e
          ∙ v.absent u k' j hu hj (sym (ap (λ (x : PageEntry). x.present) e) ∙ hp)
