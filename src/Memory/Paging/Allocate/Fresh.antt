-- ===== src/Memory/Paging/Allocate/Fresh.antt =====
-- `__allocate_entry` of lethe-kernel/memory/paging.c keeps the tables well formed, and every
-- translation.
use native.Mathlib.Decide.{ℕ_discrete}
use uefi_bare_bones.Prelude.{
  ℕ, zero, suc, ◌+◌, ◌^◌, ◌<◌, ◌≡◌, sym, ap, ◌≢◌, ◌∙◌, List, [], ◌∷◌, arith, u64,
}
use uefi_bare_bones.Memory.FrameAllocator.{FrameAllocator}
use uefi_bare_bones.Memory.FrameAllocator.Laws.{IsValid, free_frames}
use uefi_bare_bones.Memory.Paging.{PageEntry, Paging, physical, child, table_index, set_entry}
use uefi_bare_bones.Memory.Paging.Walk.{
  walk, walk_absent, walk_down, physical-set_entry, table_index-lt,
}
use uefi_bare_bones.Memory.Paging.Levels.{IsPaging, AreFresh, Misses}
use uefi_bare_bones.Memory.Paging.Allocate.Entries.{
  seen_at, extended, relevel, relevel_ne, entry_here, entry_fresh, entry_other, child_here,
  child_other,
}
use uefi_bare_bones.Memory.Paging.Allocate.Tree.{HasRoom, not_fresh, below', absent'}

-- The frames that are left stay apart from the new table.
relevel-AreFresh :
    (h : ℕ) (level : ℕ → ℕ) (a k : ℕ) (fs : List ℕ)
    → a < 2 ^ 52
    → Misses a fs
    → AreFresh h level fs
    → AreFresh h (relevel level (u64 (a + h)) k) fs
relevel-AreFresh h level a k [] lt m fresh = tt
relevel-AreFresh h level a k (f ∷ fs) lt (ne, m) (f0, f4, f52, l, ms, fresh) =
    let apart : u64 (f + h) ≢ u64 (a + h) = (λ e. ne (omega arith)) in
    (
      f0,
      f4,
      f52,
      relevel_ne level (u64 (a + h)) k (u64 (f + h)) apart ∙ l,
      ms,
      relevel-AreFresh h level a k fs lt m fresh,
    )

-- An entry is entry `i` of table `t`, or another.
data Place (t i u j : ℕ) : Type 0 where
  here : u ≡ t → j ≡ i → Place t i u j
  there : (u ≡ t → j ≢ i) → Place t i u j

place : (t i u j : ℕ) → Place t i u j
place t i u j = elim (ℕ_discrete u t) [
  | yes eu ↦ elim (ℕ_discrete j i) [ yes ej ↦ here eu ej | no nj ↦ there (λ _. nj) ]
  | no nu ↦ there (λ e. absurd (nu e))
]

module _ (s : Paging) (level : ℕ → ℕ) (v : IsPaging s level) (t k i a flags : ℕ)
    (al : FrameAllocator) (r : HasRoom s level t k i a flags) where
  abbrev after : Paging
  after = extended s t i a flags al

  abbrev level' : ℕ → ℕ
  level' = relevel level (seen_at s a) (suc k)

  -- A table with an entry that is present is not the new one.
  old :
      (u n j : ℕ)
      → level' u ≡ n
      → (after.tables u j).present ≢ 0
      → (u ≢ seen_at s a) × (level u ≡ n)
  old u n j hu hp = elim (ℕ_discrete u (seen_at s a)) [
    | yes e ↦
        let gone =
          entry_fresh s t i a flags al j
            (λ q. not_fresh s level v t k i a flags al r t (suc k) r.table (sym q)) in
        absurd (
          hp
            (ap (λ (x : ℕ). (after.tables x j).present) e ∙ ap (λ (x : PageEntry). x.present) gone))
    | no ne ↦ (ne, sym (relevel_ne level (seen_at s a) (suc k) u ne) ∙ hu)
  ]

  -- What an old entry leads to is an old table.
  old_child :
      (u k' j : ℕ)
      → level u ≡ suc (suc k')
      → j < 512
      → u ≢ seen_at s a
      → (u ≡ t → j ≢ i)
      → (after.tables u j).present ≢ 0
      → ((s.tables u j).present ≢ 0)
        × (child after u j ≢ seen_at s a)
        × (child after u j ≡ child s u j)
  old_child u k' j hu hj ne out hp =
      let e = entry_other s t i a flags al u j ne out in
      let hp' : (s.tables u j).present ≢ 0 = (λ h. hp (ap (λ (x : PageEntry). x.present) e ∙ h)) in
      let c = child_other s t i a flags al u j ne out in
      let (b, _) = v.below u k' j hu hj hp' in
      (hp', λ h. not_fresh s level v t k i a flags al r (child s u j) k' b (sym c ∙ h), c)

  unique' :
      (u k1 j u' k2 j' : ℕ)
      → level' u ≡ suc (suc k1)
      → level' u' ≡ suc (suc k2)
      → j < 512
      → j' < 512
      → (after.tables u j).present ≢ 0
      → (after.tables u' j').present ≢ 0
      → child after u j ≡ child after u' j'
      → (u ≡ u') × (j ≡ j')
  unique' u k1 j u' k2 j' h1 h2 l1 l2 p1 p2 e =
      let (n1, o1) = old u (suc (suc k1)) j h1 p1 in
      let (n2, o2) = old u' (suc (suc k2)) j' h2 p2 in
      let c = child_here s t i a flags al r.boundary r.small in
      elim (place t i u j) [
        | here eu ej ↦ elim (place t i u' j') [
          | here eu' ej' ↦ (eu ∙ sym eu', ej ∙ sym ej')
          | there out ↦
              let (_, apart, _) = old_child u' k2 j' o2 l2 n2 out p2 in
              absurd (
                apart (
                  sym e
                  ∙ ap (λ (x : ℕ). child after x j) eu
                  ∙ ap (λ (x : ℕ). child after t x) ej
                  ∙ c))
        ]
        | there out ↦ elim (place t i u' j') [
          | here eu' ej' ↦
              let (_, apart, _) = old_child u k1 j o1 l1 n1 out p1 in
              absurd (
                apart (
                  e
                  ∙ ap (λ (x : ℕ). child after x j') eu'
                  ∙ ap (λ (x : ℕ). child after t x) ej'
                  ∙ c))
          | there out' ↦
              let (q1, _, c1) = old_child u k1 j o1 l1 n1 out p1 in
              let (q2, _, c2) = old_child u' k2 j' o2 l2 n2 out' p2 in
              v.unique u k1 j u' k2 j' o1 o2 l1 l2 q1 q2 (sym c1 ∙ e ∙ c2)
        ]
      ]

  leaf' :
      (u j : ℕ) → level' u ≡ 1 → (after.tables u j).present ≢ 0 → physical (after.tables u j) ≢ 0
  leaf' u j hu hp =
      let (ne, lu) = old u 1 j hu hp in
      let out : u ≡ t → j ≢ i = (λ q. absurd (omega (arith, lu, ap level q, r.table))) in
      let e = entry_other s t i a flags al u j ne out in
      λ h.
        v.leaf u j lu (λ q. hp (ap (λ (x : PageEntry). x.present) e ∙ q))
          (sym (ap (λ (x : PageEntry). physical x) e) ∙ h)

  leaf_absent' :
      (u j : ℕ) → level' u ≡ 1 → (after.tables u j).present ≡ 0 → physical (after.tables u j) ≡ 0
  leaf_absent' u j hu hp = elim (ℕ_discrete u (seen_at s a)) [
    | yes e ↦
        ap (λ (x : ℕ). physical (after.tables x j)) e
        ∙ ap (λ (x : PageEntry). physical x)
            (entry_fresh s t i a flags al j
              (λ q. not_fresh s level v t k i a flags al r t (suc k) r.table (sym q)))
    | no ne ↦
        let lu : level u ≡ 1 = sym (relevel_ne level (seen_at s a) (suc k) u ne) ∙ hu in
        let out : u ≡ t → j ≢ i = (λ q. absurd (omega (arith, lu, ap level q, r.table))) in
        let e = entry_other s t i a flags al u j ne out in
        ap (λ (x : PageEntry). physical x) e
        ∙ v.leaf_absent u j lu (sym (ap (λ (x : PageEntry). x.present) e) ∙ hp)
  ]

  pub extended-IsPaging :
      IsValid al
      → Misses a (free_frames al)
      → AreFresh s.hhdm_mapping level (free_frames al)
      → IsPaging after level'
  extended-IsPaging valid misses fresh = record {
    root =
        relevel_ne level (seen_at s a) (suc k) s.page_table
          (not_fresh s level v t k i a flags al r s.page_table 3 v.root)
        ∙ v.root;
    below = below' s level v t k i a flags al r;
    absent = absent' s level v t k i a flags al r;
    unique = unique';
    leaf = leaf';
    leaf_absent = leaf_absent';
    frames = valid;
    fresh = relevel-AreFresh s.hhdm_mapping level a (suc k) (free_frames al) r.small misses fresh;
  }

  -- From the entry that is filled nothing was reached, and nothing is.
  walk_here :
      (k' u virtual : ℕ)
      → level u ≡ suc (suc k')
      → u ≡ t
      → table_index (suc k') virtual ≡ i
      → walk (suc k') after u virtual ≡ walk (suc k') s u virtual
  walk_here k' u virtual hu eu ei =
      let before : walk (suc k') s u virtual ≡ 0 = walk_absent (suc k') s u virtual (
        v.absent u k' (table_index (suc k') virtual) hu (table_index-lt (suc k') virtual)
          (rw (eu, ei) r.gone)) in
      let here_entry : after.tables u (table_index (suc k') virtual) ≡ set_entry a flags =
        rw (eu, ei) (entry_here s t i a flags al) in
      let set : physical (after.tables u (table_index (suc k') virtual)) ≡ a =
        ap (λ (x : PageEntry). physical x) here_entry
        ∙ physical-set_entry a flags r.boundary r.small in
      let down = walk_down k' after u virtual (λ h. r.some_frame (sym set ∙ h)) in
      let to_fresh : child after u (table_index (suc k') virtual) ≡ seen_at s a =
        rw (eu, ei) (child_here s t i a flags al r.boundary r.small) in
      let nothing = walk_absent k' after (seen_at s a) virtual (
        ap (λ (x : PageEntry). physical x)
          (entry_fresh s t i a flags al (table_index k' virtual)
            (λ q. not_fresh s level v t k i a flags al r t (suc k) r.table (sym q)))) in
      down ∙ ap (λ (x : ℕ). walk k' after x virtual) to_fresh ∙ nothing ∙ sym before

  pub walk-extended :
      (k' u virtual : ℕ) → level u ≡ suc k' → walk k' after u virtual ≡ walk k' s u virtual
  unfolding walk
  walk-extended zero u virtual hu =
      ap (λ (x : PageEntry). physical x)
        (entry_other s t i a flags al u (table_index 0 virtual)
          (not_fresh s level v t k i a flags al r u 0 hu)
          (λ q. absurd (omega (arith, hu, ap level q, r.table))))
  walk-extended (suc k') u virtual hu =
      let ne = not_fresh s level v t k i a flags al r u (suc k') hu in
      let j = table_index (suc k') virtual in
      elim (place t i u j) [
        | here eu ej ↦ walk_here k' u virtual hu eu ej
        | there out ↦
            let e : physical (after.tables u j) ≡ physical (s.tables u j) =
              ap (λ (x : PageEntry). physical x) (entry_other s t i a flags al u j ne out) in
            elim (ℕ_discrete (physical (s.tables u j)) 0) [
              | yes z ↦
                  walk_absent (suc k') after u virtual (e ∙ z)
                  ∙ sym (walk_absent (suc k') s u virtual z)
              | no nz ↦
                  let (b, _) =
                    v.below u k' j hu (table_index-lt (suc k') virtual)
                      (λ h. nz (v.absent u k' j hu (table_index-lt (suc k') virtual) h)) in
                  walk_down k' after u virtual (λ h. nz (sym e ∙ h))
                  ∙ ap (λ (x : ℕ). walk k' after x virtual)
                      (child_other s t i a flags al u j ne out)
                  ∙ walk-extended k' (child s u j) virtual b
                  ∙ sym (walk_down k' s u virtual nz)
            ]
      ]
