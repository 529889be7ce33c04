-- ===== src/Memory/Paging/Map.antt =====
-- The upper levels of `map_page` in lethe-kernel/memory/paging.c, one after the other.
use mathlib.Core.Path.{subst}
use uefi_bare_bones.Prelude.{
  ℕ, suc, ◌+◌, ◌%◌, ◌<◌, ◌≡◌, refl, sym, ap, ◌≢◌, ◌∙◌, List, arith, length, u64,
}
use uefi_bare_bones.Memory.FrameAllocator.{Outcome, done, panic, too_deep}
use uefi_bare_bones.Memory.FrameAllocator.Laws.{free_frames}
use uefi_bare_bones.Memory.Paging.{
  PageEntry, Paging, physical, child, table_index, ensure_entry, fill_page, map_page, ◌>>=◌,
}
use uefi_bare_bones.Memory.Paging.Walk.{walk, table_index-lt}
use uefi_bare_bones.Memory.Paging.Levels.{IsPaging}
use uefi_bare_bones.Memory.Paging.Allocate.Ensure.{
  Grown, Ensures, ensured, no_frame, ensure_entry-Ensures,
}
use uefi_bare_bones.Memory.Paging.Leaf.{Leads}

-- The tables with the entries for a page, down to its lowest table `p1`.
pub record Ready (s : Paging) (page : ℕ) (s' : Paging) (level' : ℕ → ℕ) (p1 : ℕ) : Type 0 where
  pub tree : IsPaging s' level'
  pub root : s'.page_table ≡ s.page_table
  pub flushes : s'.flushed ≡ s.flushed
  pub walks : (virtual : ℕ) → walk 3 s' s.page_table virtual ≡ walk 3 s s.page_table virtual
  pub lowest : level' p1 ≡ 1
  pub leads : Leads 3 s' s.page_table page p1

-- An entry that is there stays, and leads to the same table.
kept_child :
    {s s' : Paging} {l l' : ℕ → ℕ} (u n j : ℕ)
    → Grown s l s' l'
    → l u ≡ suc n
    → (s.tables u j).present ≢ 0
    → ((s'.tables u j).present ≢ 0) × (child s' u j ≡ child s u j)
kept_child {s} {s'} u n j g h p =
    let e = g.kept u n j h p in
    let m = g.mapping in
    (
      λ q. p (sym (ap (λ (x : PageEntry). x.present) e) ∙ q),
      ap (λ (x : PageEntry). u64 (physical x + s'.hhdm_mapping)) e
          ∙ ap (λ (x : ℕ). u64 (physical (s.tables u j) + x)) m,
    )

-- The upper levels of `map_page`, one after the other.
pub data Prepared (s : Paging) (page : ℕ) : Outcome (Paging × ℕ) → Type 0 where
  ready :
      (s' : Paging) (level' : ℕ → ℕ) (p1 : ℕ)
      → Ready s page s' level' p1
      → Prepared s page (done (s', p1))
  full : length (free_frames s.allocator) < 3 → Prepared s page panic

-- The second and third level, with the table that the first begins at.
abbrev pub prepare_from : Paging → ℕ → ℕ → ℕ → Outcome (Paging × ℕ)
prepare_from s4 root page flags =
    ensure_entry s4 (child s4 root (table_index 3 page)) (table_index 2 page) flags >>= λ s3.
    ensure_entry s3 (child s3 (child s4 root (table_index 3 page)) (table_index 2 page))
      (table_index 1 page) flags
    >>= λ s2. done (
      s2,
      child s2 (child s3 (child s4 root (table_index 3 page)) (table_index 2 page))
          (table_index 1 page),
    )

abbrev pub prepare : Paging → ℕ → ℕ → Outcome (Paging × ℕ)
prepare s page flags = ensure_entry s s.page_table (table_index 3 page) flags >>= λ s4.
    prepare_from s4 s4.page_table page flags

pub map_page-prepare :
    (s : Paging) (page frame flags : ℕ)
    → map_page s page frame flags
      ≡ (prepare s page flags >>= λ r. fill_page r.0 r.1 page frame flags)
unfolding map_page
map_page-prepare s page frame flags = ground arith

module _ (s : Paging) (level : ℕ → ℕ) (v : IsPaging s level) (page flags : ℕ)
    (odd : flags % 2 ≡ 1) where
  -- After the third level.
  third :
      (s4 s3 : Paging) (l4 l3 : ℕ → ℕ) (p3 p2 : ℕ)
      → Grown s level s4 l4
      → (s4.tables s.page_table (table_index 3 page)).present ≢ 0
      → child s4 s.page_table (table_index 3 page) ≡ p3
      → l4 p3 ≡ 3
      → Grown s4 l4 s3 l3
      → (s3.tables p3 (table_index 2 page)).present ≢ 0
      → child s3 p3 (table_index 2 page) ≡ p2
      → (o : Outcome Paging) → Ensures s3 l3 p2 0 (table_index 1 page) o
      → Prepared s page (o >>= λ s2. done (s2, child s2 p2 (table_index 1 page)))
  third s4 s3 l4 l3 p3 p2 g4 on4 q4 c4 g3 on3 q3 (done s2) (ensured _ l2 g2 on2 c2) =
      let r4 = g4.levels s.page_table 3 v.root in
      let r3 = g3.levels s.page_table 3 r4 in
      let (on43, k43) = kept_child s.page_table 3 (table_index 3 page) g3 r4 on4 in
      let (on42, k42) = kept_child s.page_table 3 (table_index 3 page) g2 r3 on43 in
      let (on32, k32) = kept_child p3 2 (table_index 2 page) g2 (g3.levels p3 2 c4) on3 in
      let to_p3 = k42 ∙ k43 ∙ q4 in
      let to_p2 = k32 ∙ q3 in
      ready s2 l2 (child s2 p2 (table_index 1 page)) (record {
        tree = g2.tree;
        root = g2.root ∙ g3.root ∙ g4.root;
        flushes = g2.flushes ∙ g3.flushes ∙ g4.flushes;
        walks = λ virtual.
            g2.walks 3 s.page_table virtual r3
            ∙ g3.walks 3 s.page_table virtual r4
            ∙ g4.walks 3 s.page_table virtual v.root;
        lowest = c2;
        leads = (on42, rw to_p3 (on32, rw to_p2 (on2, refl)));
      })
  third s4 s3 l4 l3 p3 p2 g4 on4 q4 c4 g3 on3 q3 panic (no_frame e) =
      full (omega (arith, ap (λ (x : List ℕ). length x) e, g3.left, g4.left))
  third s4 s3 l4 l3 p3 p2 g4 on4 q4 c4 g3 on3 q3 too_deep none_fits = elim none_fits [ ]

  second :
      (s4 : Paging) (l4 : ℕ → ℕ) (p3 : ℕ)
      → Grown s level s4 l4
      → (s4.tables s.page_table (table_index 3 page)).present ≢ 0
      → child s4 s.page_table (table_index 3 page) ≡ p3
      → l4 p3 ≡ 3
      → (o : Outcome Paging) → Ensures s4 l4 p3 1 (table_index 2 page) o
      → Prepared s page (
          o >>= λ s3.
          ensure_entry s3 (child s3 p3 (table_index 2 page)) (table_index 1 page) flags >>= λ s2.
          done (s2, child s2 (child s3 p3 (table_index 2 page)) (table_index 1 page)))
  second s4 l4 p3 g4 on4 q4 c4 (done s3) (ensured _ l3 g3 on3 c3) =
      third s4 s3 l4 l3 p3 (child s3 p3 (table_index 2 page)) g4 on4 q4 c4 g3 on3 refl
        (ensure_entry s3 (child s3 p3 (table_index 2 page)) (table_index 1 page) flags)
        (ensure_entry-Ensures s3 l3 g3.tree (child s3 p3 (table_index 2 page)) 0
          (table_index 1 page) flags c3 (table_index-lt 1 page) odd)
  second s4 l4 p3 g4 on4 q4 c4 panic (no_frame e) =
      full (omega (arith, ap (λ (x : List ℕ). length x) e, g4.left))
  second s4 l4 p3 g4 on4 q4 c4 too_deep none_fits = elim none_fits [ ]

  first :
      (o : Outcome Paging)
      → Ensures s level s.page_table 2 (table_index 3 page) o
      → Prepared s page (o >>= λ s4. prepare_from s4 s4.page_table page flags)
  first (done s4) (ensured _ l4 g4 on4 c4) =
      subst (λ (r : ℕ). Prepared s page (prepare_from s4 r page flags)) (sym g4.root)
        (second s4 l4 (child s4 s.page_table (table_index 3 page)) g4 on4 refl c4
          (ensure_entry s4 (child s4 s.page_table (table_index 3 page)) (table_index 2 page) flags)
          (ensure_entry-Ensures s4 l4 g4.tree (child s4 s.page_table (table_index 3 page)) 1
            (table_index 2 page) flags c4 (table_index-lt 2 page) odd))
  first panic (no_frame e) = full (omega (arith, ap (λ (x : List ℕ). length x) e))
  first too_deep none_fits = elim none_fits [ ]

  pub prepare-Prepared : Prepared s page (prepare s page flags)
  prepare-Prepared = first (ensure_entry s s.page_table (table_index 3 page) flags) (
      ensure_entry-Ensures s level v s.page_table 2 (table_index 3 page) flags v.root
        (table_index-lt 3 page) odd)
