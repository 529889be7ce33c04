-- ===== src/Memory/Paging/Unmap.antt =====
-- `unmap_page` of lethe-kernel/memory/paging.c, and its calls after `map_page`.
use native.Mathlib.Decide.{ℕ_discrete}
use uefi_bare_bones.Prelude.{
  ℕ, ◌/◌, ◌%◌, ◌^◌, ◌≤◌, ◌<◌, ◌≡◌, refl, sym, ◌≢◌, ◌∙◌, true, false, arith, ◌==◌, length,
}
use uefi_bare_bones.Memory.FrameAllocator.{done, panic}
use uefi_bare_bones.Memory.FrameAllocator.Laws.{free_frames}
use uefi_bare_bones.Memory.Paging.{
  Paging, no_entry, child, table_index, map_page, unmap_page, virtual_to_physical,
}
use uefi_bare_bones.Memory.Paging.Walk.{
  walk, walk_absent, walk_down, virtual_to_physical_lem, table_index-lt,
}
use uefi_bare_bones.Memory.Paging.Levels.{IsPaging}
use uefi_bare_bones.Memory.Paging.Leaf.{refilled, refilled-IsPaging}
use uefi_bare_bones.Memory.Paging.Pages.{refilled-translates, map_page-Maps, map_page-panic}

pub record Unmaps (s : Paging) (page : ℕ) (s' : Paging) : Type 0 where
  pub forgets : virtual_to_physical s' page ≡ 0
  pub others :
      (virtual : ℕ)
      → virtual / 4096 % 2 ^ 36 ≢ page / 4096 % 2 ^ 36
      → virtual_to_physical s' virtual ≡ virtual_to_physical s virtual

-- The tables that the entries for a page lead to.
abbrev p3_of : Paging → ℕ → ℕ
p3_of s page = child s s.page_table (table_index 3 page)

abbrev p2_of : Paging → ℕ → ℕ
p2_of s page = child s (p3_of s page) (table_index 2 page)

abbrev p1_of : Paging → ℕ → ℕ
p1_of s page = child s (p2_of s page) (table_index 1 page)

unmap_runs :
    (s : Paging) (page : ℕ)
    → (s.tables s.page_table (table_index 3 page)).present ≢ 0
    → (s.tables (p3_of s page) (table_index 2 page)).present ≢ 0
    → (s.tables (p2_of s page) (table_index 1 page)).present ≢ 0
    → unmap_page s page ≡ refilled s (p1_of s page) page no_entry
unfolding unmap_page
unmap_runs s page n3 n2 n1 =
    let a : ((s.tables s.page_table (table_index 3 page)).present == 0) ≡ false = ground arith in
    let b : ((s.tables (p3_of s page) (table_index 2 page)).present == 0) ≡ false = ground arith in
    let c : ((s.tables (p2_of s page) (table_index 1 page)).present == 0) ≡ false = ground arith in
    rw (a, b, c) refl

unmap_stops4 :
    (s : Paging) (page : ℕ)
    → (s.tables s.page_table (table_index 3 page)).present ≡ 0
    → unmap_page s page ≡ s
unfolding unmap_page
unmap_stops4 s page z =
    let a : ((s.tables s.page_table (table_index 3 page)).present == 0) ≡ true = ground arith in
    rw a refl

unmap_stops3 :
    (s : Paging) (page : ℕ)
    → (s.tables s.page_table (table_index 3 page)).present ≢ 0
    → (s.tables (p3_of s page) (table_index 2 page)).present ≡ 0
    → unmap_page s page ≡ s
unfolding unmap_page
unmap_stops3 s page n z =
    let a : ((s.tables s.page_table (table_index 3 page)).present == 0) ≡ false = ground arith in
    let b : ((s.tables (p3_of s page) (table_index 2 page)).present == 0) ≡ true = ground arith in
    rw (a, b) refl

unmap_stops2 :
    (s : Paging) (page : ℕ)
    → (s.tables s.page_table (table_index 3 page)).present ≢ 0
    → (s.tables (p3_of s page) (table_index 2 page)).present ≢ 0
    → (s.tables (p2_of s page) (table_index 1 page)).present ≡ 0
    → unmap_page s page ≡ s
unfolding unmap_page
unmap_stops2 s page n m z =
    let a : ((s.tables s.page_table (table_index 3 page)).present == 0) ≡ false = ground arith in
    let b : ((s.tables (p3_of s page) (table_index 2 page)).present == 0) ≡ false = ground arith in
    let c : ((s.tables (p2_of s page) (table_index 1 page)).present == 0) ≡ true = ground arith in
    rw (a, b, c) refl

module _ (s : Paging) (level : ℕ → ℕ) (v : IsPaging s level) (page : ℕ) where
  -- Where an upper entry is missing the page has no translation, and nothing is done.
  nothing_there :
      unmap_page s page ≡ s
      → walk 3 s s.page_table page ≡ 0
      → IsPaging (unmap_page s page) level × Unmaps s page (unmap_page s page)
  nothing_there e z =
      rw e (v, record { forgets = virtual_to_physical_lem s page ∙ z; others = λ virtual n. refl })

  -- `unmap_page` takes the translation of the page away and keeps every other, and keeps the tables
  -- well formed.
  pub unmap_page-Unmaps : IsPaging (unmap_page s page) level × Unmaps s page (unmap_page s page)
  unmap_page-Unmaps = elim (ℕ_discrete (s.tables s.page_table (table_index 3 page)).present 0) [
    | yes z3 ↦ nothing_there (unmap_stops4 s page z3) (
        walk_absent 3 s s.page_table page
          (v.absent s.page_table 2 (table_index 3 page) v.root (table_index-lt 3 page) z3))
    | no n3 ↦
        let (b3, c3) =
          v.below s.page_table 2 (table_index 3 page) v.root (table_index-lt 3 page) n3 in
        let d3 = walk_down 2 s s.page_table page c3 in
        elim (ℕ_discrete (s.tables (p3_of s page) (table_index 2 page)).present 0) [
          | yes z2 ↦ nothing_there (unmap_stops3 s page n3 z2) (
              d3
              ∙ walk_absent 2 s (p3_of s page) page
                  (v.absent (p3_of s page) 1 (table_index 2 page) b3 (table_index-lt 2 page) z2))
          | no n2 ↦
              let (b2, c2) =
                v.below (p3_of s page) 1 (table_index 2 page) b3 (table_index-lt 2 page) n2 in
              let d2 = walk_down 1 s (p3_of s page) page c2 in
              elim (ℕ_discrete (s.tables (p2_of s page) (table_index 1 page)).present 0) [
                | yes z1 ↦ nothing_there (unmap_stops2 s page n3 n2 z1) (
                    d3
                    ∙ d2
                    ∙ walk_absent 1 s (p2_of s page) page (
                        v.absent (p2_of s page) 0 (table_index 1 page) b2 (table_index-lt 1 page)
                          z1))
                | no n1 ↦
                    let (b1, _) =
                      v.below (p2_of s page) 0 (table_index 1 page) b2 (table_index-lt 1 page) n1 in
                    let (here, apart) =
                      refilled-translates s level v (p1_of s page) page no_entry b1
                        (n3, (n2, (n1, refl))) in
                    rw (unmap_runs s page n3 n2 n1) (
                      refilled-IsPaging s level v (p1_of s page) page no_entry b1
                          (λ n. absurd (n refl)) (λ _. refl),
                      record { forgets = here; others = apart },
                    )
              ]
        ]
  ]

module _ (s : Paging) (level : ℕ → ℕ) (v : IsPaging s level) (page frame flags : ℕ)
    (odd : flags % 2 ≡ 1) (f0 : frame ≢ 0) (f4 : frame % 4096 ≡ 0) (f52 : frame < 2 ^ 52)
    (free : virtual_to_physical s page ≡ 0) (room : 3 ≤ length (free_frames s.allocator)) where
  -- With well-formed tables and three free frames, a page that is mapped and then unmapped has no
  -- translation, and every other page has the one that it had before.
  pub unmap_page-map_page :
      (s' : Paging) × (map_page s page frame flags ≡ done s') × Unmaps s page (unmap_page s' page)
  unmap_page-map_page =
      let (s', level', e, tree, m) =
        map_page-Maps s level v page frame flags odd f0 f4 f52 free room in
      let (_, u) = unmap_page-Unmaps s' level' tree page in
      (
        s',
        e,
        record {
          forgets = u.forgets;
          others = λ virtual n. u.others virtual n ∙ m.others virtual n;
        },
      )

  -- With well-formed tables and three free frames, a page can be mapped once: a second `map_page`
  -- for it panics, whatever its frame is.
  map_page_twice :
      (frame' : ℕ)
      → (s' : Paging) × (map_page s page frame flags ≡ done s')
        × (map_page s' page frame' flags ≡ panic)
  map_page_twice frame' =
      let (s', level', e, tree, m) =
        map_page-Maps s level v page frame flags odd f0 f4 f52 free room in
      (s', e, map_page-panic s' level' tree page frame' flags odd (λ z. f0 (sym m.translates ∙ z)))
