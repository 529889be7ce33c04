-- ===== src/Memory/Paging/Pages.antt =====
-- `map_page` and `unmap_page` of lethe-kernel/memory/paging.c against the translation.
use mathlib.Core.Path.{subst}
use native.Mathlib.Decide.{ℕ_discrete}
use uefi_bare_bones.Prelude.{
  ℕ, zero, suc, ◌/◌, ◌%◌, ◌^◌, ◌≤◌, ◌<◌, ◌≡◌, refl, sym, ap, ◌≢◌, ◌∙◌, true, false, List, ◌∷◌,
  arith, ◌==◌, length,
}
use uefi_bare_bones.Memory.FrameAllocator.{Outcome, done, panic, too_deep}
use uefi_bare_bones.Memory.FrameAllocator.Laws.{free_frames}
use uefi_bare_bones.Memory.Paging.{
  PageEntry, Paging, physical, child, table_index, set_entry, fill_page, map_page,
  virtual_to_physical, ◌>>=◌,
}
use uefi_bare_bones.Memory.Paging.Walk.{
  walk, walk_down, virtual_to_physical_lem, table_index-lt, physical-set_entry, present-set_entry,
}
use uefi_bare_bones.Memory.Paging.Levels.{IsPaging}
use uefi_bare_bones.Memory.Paging.Leaf.{
  Leads, Indices-ne, refilled, refilled-IsPaging, walk_filled, walk_apart,
}
use uefi_bare_bones.Memory.Paging.Map.{
  Ready, Prepared, ready, full, prepare, map_page-prepare, prepare-Prepared,
}

-- What `map_page` does where it returns.
pub record Maps (s : Paging) (page frame : ℕ) (s' : Paging) : Type 0 where
  pub translates : virtual_to_physical s' page ≡ frame
  pub others :
      (virtual : ℕ)
      → virtual / 4096 % 2 ^ 36 ≢ page / 4096 % 2 ^ 36
      → virtual_to_physical s' virtual ≡ virtual_to_physical s virtual
  pub flushes : s'.flushed ≡ page ∷ s.flushed

-- What `map_page` comes to for a page that is not mapped: it is mapped, or the frames do not suffice
-- for the tables.
pub data MapsOrFull (s : Paging) (page frame : ℕ) : Outcome Paging → Type 0 where
  maps :
      (s' : Paging) (level' : ℕ → ℕ)
      → IsPaging s' level'
      → Maps s page frame s'
      → MapsOrFull s page frame (done s')
  no_tables : length (free_frames s.allocator) < 3 → MapsOrFull s page frame panic

fill_runs :
    (s : Paging) (p1 page frame flags : ℕ)
    → (s.tables p1 (table_index 0 page)).present ≡ 0
    → fill_page s p1 page frame flags ≡ done (refilled s p1 page (set_entry frame flags))
unfolding fill_page
fill_runs s p1 page frame flags e =
    let t : ((s.tables p1 (table_index 0 page)).present == 0) ≡ true = ground arith in rw t refl

fill-panic :
    (s : Paging) (p1 page frame flags : ℕ)
    → (s.tables p1 (table_index 0 page)).present ≢ 0
    → fill_page s p1 page frame flags ≡ panic
unfolding fill_page
fill-panic s p1 page frame flags n =
    let t : ((s.tables p1 (table_index 0 page)).present == 0) ≡ false = ground arith in rw t refl

-- The translation of the page at its lowest table.
walk-Leads :
    (s : Paging) (level : ℕ → ℕ) (v : IsPaging s level) (p1 page k t : ℕ)
    → level t ≡ suc k
    → Leads k s t page p1
    → walk k s t page ≡ physical (s.tables p1 (table_index 0 page))
unfolding walk
walk-Leads s level v p1 page zero t h l = rw l refl
walk-Leads s level v p1 page (suc k) t h (p, l) =
    let (b, c) = v.below t k (table_index (suc k) page) h (table_index-lt (suc k) page) p in
    walk_down k s t page c
    ∙ walk-Leads s level v p1 page k (child s t (table_index (suc k) page)) b l

-- A write at the lowest table of a page, seen through the translation.
pub refilled-translates :
    (s : Paging) (level : ℕ → ℕ) (v : IsPaging s level) (p1 page : ℕ) (e : PageEntry)
    → level p1 ≡ 1
    → Leads 3 s s.page_table page p1
    → (virtual_to_physical (refilled s p1 page e) page ≡ physical e)
      × ((virtual : ℕ)
          → virtual / 4096 % 2 ^ 36 ≢ page / 4096 % 2 ^ 36
          → virtual_to_physical (refilled s p1 page e) virtual ≡ virtual_to_physical s virtual)
refilled-translates s level v p1 page e lowest l = (
  virtual_to_physical_lem (refilled s p1 page e) page
      ∙ walk_filled s level v p1 page e lowest 3 s.page_table v.root l,
  λ virtual n.
      virtual_to_physical_lem (refilled s p1 page e) virtual
      ∙ walk_apart s level v p1 page e lowest 3 s.page_table s.page_table virtual v.root v.root l
          (λ _ same. Indices-ne virtual page n same)
      ∙ sym (virtual_to_physical_lem s virtual),
)

module _ (s : Paging) (level : ℕ → ℕ) (v : IsPaging s level) (page frame flags : ℕ)
    (odd : flags % 2 ≡ 1) where
  -- The lowest entry of the prepared tables holds the translation.
  lowest_entry :
      (s2 : Paging) (l2 : ℕ → ℕ) (p1 : ℕ)
      → Ready s page s2 l2 p1
      → physical (s2.tables p1 (table_index 0 page)) ≡ virtual_to_physical s page
  lowest_entry s2 l2 p1 r =
      sym
        (walk-Leads s2 l2 r.tree p1 page 3 s.page_table (sym (ap l2 r.root) ∙ r.tree.root) r.leads)
      ∙ r.walks page
      ∙ sym (virtual_to_physical_lem s page)

  same_before :
      (s2 : Paging) (l2 : ℕ → ℕ) (p1 virtual : ℕ)
      → Ready s page s2 l2 p1
      → virtual_to_physical s2 virtual ≡ virtual_to_physical s virtual
  same_before s2 l2 p1 virtual r =
      virtual_to_physical_lem s2 virtual
      ∙ ap (λ (x : ℕ). walk 3 s2 x virtual) r.root
      ∙ r.walks virtual
      ∙ sym (virtual_to_physical_lem s virtual)

  mapped :
      frame ≢ 0
      → frame % 4096 ≡ 0
      → frame < 2 ^ 52
      → virtual_to_physical s page ≡ 0
      → (o : Outcome (Paging × ℕ)) → prepare s page flags ≡ o
      → Prepared s page o
      → MapsOrFull s page frame (map_page s page frame flags)
  mapped f0 f4 f52 free (done (s2, p1)) q (ready _ l2 _ r) =
      let gone : (s2.tables p1 (table_index 0 page)).present ≡ 0 =
        elim (ℕ_discrete (s2.tables p1 (table_index 0 page)).present 0) [
          | yes z ↦ z
          | no n ↦
              absurd
                (r.tree.leaf p1 (table_index 0 page) r.lowest n (lowest_entry s2 l2 p1 r ∙ free))
        ] in
      let e = set_entry frame flags in
      let to : physical e ≡ frame = physical-set_entry frame flags f4 f52 in
      let on : e.present ≡ 1 = present-set_entry frame flags odd in
      let leads : Leads 3 s2 s2.page_table page p1 =
        subst (λ (x : ℕ). Leads 3 s2 x page p1) (sym r.root) r.leads in
      let (here, apart) = refilled-translates s2 l2 r.tree p1 page e r.lowest leads in
      subst (MapsOrFull s page frame)
        (sym (
          map_page-prepare s page frame flags
          ∙ ap (λ (o : Outcome (Paging × ℕ)). o >>= λ x. fill_page x.0 x.1 page frame flags) q
          ∙ fill_runs s2 p1 page frame flags gone))
        (maps (refilled s2 p1 page e) l2
          (refilled-IsPaging s2 l2 r.tree p1 page e r.lowest (λ _ z. f0 (sym to ∙ z))
            (λ z. absurd (omega (arith, z, on))))
          (record {
            translates = here ∙ to;
            others = λ virtual n. apart virtual n ∙ same_before s2 l2 p1 virtual r;
            flushes = ap (λ (x : List ℕ). page ∷ x) r.flushes;
          }))
  mapped f0 f4 f52 free panic q (full few) =
      subst (MapsOrFull s page frame)
        (sym (
          map_page-prepare s page frame flags
          ∙ ap (λ (o : Outcome (Paging × ℕ)). o >>= λ x. fill_page x.0 x.1 page frame flags) q))
        (no_tables few)
  mapped f0 f4 f52 free too_deep q none_fits = elim none_fits [ ]

  pub map_page-MapsOrFull :
      frame ≢ 0
      → frame % 4096 ≡ 0
      → frame < 2 ^ 52
      → virtual_to_physical s page ≡ 0
      → MapsOrFull s page frame (map_page s page frame flags)
  map_page-MapsOrFull f0 f4 f52 free =
      mapped f0 f4 f52 free (prepare s page flags) refl (prepare-Prepared s level v page flags odd)

  -- With well-formed tables and three free frames, a page that is not mapped is mapped to the frame
  -- given, flushed, and no other page's translation changes; the tables stay well formed.
  pub map_page-Maps :
      frame ≢ 0
      → frame % 4096 ≡ 0
      → frame < 2 ^ 52
      → virtual_to_physical s page ≡ 0
      → 3 ≤ length (free_frames s.allocator)
      → (s' : Paging) × (level' : ℕ → ℕ) × (map_page s page frame flags ≡ done s')
        × IsPaging s' level'
        × Maps s page frame s'
  map_page-Maps f0 f4 f52 free room =
      go (map_page s page frame flags) refl (map_page-MapsOrFull f0 f4 f52 free)
    where
      go :
          (o : Outcome Paging)
          → map_page s page frame flags ≡ o
          → MapsOrFull s page frame o
          → (s' : Paging) × (level' : ℕ → ℕ) × (map_page s page frame flags ≡ done s')
            × IsPaging s' level'
            × Maps s page frame s'
      go (done s') q (maps _ level' tree m) = (s', level', q, tree, m)
      go panic q (no_tables few) = absurd (omega arith)
      go too_deep q none_fits = elim none_fits [ ]

  refused :
      virtual_to_physical s page ≢ 0
      → (o : Outcome (Paging × ℕ)) → prepare s page flags ≡ o
      → Prepared s page o
      → map_page s page frame flags ≡ panic
  refused n (done (s2, p1)) q (ready _ l2 _ r) =
      let on : (s2.tables p1 (table_index 0 page)).present ≢ 0 = (λ z.
        n (
          sym (lowest_entry s2 l2 p1 r) ∙ r.tree.leaf_absent p1 (table_index 0 page) r.lowest z)) in
      map_page-prepare s page frame flags
      ∙ ap (λ (o : Outcome (Paging × ℕ)). o >>= λ x. fill_page x.0 x.1 page frame flags) q
      ∙ fill-panic s2 p1 page frame flags on
  refused n panic q (full few) =
      map_page-prepare s page frame flags
      ∙ ap (λ (o : Outcome (Paging × ℕ)). o >>= λ x. fill_page x.0 x.1 page frame flags) q
  refused n too_deep q none_fits = elim none_fits [ ]

  -- A page that is mapped is not mapped again: `map_page` panics.
  pub map_page-panic : virtual_to_physical s page ≢ 0 → map_page s page frame flags ≡ panic
  map_page-panic n =
      refused n (prepare s page flags) refl (prepare-Prepared s level v page flags odd)
