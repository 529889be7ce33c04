-- ===== src/Memory/Paging/Leaf.antt =====
-- A write to a lowest table of lethe-kernel/memory/paging.c: it changes the translation of one page.
use native.Mathlib.Decide.{ℕ_discrete}
use uefi_bare_bones.Prelude.{
  ℕ, zero, suc, ◌/◌, ◌%◌, ◌^◌, ◌≡◌, refl, sym, ap, ◌≢◌, ◌∙◌, true, false, ◌&&◌, arith, ◌==◌,
  bit_and, and_low_mask, ◌∷◌,
}
use uefi_bare_bones.Memory.Paging.{
  PageEntry, Paging, physical, child, page_bits, table_index, write_entry,
}
use uefi_bare_bones.Memory.Paging.Walk.{walk, walk_absent, walk_down, table_index-lt}
use uefi_bare_bones.Memory.Paging.Levels.{IsPaging}

-- The entries for a page from a table on are present, down to a lowest table.
abbrev pub Leads : ℕ → Paging → ℕ → ℕ → ℕ → Type 0
Leads zero s t page p1 = t ≡ p1
Leads (suc k) s t page p1 =
    ((s.tables t (table_index (suc k) page)).present ≢ 0)
    × Leads k s (child s t (table_index (suc k) page)) page p1

abbrev pub SameIndices : ℕ → ℕ → ℕ → Type 0
SameIndices zero v w = table_index 0 v ≡ table_index 0 w
SameIndices (suc k) v w = (table_index (suc k) v ≡ table_index (suc k) w) × SameIndices k v w

index_lem : (k v : ℕ) → table_index k v ≡ page_bits k v % 512
index_lem k v =
    let e : bit_and (page_bits k v) 0x1FF ≡ page_bits k v % 2 ^ 9 =
      and_low_mask 9 (page_bits k v) in
    rw e (omega arith)

-- Two addresses in different pages of the 48 bits that are translated.
pub Indices-ne : (v w : ℕ) → v / 4096 % 2 ^ 36 ≢ w / 4096 % 2 ^ 36 → SameIndices 3 v w → ⊥
Indices-ne v w n (e3, (e2, (e1, e0))) = n (
    omega (
      arith,
      e3,
      e2,
      e1,
      e0,
      index_lem 3 v,
      index_lem 3 w,
      index_lem 2 v,
      index_lem 2 w,
      index_lem 1 v,
      index_lem 1 w,
      index_lem 0 v,
      index_lem 0 w,
    ))

-- The write, with the page flushed.
abbrev pub refilled : Paging → ℕ → ℕ → PageEntry → Paging
refilled s p1 page e = record (write_entry s p1 (table_index 0 page) e) {
  flushed = page ∷ s.flushed;
}

module _ (s : Paging) (level : ℕ → ℕ) (v : IsPaging s level) (p1 page : ℕ) (e : PageEntry)
    (lowest : level p1 ≡ 1) where
  abbrev after : Paging
  after = refilled s p1 page e

  pub entry_filled : after.tables p1 (table_index 0 page) ≡ e
  entry_filled =
      let q : (p1 == p1 && table_index 0 page == table_index 0 page) ≡ true = ground arith in
      rw q refl

  entry_apart : (u j : ℕ) → (u ≡ p1 → j ≢ table_index 0 page) → after.tables u j ≡ s.tables u j
  entry_apart u j out = elim (ℕ_discrete u p1) [
    | yes eu ↦
        let n = out eu in
        let q : (u == p1 && j == table_index 0 page) ≡ false = ground arith in rw q refl
    | no nu ↦ let q : (u == p1 && j == table_index 0 page) ≡ false = ground arith in rw q refl
  ]

  pub entry_above : (u k j : ℕ) → level u ≡ suc (suc k) → after.tables u j ≡ s.tables u j
  entry_above u k j h = entry_apart u j (λ eu. absurd (omega (arith, h, lowest, ap level eu)))

  pub child_above : (u k j : ℕ) → level u ≡ suc (suc k) → child after u j ≡ child s u j
  child_above u k j h = let q = entry_above u k j h in rw q refl

  present_above :
      (u k j : ℕ)
      → level u ≡ suc (suc k)
      → (after.tables u j).present ≢ 0
      → (s.tables u j).present ≢ 0
  present_above u k j h p q = p (ap (λ (x : PageEntry). x.present) (entry_above u k j h) ∙ q)

  pub refilled-IsPaging :
      (e.present ≢ 0 → physical e ≢ 0) → (e.present ≡ 0 → physical e ≡ 0) → IsPaging after level
  refilled-IsPaging some none_there = record {
    root = v.root;
    below = λ t k i h lt p.
        let (a, b) = v.below t k i h lt (present_above t k i h p) in
        (
          ap level (child_above t k i h) ∙ a,
          λ z. b (sym (ap (λ (x : PageEntry). physical x) (entry_above t k i h)) ∙ z),
        );
    absent = λ t k i h lt p.
        ap (λ (x : PageEntry). physical x) (entry_above t k i h)
        ∙ v.absent t k i h lt (sym (ap (λ (x : PageEntry). x.present) (entry_above t k i h)) ∙ p);
    unique = λ t k i t' k' i' h h' lt lt' p p' q.
        v.unique t k i t' k' i' h h' lt lt' (present_above t k i h p) (present_above t' k' i' h' p')
          (sym (child_above t k i h) ∙ q ∙ child_above t' k' i' h');
    leaf = leaf';
    leaf_absent = leaf_absent';
    frames = v.frames;
    fresh = v.fresh;
  }
    where
      leaf' :
          (t i : ℕ) → level t ≡ 1 → (after.tables t i).present ≢ 0 → physical (after.tables t i) ≢ 0
      leaf' t i h p = elim (ℕ_discrete t p1) [
        | yes et ↦ elim (ℕ_discrete i (table_index 0 page)) [
          | yes ei ↦
              let q : after.tables t i ≡ e = rw (et, ei) entry_filled in
              λ z.
                some (λ y. p (ap (λ (x : PageEntry). x.present) q ∙ y))
                  (sym (ap (λ (x : PageEntry). physical x) q) ∙ z)
          | no ni ↦
              let q = entry_apart t i (λ _. ni) in
              λ z.
                v.leaf t i h (λ y. p (ap (λ (x : PageEntry). x.present) q ∙ y))
                  (sym (ap (λ (x : PageEntry). physical x) q) ∙ z)
        ]
        | no nt ↦
            let q = entry_apart t i (λ y. absurd (nt y)) in
            λ z.
              v.leaf t i h (λ y. p (ap (λ (x : PageEntry). x.present) q ∙ y))
                (sym (ap (λ (x : PageEntry). physical x) q) ∙ z)
      ]

      leaf_absent' :
          (t i : ℕ) → level t ≡ 1 → (after.tables t i).present ≡ 0 → physical (after.tables t i) ≡ 0
      leaf_absent' t i h p = elim (ℕ_discrete t p1) [
        | yes et ↦ elim (ℕ_discrete i (table_index 0 page)) [
          | yes ei ↦
              let q : after.tables t i ≡ e = rw (et, ei) entry_filled in
              ap (λ (x : PageEntry). physical x) q
              ∙ none_there (sym (ap (λ (x : PageEntry). x.present) q) ∙ p)
          | no ni ↦
              let q = entry_apart t i (λ _. ni) in
              ap (λ (x : PageEntry). physical x) q
              ∙ v.leaf_absent t i h (sym (ap (λ (x : PageEntry). x.present) q) ∙ p)
        ]
        | no nt ↦
            let q = entry_apart t i (λ y. absurd (nt y)) in
            ap (λ (x : PageEntry). physical x) q
            ∙ v.leaf_absent t i h (sym (ap (λ (x : PageEntry). x.present) q) ∙ p)
      ]

  -- The page itself is translated by the new entry.
  pub walk_filled :
      (k t : ℕ) → level t ≡ suc k → Leads k s t page p1 → walk k after t page ≡ physical e
  unfolding walk
  walk_filled zero t h l = rw l (ap (λ (x : PageEntry). physical x) entry_filled)
  walk_filled (suc k) t h (p, l) =
      let j = table_index (suc k) page in
      let (b, c) = v.below t k j h (table_index-lt (suc k) page) p in
      walk_down k after t page
        (λ z. c (sym (ap (λ (x : PageEntry). physical x) (entry_above t k j h)) ∙ z))
      ∙ ap (λ (x : ℕ). walk k after x page) (child_above t k j h)
      ∙ walk_filled k (child s t j) b l

  -- The walk for another page does not end in the entry.
  pub walk_apart :
      (k t w virtual : ℕ)
      → level t ≡ suc k
      → level w ≡ suc k
      → Leads k s w page p1
      → (t ≡ w → SameIndices k virtual page → ⊥)
      → walk k after t virtual ≡ walk k s t virtual
  unfolding walk
  walk_apart zero t w virtual ht hw l out =
      ap (λ (x : PageEntry). physical x)
        (entry_apart t (table_index 0 virtual) (λ et. out (et ∙ sym l)))
  walk_apart (suc k) t w virtual ht hw (p, l) out =
      let j = table_index (suc k) virtual in
      let i = table_index (suc k) page in
      let q : physical (after.tables t j) ≡ physical (s.tables t j) =
        ap (λ (x : PageEntry). physical x) (entry_above t k j ht) in
      elim (ℕ_discrete (physical (s.tables t j)) 0) [
        | yes z ↦
            walk_absent (suc k) after t virtual (q ∙ z) ∙ sym (walk_absent (suc k) s t virtual z)
        | no nz ↦
            let on : (s.tables t j).present ≢ 0 =
              (λ y. nz (v.absent t k j ht (table_index-lt (suc k) virtual) y)) in
            let (b, _) = v.below t k j ht (table_index-lt (suc k) virtual) on in
            let (b', _) = v.below w k i hw (table_index-lt (suc k) page) p in
            walk_down k after t virtual (λ y. nz (sym q ∙ y))
            ∙ ap (λ (x : ℕ). walk k after x virtual) (child_above t k j ht)
            ∙ walk_apart k (child s t j) (child s w i) virtual b b' l (λ c same.
              let (et, ei) =
                v.unique t k j w k i ht hw (table_index-lt (suc k) virtual)
                  (table_index-lt (suc k) page) on p c in
              out et (ei, same))
            ∙ sym (walk_down k s t virtual nz)
      ]
