-- ===== src/Memory/ListAllocator/FirstFit.antt =====
-- `get_valid_region` of lethe-kernel/memory/list_allocator.c is first fit.
use uefi_bare_bones.Prelude.{
  ℕ, ◌≤◌, ◌<◌, ◌≡◌, refl, ap, Option, none, some, List, [], ◌∷◌, ◌++◌, arith,
}
use native.Mathlib.Decide.{dec_lt}
use uefi_bare_bones.Memory.ListAllocator.{Region, get_valid_region}

abbrev pub AllSmaller : ℕ → List Region → Type 0
AllSmaller pages [] = Unit {0}
AllSmaller pages (region ∷ regions) = (region.pages < pages) × AllSmaller pages regions

-- The region found is the first with enough pages, and it alone is taken out; none is found
-- exactly when all are too small.
pub data FirstFit (regions : List Region) (pages : ℕ) : Option (Region × List Region) → Type 0 where
  fits :
      (before : List Region) (region : Region) (after : List Region)
      → regions ≡ before ++ (region ∷ after)
      → AllSmaller pages before
      → pages ≤ region.pages
      → FirstFit regions pages (some (region, before ++ after))
  too_small : AllSmaller pages regions → FirstFit regions pages none

pub get_here :
    (region : Region) (regions : List Region) (pages : ℕ)
    → pages ≤ region.pages
    → get_valid_region (region ∷ regions) pages ≡ some (region, regions)
unfolding get_valid_region
get_here region regions pages h = ground arith

pub get_none :
    (region : Region) (regions : List Region) (pages : ℕ)
    → region.pages < pages
    → get_valid_region regions pages ≡ none
    → get_valid_region (region ∷ regions) pages ≡ none
unfolding get_valid_region
get_none region regions pages h e = ground arith

get_later :
    (region found : Region) (regions others : List Region) (pages : ℕ)
    → region.pages < pages
    → get_valid_region regions pages ≡ some (found, others)
    → get_valid_region (region ∷ regions) pages ≡ some (found, region ∷ others)
unfolding get_valid_region
get_later region found regions others pages h e = ground arith

-- `get_valid_region` is first fit.
pub get_valid_region-FirstFit :
    (regions : List Region) (pages : ℕ) → FirstFit regions pages (get_valid_region regions pages)
get_valid_region-FirstFit [] pages = unfold get_valid_region in too_small tt
get_valid_region-FirstFit (region ∷ regions) pages = elim (dec_lt region.pages pages) [
  | no enough ↦
      rw (get_here region regions pages (omega arith))
        (fits [] region regions refl tt (omega arith))
  | yes small ↦
      go small (get_valid_region regions pages) refl (get_valid_region-FirstFit regions pages)
]
  where
    go :
        region.pages < pages
        → (o : Option (Region × List Region)) → get_valid_region regions pages ≡ o
        → FirstFit regions pages o
        → FirstFit (region ∷ regions) pages (get_valid_region (region ∷ regions) pages)
    go small none e (too_small all) =
        rw (get_none region regions pages small e) (too_small (small, all))
    go small (some x) e (fits before found after parts all enough) =
        rw (get_later region found regions (before ++ after) pages small e)
          (fits (region ∷ before) found after (ap (λ t. region ∷ t) parts) (small, all) enough)
