-- ===== src/Memory/Paging/Regions.antt =====
-- The rest of lethe-kernel/memory/paging.c: the search for free pages, and what maps them. `fuel`
-- bounds the rounds of a search; `ALIGN_UP(search_start, PAGE_SIZE)` has no effect in the code.
use native.Mathlib.Decide.{ℕ_discrete}
use uefi_bare_bones.Prelude.{
  ℕ, zero, suc, ◌+◌, ◌%◌, ◌^◌, ◌≤◌, ◌<◌, ◌≡◌, ◌≢◌, refl, Bool, true, false, ◌||◌, arith, ◌==◌,
  if◌then◌else◌, length, u64, shl, shr,
}
use uefi_bare_bones.Memory.FrameAllocator.{Outcome, done, too_deep}
use uefi_bare_bones.Memory.FrameAllocator.Laws.{free_frames}
use uefi_bare_bones.Memory.Paging.{Paging, is_free, map_page, virtual_to_physical, ◌>>=◌}
use uefi_bare_bones.Memory.Paging.Levels.{IsPaging}
use uefi_bare_bones.Memory.Paging.Pages.{Maps, map_page-Maps}

-- `virtual += PAGE_SIZE`
abbrev pub next_page : ℕ → ℕ
next_page virtual = u64 (virtual + 0x1000)

-- The inner loop of `get_free_region`: `found_region`, and `virtual` behind the last page that was
-- looked at.
pub pages_free : ℕ → Paging → ℕ → Bool × ℕ
pages_free zero s virtual = (true, virtual)
pages_free (suc num_pages) s virtual = elim (is_free s virtual) [
  | true ↦ pages_free num_pages s (next_page virtual)
  | false ↦ (false, next_page virtual)
]

pub get_free_region : ℕ → Paging → ℕ → ℕ → Outcome ℕ
unfolding pages_free
get_free_region zero s start num_pages = too_deep
get_free_region (suc fuel) s start num_pages = elim (pages_free num_pages s start).0 [
  | true ↦ done start
  | false ↦ get_free_region fuel s (pages_free num_pages s start).1 num_pages
]

-- The loop of `map_contiguous_pages`.
pub map_region : ℕ → Paging → ℕ → ℕ → ℕ → Outcome Paging
map_region zero s virtual physical flags = done s
map_region (suc num_pages) s virtual physical flags = map_page s virtual physical flags >>= λ s'.
    map_region num_pages s' (next_page virtual) (next_page physical) flags

pub map_contiguous_pages : ℕ → Paging → ℕ → ℕ → ℕ → ℕ → Outcome (ℕ × Paging)
unfolding get_free_region map_region
map_contiguous_pages fuel s desired_start physical_start num_pages flags =
    get_free_region fuel s desired_start num_pages >>= λ virtual.
    map_region num_pages s virtual physical_start flags >>= λ s'. done (virtual, s')

-- The loop of `map_page_nearest`.
pub first_unmapped : ℕ → Paging → ℕ → Outcome ℕ
first_unmapped zero s virtual = too_deep
first_unmapped (suc fuel) s virtual = elim (virtual_to_physical s virtual == 0) [
  | true ↦ done virtual
  | false ↦ first_unmapped fuel s (next_page virtual)
]

-- Where `map_page_nearest` begins: not at 0, and not at the start of the direct mapping.
unfoldable pub nearest_start : Paging → ℕ → ℕ
nearest_start s desired_page =
    if desired_page == s.hhdm_mapping || desired_page == 0
    then next_page desired_page
    else desired_page

pub map_page_nearest : ℕ → Paging → ℕ → ℕ → ℕ → Outcome (ℕ × Paging)
unfolding first_unmapped nearest_start
map_page_nearest fuel s desired_page frame flags =
    first_unmapped fuel s (nearest_start s desired_page) >>= λ virtual.
    map_page s virtual frame flags >>= λ s'. done (virtual, s')

-- `init_page_table`, with what `read_cr3` gives.
pub init_page_table : ℕ → Paging → Paging
init_page_table cr3 s = record s { page_table = u64 (shr (u64 (shl cr3 12)) 12 + s.hhdm_mapping) }

-- The page that is `k` pages further.
abbrev pub pages_on : ℕ → ℕ → ℕ
pages_on zero virtual = virtual
pages_on (suc k) virtual = pages_on k (next_page virtual)

-- The search stops at the first page without a translation.
first_unmapped-found :
    (fuel k : ℕ) (s : Paging) (virtual : ℕ)
    → k < fuel
    → virtual_to_physical s (pages_on k virtual) ≡ 0
    → (j : ℕ) × (j ≤ k)
      × (first_unmapped fuel s virtual ≡ done (pages_on j virtual))
      × (virtual_to_physical s (pages_on j virtual) ≡ 0)
      × ((i : ℕ) → i < j → virtual_to_physical s (pages_on i virtual) ≢ 0)
unfolding first_unmapped
first_unmapped-found zero k s virtual h e = absurd (omega arith)
first_unmapped-found (suc fuel) zero s virtual h e =
    let t : (virtual_to_physical s virtual == 0) ≡ true = ground arith in
    (0, omega arith, rw (t, first_unmapped) refl, e, λ i l. absurd (omega arith))
first_unmapped-found (suc fuel) (suc k) s virtual h e =
    elim (ℕ_discrete (virtual_to_physical s virtual) 0) [
      | yes z ↦
          let t : (virtual_to_physical s virtual == 0) ≡ true = ground arith in
          (0, omega arith, rw (t, first_unmapped) refl, z, λ i l. absurd (omega arith))
      | no n ↦
          let t : (virtual_to_physical s virtual == 0) ≡ false = ground arith in
          let (j, le, runs, free, earlier) =
            first_unmapped-found fuel k s (next_page virtual) (omega arith) e in
          (suc j, omega arith, rw (t, first_unmapped) runs, free, mapped_before j n earlier)
    ]
  where
    mapped_before :
        (j : ℕ)
        → virtual_to_physical s virtual ≢ 0
        → ((i : ℕ) → i < j → virtual_to_physical s (pages_on i (next_page virtual)) ≢ 0)
        → (i : ℕ) → i < suc j
        → virtual_to_physical s (pages_on i virtual) ≢ 0
    mapped_before j n earlier zero l = n
    mapped_before j n earlier (suc i) l = earlier i (omega arith)

-- Where a search from `page` on begins: at `page`, but one page behind the start of the direct
-- mapping, and one page behind address 0.
pub data StartsAt (s : Paging) (page : ℕ) : ℕ → Type 0 where
  at_page : page ≢ s.hhdm_mapping → page ≢ 0 → StartsAt s page page
  behind_mapping : page ≡ s.hhdm_mapping → StartsAt s page (u64 (page + 4096))
  behind_null : page ≡ 0 → StartsAt s page (u64 (page + 4096))

StartsAt-nearest_start :
    (s : Paging) (page start : ℕ) → StartsAt s page start → nearest_start s page ≡ start
unfolding nearest_start
StartsAt-nearest_start s page _ (at_page m z) = ground arith
StartsAt-nearest_start s page _ (behind_mapping e) = ground arith
StartsAt-nearest_start s page _ (behind_null e) = ground arith

-- With well-formed tables, three free frames, the present flag, a frame at a page boundary that is not
-- 0 and below 2 ^ 52, and some page within the rounds given, from the start of the search on, that
-- has no translation, `map_page_nearest` ends, and maps the frame at the first such page: that page
-- had no translation, and all pages from the start to it had one. No other translation changes.
pub map_page_nearest-Maps :
    (fuel k : ℕ) (s : Paging) (level : ℕ → ℕ) (page start frame flags : ℕ)
    → IsPaging s level
    → StartsAt s page start
    → k < fuel
    → virtual_to_physical s (pages_on k start) ≡ 0
    → flags % 2 ≡ 1
    → frame ≢ 0
    → frame % 4096 ≡ 0
    → frame < 2 ^ 52
    → 3 ≤ length (free_frames s.allocator)
    → (j : ℕ) × (s' : Paging) × (level' : ℕ → ℕ) × (j ≤ k)
      × (virtual_to_physical s (pages_on j start) ≡ 0)
      × ((i : ℕ) → i < j → virtual_to_physical s (pages_on i start) ≢ 0)
      × (map_page_nearest fuel s page frame flags ≡ done (pages_on j start, s'))
      × IsPaging s' level'
      × Maps s (pages_on j start) frame s'
unfolding map_page_nearest
map_page_nearest-Maps fuel k s level page start frame flags v at h e odd f0 f4 f52 room =
    let (j, le, runs, free, earlier) = first_unmapped-found fuel k s start h e in
    let begins = StartsAt-nearest_start s page start at in
    let (s', level', mapped, tree, m) =
      map_page-Maps s level v (pages_on j start) frame flags odd f0 f4 f52 free room in
    (j, s', level', le, free, earlier, rw (begins, runs, mapped) refl, tree, m)

first_free :
    (num_pages : ℕ) (s : Paging) (virtual : ℕ)
    → (pages_free (suc num_pages) s virtual).0 ≡ true
    → (is_free s virtual ≡ true) × ((pages_free num_pages s (next_page virtual)).0 ≡ true)
unfolding pages_free
first_free num_pages s virtual h = free (is_free s virtual) h
  where
    free :
        (b : Bool)
        → (elim b as (λ _. Bool × ℕ) [
          | true ↦ pages_free num_pages s (next_page virtual)
          | false ↦ (false, next_page virtual)
        ]).0
          ≡ true
        → (b ≡ true) × ((pages_free num_pages s (next_page virtual)).0 ≡ true)
    free true h = (refl, h)
    free false h = ground arith

-- A region in which no page was found to be in use has only free pages.
pages_free-free :
    (num_pages : ℕ) (s : Paging) (virtual : ℕ)
    → (pages_free num_pages s virtual).0 ≡ true
    → (i : ℕ) → i < num_pages
    → is_free s (pages_on i virtual) ≡ true
pages_free-free zero s virtual h i l = absurd (omega arith)
pages_free-free (suc num_pages) s virtual h zero l = (first_free num_pages s virtual h).0
pages_free-free (suc num_pages) s virtual h (suc i) l =
    pages_free-free num_pages s (next_page virtual) (first_free num_pages s virtual h).1 i
      (omega arith)
