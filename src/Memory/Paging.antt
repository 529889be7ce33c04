-- ===== src/Memory/Paging.antt =====
-- lethe-kernel/memory/paging.c: the four levels of page tables. A table is named by the address that
-- the kernel reads it at, its physical address and `hhdm_mapping`; frames come from the frame
-- allocator, which clears them.
pub mod Walk
pub mod Levels
pub mod Allocate
pub mod Leaf
pub mod Map
pub mod Pages
pub mod Unmap
pub mod Regions
pub mod Backed
pub mod Sample
mod Tests
use uefi_bare_bones.Prelude.{
  ℕ, zero, suc, ◌+◌, ◌/◌, ◌%◌, ◌^◌, Bool, true, false, ◌&&◌, List, [], ◌∷◌, ◌==◌, if◌then◌else◌,
  bit_and, u16, u64, shl, shr,
}
use uefi_bare_bones.Memory.FrameAllocator.{
  FrameAllocator, Outcome, done, panic, too_deep, allocate_frame,
}

-- `page_entry_t`
pub record PageEntry : Type 0 where
  pub present : ℕ
  pub writable : ℕ
  pub user_accessable : ℕ
  pub write_through : ℕ
  pub cache_disable : ℕ
  pub accessed : ℕ
  pub unused_1 : ℕ
  pub page_size : ℕ
  pub unused_2 : ℕ
  pub address : ℕ
  pub unused_3 : ℕ
  pub execute_disable : ℕ

abbrev pub no_entry : PageEntry
no_entry = record {
  present = 0;
  writable = 0;
  user_accessable = 0;
  write_through = 0;
  cache_disable = 0;
  accessed = 0;
  unused_1 = 0;
  page_size = 0;
  unused_2 = 0;
  address = 0;
  unused_3 = 0;
  execute_disable = 0;
}

-- `page_table` and `hhdm_mapping`, the tables in memory, the frame allocator, and the pages that
-- `flush_tlb` was called for.
pub record Paging : Type 0 where
  pub page_table : ℕ
  pub hhdm_mapping : ℕ
  pub tables : ℕ → ℕ → PageEntry
  pub allocator : FrameAllocator
  pub flushed : List ℕ

infixl 5 ◌>>=◌
abbrev pub ◌>>=◌ : {A B : Type 0} → Outcome A → (A → Outcome B) → Outcome B
done a >>= f = f a
panic >>= f = panic
too_deep >>= f = too_deep

-- `entry.address << 12`
abbrev pub physical : PageEntry → ℕ
physical e = u64 (shl e.address 12)

-- `(entry.address << 12) + hhdm_mapping`, for the entry of a table.
abbrev pub child : Paging → ℕ → ℕ → ℕ
child s table i = u64 (physical (s.tables table i) + s.hhdm_mapping)

-- `virtual >> 12`, and nine bits further for each level above the lowest.
abbrev pub page_bits : ℕ → ℕ → ℕ
page_bits zero virtual = shr virtual 12
page_bits (suc k) virtual = shr (page_bits k virtual) 9

-- `p1_index` to `p4_index`, for `k` from 0 to 3.
abbrev pub table_index : ℕ → ℕ → ℕ
table_index k virtual = u16 (bit_and (page_bits k virtual) 0x1FF)

pub virtual_to_physical : Paging → ℕ → ℕ
virtual_to_physical s virtual =
    let p3 = child s s.page_table (table_index 3 virtual) in
    let p2 = child s p3 (table_index 2 virtual) in
    let p1 = child s p2 (table_index 1 virtual) in
    let page_entry = physical (s.tables p1 (table_index 0 virtual)) in
    if physical (s.tables s.page_table (table_index 3 virtual)) == 0
    then 0
    else if physical (s.tables p3 (table_index 2 virtual)) == 0
    then 0
    else if physical (s.tables p2 (table_index 1 virtual)) == 0
    then 0
    else if page_entry == 0
    then 0
    else page_entry

-- `set_entry` writes every field.
pub set_entry : ℕ → ℕ → PageEntry
set_entry address flags = record {
  present = bit_and flags 0x1 % 2;
  writable = shr (bit_and flags 0x2) 1 % 2;
  user_accessable = shr (bit_and flags 0x4) 2 % 2;
  write_through = shr (bit_and flags 0x8) 3 % 2;
  cache_disable = shr (bit_and flags 0x10) 4 % 2;
  accessed = shr (bit_and flags 0x20) 5 % 2;
  unused_1 = 1;
  page_size = shr (bit_and flags 0x40) 6 % 2;
  unused_2 = 0;
  address = shr address 12 % 2 ^ 40;
  unused_3 = 0;
  execute_disable = shr (bit_and flags 0x80) 7 % 2;
}

pub get_entry : Paging → ℕ → PageEntry
get_entry s page =
    let p3 = child s s.page_table (table_index 3 page) in
    let p2 = child s p3 (table_index 2 page) in
    let p1 = child s p2 (table_index 1 page) in
    if physical (s.tables s.page_table (table_index 3 page)) == 0
    then no_entry
    else if physical (s.tables p3 (table_index 2 page)) == 0
    then no_entry
    else if physical (s.tables p2 (table_index 1 page)) == 0
    then no_entry
    else if physical (s.tables p1 (table_index 0 page)) == 0
    then no_entry
    else s.tables p1 (table_index 0 page)

-- `is_free`
pub is_free : Paging → ℕ → Bool
unfolding get_entry
is_free s virtual = (get_entry s virtual).unused_1 == 0

-- `table->pages[i] = e`
abbrev pub write_entry : Paging → ℕ → ℕ → PageEntry → Paging
write_entry s table i e = record s {
  tables = λ u j. if u == table && j == i then e else s.tables u j;
}

-- The `memset` of a frame in `allocate_frame`, for a frame that is read at `table`.
abbrev pub clear_table : Paging → ℕ → Paging
clear_table s table = record s { tables = λ u j. if u == table then no_entry else s.tables u j }

-- `__allocate_entry`, where the frame allocator has given a frame.
pub use_frame : Paging → ℕ → ℕ → ℕ → ℕ → FrameAllocator → Outcome Paging
unfolding set_entry
use_frame s table i flags address allocator =
    let cleared =
      clear_table (record s { allocator = allocator }) (u64 (address + s.hhdm_mapping)) in
    if address == 0 then panic else done (write_entry cleared table i (set_entry address flags))

pub allocate_entry : Paging → ℕ → ℕ → ℕ → Outcome Paging
unfolding use_frame
allocate_entry s table i flags = elim (allocate_frame s.allocator) [
  | done (address, allocator) ↦ use_frame s table i flags address allocator
  | panic ↦ panic
  | too_deep ↦ too_deep
]

-- The test of `map_page` at each of the upper levels.
pub ensure_entry : Paging → ℕ → ℕ → ℕ → Outcome Paging
unfolding allocate_entry
ensure_entry s table i flags =
    if (s.tables table i).present == 0 then allocate_entry s table i flags else done s

-- The end of `map_page`, at the lowest table.
pub fill_page : Paging → ℕ → ℕ → ℕ → ℕ → Outcome Paging
unfolding set_entry
fill_page s p1 page frame flags =
    let filled = write_entry s p1 (table_index 0 page) (set_entry frame flags) in
    if (s.tables p1 (table_index 0 page)).present == 0
    then done (record filled { flushed = page ∷ s.flushed })
    else panic

pub map_page : Paging → ℕ → ℕ → ℕ → Outcome Paging
unfolding ensure_entry fill_page
map_page s page frame flags = ensure_entry s s.page_table (table_index 3 page) flags >>= λ s4.
    let p3 = child s4 s4.page_table (table_index 3 page) in
    ensure_entry s4 p3 (table_index 2 page) flags >>= λ s3.
    let p2 = child s3 p3 (table_index 2 page) in
    ensure_entry s3 p2 (table_index 1 page) flags >>= λ s2.
    fill_page s2 (child s2 p2 (table_index 1 page)) page frame flags

pub unmap_page : Paging → ℕ → Paging
unmap_page s page =
    let p3 = child s s.page_table (table_index 3 page) in
    let p2 = child s p3 (table_index 2 page) in
    let p1 = child s p2 (table_index 1 page) in
    let unmapped = write_entry s p1 (table_index 0 page) no_entry in
    if (s.tables s.page_table (table_index 3 page)).present == 0
    then s
    else if (s.tables p3 (table_index 2 page)).present == 0
    then s
    else if (s.tables p2 (table_index 1 page)).present == 0
    then s
    else record unmapped { flushed = page ∷ s.flushed }
