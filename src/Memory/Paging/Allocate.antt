-- ===== src/Memory/Paging/Allocate.antt =====
-- A new table: `__allocate_entry` of lethe-kernel/memory/paging.c keeps the tree of tables, and
-- changes no translation.
pub mod Entries
pub mod Tree
pub mod Fresh
pub mod Ensure
