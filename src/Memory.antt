-- ===== src/Memory.antt =====
-- lethe-kernel/memory: the frame allocator, the page allocator of the heap and the page tables.
pub mod FrameAllocator
pub mod ListAllocator
pub mod Paging
