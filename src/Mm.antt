-- ===== src/Mm.antt =====
-- kernel/src/mm: addresses, physical frames, page tables, the kernel heap, address spaces.
pub mod Addr
pub mod Frame
pub mod PageTable
pub mod Heap
pub mod Space
