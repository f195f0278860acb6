-- ===== src/Frames.antt =====
-- kernel/paging/freeList.cpp and kernel/paging/pageFrameAllocator.cpp: the page frame allocator.
pub mod Round
pub mod Address
pub mod FreeList
pub mod Allocate
pub mod Free
pub mod First
