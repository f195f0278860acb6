-- ===== src/Paging.antt =====
-- kernel/paging/paging.hpp and paging.cpp: page tables of four levels.
pub mod Entry
pub mod Index
pub mod Map
pub mod Setup
pub mod Space
pub mod Walk
