-- ===== src/Boot.antt =====
-- kernel/boot.h and kernel/boot.cpp: what the boot loader tells the kernel.
pub mod Bootable
pub mod FirstFrame
pub mod Info
pub mod Memmap
pub mod Region
pub mod Start
pub mod Suffix
