-- ===== src/Boot/Info.antt =====
-- The structs of kernel/boot.h. A pointer is an address, and `nullptr` is 0.
use optimist_os.Common.{ℕ}

pub record Framebuffer : Type 0 where
  pub base_address : ℕ
  pub buffer_size : ℕ
  pub width : ℕ
  pub height : ℕ
  pub pixels_per_scan_line : ℕ

-- `struct Memory`.
pub record MemoryInfo : Type 0 where
  pub free_mem_start : ℕ
  pub extra_mem_start : ℕ
  pub free_mem_size : ℕ
  pub kernel_start : ℕ
  pub kernel_size : ℕ
  pub kernel_start_v : ℕ
  pub hhdm_offset : ℕ

pub record BootInfo : Type 0 where
  pub framebuffer : Framebuffer
  pub psf1_font : ℕ
  pub memory : MemoryInfo
