-- ===== src/Boot/Start.antt =====
-- `_start` of kernel/boot.cpp up to `setupOptimist`. The answers of the boot loader are parameters, and a
-- request that it has not answered is `none`. What is printed on the way is left out. `done` is reached as
-- `hlt`.
use optimist_os.Common.{
  ℕ, ◌+◌, ◌*◌, ◌/◌, Bool, Option, none, some, List, ◌==◌, ◌!=◌, ◌&&◌, leb, if◌then◌else◌, get_elem?,
  map, u32, u64,
}
use optimist_os.Kernel.Run.{M, pure, get, hlt, fault, ◌>>=◌, ◌>>◌}
use optimist_os.Print.{codes}
use optimist_os.Frames.Address.{set_boot_info}
use optimist_os.Boot.Info.{Framebuffer, MemoryInfo}
use optimist_os.Boot.Memmap.{MemmapEntry, Choice, initial, choose}
use optimist_os.Boot.Suffix.{get_file}

-- The first frame buffer of the answer, and their number.
pub record FramebufferResponse : Type 0 where
  pub framebuffer_count : ℕ
  pub address : ℕ
  pub width : ℕ
  pub height : ℕ
  pub pitch : ℕ

pub record KernelAddress : Type 0 where
  pub physical_base : ℕ
  pub virtual_base : ℕ

pub record File : Type 0 where
  pub path : List ℕ
  pub address : ℕ

pub record Limine : Type 0 where
  pub terminal_count : Option ℕ
  pub framebuffer : Option FramebufferResponse
  pub memmap : Option (List MemmapEntry)
  pub kernel_address : Option KernelAddress
  pub modules : Option (List File)
  pub hhdm_offset : Option ℕ

-- `PSF1_FONT`: the pointers to the header and to the glyphs.
pub record Font : Type 0 where
  pub psf1_header : ℕ
  pub glyph_buffer : ℕ

abbrev pub psf1_magic0 : ℕ
psf1_magic0 = 0x36

abbrev pub psf1_magic1 : ℕ
psf1_magic1 = 0x04

abbrev pub sizeof_psf1_header : ℕ
sizeof_psf1_header = 4

-- `if (request.response == nullptr) done();`
unfoldable pub answered : {A : Type 0} → Option A → M A
answered none = hlt
answered (some a) = pure a

-- `if (...) done();`, with the condition to go on.
unfoldable pub unless_done : Bool → M (Unit {0})
unless_done go_on = if go_on then pure tt else hlt

unfoldable pub make_framebuffer : FramebufferResponse → Framebuffer
make_framebuffer l = record {
  base_address = l.address;
  buffer_size = u64 (l.height * l.pitch);
  width = u32 l.width;
  height = u32 l.height;
  pixels_per_scan_line = u32 (l.pitch / 4);
}

-- The file for the index that `getFile` gives.
unfoldable pub file_at : List File → Option (Option ℕ) → M File
file_at files none = λ _. fault
file_at files (some none) = hlt
file_at files (some (some i)) = answered (get_elem? files i)

abbrev pub font_index : List File → Option (Option ℕ)
font_index files = get_file (codes "zap-light16.psf") (map (λ f. f.path) files) 0

unfoldable pub is_psf1 : (ℕ → ℕ) → ℕ → Bool
is_psf1 mem address = (mem address == psf1_magic0) && (mem (address + 1) == psf1_magic1)

unfoldable pub load_font : List File → M Font
load_font files = do
  file ← file_at files (font_index files)
  s ← get
  unless_done (is_psf1 s.mem file.address)
  pure (record {
    psf1_header = file.address;
    glyph_buffer = u64 (file.address + sizeof_psf1_header);
  })

unfoldable pub make_memory : Choice → KernelAddress → ℕ → MemoryInfo
make_memory c kernel offset = record {
  free_mem_start = c.free_mem_start;
  extra_mem_start = c.free_mem_start;
  free_mem_size = c.free_mem_size;
  kernel_start = kernel.physical_base;
  kernel_size = c.kernel_size;
  kernel_start_v = kernel.virtual_base;
  hhdm_offset = offset;
}

-- `usable` is LIMINE_MEMMAP_USABLE, `font` the address of the local variable.
unfoldable pub start : ℕ → ℕ → Limine → M Font
start usable font limine = do
  terminal_count ← answered limine.terminal_count
  unless_done (leb 1 terminal_count)
  fb ← answered limine.framebuffer
  unless_done (leb 1 fb.framebuffer_count)
  entries ← answered limine.memmap
  kernel ← answered limine.kernel_address
  let c = choose usable kernel.physical_base entries initial
  unless_done (c.free_mem_start != 0)
  files ← answered limine.modules
  psf1_font ← load_font files
  offset ← answered limine.hhdm_offset
  set_boot_info (record {
    framebuffer = make_framebuffer fb;
    psf1_font = font;
    memory = make_memory c kernel offset;
  })
  pure psf1_font
