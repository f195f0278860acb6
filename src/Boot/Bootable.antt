-- ===== src/Boot/Bootable.antt =====
-- When `_start` of kernel/boot.cpp gets as far as `setupOptimist`, and with what.
use optimist_os.Common.{
  ℕ, ◌+◌, ◌≡◌, refl, Bool, true, false, Option, none, some, List, leb, ◌!=◌, get_elem?, ◌*◌, ◌/◌,
  ◌%◌, ◌^◌, ◌≤◌, ◌≢◌, inl, inr, arith, ne→!=, le→leb, leb→le,
}
use optimist_os.Kernel.{Kernel}
use optimist_os.Kernel.Run.{M, ok, and_then, and_then-ok}
use optimist_os.Frames.Address.{set_boot_info}
use optimist_os.Boot.Info.{BootInfo}
use optimist_os.Boot.Memmap.{MemmapEntry, initial, choose}
use optimist_os.Boot.Region.{
  IsLongest, IsKernelSize, IsLongest-pos, choose-stays, choose-IsLongest, find-IsLongest,
  choose-IsKernelSize, choose-kernel_size,
}
use optimist_os.Boot.Start.{
  Limine, FramebufferResponse, KernelAddress, File, Font, answered, unless_done, make_framebuffer,
  make_memory, file_at, font_index, is_psf1, load_font, start,
}

-- What a run that goes on behind a test, or at last returns, has found.
answered-ok :
    {A B : Type 0} (o : Option A) (k : A → M B) {s t : Kernel} {b : B}
    → and_then (answered o s) k ≡ ok b t
    → (a : A) × (o ≡ some a) × (k a s ≡ ok b t)
unfolding answered
answered-ok none k h = absurd (cc)
answered-ok (some a) k h = (a, refl, h)

unless_done-ok :
    {B : Type 0} (go_on : Bool) (k : Unit {0} → M B) {s t : Kernel} {b : B}
    → and_then (unless_done go_on s) k ≡ ok b t
    → (go_on ≡ true) × (k tt s ≡ ok b t)
unfolding unless_done
unless_done-ok true k h = (refl, h)
unless_done-ok false k h = absurd (cc)

file_at-ok :
    {B : Type 0} (files : List File) (r : Option (Option ℕ)) (k : File → M B) {s t : Kernel} {b : B}
    → and_then (file_at files r s) k ≡ ok b t
    → (i : ℕ) × (file : File) × (r ≡ some (some i))
      × (get_elem? files i ≡ some file)
      × (k file s ≡ ok b t)
unfolding file_at
file_at-ok files none k h = absurd (cc)
file_at-ok files (some none) k h = absurd (cc)
file_at-ok files (some (some i)) k h =
    let (file, at, rest) = answered-ok (get_elem? files i) k h in (i, file, refl, at, rest)

-- The answers with which the kernel comes up.
pub record IsBootable (usable : ℕ) (mem : ℕ → ℕ) (limine : Limine) : Type 0 where
  pub terminal_count : ℕ
  pub framebuffer : FramebufferResponse
  pub entries : List MemmapEntry
  pub kernel : KernelAddress
  pub files : List File
  pub index : ℕ
  pub file : File
  pub offset : ℕ
  pub has_terminals : limine.terminal_count ≡ some terminal_count
  pub has_framebuffer : limine.framebuffer ≡ some framebuffer
  pub has_memmap : limine.memmap ≡ some entries
  pub has_kernel : limine.kernel_address ≡ some kernel
  pub has_modules : limine.modules ≡ some files
  pub has_hhdm : limine.hhdm_offset ≡ some offset
  pub terminal : 1 ≤ terminal_count
  pub screen : 1 ≤ framebuffer.framebuffer_count
  pub free : MemmapEntry
  pub longest : IsLongest usable kernel.physical_base entries free
  pub somewhere : free.base ≢ 0
  pub kernel_size : ℕ
  pub sized : IsKernelSize usable kernel.physical_base entries kernel_size
  pub named : font_index files ≡ some (some index)
  pub listed : get_elem? files index ≡ some file
  pub magic0 : mem file.address ≡ 0x36
  pub magic1 : mem (file.address + 1) ≡ 0x04

-- What the kernel comes up with.
abbrev pub boot_info :
    {usable : ℕ} {mem : ℕ → ℕ} {limine : Limine} → ℕ → IsBootable usable mem limine → BootInfo
boot_info font b = record {
  framebuffer = record {
    base_address = b.framebuffer.address;
    buffer_size = b.framebuffer.height * b.framebuffer.pitch % 2 ^ 64;
    width = b.framebuffer.width % 2 ^ 32;
    height = b.framebuffer.height % 2 ^ 32;
    pixels_per_scan_line = b.framebuffer.pitch / 4 % 2 ^ 32;
  };
  psf1_font = font;
  memory = record {
    free_mem_start = b.free.base;
    extra_mem_start = b.free.base;
    free_mem_size = b.free.length;
    kernel_start = b.kernel.physical_base;
    kernel_size = b.kernel_size;
    kernel_start_v = b.kernel.virtual_base;
    hhdm_offset = b.offset;
  };
}

abbrev pub boot_font :
    {usable : ℕ} {mem : ℕ → ℕ} {limine : Limine} → IsBootable usable mem limine → Font
boot_font b = record { psf1_header = b.file.address; glyph_buffer = (b.file.address + 4) % 2 ^ 64 }

load_font-IsBootable :
    {usable : ℕ} (s : Kernel) {limine : Limine} (b : IsBootable usable s.mem limine)
    → load_font b.files s ≡ ok (boot_font b) s
unfolding load_font file_at answered unless_done is_psf1
load_font-IsBootable s b = rw (b.named, b.listed, b.magic0, b.magic1) refl

-- What the loop chooses is the region of the answers.
pub region-IsBootable :
    {usable : ℕ} {mem : ℕ → ℕ} {limine : Limine} (b : IsBootable usable mem limine)
    → ((choose usable b.kernel.physical_base b.entries initial).free_mem_start ≡ b.free.base)
      × ((choose usable b.kernel.physical_base b.entries initial).free_mem_size ≡ b.free.length)
      × ((choose usable b.kernel.physical_base b.entries initial).kernel_size ≡ b.kernel_size)
region-IsBootable {usable} b =
    let (start, size) =
      choose-IsLongest usable b.kernel.physical_base b.longest initial
        (IsLongest-pos usable b.kernel.physical_base b.longest) in
    (start, size, choose-kernel_size usable b.kernel.physical_base b.sized)

start-IsBootable :
    {usable : ℕ} (font : ℕ) (s : Kernel) {limine : Limine} (b : IsBootable usable s.mem limine)
    → start usable font limine s
      ≡ ok (boot_font b) (record s { global_boot_info = boot_info font b })
unfolding start answered unless_done set_boot_info make_memory make_framebuffer
start-IsBootable font s b =
    let (region, size, kernel) = region-IsBootable b in
    rw
      (
        b.has_terminals,
        le→leb 1 b.terminal_count b.terminal,
        b.has_framebuffer,
        le→leb 1 b.framebuffer.framebuffer_count b.screen,
        b.has_memmap,
        b.has_kernel,
        region,
        size,
        kernel,
        ne→!= b.free.base 0 b.somewhere,
        b.has_modules,
        load_font-IsBootable s b,
        b.has_hhdm,
      )
      refl

-- A region that is not at the address 0 is a longest one.
longest-region :
    (usable kernel_start : ℕ) (entries : List MemmapEntry)
    → ((choose usable kernel_start entries initial).free_mem_start != 0) ≡ true
    → (e : MemmapEntry) × IsLongest usable kernel_start entries e × (e.base ≢ 0)
longest-region usable kernel_start entries h = elim (find-IsLongest usable kernel_start entries 0) [
  | inl empty ↦
      let (start, size) = choose-stays usable kernel_start entries initial empty in
      absurd (ground (arith, start))
  | inr (e, long, pos) ↦
      let (start, size) = choose-IsLongest usable kernel_start long initial pos in
      (e, long, λ z. absurd (ground (arith, start)))
]

magic-is_psf1 :
    (mem : ℕ → ℕ) (address : ℕ)
    → is_psf1 mem address ≡ true
    → (mem address ≡ 0x36) × (mem (address + 1) ≡ 0x04)
unfolding is_psf1
magic-is_psf1 mem address h = (ground arith, ground arith)

start-ok :
    (usable font : ℕ) (s : Kernel) (limine : Limine) {f : Font} {t : Kernel}
    → start usable font limine s ≡ ok f t
    → IsBootable usable s.mem limine
unfolding start load_font
start-ok usable font s limine h =
    let (count, has_count, h1) = answered-ok limine.terminal_count _ h in
    let (some_terminal, h2) = unless_done-ok (leb 1 count) _ h1 in
    let (fb, has_fb, h3) = answered-ok limine.framebuffer _ h2 in
    let (some_screen, h4) = unless_done-ok (leb 1 fb.framebuffer_count) _ h3 in
    let (entries, has_memmap, h5) = answered-ok limine.memmap _ h4 in
    let (kernel, has_kernel, h6) = answered-ok limine.kernel_address _ h5 in
    let (region, h7) =
      unless_done-ok ((choose usable kernel.physical_base entries initial).free_mem_start != 0) _
        h6 in
    let (files, has_modules, h8) = answered-ok limine.modules _ h7 in
    let (font_of, u, loaded, h9) = and_then-ok (load_font files s) _ h8 in
    let (i, file, named, listed, h10) = file_at-ok files (font_index files) _ loaded in
    let (magic, _) = unless_done-ok (is_psf1 s.mem file.address) _ h10 in
    let (magic0, magic1) = magic-is_psf1 s.mem file.address magic in
    let (free, longest, somewhere) = longest-region usable kernel.physical_base entries region in
    let (offset, has_hhdm, _) = answered-ok limine.hhdm_offset _ h9 in
    record {
      terminal_count = count;
      framebuffer = fb;
      entries = entries;
      kernel = kernel;
      files = files;
      index = i;
      file = file;
      offset = offset;
      has_terminals = has_count;
      has_framebuffer = has_fb;
      has_memmap = has_memmap;
      has_kernel = has_kernel;
      has_modules = has_modules;
      has_hhdm = has_hhdm;
      terminal = leb→le 1 count some_terminal;
      screen = leb→le 1 fb.framebuffer_count some_screen;
      free = free;
      longest = longest;
      somewhere = somewhere;
      kernel_size = (choose usable kernel.physical_base entries initial).kernel_size;
      sized = choose-IsKernelSize usable kernel.physical_base entries;
      named = named;
      listed = listed;
      magic0 = magic0;
      magic1 = magic1;
    }

-- `_start` comes as far as `setupOptimist` exactly with answers of these kinds: at least one terminal and one
-- frame buffer, a memory map whose first longest usable entry is not empty and not at address 0, the kernel's
-- address, modules of which `getFile` gives one for the font's name that begins with the bytes 0x36 and 0x04,
-- and the offset of the direct map. It then has stored in the boot information the frame buffer's address, its
-- size as height times pitch, its width, height and a quarter of its pitch as words of 32 bits, that entry, the
-- kernel's addresses, the size of the last entry that is not usable and begins at the kernel, or 1, and the
-- offset; the font is that module with the glyphs four bytes behind it, and nothing else has changed.
pub start_lem :
    (usable font : ℕ) (s : Kernel) (limine : Limine)
    → ((b : IsBootable usable s.mem limine)
        → start usable font limine s
          ≡ ok (boot_font b) (record s { global_boot_info = boot_info font b }))
      × ((f : Font) (t : Kernel)
          → start usable font limine s ≡ ok f t
          → IsBootable usable s.mem limine)
start_lem usable font s limine =
    (λ b. start-IsBootable font s b, λ f t h. start-ok usable font s limine h)
