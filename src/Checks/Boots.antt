-- ===== src/Checks/Boots.antt =====
-- kernel/boot.cpp at concrete inputs.
use optimist_os.Common.{◌+◌, ◌≡◌, ◌⊎◌, refl, arith, true, some, List, [], ◌∷◌, ◌==◌, if◌then◌else◌}
use optimist_os.Memory.{Memory}
use optimist_os.Kernel.{Kernel}
use optimist_os.Kernel.Run.{ok}
use optimist_os.Print.{codes}
use optimist_os.Frames.Round.Laws.{round_up_to_page_boundary_lem}
use optimist_os.Frames.Allocate.{allocate_frame}
use optimist_os.Frames.Allocate.Bump.{IsBump}
use optimist_os.Boot.Memmap.{MemmapEntry, initial, choose, consider, AtMost, IsOne, choose_lem}
use optimist_os.Boot.Suffix.{
  back_from, check_string_ends_with, get_file, check_string_ends_with_first,
}
use optimist_os.Boot.Region.{IsKernel, IsKernelSize, first, later, before, last}
use optimist_os.Boot.Start.{FramebufferResponse, File, KernelAddress, Limine, Font, start}
use optimist_os.Boot.Bootable.{IsBootable, boot_info, boot_font, start_lem}
use optimist_os.Boot.FirstFrame.{region, start-allocate_frame}
use optimist_os.Checks.FrameCalls.{fresh}

abbrev kernel_region : MemmapEntry
kernel_region = record { base = 1048576; length = 20480; type = 6 }

abbrev memmap : List MemmapEntry
memmap =
    record { base = 0; length = 4096; type = 0 }
    ∷ record { base = 8192; length = 65536; type = 0 }
    ∷ kernel_region
    ∷ []

choose_lem_example :
    AtMost 0 1048576 (choose 0 1048576 memmap initial).free_mem_size memmap
    × (IsOne 0 1048576 (choose 0 1048576 memmap initial) memmap
        ⊎ (((choose 0 1048576 memmap initial).free_mem_start ≡ 0)
            × ((choose 0 1048576 memmap initial).free_mem_size ≡ 0)))
choose_lem_example = choose_lem 0 1048576 memmap

check_string_ends_with_first_example :
    check_string_ends_with (b'/' ∷ b'b' ∷ b'x' ∷ []) (b'a' ∷ b'x' ∷ []) ≡ some true
check_string_ends_with_first_example =
    check_string_ends_with_first (b'/' ∷ b'b' ∷ []) (b'x' ∷ []) b'a' (λ h. cc) (λ h. cc)

-- A memory with the font's magic at 0x100000.
abbrev with_font : Memory
with_font x = if x == 0x100000 then 0x36 else if x == 0x100001 then 0x04 else 0

abbrev powered_on : Kernel
powered_on = record fresh { mem = with_font }

abbrev framebuffer : FramebufferResponse
framebuffer = record {
  framebuffer_count = 1;
  address = 0x80000000;
  width = 1280;
  height = 800;
  pitch = 5120;
}

abbrev font_file : File
font_file = record { path = codes "/boot/zap-light16.psf"; address = 0x100000 }

abbrev kernel_address : KernelAddress
kernel_address = record { physical_base = 1048576; virtual_base = 0xffffffff80000000 }

abbrev answers : Limine
answers = record {
  terminal_count = some 1;
  framebuffer = some framebuffer;
  memmap = some memmap;
  kernel_address = some kernel_address;
  modules = some (font_file ∷ []);
  hhdm_offset = some 0xffff800000000000;
}

sized_map : IsKernelSize 0 1048576 memmap 20480
sized_map =
    before (record { base = 0; length = 4096; type = 0 })
      (record { base = 8192; length = 65536; type = 0 } ∷ kernel_region ∷ []) 20480
      (λ none_there. none_there.1.0 kernel_here)
      (before (record { base = 8192; length = 65536; type = 0 }) (kernel_region ∷ []) 20480
        (λ none_there. none_there.0 kernel_here) (last kernel_region [] kernel_here tt))
  where
    kernel_here : IsKernel 0 1048576 kernel_region
    kernel_here = (λ e. omega arith, refl)

abbrev answers-IsBootable : IsBootable 0 with_font answers
unfolding get_file check_string_ends_with back_from
answers-IsBootable = record {
  terminal_count = 1;
  framebuffer = framebuffer;
  entries = memmap;
  kernel = kernel_address;
  files = font_file ∷ [];
  index = 0;
  file = font_file;
  offset = 0xffff800000000000;
  has_terminals = refl;
  has_framebuffer = refl;
  has_memmap = refl;
  has_kernel = refl;
  has_modules = refl;
  has_hhdm = refl;
  terminal = omega arith;
  screen = omega arith;
  free = record { base = 8192; length = 65536; type = 0 };
  longest =
      later (record { base = 0; length = 4096; type = 0 })
        (record { base = 8192; length = 65536; type = 0 })
        (record { base = 8192; length = 65536; type = 0 } ∷ kernel_region ∷ []) (λ u. omega arith)
        (first (record { base = 8192; length = 65536; type = 0 }) (kernel_region ∷ []) refl
          (omega arith) (λ u. omega arith, tt));
  somewhere = λ e. omega arith;
  kernel_size = 20480;
  sized = sized_map;
  named = refl;
  listed = refl;
  magic0 = refl;
  magic1 = refl;
}

start_lem_example :
    ((b : IsBootable 0 with_font answers)
      → start 0 0x9000 answers powered_on
        ≡ ok (boot_font b) (record powered_on { global_boot_info = boot_info 0x9000 b }))
    × ((f : Font) (t : Kernel)
        → start 0 0x9000 answers powered_on ≡ ok f t
        → IsBootable 0 with_font answers)
start_lem_example = start_lem 0 0x9000 powered_on answers

start-allocate_frame_example :
    (t : Kernel) × (start 0 0x9000 answers powered_on ≡ ok (boot_font answers-IsBootable) t)
    × ((u : Kernel) × (allocate_frame 1 5000 t ≡ ok (region answers-IsBootable).free_mem_start u)
        × IsBump
            ((region answers-IsBootable).free_mem_start
              + answers-IsBootable.offset
              + (region answers-IsBootable).free_mem_size)
            u)
    × IsOne 0 1048576 (region answers-IsBootable) memmap
    × AtMost 0 1048576 (region answers-IsBootable).free_mem_size memmap
unfolding answers-IsBootable
start-allocate_frame_example =
    start-allocate_frame 0x9000 1 5000 powered_on answers-IsBootable refl refl
      (unfold choose consider in omega arith) (omega arith) (omega arith)
      (unfold choose consider in omega (arith, round_up_to_page_boundary_lem 5000 (omega arith)))
