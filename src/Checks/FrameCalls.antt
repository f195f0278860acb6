-- ===== src/Checks/FrameCalls.antt =====
-- kernel/paging/pageFrameAllocator.cpp at a concrete memory: one mebibyte of free memory.
use optimist_os.Common.{
  ℕ, ◌+◌, ◌-◌, ◌%◌, ◌^◌, ◌≤◌, ◌<◌, ◌≡◌, ◌∙◌, ◌≢◌, true, false, refl, arith, none, some, List, [],
  ◌∷◌, replicate,
}
use optimist_os.Memory.{Memory, mmio_read64, mmio_write64}
use optimist_os.Memory.Laws.{
  Apart, mmio_read64-mmio_write64, mmio_read64-mmio_write64-Apart, mmio_read64-zeros,
}
use optimist_os.HashTable.{table_size, pair}
use optimist_os.Boot.Info.{BootInfo}
use optimist_os.Kernel.{Kernel}
use optimist_os.Kernel.Run.{ok, halted}
use optimist_os.Frames.Round.{round_down, round_up, round_up_to_page_boundary}
use optimist_os.Frames.Round.Laws.{round_down_lem, round_up_lem, round_up_to_page_boundary_lem}
use optimist_os.Frames.FreeList.{size_at, next_at, previous_at}
use optimist_os.Frames.Address.{to_virtual_addr}
use optimist_os.Frames.Allocate.{ensure_free_list, allocate_frame}
use optimist_os.Frames.Allocate.Bump.{IsBump}
use optimist_os.Frames.Allocate.Gives.{
  Gives, allocate_frame_lem, allocate_frame_too_large, allocate_frame_past_end,
}
use optimist_os.Frames.Allocate.Sequence.{allocate_all, frames_from, allocate_all_lem}
use optimist_os.Frames.Allocate.Pool.{Pool, serve, IsPool, allocate_all-serve}
use optimist_os.Frames.First.{ensure_free_list_lem}
use optimist_os.Frames.Free.{free_frame}
use optimist_os.Frames.Free.Laws.{free_frame_halts}

round_down_lem_example :
    (round_down 5000 (2 ^ 12) % 2 ^ 12 ≡ 0)
    × (round_down 5000 (2 ^ 12) ≤ 5000)
    × (5000 < round_down 5000 (2 ^ 12) + 2 ^ 12)
round_down_lem_example = round_down_lem 52 12 5000 refl (omega arith)

round_up_lem_example :
    (round_up 5000 (2 ^ 12) % 2 ^ 12 ≡ 0)
    × (5000 ≤ round_up 5000 (2 ^ 12))
    × (round_up 5000 (2 ^ 12) < 5000 + 2 ^ 12)
round_up_lem_example = round_up_lem 52 12 5000 refl (omega arith)

round_up_to_page_boundary_lem_example :
    (round_up_to_page_boundary 5000 % 4096 ≡ 0)
    × (5000 ≤ round_up_to_page_boundary 5000)
    × (round_up_to_page_boundary 5000 < 5000 + 4096)
round_up_to_page_boundary_lem_example = round_up_to_page_boundary_lem 5000 (omega arith)

abbrev pub offset : ℕ
offset = 0xffff800000000000

abbrev pub free : ℕ
free = 0x100000

abbrev pub info : BootInfo
info = record {
  framebuffer = record {
    base_address = 0;
    buffer_size = 0;
    width = 0;
    height = 0;
    pixels_per_scan_line = 0;
  };
  psf1_font = 0;
  memory = record {
    free_mem_start = 0x200000;
    extra_mem_start = 0;
    free_mem_size = free;
    kernel_start = 0;
    kernel_size = 1;
    kernel_start_v = 0;
    hhdm_offset = offset;
  };
}

abbrev no_info : BootInfo
no_info = record info { memory = record info.memory { hhdm_offset = 0 } }

abbrev pub zeros : Memory
zeros x = 0

abbrev pub fresh : Kernel
fresh = record {
  mem = zeros;
  head = 0;
  free_block = 0;
  list_head = 0;
  total_memory = 0;
  used_memory = 0;
  boot_information = no_info;
  global_boot_info = info;
  address_size_ht = replicate table_size (pair 0 0);
  pml4 = 0;
  kernel_pml4 = 0;
  hhdm_offset = 0;
  free_list = 0;
  mutex = 0;
  paging_mutex = 0;
}

abbrev pub first : ℕ
first = 0xffff800000200000

abbrev pub one_block : Kernel
one_block = record fresh {
  mem = mmio_write64 zeros (first + size_at) free;
  head = first;
  free_block = first;
  boot_information = info;
}

pub one_block-IsBump : IsBump (first + free) one_block
one_block-IsBump = record {
  head_ne = λ h. omega arith;
  at = refl;
  next =
      mmio_read64-mmio_write64-Apart zeros (first + size_at) free (first + next_at) (omega arith)
      ∙ mmio_read64-zeros zeros (first + next_at) (λ x lo hi. refl);
  size = mmio_read64-mmio_write64 zeros (first + size_at) free;
  reach = refl;
  room = omega arith;
  offset = omega arith;
}

ensure_free_list_lem_example :
    (t : Kernel) × (ensure_free_list fresh ≡ ok tt t)
    × IsBump (0x200000 + offset + free) t
    × ((fuel request : ℕ) → allocate_frame fuel request fresh ≡ allocate_frame fuel request t)
    × (t.head ≡ 0x200000 + offset)
    × (t.global_boot_info ≡ info)
ensure_free_list_lem_example =
    ensure_free_list_lem
      (record { no_list = refl; no_copy = refl; region = omega arith; mapped = λ h. omega arith })

allocate_frame_lem_example :
    (t : Kernel) × (allocate_frame 1 5000 one_block ≡ ok (first - offset) t)
    × Gives (first + free) (round_up_to_page_boundary 5000) one_block t
allocate_frame_lem_example =
    allocate_frame_lem 1 5000 one_block-IsBump (omega arith) (omega arith)
      (omega (arith, round_up_to_page_boundary_lem 5000 (omega arith)))

allocate_frame_too_large_example :
    (t : Kernel) × (allocate_frame 1 0x100001 one_block ≡ halted t)
    × (t.mem ≡ one_block.mem)
    × (t.head ≡ first)
allocate_frame_too_large_example =
    allocate_frame_too_large 1 0x100001 one_block (λ h. omega arith)
      (omega (arith, round_up_to_page_boundary_lem 0x100001 (omega arith)))

allocate_frame_past_end_example :
    (t : Kernel) × (allocate_frame 1 free one_block ≡ ok (first - offset) t)
    × (t.head ≡ first + free)
    × (mmio_read64 t.mem (first + free + size_at) ≡ 0)
    × (mmio_read64 t.mem (first + free + next_at) ≡ 0)
allocate_frame_past_end_example =
    allocate_frame_past_end 1 free one_block-IsBump (omega arith) (omega arith)
      (omega (arith, round_up_to_page_boundary_lem free (omega arith)))

abbrev requests : List ℕ
requests = 5000 ∷ 4096 ∷ 1 ∷ []

allocate_all_lem_example :
    (t : Kernel) × (allocate_all 1 requests one_block
      ≡ ok (frames_from (first - offset) requests) t)
    × IsBump (first + free) t
allocate_all_lem_example =
    allocate_all_lem 1 requests one_block-IsBump
      (omega arith, omega arith, (omega arith, omega arith, (omega arith, omega arith, tt)))
      (omega (
        arith,
        round_up_to_page_boundary_lem 5000 (omega arith),
        round_up_to_page_boundary_lem 4096 (omega arith),
        round_up_to_page_boundary_lem 1 (omega arith),
      ))

abbrev pool : Pool
pool = record { first = first - offset; free = free }

allocate_all-serve_example :
    ((frames : List ℕ) (q : Pool)
      → serve requests pool ≡ some (frames, q)
      → (t : Kernel) × (allocate_all 1 requests one_block ≡ ok frames t)
        × IsPool (first + free) t q)
    × (serve requests pool ≡ none → (t : Kernel) × (allocate_all 1 requests one_block ≡ halted t))
allocate_all-serve_example =
    allocate_all-serve 1 requests (record { bump = one_block-IsBump; first = refl; free = refl })
      (omega arith, omega arith, (omega arith, omega arith, (omega arith, omega arith, tt)))

free_frame_halts_example :
    (a : ℕ) × (t : Kernel) × (to_virtual_addr 0x240000 one_block ≡ ok a t)
    × (free_frame false 0x240000 one_block ≡ halted t)
    × (t.mem ≡ one_block.mem)
    × (t.head ≡ first)
    × (t.used_memory ≡ 0)
    × (t.address_size_ht ≡ one_block.address_size_ht)
    × (a ≢ 0
        → first ≢ 0
        → a ≢ first
        → (u : Kernel) × (free_frame true 0x240000 one_block ≡ ok tt u)
          × (u.head ≡ a)
          × (u.used_memory ≡ (0 + 1) % 2 ^ 64)
          × (u.address_size_ht ≡ one_block.address_size_ht)
          × (Apart (first + previous_at) 8 a 8 → mmio_read64 u.mem a ≡ 2 ^ 64 - 1))
free_frame_halts_example = free_frame_halts 0x240000 one_block
