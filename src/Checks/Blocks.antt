-- ===== src/Checks/Blocks.antt =====
-- kernel/memory/malloc.cpp at a concrete memory: one node of 4096 bytes at 0x10000.
use optimist_os.Common.{ℕ, ◌+◌, ◌^◌, ◌<◌, ◌≡◌, ◌∙◌, refl, arith, replicate}
use optimist_os.Memory.{Memory, mmio_read32, mmio_read64, mmio_write64}
use optimist_os.Memory.Laws.{
  Apart, Outside, mmio_read32_frame, mmio_read64-mmio_write64, mmio_read64-mmio_write64-Apart,
  mmio_read64-zeros, mmio_write64-Outside,
}
use optimist_os.HashTable.{table_size, pair}
use optimist_os.Boot.Info.{BootInfo}
use optimist_os.Kernel.{Kernel}
use optimist_os.Kernel.Run.{ok, out_of_fuel}
use optimist_os.Heap.{
  sizeof_head, right_link, next_link, child_size_at, left_link, status_at, node_size_at,
  is_buddy_coalesced_at, unused, allocated,
}
use optimist_os.Heap.Round.{round_up_to_next_power2}
use optimist_os.Heap.Round.Power.{round_up_to_next_power2_lem}
use optimist_os.Heap.Allocate.{block_size, mallocx}
use optimist_os.Heap.Release.{freex, reallocx}
use optimist_os.Heap.Halves.{mallocx_halves}
use optimist_os.Heap.Mutex.{reallocx_grows}
use optimist_os.Heap.Single.{freex_lem}

abbrev info : BootInfo
info = record {
  framebuffer = record {
    base_address = 0;
    buffer_size = 0;
    width = 0;
    height = 0;
    pixels_per_scan_line = 0;
  };
  psf1_font = 0;
  memory = record {
    free_mem_start = 0;
    extra_mem_start = 0;
    free_mem_size = 0;
    kernel_start = 0;
    kernel_size = 1;
    kernel_start_v = 0;
    hhdm_offset = 0;
  };
}

abbrev zeros : Memory
zeros x = 0

abbrev node : ℕ
node = 0x10000

abbrev whole : Memory
whole = mmio_write64 zeros (node + node_size_at) 4096

abbrev start : Kernel
start = record {
  mem = whole;
  head = 0;
  free_block = 0;
  list_head = 0;
  total_memory = 0;
  used_memory = 0;
  boot_information = info;
  global_boot_info = info;
  address_size_ht = replicate table_size (pair 0 0);
  pml4 = 0;
  kernel_pml4 = 0;
  hhdm_offset = 0;
  free_list = node;
  mutex = 0;
  paging_mutex = 0;
}

whole-size : mmio_read64 whole (node + node_size_at) ≡ 4096
whole-size = mmio_read64-mmio_write64 zeros (node + node_size_at) 4096

whole-left : mmio_read64 whole (node + left_link) ≡ 0
whole-left =
    mmio_read64-mmio_write64-Apart zeros (node + node_size_at) 4096 (node + left_link) (omega arith)
    ∙ mmio_read64-zeros zeros (node + left_link) (λ x lo hi. refl)

whole-status : mmio_read32 whole (node + status_at) ≡ unused
unfolding mmio_read32
whole-status = omega (
  arith,
  outside 0 (omega arith),
  outside 1 (omega arith),
  outside 2 (omega arith),
  outside 3 (omega arith),
)
  where
    outside : (k : ℕ) → k < 4 → whole (node + status_at + k) ≡ 0
    outside k h =
        mmio_write64-Outside zeros (node + node_size_at) 4096 (node + status_at + k) (omega arith)

whole-alone : whole (node + is_buddy_coalesced_at) ≡ 0
whole-alone =
    mmio_write64-Outside zeros (node + node_size_at) 4096 (node + is_buddy_coalesced_at)
      (omega arith)

freex_lem_example :
    (t : Kernel) × (freex 1 0x10040 start ≡ ok tt t)
    × (mmio_read32 t.mem (node + status_at) ≡ unused)
    × (t.mutex ≡ 0)
    × ((x : ℕ) → Outside (node + status_at) 4 x → t.mem x ≡ whole x)
freex_lem_example =
    freex_lem 0 0x10040 start (λ h. omega arith) refl whole-alone (omega (arith, whole-size))

-- The page with the size of its halves in its header.
abbrev page : Memory
page = mmio_write64 whole (node + child_size_at) 2048

page_read : (b : ℕ) → Apart (node + child_size_at) 8 b 8 → mmio_read64 page b ≡ mmio_read64 whole b
page_read b apart = mmio_read64-mmio_write64-Apart whole (node + child_size_at) 2048 b apart

page-status : mmio_read32 page (node + status_at) ≡ unused
page-status =
    mmio_read32_frame whole page (node + status_at) (outside 0 (omega arith))
      (outside 1 (omega arith)) (outside 2 (omega arith)) (outside 3 (omega arith))
    ∙ whole-status
  where
    outside : (k : ℕ) → k < 4 → page (node + status_at + k) ≡ whole (node + status_at + k)
    outside k h =
        mmio_write64-Outside whole (node + child_size_at) 2048 (node + status_at + k) (omega arith)

page-next : mmio_read64 page (node + next_link) ≡ 0
page-next =
    page_read (node + next_link) (omega arith)
    ∙ mmio_read64-mmio_write64-Apart zeros (node + node_size_at) 4096 (node + next_link)
        (omega arith)
    ∙ mmio_read64-zeros zeros (node + next_link) (λ x lo hi. refl)

abbrev with_page : Kernel
with_page = record start { mem = page }

block_of_400 : block_size 400 ≡ 512
unfolding block_size round_up_to_next_power2
block_of_400 = refl

mallocx_halves_example :
    (t : Kernel) × (mallocx 4 1 400 with_page ≡ ok 0x10040 t)
    × (mmio_read32 t.mem (node + status_at) ≡ allocated)
    × (mmio_read64 t.mem (node + node_size_at) ≡ block_size 400)
    × (mmio_read64 t.mem (node + right_link) ≡ 0x10800)
    × (mmio_read64 t.mem (0x10800 + node_size_at) ≡ block_size 400)
    × (mmio_read64 t.mem (0x10800 + next_link) ≡ mmio_read64 page (node + next_link))
    × (t.mutex ≡ 0)
    × ((x : ℕ) → Outside node sizeof_head x → Outside 0x10800 sizeof_head x → t.mem x ≡ page x)
mallocx_halves_example =
    mallocx_halves 2 4 0 400 with_page (λ h. omega arith) refl
      (page_read (node + left_link) (omega arith) ∙ whole-left) page-status
      (page_read (node + node_size_at) (omega arith) ∙ whole-size)
      (mmio_read64-mmio_write64 whole (node + child_size_at) 2048) (omega (arith, page-next))
      (omega arith) (omega (arith, block_of_400)) (omega arith)

round_up_to_next_power2_lem_example : round_up_to_next_power2 5000 ≡ 2 ^ 13
round_up_to_next_power2_lem_example =
    round_up_to_next_power2_lem 5000 13 (omega arith) (omega arith) (omega arith)

doubled : round_up_to_next_power2 8000 ≡ 8192
unfolding round_up_to_next_power2
doubled = refl

reallocx_grows_example : reallocx 100 100 0x10040 8000 start ≡ out_of_fuel
reallocx_grows_example =
    reallocx_grows 100 100 0x10040 8000 start (λ h. omega arith) (λ h. omega (arith, whole-size))
      (omega (arith, whole-size)) (omega (arith, whole-size, doubled))
