-- ===== src/Frames/Allocate/Bump.antt =====
-- `allocateFrame` of kernel/paging/pageFrameAllocator.cpp while the list holds one block, as it does from
-- the first call on: each call cuts the block from its start.
use optimist_os.Common.{ℕ, ◌+◌, ◌-◌, ◌%◌, ◌^◌, ◌≤◌, ◌≡◌, ◌≢◌, arith, u32, u64, sub64}
use optimist_os.Memory.{Memory, write8, mmio_read64, mmio_write64}
use optimist_os.Memory.Laws.{
  Outside, write8-ne, mmio_write64-Outside, mmio_read64-mmio_write64,
  mmio_read64-mmio_write64-Apart, mmio_read64-write8-Apart,
}
use optimist_os.HashTable.{insert}
use optimist_os.Strings.{memoryset}
use optimist_os.Boot.Info.{BootInfo}
use optimist_os.Kernel.{Kernel}
use optimist_os.Kernel.Run.{ok}
use optimist_os.Frames.Round.{round_up_to_page_boundary}
use optimist_os.Frames.Address.{set_boot_info, load_boot_info, ensure_boot_info, to_physical_addr}
use optimist_os.Frames.FreeList.{size_at, next_at, in_use_at, prev_size_at, sizeof_f_block}
use optimist_os.Frames.Allocate.{
  ensure_free_list, select_block, with_free_mem_size, split_block, hand_out, allocate_frame,
}

-- The list is one block from `head` to `limit`, whose size the boot information repeats.
pub record IsBump (limit : ℕ) (s : Kernel) : Type 0 where
  pub head_ne : s.head ≢ 0
  pub at : s.free_block ≡ s.head
  pub next : mmio_read64 s.mem (s.head + next_at) ≡ 0
  pub size : mmio_read64 s.mem (s.head + size_at) ≡ s.global_boot_info.memory.free_mem_size
  pub reach : s.head + s.global_boot_info.memory.free_mem_size ≡ limit
  pub room : limit + sizeof_f_block ≤ 2 ^ 64
  pub offset : s.global_boot_info.memory.hhdm_offset ≤ s.head

-- The memory after the block at `selected` is cut at `new_block`.
abbrev pub cut : Memory → ℕ → ℕ → ℕ → Memory
cut m selected new_block rounded =
    let m1 = write8 m (selected + in_use_at) 1 in
    let size = sub64 (mmio_read64 m1 (selected + size_at)) rounded in
    let m2 = write8 (mmio_write64 m1 (new_block + size_at) size) (new_block + in_use_at) 0 in
    let m3 = mmio_write64 m2 (new_block + next_at) (mmio_read64 m2 (selected + next_at)) in
    mmio_write64 m3 (new_block + prev_size_at) 0

split_block_lem :
    (selected rounded : ℕ) (s : Kernel)
    → selected ≢ 0
    → u64 (selected + rounded) ≢ 0
    → let new_block = u64 (selected + rounded) in
      split_block selected rounded s
      ≡ ok tt (record s {
        mem = cut s.mem selected new_block rounded;
        head = new_block;
        free_block = new_block;
      })
unfolding split_block
split_block_lem selected rounded s ns nn = ground arith

hand_out_lem :
    (selected rounded : ℕ) (s : Kernel)
    → let info : BootInfo =
        with_free_mem_size s.boot_information
          (sub64 s.boot_information.memory.free_mem_size rounded) in
      hand_out selected rounded s
      ≡ ok (sub64 selected s.boot_information.memory.hhdm_offset) (record s {
        boot_information = info;
        global_boot_info = info;
        used_memory = u64 (s.used_memory + rounded);
        mem = memoryset selected 0 rounded s.mem;
        address_size_ht = insert s.address_size_ht selected (u32 rounded);
      })
unfolding hand_out set_boot_info to_physical_addr ensure_boot_info load_boot_info
hand_out_lem selected rounded s = ground arith

select_block_lem :
    (fuel rounded : ℕ) (s : Kernel)
    → s.free_block ≢ 0
    → mmio_read64 s.mem (s.free_block + next_at) ≡ 0
    → rounded ≤ mmio_read64 s.mem (s.free_block + size_at)
    → select_block fuel rounded s ≡ ok s.free_block s
unfolding select_block
select_block_lem fuel rounded s ne last fits = ground arith

-- The state behind a call that cuts `rounded` bytes from the block.
unfoldable pub bumped : ℕ → Kernel → Kernel
bumped rounded s =
    let info : BootInfo = s.global_boot_info in
    let left : BootInfo = with_free_mem_size info (sub64 info.memory.free_mem_size rounded) in
    let new_block = u64 (s.head + rounded) in
    record s {
      mem = memoryset s.head 0 rounded (cut s.mem s.head new_block rounded);
      head = new_block;
      free_block = new_block;
      total_memory = info.memory.free_mem_size;
      used_memory = u64 (s.used_memory + rounded);
      boot_information = left;
      global_boot_info = left;
      address_size_ht = insert s.address_size_ht s.head (u32 rounded);
    }

pub allocate_frame-bumped :
    {limit : ℕ} (fuel request : ℕ) {s : Kernel}
    → IsBump limit s
    → round_up_to_page_boundary request ≤ s.global_boot_info.memory.free_mem_size
    → allocate_frame fuel request s
      ≡ ok
          (s.head - s.global_boot_info.memory.hhdm_offset)
          (bumped (round_up_to_page_boundary request) s)
unfolding allocate_frame ensure_free_list load_boot_info bumped
allocate_frame-bumped {limit} fuel request {s} v fits = ground (
  arith,
  select_block_lem fuel (round_up_to_page_boundary request) (record s {
    boot_information = s.global_boot_info;
    total_memory = s.global_boot_info.memory.free_mem_size;
  }),
  split_block_lem s.head (round_up_to_page_boundary request) (record s {
    boot_information = s.global_boot_info;
    total_memory = s.global_boot_info.memory.free_mem_size;
    free_block = s.head;
  }),
  hand_out_lem s.head (round_up_to_page_boundary request) (record s {
    boot_information = s.global_boot_info;
    total_memory = s.global_boot_info.memory.free_mem_size;
    mem =
        cut s.mem s.head (u64 (s.head + round_up_to_page_boundary request))
          (round_up_to_page_boundary request);
    free_block = u64 (s.head + round_up_to_page_boundary request);
    head = u64 (s.head + round_up_to_page_boundary request);
  }),
)

module _ (m : Memory) (selected rounded : ℕ) (big : sizeof_f_block ≤ rounded) where
  abbrev pub m1 : Memory
  m1 = write8 m (selected + in_use_at) 1

  abbrev pub left : ℕ
  left = sub64 (mmio_read64 m1 (selected + size_at)) rounded

  abbrev pub m2 : Memory
  m2 =
      write8 (mmio_write64 m1 (selected + rounded + size_at) left) (selected + rounded + in_use_at)
        0

  abbrev pub m3 : Memory
  m3 = mmio_write64 m2 (selected + rounded + next_at) (mmio_read64 m2 (selected + next_at))

  pub cut-frame :
      (x : ℕ)
      → x ≢ selected + in_use_at
      → Outside (selected + rounded) sizeof_f_block x
      → cut m selected (selected + rounded) rounded x ≡ m x
  cut-frame x ne out = ground (
    arith,
    mmio_write64-Outside m3 (selected + rounded + prev_size_at) 0 x,
    mmio_write64-Outside m2 (selected + rounded + next_at) (mmio_read64 m2 (selected + next_at)) x,
    write8-ne (mmio_write64 m1 (selected + rounded + size_at) left) (selected + rounded + in_use_at)
        0 x,
    mmio_write64-Outside m1 (selected + rounded + size_at) left x,
    write8-ne m (selected + in_use_at) 1 x,
  )

  pub cut-size :
      mmio_read64 (cut m selected (selected + rounded) rounded) (selected + rounded + size_at)
      ≡ sub64 (mmio_read64 m (selected + size_at)) rounded % 2 ^ 64
  cut-size = ground (
    arith,
    mmio_read64-mmio_write64-Apart m3 (selected + rounded + prev_size_at) 0
        (selected + rounded + size_at),
    mmio_read64-mmio_write64-Apart m2 (selected + rounded + next_at)
        (mmio_read64 m2 (selected + next_at)) (selected + rounded + size_at),
    mmio_read64-write8-Apart (mmio_write64 m1 (selected + rounded + size_at) left)
        (selected + rounded + in_use_at) 0 (selected + rounded + size_at),
    mmio_read64-mmio_write64 m1 (selected + rounded + size_at) left,
    mmio_read64-write8-Apart m (selected + in_use_at) 1 (selected + size_at),
  )

  pub cut-next :
      mmio_read64 (cut m selected (selected + rounded) rounded) (selected + rounded + next_at)
      ≡ mmio_read64 m (selected + next_at) % 2 ^ 64
  cut-next = ground (
    arith,
    mmio_read64-mmio_write64-Apart m3 (selected + rounded + prev_size_at) 0
        (selected + rounded + next_at),
    mmio_read64-mmio_write64 m2 (selected + rounded + next_at)
        (mmio_read64 m2 (selected + next_at)),
    mmio_read64-write8-Apart (mmio_write64 m1 (selected + rounded + size_at) left)
        (selected + rounded + in_use_at) 0 (selected + next_at),
    mmio_read64-mmio_write64-Apart m1 (selected + rounded + size_at) left (selected + next_at),
    mmio_read64-write8-Apart m (selected + in_use_at) 1 (selected + next_at),
  )
