-- ===== src/Frames/First.antt =====
-- The first call of `allocateFrame` of kernel/paging/pageFrameAllocator.cpp, through `initFreeList` of
-- kernel/paging/freeList.cpp.
use optimist_os.Common.{ℕ, ◌+◌, ◌-◌, ◌^◌, ◌≤◌, ◌<◌, ◌≡◌, ◌≢◌, ◌∙◌, ap, refl, arith, u64}
use optimist_os.Memory.{Memory, write8, mmio_read64, mmio_write64}
use optimist_os.Memory.Laws.{
  mmio_read64-mmio_write64, mmio_read64-mmio_write64-Apart, mmio_read64-write8-Apart,
}
use optimist_os.Kernel.{Kernel}
use optimist_os.Kernel.Run.{ok}
use optimist_os.Frames.Address.{to_virtual_addr, ensure_boot_info, load_boot_info}
use optimist_os.Frames.FreeList.{
  size_at, next_at, in_use_at, prev_size_at, sizeof_f_block, init_free_list,
}
use optimist_os.Frames.Allocate.{ensure_free_list, allocate_frame}
use optimist_os.Frames.Allocate.Bump.{IsBump}
use optimist_os.Frames.Allocate.Gives.{allocate_frame_lem}
use optimist_os.Frames.Round.{page_size, round_up_to_page_boundary}

-- The globals before the first call, and a free region that fits the upper half with its header.
pub record IsFresh (s : Kernel) : Type 0 where
  pub no_list : s.head ≡ 0
  pub no_copy : s.boot_information.memory.hhdm_offset ≡ 0
  pub region :
      s.global_boot_info.memory.free_mem_start + s.global_boot_info.memory.hhdm_offset
        + s.global_boot_info.memory.free_mem_size + sizeof_f_block
      ≤ 2 ^ 64
  pub mapped : s.global_boot_info.memory.free_mem_start + s.global_boot_info.memory.hhdm_offset ≢ 0

abbrev base : Kernel → ℕ
base s = s.global_boot_info.memory.free_mem_start + s.global_boot_info.memory.hhdm_offset

-- The memory with the header of the first block.
abbrev with_header : Memory → ℕ → ℕ → Memory
with_header m first size =
    mmio_write64
      (write8 (mmio_write64 (mmio_write64 m (first + size_at) size) (first + next_at) 0)
        (first + in_use_at) 0)
      (first + prev_size_at) 0

module _ (m : Memory) (first size : ℕ) where
  with_header-size : mmio_read64 (with_header m first size) (first + size_at) ≡ u64 size
  with_header-size = ground (
    arith,
    mmio_read64-mmio_write64-Apart
        (write8 (mmio_write64 (mmio_write64 m (first + size_at) size) (first + next_at) 0)
          (first + in_use_at) 0)
        (first + prev_size_at) 0 (first + size_at),
    mmio_read64-write8-Apart
        (mmio_write64 (mmio_write64 m (first + size_at) size) (first + next_at) 0)
        (first + in_use_at) 0 (first + size_at),
    mmio_read64-mmio_write64-Apart (mmio_write64 m (first + size_at) size) (first + next_at) 0
        (first + size_at),
    mmio_read64-mmio_write64 m (first + size_at) size,
  )

  with_header-next : mmio_read64 (with_header m first size) (first + next_at) ≡ 0
  with_header-next = ground (
    arith,
    mmio_read64-mmio_write64-Apart
        (write8 (mmio_write64 (mmio_write64 m (first + size_at) size) (first + next_at) 0)
          (first + in_use_at) 0)
        (first + prev_size_at) 0 (first + next_at),
    mmio_read64-write8-Apart
        (mmio_write64 (mmio_write64 m (first + size_at) size) (first + next_at) 0)
        (first + in_use_at) 0 (first + next_at),
    mmio_read64-mmio_write64 (mmio_write64 m (first + size_at) size) (first + next_at) 0,
  )

-- The state behind `initFreeList` and the assignments of its caller.
listed : Kernel → Kernel
listed s = record s {
  mem = with_header s.mem (base s) s.global_boot_info.memory.free_mem_size;
  head = base s;
  free_block = base s;
  list_head = base s;
  boot_information = s.global_boot_info;
}

ensure_free_list-listed : {s : Kernel} → IsFresh s → ensure_free_list s ≡ ok tt (listed s)
unfolding ensure_free_list init_free_list to_virtual_addr ensure_boot_info load_boot_info listed
ensure_free_list-listed {s} f = let here : u64 (base s) ≡ base s = omega arith in ground arith

ensure_free_list-again : (t : Kernel) → t.head ≢ 0 → ensure_free_list t ≡ ok tt t
unfolding ensure_free_list
ensure_free_list-again t ne = ground arith

allocate_frame-after :
    (s t : Kernel) (fuel request : ℕ)
    → ensure_free_list s ≡ ok tt t
    → ensure_free_list t ≡ ok tt t
    → allocate_frame fuel request s ≡ allocate_frame fuel request t
unfolding allocate_frame
allocate_frame-after s t fuel request first again = rw (first, again)

listed-IsBump :
    {s : Kernel}
    → IsFresh s
    → IsBump
        (s.global_boot_info.memory.free_mem_start + s.global_boot_info.memory.hhdm_offset
          + s.global_boot_info.memory.free_mem_size)
        (listed s)
unfolding listed
listed-IsBump {s} f = record {
  head_ne = f.mapped;
  at = refl;
  next = with_header-next s.mem (base s) s.global_boot_info.memory.free_mem_size;
  size = omega (arith, with_header-size s.mem (base s) s.global_boot_info.memory.free_mem_size);
  reach = refl;
  room = f.region;
  offset = omega arith;
}

-- From fresh globals and a free region that fits the upper half with its header, the first call
-- makes a list of one block over the whole region, at its address in the upper half, keeps the boot
-- information, and then runs like a call that finds this list.
pub ensure_free_list_lem :
    {s : Kernel}
    → IsFresh s
    → (t : Kernel) × (ensure_free_list s ≡ ok tt t)
      × IsBump
          (s.global_boot_info.memory.free_mem_start + s.global_boot_info.memory.hhdm_offset
            + s.global_boot_info.memory.free_mem_size)
          t
      × ((fuel request : ℕ) → allocate_frame fuel request s ≡ allocate_frame fuel request t)
      × (t.head ≡ s.global_boot_info.memory.free_mem_start + s.global_boot_info.memory.hhdm_offset)
      × (t.global_boot_info ≡ s.global_boot_info)
ensure_free_list_lem {s} f = (
  listed s,
  ensure_free_list-listed f,
  listed-IsBump f,
  λ fuel request.
      allocate_frame-after s (listed s) fuel request (ensure_free_list-listed f)
        (ensure_free_list-again (listed s) (unfold listed in f.mapped)),
  unfold listed in refl,
  unfold listed in refl,
)

-- From fresh globals and a free region that fits the upper half with its header, the first call of
-- `allocateFrame` with a request that is not 0 and fits the region gives the physical start of the region.
pub first_frame :
    {s : Kernel} (fuel request : ℕ)
    → IsFresh s
    → 0 < request
    → request + page_size ≤ 2 ^ 64
    → round_up_to_page_boundary request ≤ s.global_boot_info.memory.free_mem_size
    → (t : Kernel) × (allocate_frame fuel request s ≡ ok s.global_boot_info.memory.free_mem_start t)
      × IsBump
          (s.global_boot_info.memory.free_mem_start + s.global_boot_info.memory.hhdm_offset
            + s.global_boot_info.memory.free_mem_size)
          t
unfolding listed
first_frame {s} fuel request f pos small fits =
    let (t, run, gives) = allocate_frame_lem fuel request (listed-IsBump f) pos small fits in
    let start : base s - s.global_boot_info.memory.hhdm_offset
        ≡ s.global_boot_info.memory.free_mem_start =
      omega arith in
    (
      t,
      allocate_frame-after s (listed s) fuel request (ensure_free_list-listed f)
            (ensure_free_list-again (listed s) f.mapped)
          ∙ run
          ∙ ap (λ (a : ℕ). ok a t) start,
      gives.bump,
    )
