-- ===== src/Heap/Single.antt =====
-- `mallocx` and `freex` of kernel/memory/malloc.cpp on a block that is neither split nor coalesced.
use optimist_os.Common.{ℕ, suc, ◌+◌, ◌≤◌, ◌≡◌, ◌≢◌, refl, arith, sub64, u64}
use optimist_os.Memory.{Memory, mmio_read32, mmio_write32, mmio_read64}
use optimist_os.Memory.Laws.{
  Outside, mmio_read32-mmio_write32, mmio_write32-Outside, mmio_read64_ext,
}
use optimist_os.Lock.{unlock}
use optimist_os.Kernel.{Kernel}
use optimist_os.Kernel.Run.{ok}
use optimist_os.Heap.{
  left_link, status_at, node_size_at, is_buddy_coalesced_at, sizeof_head, unused, allocated,
  heap_page_size, release, read_status, write_status,
}
use optimist_os.Heap.Allocate.{
  choose_node, skip_allocated, try_coalesce, find_node, block_size, mallocx,
}
use optimist_os.Heap.Release.{freex, read_flag}
use optimist_os.Heap.Mutex.{acquire-free}

-- `freex` of a block that is neither longer than a page nor joined with its buddy marks its node as
-- unused, changes no byte but the four of the mark, and leaves the mutex free.
pub freex_lem :
    (rounds block : ℕ) (s : Kernel)
    → let node = sub64 block sizeof_head in
      node ≢ 0
      → s.mutex ≡ 0
      → s.mem (node + is_buddy_coalesced_at) ≡ 0
      → mmio_read64 s.mem (node + node_size_at) ≤ heap_page_size
      → (t : Kernel) × (freex (suc rounds) block s ≡ ok tt t)
        × (mmio_read32 t.mem (node + status_at) ≡ unused)
        × (t.mutex ≡ 0)
        × ((x : ℕ) → Outside (node + status_at) 4 x → t.mem x ≡ s.mem x)
unfolding freex write_status read_flag release unlock
freex_lem rounds block s ne free alone small =
    let node = sub64 block sizeof_head in
    let m : Memory = mmio_write32 s.mem (node + status_at) unused in
    (
      record s { mem = m; mutex = 0 },
      ground (
        arith,
        acquire-free rounds s free,
        mmio_write32-Outside s.mem (node + status_at) unused (node + is_buddy_coalesced_at),
        mmio_read64_ext s.mem m (node + node_size_at)
            (λ x lo hi. mmio_write32-Outside s.mem (node + status_at) unused x (omega arith)),
      ),
      omega (arith, mmio_read32-mmio_write32 s.mem (node + status_at) unused),
      refl,
      mmio_write32-Outside s.mem (node + status_at) unused,
    )

-- When the first node of the list is whole, unused and of the size that the request rounds up to, and
-- that is no more than a page, `mallocx` returns the bytes behind its header and marks it as allocated.
-- It changes no byte but the four of the mark, and leaves the mutex free.
pub mallocx_first :
    (fuel rounds size : ℕ) (s : Kernel)
    → let node = s.free_list in
      node ≢ 0
      → s.mutex ≡ 0
      → mmio_read64 s.mem (node + left_link) ≡ 0
      → mmio_read32 s.mem (node + status_at) ≡ unused
      → mmio_read64 s.mem (node + node_size_at) ≡ block_size size
      → block_size size ≤ heap_page_size
      → (t : Kernel) × (mallocx (suc fuel) (suc rounds) size s ≡ ok (u64 (node + sizeof_head)) t)
        × (mmio_read32 t.mem (node + status_at) ≡ allocated)
        × (t.mutex ≡ 0)
        × ((x : ℕ) → Outside (node + status_at) 4 x → t.mem x ≡ s.mem x)
unfolding mallocx find_node try_coalesce choose_node skip_allocated read_status write_status release
    unlock
mallocx_first fuel rounds size s ne free whole empty fits small =
    let node = s.free_list in
    (
      record s { mem = mmio_write32 s.mem (node + status_at) allocated; mutex = 0 },
      ground (arith, acquire-free rounds s free),
      omega (arith, mmio_read32-mmio_write32 s.mem (node + status_at) allocated),
      refl,
      mmio_write32-Outside s.mem (node + status_at) allocated,
    )
