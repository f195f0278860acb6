-- ===== src/Heap.antt =====
-- kernel/memory/malloc.hpp and the nodes of malloc.cpp: the header of a block of the kernel heap, its
-- mutex, and the first list.
pub mod Round
pub mod Allocate
pub mod Release
pub mod Halves
pub mod Mutex
pub mod Single
pub mod Split
use optimist_os.Common.{
  ℕ, zero, suc, ◌+◌, ◌-◌, ◌*◌, ◌/◌, ◌^◌, Option, none, some, ◌==◌, if◌then◌else◌, u64, sub64,
}
use optimist_os.Memory.{mmio_read32, mmio_write32}
use optimist_os.Lock.{lock, unlock}
use optimist_os.Kernel.Run.{
  M, ok, fault, out_of_fuel, pure, modify, read_field, write_field, ◌>>=◌, ◌>>◌,
}
use optimist_os.Frames.Address.{to_virtual_addr}
use optimist_os.Frames.Allocate.{allocate_frame}

-- The offsets of the fields of `head`, and its size.
abbrev pub previous_link : ℕ
previous_link = 0

abbrev pub right_link : ℕ
right_link = 8

abbrev pub left_link : ℕ
left_link = 16

abbrev pub next_link : ℕ
next_link = 24

abbrev pub status_at : ℕ
status_at = 32

abbrev pub child_size_at : ℕ
child_size_at = 40

abbrev pub node_size_at : ℕ
node_size_at = 48

abbrev pub level_at : ℕ
level_at = 56

abbrev pub is_buddy_coalesced_at : ℕ
is_buddy_coalesced_at = 58

abbrev pub sizeof_head : ℕ
sizeof_head = 64

-- `enum flag`, whose fields have 32 bits.
abbrev pub unused : ℕ
unused = 0

abbrev pub allocated : ℕ
allocated = 1

abbrev pub heap_page_size : ℕ
heap_page_size = 4096

abbrev pub pool_array_size : ℕ
pool_array_size = 3072

abbrev pub minimum_allocation_size : ℕ
minimum_allocation_size = 32

abbrev pub maximum_coalesce_blocks : ℕ
maximum_coalesce_blocks = 4

unfoldable pub read_status : ℕ → M ℕ
read_status node s = if node == 0 then fault else ok (mmio_read32 s.mem (node + status_at)) s

unfoldable pub write_status : ℕ → ℕ → M (Unit {0})
write_status node value s =
    if node == 0
    then fault
    else ok tt (record s { mem = mmio_write32 s.mem (node + status_at) value })

-- `lock(mutex)` on one processor, for a number of rounds.
unfoldable pub acquire : ℕ → M (Unit {0})
acquire rounds s = elim (lock rounds s.mutex) [
  | none ↦ out_of_fuel
  | some word ↦ ok tt (record s { mutex = word })
]

-- `unlock(mutex)`
unfoldable pub release : M (Unit {0})
release = modify λ s. record s { mutex = unlock s.mutex }

-- The loop of `initNodes` from the node `node` on, with `i` for its index.
unfoldable pub init_loop : ℕ → ℕ → ℕ → M (Unit {0})
unfolding write_status
init_loop zero i node = pure tt
init_loop (suc left) i node = do
  write_field node previous_link (if i == 0 then 0 else sub64 node heap_page_size)
  write_field node next_link (u64 (node + heap_page_size))
  write_field node right_link 0
  write_field node left_link 0
  write_status node unused
  write_field node node_size_at heap_page_size
  write_field node child_size_at (heap_page_size / 2)
  next ← read_field node next_link
  init_loop left (i + 1) next

unfoldable pub init_nodes : ℕ → M (Unit {0})
unfolding init_loop
init_nodes fuel = do
  frame ← allocate_frame fuel (12 * 1024 * 1024 + sizeof_head * pool_array_size)
  memory ← to_virtual_addr frame
  modify λ s. record s { free_list = memory }
  init_loop (pool_array_size - 1) 0 memory
