-- ===== src/Heap/Release.antt =====
-- `freex` and `reallocx` of kernel/memory/malloc.cpp.
use optimist_os.Common.{
  ℕ, zero, suc, ◌+◌, ◌-◌, ◌*◌, ◌/◌, ◌^◌, bit_xor, ◌==◌, ◌!=◌, ltb, leb, if◌then◌else◌, u64, sub64,
}
use optimist_os.Strings.{memorycpy}
use optimist_os.Kernel.Run.{
  M, ok, fault, pure, modify, read_field, write_field, write_flag, ◌>>=◌, ◌>>◌,
}
use optimist_os.Heap.{
  previous_link, next_link, child_size_at, node_size_at, level_at, is_buddy_coalesced_at,
  sizeof_head, unused, allocated, heap_page_size, read_status, write_status, acquire, release,
}
use optimist_os.Heap.Round.{round_up_to_next_power2}
use optimist_os.Heap.Allocate.{read_level, mallocx}

-- `node->level = value`
unfoldable pub write_level : ℕ → ℕ → M (Unit {0})
write_level node value = do
  write_flag node level_at value
  write_flag node (level_at + 1) (value / 2 ^ 8)

-- `node->isBuddyCoalesced`
unfoldable pub read_flag : ℕ → M ℕ
read_flag node s = if node == 0 then fault else ok (s.mem (node + is_buddy_coalesced_at)) s

-- The loop of `freex` that makes pages of a coalesced block again, with the pages that are left.
unfoldable pub split_pages : ℕ → ℕ → M (Unit {0})
split_pages zero node = pure tt
split_pages (suc left) node = do
  let pointer = u64 (node + heap_page_size)
  write_field pointer previous_link node
  write_field pointer node_size_at heap_page_size
  write_level pointer 0
  write_status pointer unused
  size ← read_field pointer node_size_at
  write_field pointer child_size_at (size / 2)
  write_field pointer next_link (u64 (pointer + heap_page_size))
  write_field node next_link pointer
  write_field node node_size_at heap_page_size
  split_pages left pointer

unfoldable pub freex : ℕ → ℕ → M (Unit {0})
freex rounds block = do
  acquire rounds
  let node = sub64 block sizeof_head
  write_status node unused
  coalesced ← read_flag node
  if coalesced != 0
      then (do
        own ← read_field node node_size_at
        let buddy = bit_xor node own
        size ← read_field buddy node_size_at
        write_field node node_size_at size
        write_status buddy unused
        write_status node unused
        write_flag node is_buddy_coalesced_at 0
        next ← read_field node next_link
        write_field buddy next_link next
        release)
      else (do
        size ← read_field node node_size_at
        if ltb heap_page_size size then split_pages (size / heap_page_size - 1) node else pure tt
        release)

-- Lines 211 to 215: the block takes its buddy.
unfoldable pub take_buddy : ℕ → ℕ → M ℕ
take_buddy node buddy = do
  write_status buddy allocated
  write_flag node is_buddy_coalesced_at 1
  size ← read_field node node_size_at
  write_field node node_size_at (u64 (size * 2))
  release
  pure (sub64 node sizeof_head)

-- Lines 200 to 207: the contents move to the new block.
unfoldable pub move_block : ℕ → ℕ → ℕ → ℕ → ℕ → M ℕ
move_block rounds block node new rounded = do
  size ← read_field node node_size_at
  modify λ s. record s { mem = memorycpy new block (sub64 size sizeof_head) s.mem }
  let new_data = sub64 new sizeof_head
  level ← read_level node
  write_level new_data level
  status ← read_status node
  write_status new_data status
  write_field new_data node_size_at rounded
  freex rounds block
  release
  pure new

unfoldable pub reallocx : ℕ → ℕ → ℕ → ℕ → M ℕ
reallocx fuel rounds block size = do
  acquire rounds
  let rounded = round_up_to_next_power2 size
  let node = sub64 block sizeof_head
  own ← read_field node node_size_at
  let buddy = bit_xor node own
  if rounded == own then (do release; pure block) else (do
    buddy_status ← if leb (u64 (own * 2)) rounded then pure allocated else read_status buddy
    if buddy_status == allocated
        then (do
          new ← mallocx fuel rounds size
          if new != 0 then move_block rounds block node new rounded else take_buddy node buddy)
        else take_buddy node buddy)
