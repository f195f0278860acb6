-- ===== src/Frames/Allocate.antt =====
-- `allocateFrame` of kernel/paging/pageFrameAllocator.cpp, a part of its body to a function. Its output
-- is left out. Each walk over the list of blocks runs on fuel.
pub mod Bump
pub mod Gives
pub mod Sequence
pub mod Pool
use optimist_os.Common.{
  ℕ, zero, suc, ◌+◌, ◌&&◌, ◌==◌, ◌!=◌, ltb, leb, if◌then◌else◌, u32, u64, sub64,
}
use optimist_os.HashTable.{insert}
use optimist_os.Strings.{memoryset}
use optimist_os.Boot.Info.{BootInfo, MemoryInfo}
use optimist_os.Kernel.{Kernel}
use optimist_os.Kernel.Run.{
  M, out_of_fuel, pure, get, modify, hlt, read_field, write_field, write_flag, ◌>>=◌, ◌>>◌,
}
use optimist_os.Frames.Round.{round_up_to_page_boundary}
use optimist_os.Frames.Address.{set_boot_info, load_boot_info, to_physical_addr}
use optimist_os.Frames.FreeList.{
  size_at, next_at, previous_at, in_use_at, prev_size_at, init_free_list,
}

-- The first call makes the list: lines 13 to 16.
unfoldable pub ensure_free_list : M (Unit {0})
ensure_free_list = do
  s ← get
  if s.head == 0
      then (do first ← init_free_list; modify λ t. record t { head = first; free_block = first })
      else pure tt

-- `if (!selectedBlock || selectedBlock->size > freeBlock->size) selectedBlock = freeBlock;`
unfoldable pub better_fit : ℕ → ℕ → ℕ → M ℕ
better_fit selected free_block size = if selected == 0 then pure free_block else do
  best ← read_field selected size_at
  pure (if ltb size best then free_block else selected)

-- The walk of the best-fit search: it leaves `freeBlock` at the last block, which it does not look at.
unfoldable pub best_fit : ℕ → ℕ → ℕ → M ℕ
best_fit zero rounded selected = λ _. out_of_fuel
best_fit (suc fuel) rounded selected = do
  s ← get
  next ← read_field s.free_block next_at
  if next == 0 then pure selected else do
    size ← read_field s.free_block size_at
    selected' ← if leb rounded size then better_fit selected s.free_block size else pure selected
    modify λ t. record t { free_block = next }
    best_fit fuel rounded selected'

-- Lines 30 to 42.
unfoldable pub select_block : ℕ → ℕ → M ℕ
select_block fuel rounded = do
  s ← get
  next ← read_field s.free_block next_at
  if next == 0
      then (do
        size ← read_field s.free_block size_at
        if leb rounded size then pure s.free_block else best_fit fuel rounded 0)
      else best_fit fuel rounded 0

-- The inner test of lines 51 to 56. What it chooses is overwritten by the line behind it.
unfoldable pub merge_choice : ℕ → ℕ → ℕ → M ℕ
merge_choice selected free_block both = do
  s ← if selected == 0 then pure selected else (do
    size ← read_field selected size_at
    prev_size ← read_field selected prev_size_at
    pure (if ltb both (u64 (size + prev_size)) then free_block else selected))
  let chosen = free_block
  pure chosen

-- The walk of lines 48 to 60 for a block to merge with the one before it.
unfoldable pub find_merge : ℕ → ℕ → ℕ → M ℕ
find_merge zero rounded selected = λ _. out_of_fuel
find_merge (suc fuel) rounded selected = do
  s ← get
  next ← read_field s.free_block next_at
  if next == 0 then pure selected else do
    prev_size ← read_field s.free_block prev_size_at
    size ← read_field s.free_block size_at
    selected' ←
        if (prev_size != 0) && leb rounded (u64 (prev_size + size))
        then merge_choice selected s.free_block (u64 (size + prev_size))
        else pure selected
    modify λ t. record t { free_block = next }
    find_merge fuel rounded selected'

-- Lines 45 to 74: with no block large enough, merge one with its predecessor, or halt.
unfoldable pub coalesce : ℕ → ℕ → M ℕ
coalesce fuel rounded = do
  selected ← find_merge fuel rounded 0
  modify λ t. record t { free_block = t.head }
  if selected == 0 then hlt else do
    prev_block ← read_field selected previous_at
    prev_size ← read_field prev_block size_at
    size ← read_field selected size_at
    write_field prev_block size_at (u64 (prev_size + size))
    next ← read_field selected next_at
    write_field prev_block next_at next
    pure prev_block

abbrev pub with_free_mem_size : BootInfo → ℕ → BootInfo
with_free_mem_size info size =
    let memory : MemoryInfo = info.memory in
    record info { memory = record memory { free_mem_size = size } }

-- Lines 76 to 83: cut the block behind the request, whose header becomes the head of the list.
unfoldable pub split_block : ℕ → ℕ → M (Unit {0})
split_block selected rounded = do
  write_flag selected in_use_at 1
  let new_block = u64 (selected + rounded)
  size ← read_field selected size_at
  write_field new_block size_at (sub64 size rounded)
  write_flag new_block in_use_at 0
  next ← read_field selected next_at
  write_field new_block next_at next
  write_field new_block prev_size_at 0
  modify λ s. record s { head = new_block; free_block = new_block }

-- Lines 85 to 91: the accounts, the cleared memory and the answer.
unfoldable pub hand_out : ℕ → ℕ → M ℕ
hand_out selected rounded = do
  modify λ s. record s {
    boot_information =
        with_free_mem_size s.boot_information
          (sub64 s.boot_information.memory.free_mem_size rounded);
  }
  s ← get
  set_boot_info s.boot_information
  modify λ s. record s {
    used_memory = u64 (s.used_memory + rounded);
    mem = memoryset selected 0 rounded s.mem;
    address_size_ht = insert s.address_size_ht selected (u32 rounded);
  }
  to_physical_addr selected

unfoldable pub allocate_frame : ℕ → ℕ → M ℕ
allocate_frame fuel request_size = do
  ensure_free_list
  load_boot_info
  s ← get
  let free_memory_size = s.boot_information.memory.free_mem_size
  modify λ t. record t { total_memory = free_memory_size }
  let rounded = round_up_to_page_boundary request_size
  if ltb free_memory_size rounded then hlt else do
    selected ← select_block fuel rounded
    modify λ t. record t { free_block = t.head }
    selected' ← if selected == 0 then coalesce fuel rounded else pure selected
    split_block selected' rounded
    hand_out selected' rounded
