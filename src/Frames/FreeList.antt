-- ===== src/Frames/FreeList.antt =====
-- kernel/paging/freeList.hpp and freeList.cpp: the header of a free block, and the first block.
use optimist_os.Common.{ℕ}
use optimist_os.Kernel.Run.{M, pure, modify, write_field, write_flag, ◌>>=◌, ◌>>◌}
use optimist_os.Frames.Address.{get_boot_info, to_virtual_addr}

-- The offsets of the fields of `fBlock`.
abbrev pub size_at : ℕ
size_at = 0

abbrev pub next_at : ℕ
next_at = 8

abbrev pub previous_at : ℕ
previous_at = 16

abbrev pub in_use_at : ℕ
in_use_at = 24

abbrev pub prev_size_at : ℕ
prev_size_at = 32

abbrev pub sizeof_f_block : ℕ
sizeof_f_block = 40

unfoldable pub init_free_list : M ℕ
unfolding get_boot_info to_virtual_addr
init_free_list = do
  boot_information ← get_boot_info
  free_block ← to_virtual_addr boot_information.memory.free_mem_start
  write_field free_block size_at boot_information.memory.free_mem_size
  write_field free_block next_at 0
  write_flag free_block in_use_at 0
  write_field free_block prev_size_at 0
  modify λ s. record s { list_head = free_block }
  pure free_block
