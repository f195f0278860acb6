-- ===== src/Frames/Free.antt =====
-- `freeFrame` of kernel/paging/pageFrameAllocator.cpp.
pub mod Laws
use optimist_os.Common.{
  ℕ, ◌+◌, ◌^◌, ◌-◌, Bool, Option, none, some, ◌==◌, if◌then◌else◌, ltb, u64, sub64,
}
use optimist_os.HashTable.{HashTable, minus_one, search, delete_key}
use optimist_os.Kernel.{Kernel}
use optimist_os.Kernel.Run.{
  M, out_of_fuel, pure, get, modify, hlt, write_field, write_flag, ◌>>=◌, ◌>>◌,
}
use optimist_os.Frames.Address.{set_boot_info, to_virtual_addr}
use optimist_os.Frames.FreeList.{size_at, next_at, previous_at, in_use_at}
use optimist_os.Frames.Allocate.{with_free_mem_size}

-- The value of a loop that may run out of rounds.
abbrev pub from_rounds : {A : Type 0} → Option A → M A
from_rounds none = λ _. out_of_fuel
from_rounds (some a) = pure a

-- An `int` that is converted to `size_t`.
abbrev pub sign_extend : ℕ → ℕ
sign_extend v = if ltb v (2 ^ 31) then v else v + (2 ^ 64 - 2 ^ 32)

-- The lines behind the test for a double free: the block becomes the head of the list.
unfoldable pub release_block : ℕ → ℕ → M (Unit {0})
release_block allocated_frame size = do
  write_field allocated_frame size_at (sign_extend size)
  write_flag allocated_frame in_use_at 0
  s ← get
  if allocated_frame == s.head
      then modify (λ t. record t { head = allocated_frame; free_block = allocated_frame })
      else (do
        write_field allocated_frame next_at s.head
        write_field s.head previous_at allocated_frame
        modify λ t. record t { head = allocated_frame })
  t ← get
  ht ← from_rounds (delete_key t.address_size_ht allocated_frame)
  modify
      λ u. record u { address_size_ht = ht; used_memory = sub64 u.used_memory (sign_extend size) }
  u ← get
  if u.boot_information.memory.free_mem_size == 0 then pure tt else (do
    let info =
        with_free_mem_size u.boot_information
          (u64 (u.boot_information.memory.free_mem_size + sign_extend size))
    modify λ v. record v { boot_information = info }
    set_boot_info info)

-- The `hlt` behind the message "Double Free" stops the processor until an interrupt: `wakes` tells whether one
-- comes, and then the lines behind the test run as well.
unfoldable pub free_frame : Bool → ℕ → M (Unit {0})
free_frame wakes frame = do
  allocated_frame ← to_virtual_addr frame
  s ← get
  size ← from_rounds (search s.address_size_ht allocated_frame)
  if size == minus_one then (if wakes then pure tt else hlt) else pure tt
  release_block allocated_frame size
