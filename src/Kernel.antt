-- ===== src/Kernel.antt =====
-- The globals and the memory that kernel/paging and kernel/memory share, and runs of its code over them.
pub mod Run
use optimist_os.Common.{ℕ}
use optimist_os.Memory.{Memory}
use optimist_os.Boot.Info.{BootInfo}
use optimist_os.HashTable.{HashTable}

-- The globals of pageFrameAllocator.cpp (`boot_information` is its static copy), of freeList.cpp
-- (`list_head`, its own static `head`), of boot.cpp (`global_boot_info`) and of paging.cpp (`pml4`,
-- `kernel_pml4`, `hhdm_offset` and `paging_mutex`), beside the memory.
pub record Kernel : Type 0 where
  pub mem : Memory
  pub head : ℕ
  pub free_block : ℕ
  pub list_head : ℕ
  pub total_memory : ℕ
  pub used_memory : ℕ
  pub boot_information : BootInfo
  pub global_boot_info : BootInfo
  pub address_size_ht : HashTable
  pub pml4 : ℕ
  pub kernel_pml4 : ℕ
  pub hhdm_offset : ℕ
  pub free_list : ℕ
  pub mutex : ℕ
  pub paging_mutex : ℕ
