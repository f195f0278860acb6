-- ===== src/Frames/Address.antt =====
-- `toPhysicalAddr`, `toVirtualAddr` of kernel/paging/pageFrameAllocator.cpp, `setBootInfo` and
-- `getBootInfo` of kernel/boot.cpp.
use optimist_os.Common.{ℕ, ◌+◌, ◌-◌, ◌^◌, ◌==◌, if◌then◌else◌, u64, sub64}
use optimist_os.Boot.Info.{BootInfo}
use optimist_os.Kernel.Run.{M, pure, get, modify, ◌>>=◌, ◌>>◌}

unfoldable pub set_boot_info : BootInfo → M (Unit {0})
set_boot_info info = modify λ s. record s { global_boot_info = info }

unfoldable pub get_boot_info : M BootInfo
get_boot_info = do s ← get; pure s.global_boot_info

-- `bootInformation = getBootInfo();`
unfoldable pub load_boot_info : M (Unit {0})
unfolding get_boot_info
load_boot_info = do info ← get_boot_info; modify λ s. record s { boot_information = info }

-- The copy is loaded while its offset is 0.
unfoldable pub ensure_boot_info : M (Unit {0})
unfolding load_boot_info
ensure_boot_info = do
  s ← get
  if s.boot_information.memory.hhdm_offset == 0 then load_boot_info else pure tt

unfoldable pub to_physical_addr : ℕ → M ℕ
unfolding ensure_boot_info
to_physical_addr addr = do
  ensure_boot_info
  s ← get
  pure (sub64 addr s.boot_information.memory.hhdm_offset)

-- `(uintptr_t)-1`, the failure value of `getNextLevelPointer`.
abbrev pub minus_one_ptr : ℕ
minus_one_ptr = 2 ^ 64 - 1

unfoldable pub to_virtual_addr : ℕ → M ℕ
unfolding ensure_boot_info
to_virtual_addr addr =
    if addr == minus_one_ptr
    then pure 0
    else do ensure_boot_info; s ← get; pure (u64 (addr + s.boot_information.memory.hhdm_offset))
