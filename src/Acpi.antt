-- ===== src/Acpi.antt =====
-- kernel/acpi/acpi.hpp and acpi.cpp: the search for a system table, over the memory. The address of the
-- root pointer structure comes from the boot loader.
pub mod Find
pub mod Madt
pub mod Last
use optimist_os.Common.{
  ℕ, zero, suc, ◌+◌, ◌*◌, ◌/◌, Bool, true, false, ◌==◌, ◌!=◌, ◌&&◌, if◌then◌else◌, u32, sub64,
}
use optimist_os.Memory.{Memory, mmio_read32, mmio_read64}
use optimist_os.Strings.{memorycmp}
use optimist_os.Kernel.Run.{M, pure, hlt, get, ◌>>=◌, ◌>>◌}
use optimist_os.Frames.Address.{to_physical_addr, to_virtual_addr}

-- The fields of `rsdpInfo` and `xsdpInfo`, packed.
abbrev pub revision_at : ℕ
revision_at = 15

abbrev pub rsdt_address_at : ℕ
rsdt_address_at = 16

abbrev pub xsdt_address_at : ℕ
xsdt_address_at = 24

-- `SDT`, whose tables follow it.
abbrev pub sdt_length_at : ℕ
sdt_length_at = 4

abbrev pub sizeof_sdt : ℕ
sizeof_sdt = 36

-- `rootRSDT` and `xsdtInformation`.
pub record Acpi : Type 0 where
  pub root_rsdt : ℕ
  pub in_use : Bool
  pub xsdp_information : ℕ
  pub root_xsdt : ℕ

-- The number of pointers of `size` bytes behind the header.
unfoldable pub entry_count : Memory → ℕ → ℕ → ℕ
entry_count mem sdt size = u32 (sub64 (mmio_read32 mem (sdt + sdt_length_at)) sizeof_sdt / size)

-- The loop over the 32-bit pointers, with the rounds that are left.
unfoldable pub find_in_rsdt : Memory → ℕ → ℕ → ℕ → ℕ → ℕ
find_in_rsdt mem name rsdt zero i = 0
find_in_rsdt mem name rsdt (suc left) i =
    let rest = find_in_rsdt mem name rsdt left (i + 1) in
    let sdt = mmio_read32 mem (rsdt + sizeof_sdt + 4 * i) in
    if memorycmp sdt name 4 mem then sdt else rest

-- The loop over the 64-bit pointers.
unfoldable pub find_in_xsdt : ℕ → ℕ → ℕ → ℕ → M ℕ
find_in_xsdt name xsdt zero i = pure 0
find_in_xsdt name xsdt (suc left) i = do
  s ← get
  sdt ← to_physical_addr (mmio_read64 s.mem (xsdt + sizeof_sdt + 8 * i))
  if memorycmp sdt name 4 s.mem then pure sdt else find_in_xsdt name xsdt left (i + 1)

unfoldable pub search_rsdt : ℕ → ℕ → M ℕ
search_rsdt name root = do
  rsdt ← to_virtual_addr root
  s ← get
  pure (find_in_rsdt s.mem name rsdt (entry_count s.mem rsdt 4) 0)

unfoldable pub search_xsdt : ℕ → ℕ → M ℕ
search_xsdt name root = do
  xsdt ← to_virtual_addr root
  s ← get
  find_in_xsdt name xsdt (entry_count s.mem xsdt 8) 0

-- `name` is a pointer to the text.
unfoldable pub acpi_find_table : Acpi → ℕ → M ℕ
acpi_find_table acpi name =
    if acpi.root_rsdt != 0 then search_rsdt name acpi.root_rsdt else search_xsdt name acpi.root_xsdt

-- Version 2 or above.
unfoldable pub use_xsdt : ℕ → Acpi → M (Acpi × ℕ)
use_xsdt rsdp acpi = do
  s ← get
  root ← to_physical_addr (mmio_read64 s.mem (rsdp + xsdt_address_at))
  pure (
    record acpi { in_use = true; xsdp_information = rsdp; root_xsdt = root },
    mmio_read64 s.mem (rsdp + xsdt_address_at),
  )

unfoldable pub use_rsdt : ℕ → Acpi → M (Acpi × ℕ)
use_rsdt rsdp acpi = do
  s ← get
  root ← to_physical_addr (mmio_read32 s.mem (rsdp + rsdt_address_at))
  pure (record acpi { root_rsdt = root }, mmio_read32 s.mem (rsdp + rsdt_address_at))

unfoldable pub use_root : ℕ → Acpi → M (Acpi × ℕ)
use_root rsdp acpi = do
  s ← get
  if s.mem (rsdp + revision_at) != 0 then use_xsdt rsdp acpi else use_rsdt rsdp acpi

-- `initACPI`, for the pointers to the root pointer structure and to the text `"RSD PTR "`.
unfoldable pub init_acpi : ℕ → ℕ → Acpi → M (Acpi × ℕ)
init_acpi rsdp signature acpi = do
  s ← get
  if memorycmp rsdp signature 8 s.mem then use_root rsdp acpi else hlt
