-- ===== src/Paging/Setup.antt =====
-- `requiredSize` and `initPaging` of kernel/paging/paging.cpp. What it reads of the boot loader's answers and
-- of the linker's symbols is a parameter; `writeCrReg` is an instruction. Nothing reads the copy of the
-- boot information that it makes.
pub mod Low
pub mod Memory
pub mod Pages
pub mod Region
pub mod Regions
pub mod Root
use optimist_os.Common.{
  ℕ, zero, suc, ◌+◌, ◌-◌, ◌*◌, ◌/◌, ◌^◌, bit_or, Bool, none, some, List, [], ◌∷◌, ◌==◌, ltb, leb,
  if◌then◌else◌, u64, sub64,
}
use optimist_os.Lock.{lock, unlock}
use optimist_os.Kernel.{Kernel}
use optimist_os.Kernel.Run.{M, ok, out_of_fuel, pure, get, modify, hlt, ◌>>=◌, ◌>>◌}
use optimist_os.Boot.Memmap.{MemmapEntry}
use optimist_os.Frames.Address.{get_boot_info}
use optimist_os.Frames.Round.{round_down, round_up}
use optimist_os.Paging.Entry.{present, read_write, larger_pages}
use optimist_os.Paging.Map.{map, init}

abbrev pub gigabyte : ℕ
gigabyte = 0x40000000

abbrev pub megabyte : ℕ
megabyte = 0x100000

abbrev pub page_4kb : ℕ
page_4kb = 0x1000

-- The size of a page and its flag.
unfoldable pub required_size : ℕ → ℕ × ℕ
required_size size =
    if leb gigabyte size
    then (2 * megabyte, larger_pages)
    else if leb page_4kb size
    then (page_4kb, 0)
    else (page_4kb, 0)

abbrev pub large_flags : ℕ
large_flags = bit_or (bit_or read_write present) larger_pages

-- The loop over the first 4 GB at address `i`, with the rounds that are left.
unfoldable pub map_low : ℕ → ℕ → ℕ → M (Unit {0})
map_low fuel zero i = pure tt
map_low fuel (suc left) i = do
  low ← map fuel i i large_flags
  s ← get
  high ← map fuel i (u64 (i + s.hhdm_offset)) large_flags
  map_low fuel left (i + 2 * megabyte)

-- The first loop over a region of the memory map at address `k`, on `rounds`.
unfoldable pub map_pages : ℕ → ℕ → ℕ → ℕ → ℕ → ℕ → M (Unit {0})
map_pages fuel zero step flags end k = λ _. out_of_fuel
map_pages fuel (suc rounds) step flags end k =
    if ltb k end
    then (do
      s ← get
      if ltb k (4 * gigabyte) then pure tt else (do
        mapped ← map fuel k (u64 (k + s.hhdm_offset)) (bit_or (bit_or read_write present) flags)
        pure tt)
      map_pages fuel rounds step flags end (u64 (k + step)))
    else pure tt

-- The second loop, which halts where `map` fails.
unfoldable pub map_rest : ℕ → ℕ → ℕ → ℕ → ℕ → ℕ → M (Unit {0})
map_rest fuel zero step flags end k = λ _. out_of_fuel
map_rest fuel (suc rounds) step flags end k =
    if ltb k end
    then (do
      s ← get
      mapped ← map fuel k (u64 (k + s.hhdm_offset)) (bit_or (bit_or read_write present) flags)
      if mapped then pure tt else hlt
      map_rest fuel rounds step flags end (u64 (k + step)))
    else pure tt

-- A region of the memory map; one that starts below 4 GB is left out.
unfoldable pub map_entry : ℕ → ℕ → MemmapEntry → M (Unit {0})
map_entry fuel rounds mmap =
    let start = round_down mmap.base page_4kb in
    let end = round_up (u64 (mmap.base + mmap.length)) page_4kb in
    if ltb start (4 * gigabyte) then pure tt else (do
      let size = sub64 end start
      let (step, flags) = required_size size
      let rounded = round_down size step
      let difference = sub64 size rounded
      map_pages fuel rounds step flags (u64 (start + rounded)) start
      let rest = u64 (start + rounded)
      map_rest fuel rounds step flags (u64 (rest + difference)) rest)

unfoldable pub map_entries : ℕ → ℕ → List MemmapEntry → M (Unit {0})
map_entries fuel rounds [] = pure tt
map_entries fuel rounds (e ∷ es) = do map_entry fuel rounds e; map_entries fuel rounds es

-- The loop over the pages of the kernel, at its virtual address `i`.
unfoldable pub map_kernel : ℕ → ℕ → ℕ → ℕ → ℕ → ℕ → M (Unit {0})
map_kernel fuel zero virtual_base physical_base end i = λ _. out_of_fuel
map_kernel fuel (suc rounds) virtual_base physical_base end i =
    if ltb i end
    then (do
      mapped ← map fuel (u64 (sub64 i virtual_base + physical_base)) i (bit_or read_write present)
      map_kernel fuel rounds virtual_base physical_base end (u64 (i + page_4kb)))
    else pure tt

-- `lock(mutex)` and `unlock(mutex)` of paging.cpp.
unfoldable pub acquire_paging : ℕ → M (Unit {0})
acquire_paging rounds s = elim (lock rounds s.paging_mutex) [
  | none ↦ out_of_fuel
  | some word ↦ ok tt (record s { paging_mutex = word })
]

unfoldable pub release_paging : M (Unit {0})
release_paging = modify λ s. record s { paging_mutex = unlock s.paging_mutex }

-- The answers of the boot loader and the symbols of the linker that `initPaging` reads.
pub record PagingInput : Type 0 where
  pub hhdm : ℕ
  pub entries : List MemmapEntry
  pub physical_base : ℕ
  pub virtual_base : ℕ
  pub blob_begin : ℕ
  pub blob_size : ℕ

-- Up to the loop over the regions.
unfoldable pub map_memory : ℕ → ℕ → PagingInput → M (Unit {0})
map_memory fuel rounds input = do
  acquire_paging rounds
  init fuel
  copy ← get_boot_info
  modify λ s. record s { hhdm_offset = input.hhdm }
  map_low fuel (4 * gigabyte / (2 * megabyte)) 0
  map_entries fuel rounds input.entries

-- From the loop over the kernel on.
unfoldable pub map_blob : ℕ → ℕ → PagingInput → M (Unit {0})
map_blob fuel rounds input = do
  let first = round_down input.blob_begin page_4kb
  let length = round_up (u64 (input.blob_size + sub64 input.blob_begin first)) page_4kb
  map_kernel fuel rounds input.virtual_base input.physical_base (u64 (first + length)) first
  s ← get
  if s.pml4 == 0 then hlt else release_paging

unfoldable pub init_paging : ℕ → ℕ → PagingInput → M (Unit {0})
init_paging fuel rounds input = do map_memory fuel rounds input; map_blob fuel rounds input
