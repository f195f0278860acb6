-- ===== src/Paging/Map.antt =====
-- `getNextLevelPointer`, `virtualAddrToPTE`, `map` and `newPML4` of kernel/paging/paging.cpp, and the
-- helpers beside them. `fuel` is what `allocateFrame` is given; `haltAndCatchFire` is a `hlt`.
pub mod Level
pub mod Link
pub mod Missing
pub mod Fresh
pub mod Open
pub mod Present
pub mod Tables
use optimist_os.Common.{
  ℕ, zero, suc, ◌+◌, ◌-◌, ◌*◌, ◌^◌, ◌<◌, ◌≤◌, bit_and, Bool, true, false, ◌==◌, ◌!=◌, leb,
  if◌then◌else◌, u64,
}
use optimist_os.Kernel.{Kernel}
use optimist_os.Kernel.Run.{M, pure, get, modify, hlt, read_field, write_field, ◌>>=◌, ◌>>◌}
use optimist_os.Frames.Address.{to_virtual_addr, to_physical_addr, minus_one_ptr}
use optimist_os.Frames.Allocate.{allocate_frame}
use optimist_os.Paging.Entry.{
  present, read_write, user_or_superuser, larger_pages, set_flag, set_address, get_address,
  is_valid,
}
use optimist_os.Paging.Index.{pml4_entry, pml3_entry, pml2_entry, pml1_entry}

-- A method of `PageDirectoryEntry` that changes the entry at `p`.
abbrev pub update_entry : ℕ → (ℕ → ℕ) → M (Unit {0})
update_entry p f = do value ← read_field p 0; write_field p 0 (f value)

unfoldable pub get_next_level_pointer : ℕ → ℕ → Bool → M ℕ
get_next_level_pointer fuel entry allocate = do
  value ← read_field entry 0
  next ←
      if is_valid value
      then pure (get_address value)
      else (if allocate
          then (do
            frame ← allocate_frame fuel 0x1000
            update_entry entry (λ v. set_address v frame)
            update_entry entry (λ v. set_flag v read_write true)
            update_entry entry (λ v. set_flag v user_or_superuser true)
            update_entry entry (λ v. set_flag v present true)
            pure frame)
          else hlt)
  if next != 0 then pure next else hlt

-- `&table->entries[index]`
abbrev pub entry_of : ℕ → ℕ → ℕ
entry_of table index = u64 (table + 8 * index)

-- The next table, at its virtual address; `nullptr` halts.
unfoldable pub next_table : ℕ → ℕ → ℕ → M ℕ
next_table fuel table index = do
  next ← get_next_level_pointer fuel (entry_of table index) true
  virtual ← to_virtual_addr next
  if virtual == 0 then hlt else pure virtual

unfoldable pub virtual_addr_to_pte : ℕ → ℕ → ℕ → M ℕ
virtual_addr_to_pte fuel virtual_addr flags = do
  s ← get
  if s.pml4 == 0 then pure 0 else do
    let pml4x = s.pml4
    root ← to_virtual_addr s.pml4
    modify λ t. record t { pml4 = root }
    pml3 ← next_table fuel root (pml4_entry virtual_addr)
    modify λ t. record t { pml4 = pml4x }
    pml2 ← next_table fuel pml3 (pml3_entry virtual_addr)
    if bit_and flags larger_pages != 0 then pure (entry_of pml2 (pml2_entry virtual_addr)) else (do
      pml1 ← next_table fuel pml2 (pml2_entry virtual_addr)
      pure (entry_of pml1 (pml1_entry virtual_addr)))

unfoldable pub map : ℕ → ℕ → ℕ → ℕ → M Bool
map fuel physical_addr virtual_addr flags = do
  entry ← virtual_addr_to_pte fuel virtual_addr flags
  if entry != 0
      then (do
        update_entry entry (λ v. set_address v physical_addr)
        update_entry entry (λ v. set_flag v flags true)
        pure true)
      else pure false

-- `init`
unfoldable pub init : ℕ → M (Unit {0})
init fuel = do
  frame ← allocate_frame fuel 0x1000
  modify λ s. record s { pml4 = frame }
  s ← get
  if s.kernel_pml4 == 0 then modify (λ t. record t { kernel_pml4 = t.pml4 }) else pure tt

unfoldable pub is_higher_half : ℕ → Kernel → Bool
is_higher_half addr s = leb s.hhdm_offset addr

unfoldable pub to_higher_half : ℕ → Kernel → ℕ
to_higher_half addr s = if is_higher_half addr s then addr else u64 (addr + s.hhdm_offset)

-- The loop of `newPML4` at index `i`.
unfoldable pub copy_entries : ℕ → ℕ → ℕ → ℕ → M (Unit {0})
copy_entries new old zero i = pure tt
copy_entries new old (suc left) i = do
  value ← read_field old (8 * i)
  write_field new (8 * i) value
  copy_entries new old left (i + 1)

unfoldable pub new_pml4 : ℕ → M ℕ
new_pml4 fuel = do
  frame ← allocate_frame fuel 0x1000
  new ← to_virtual_addr frame
  s ← get
  old ← to_virtual_addr s.pml4
  copy_entries new old 256 256
  value ← read_field old 0
  write_field new 0 value
  to_physical_addr new
