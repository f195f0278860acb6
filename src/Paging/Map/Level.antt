-- ===== src/Paging/Map/Level.antt =====
-- One level of the walk of `virtualAddrToPTE` of kernel/paging/paging.cpp.
use optimist_os.Common.{
  ℕ, ◌+◌, ◌*◌, ◌%◌, ◌^◌, ◌≤◌, ◌<◌, ◌≡◌, ◌≢◌, ◌∙◌, arith, true, false, ◌==◌, if◌then◌else◌,
}
use optimist_os.Common.Bits.{bit_and_low}
use optimist_os.Memory.{mmio_read64}
use optimist_os.Kernel.{Kernel}
use optimist_os.Kernel.Run.{ok}
use optimist_os.Frames.Address.{to_virtual_addr, ensure_boot_info}
use optimist_os.Paging.Entry.{get_flag, get_address, is_valid}
use optimist_os.Paging.Entry.Laws.{IsWord, get_address-eq, bit_and-address_mask}
use optimist_os.Paging.Map.{get_next_level_pointer, entry_of, next_table}
use optimist_os.Paging.Walk.{frame_of, is_page}

-- The direct map is loaded, and holds every physical address below 2 ^ 47.
pub record HasOffset (offset : ℕ) (s : Kernel) : Type 0 where
  pub loaded : s.boot_information.memory.hhdm_offset ≡ offset
  pub nonzero : offset ≢ 0
  pub room : offset + 2 ^ 47 ≤ 2 ^ 64

-- An entry that names a table.
pub record IsTable (entry : ℕ) : Type 0 where
  pub word : IsWord entry
  pub present : entry % 2 ≡ 1
  pub frame : frame_of entry ≢ 0
  pub low : frame_of entry < 2 ^ 47
  pub inner : is_page entry ≡ 0

-- The address of an entry in the table at the physical address `table`.
abbrev pub slot : ℕ → ℕ → ℕ → ℕ
slot offset table index = table + offset + 8 * index

pub entry_of-slot :
    (offset table index : ℕ)
    → offset + 2 ^ 47 ≤ 2 ^ 64
    → table + 2 ^ 12 ≤ 2 ^ 47
    → index < 512
    → entry_of (table + offset) index ≡ slot offset table index
entry_of-slot offset table index a b c = omega arith

pub get_address-frame_of : (v : ℕ) → IsWord v → get_address v ≡ frame_of v
get_address-frame_of v h = get_address-eq v ∙ bit_and-address_mask v h

-- `isValid` is true exactly of an entry that is present and whose address is not 0.
pub is_valid_lem :
    (v : ℕ)
    → IsWord v
    → is_valid v ≡ (if v % 2 == 1 then (if frame_of v == 0 then false else true) else false)
unfolding is_valid get_flag
is_valid_lem v h = ground (arith, bit_and_low 1 v, get_address-frame_of v h)

pub to_virtual_addr-offset :
    {offset : ℕ} {s : Kernel} (p : ℕ)
    → HasOffset offset s
    → p < 2 ^ 47
    → to_virtual_addr p s ≡ ok (p + offset) s
unfolding to_virtual_addr ensure_boot_info
to_virtual_addr-offset p h lt = ground arith

-- Where the entry of a table is valid, the next table is the one that it names, and nothing changes.
pub next_table-valid :
    {offset : ℕ} {s : Kernel} (fuel table index value : ℕ)
    → HasOffset offset s
    → entry_of table index ≢ 0
    → mmio_read64 s.mem (entry_of table index + 0) ≡ value
    → IsWord value
    → value % 2 ≡ 1
    → frame_of value ≢ 0
    → frame_of value < 2 ^ 47
    → next_table fuel table index s ≡ ok (frame_of value + offset) s
unfolding next_table get_next_level_pointer
next_table-valid {offset} {s} fuel table index value h ne read w p f low = ground (
  arith,
  is_valid_lem value w,
  get_address-frame_of value w,
  to_virtual_addr-offset (frame_of value) h,
)
