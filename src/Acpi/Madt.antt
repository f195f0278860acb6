-- ===== src/Acpi/Madt.antt =====
-- kernel/acpi/madt.hpp and madt.cpp: the walk over the entries of the interrupt table.
use optimist_os.Common.{
  ℕ, zero, suc, ◌+◌, ◌*◌, ◌^◌, Option, none, some, List, [], ◌∷◌, ◌==◌, ltb, if◌then◌else◌, set,
  u32, u64, sub64, map,
}
use optimist_os.Memory.{Memory, mmio_read32, mmio_read64}
use optimist_os.Apic.{MadtEntry, IoApicInfo, MadtIso}

abbrev pub length_at : ℕ
length_at = 4

abbrev pub table_at : ℕ
table_at = 44

-- `lapicAddr` is not packed, so its `physLapic` is aligned to eight bytes.
abbrev pub phys_lapic_at : ℕ
phys_lapic_at = 8

abbrev pub sizeof_madt_info : ℕ
sizeof_madt_info = 16

-- `madtInformation`, `madtInformationList` and `madtISOList`. The lists hold pointers.
pub record Madt : Type 0 where
  pub io_apic_len : ℕ
  pub madt_iso_len : ℕ
  pub lapic_addr : ℕ
  pub madt_information_list : List ℕ
  pub madt_iso_list : List ℕ

-- The body of the loop. `currentIndex` is never read.
unfoldable pub visit : Memory → ℕ → Madt → Madt
visit mem entry madt =
    let reset = record madt { io_apic_len = 0; madt_iso_len = 0 } in
    let type = mem entry in
    if type == 1
    then record reset {
      io_apic_len = u32 (reset.io_apic_len + 1);
      madt_information_list = set reset.madt_information_list reset.io_apic_len entry;
    }
    else if type == 2
    then record reset {
      madt_iso_len = u32 (reset.madt_iso_len + 1);
      madt_iso_list = set reset.madt_iso_list reset.madt_iso_len entry;
    }
    else if type == 5
    then record reset { lapic_addr = mmio_read64 mem (entry + phys_lapic_at) }
    else reset

-- The loop at `offset`, on fuel.
unfoldable pub madt_loop : ℕ → Memory → ℕ → ℕ → Madt → Option Madt
madt_loop zero mem table offset madt = none
madt_loop (suc rounds) mem table offset madt =
    let entry = table + table_at + offset in
    let rest = madt_loop rounds mem table (u64 (offset + mem (entry + 1))) (visit mem entry madt) in
    if ltb (sub64 (mmio_read32 mem (table + length_at)) sizeof_madt_info) offset
    then some madt
    else rest

-- `initMADT`, for the pointer that `acpiFindTable("APIC")` gave: `halt` stands for its `nullptr`.
pub data Init : Type 0 where
  ended : Madt → Init
  halt : Init
  spinning : Init

unfoldable pub init_madt : ℕ → Memory → ℕ → Madt → Init
init_madt rounds mem table madt =
    if table == 0
    then halt
    else elim (madt_loop rounds mem table 0 madt) [ none ↦ spinning | some m ↦ ended m ]

-- The structs behind the pointers.
abbrev pub read_entry : Memory → ℕ → MadtEntry
read_entry mem p = record { type = mem p; length = mem (p + 1) }

unfoldable pub read_io_apic : Memory → ℕ → IoApicInfo
read_io_apic mem p = record {
  un = read_entry mem p;
  apic_id = mem (p + 2);
  reserved = mem (p + 3);
  apic_addr = mmio_read32 mem (p + 4);
  gsi_base = mmio_read32 mem (p + 8);
}

unfoldable pub read_iso : Memory → ℕ → MadtIso
read_iso mem p = record {
  un = read_entry mem p;
  bus_src = mem (p + 2);
  irq_src = mem (p + 3);
  gsi = mmio_read32 mem (p + 4);
  flags = mem (p + 8) + 2 ^ 8 * mem (p + 9);
}

-- The first `n` pointers of a list.
abbrev pub take : {A : Type 0} → ℕ → List A → List A
take zero l = []
take (suc n) [] = []
take (suc n) (x ∷ l) = x ∷ take n l

-- The tables that kernel/acpi/ioapic.cpp reads: the pointers below the two lengths.
unfoldable pub io_apics : Memory → Madt → List IoApicInfo
io_apics mem madt = map (read_io_apic mem) (take madt.io_apic_len madt.madt_information_list)

unfoldable pub isos : Memory → Madt → List MadtIso
isos mem madt = map (read_iso mem) (take madt.madt_iso_len madt.madt_iso_list)
