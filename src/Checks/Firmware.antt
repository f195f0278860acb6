-- ===== src/Checks/Firmware.antt =====
-- kernel/acpi/acpi.cpp and madt.cpp at concrete tables.
use optimist_os.Common.{
  ℕ, ◌+◌, ◌*◌, ◌≤◌, ◌≡◌, ◌≢◌, refl, arith, false, [], ◌∷◌, ◌==◌, if◌then◌else◌, replicate, u64,
  sub64, ◌<◌, ◌-◌, ◌^◌,
}
use optimist_os.Memory.{Memory, mmio_read32, mmio_read64}
use optimist_os.Kernel.{Kernel}
use optimist_os.Strings.{memorycmp, memorycmp_loop}
use optimist_os.Kernel.Run.{ok}
use optimist_os.Apic.{IoApicInfo, get_gsi}
use optimist_os.Acpi.{Acpi, find_in_rsdt, acpi_find_table}
use optimist_os.Acpi.Find.{IsFirst, acpi_find_table_lem}
use optimist_os.Acpi.Madt.{
  Madt, table_at, visit, madt_loop, init_madt, ended, spinning, read_io_apic, read_iso, io_apics,
  isos,
}
use optimist_os.Acpi.Last.{last_offset, Visits, Reaches, init_madt-ends, init_madt-last}
use optimist_os.Checks.FrameCalls.{one_block}

abbrev acpi : Acpi
acpi = record { root_rsdt = 0x5000; in_use = false; xsdp_information = 0; root_xsdt = 0 }

abbrev offset : ℕ
offset = one_block.boot_information.memory.hhdm_offset

-- The header at 0xffff800000005000 with three pointers, the second one, at offset 40, to 0x7000, where the four
-- bytes "APIC" stand, as at 0x6000.
abbrev root_table : Memory
root_table x =
    if x == 0xffff800000005004
    then 48
    else if x == 0xffff800000005029
    then 0x70
    else if x == 0x6000
    then 65
    else if x == 0x6001
    then 80
    else if x == 0x6002
    then 73
    else if x == 0x6003
    then 67
    else if x == 0x7000
    then 65
    else if x == 0x7001
    then 80
    else if x == 0x7002
    then 73
    else if x == 0x7003
    then 67
    else 0

abbrev rooted : Kernel
rooted = record one_block { mem = root_table }

-- The length of the table, and what its search gives.
rooted_length : mmio_read32 root_table (u64 (0x5000 + offset) + 4) ≡ 36 + 4 * 3
unfolding mmio_read32
rooted_length = refl

rooted_found : find_in_rsdt root_table 0x6000 (u64 (0x5000 + offset)) 3 0 ≡ 0x7000
unfolding find_in_rsdt memorycmp memorycmp_loop mmio_read32
rooted_found = refl

acpi_find_table_lem_example :
    let rsdt = u64 (0x5000 + offset) in
    let xsdt = u64 (0 + offset) in
    (acpi.root_rsdt ≢ 0
      → mmio_read32 rooted.mem (rsdt + 4) ≡ 36 + 4 * 3
      → 3 < 2 ^ 30 - 9
      → (r : ℕ) × (acpi_find_table acpi 0x6000 rooted ≡ ok r rooted)
        × IsFirst rooted.mem 0x6000 (λ j. mmio_read32 rooted.mem (rsdt + 36 + 4 * j)) 3 0 r)
    × (acpi.root_rsdt ≡ 0
        → mmio_read32 rooted.mem (xsdt + 4) ≡ 36 + 8 * 3
        → 3 < 2 ^ 29 - 4
        → (r : ℕ) × (acpi_find_table acpi 0x6000 rooted ≡ ok r rooted)
          × IsFirst rooted.mem 0x6000
              (λ j. sub64 (mmio_read64 rooted.mem (xsdt + 36 + 8 * j)) offset)
              3
              0
              r)
acpi_find_table_lem_example =
    acpi_find_table_lem acpi 0x6000 3 rooted (λ h. omega arith) (λ h. omega arith)
      (λ h. omega arith)

abbrev table : ℕ
table = 0x1000

-- A table with one device, of 64 bytes in all.
abbrev device_table : Memory
device_table x =
    if x == 0x1004 then 64 else if x == 0x102c then 1 else if x == 0x102d then 60 else 0

abbrev empty_madt : Madt
empty_madt = record {
  io_apic_len = 0;
  madt_iso_len = 0;
  lapic_addr = 0;
  madt_information_list = replicate 128 0;
  madt_iso_list = replicate 128 0;
}

init_madt-ends_example :
    ((last : ℕ)
      → Visits device_table table 0 last
      → (n : ℕ) × (m : Madt) × (init_madt n device_table table empty_madt
          ≡ ended (visit device_table last m)))
    × ((to : ℕ)
        → Reaches device_table table 0 to
        → to ≤ last_offset device_table table
        → device_table (table + table_at + to + 1) ≡ 0
        → (n : ℕ) → init_madt n device_table table empty_madt ≡ spinning)
init_madt-ends_example = init_madt-ends empty_madt (λ h. omega arith)

ended_run : init_madt 2 device_table table empty_madt ≡ ended (visit device_table 0x102c empty_madt)
unfolding init_madt madt_loop mmio_read32
ended_run = refl

init_madt-last_example :
    let left = visit device_table 0x102c empty_madt in
    (last : ℕ) × Visits device_table table 0 last
    × (device_table last ≡ 1
        → (io_apics device_table left ≡ read_io_apic device_table last ∷ [])
          × (isos device_table left ≡ []))
    × (device_table last ≡ 2
        → (io_apics device_table left ≡ [])
          × (isos device_table left ≡ read_iso device_table last ∷ []))
    × (device_table last ≢ 1
        → device_table last ≢ 2
        → (io_apics device_table left ≡ []) × (isos device_table left ≡ []))
    × (device_table last ≢ 1
        → (registers : IoApicInfo → ℕ → ℕ) (at_null : IoApicInfo) (gsi : ℕ)
        → get_gsi registers at_null (io_apics device_table left) gsi ≡ at_null)
init_madt-last_example =
    init_madt-last 2 device_table table empty_madt (visit device_table 0x102c empty_madt)
      (omega arith) (omega arith) ended_run
