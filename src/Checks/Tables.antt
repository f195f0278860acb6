-- ===== src/Checks/Tables.antt =====
-- kernel/paging/paging.cpp and paging.hpp at a concrete memory: a root at 0x1000 and three tables.
use optimist_os.Common.{
  ℕ, ◌+◌, ◌*◌, ◌/◌, ◌%◌, ◌^◌, ◌<◌, ◌≡◌, refl, arith, true, some, replicate, bit_and,
}
use optimist_os.Memory.{Memory, mmio_read64, mmio_write64}
use optimist_os.Memory.Laws.{
  Outside, mmio_read64-mmio_write64, mmio_read64-mmio_write64-Apart, mmio_read64-zeros,
}
use optimist_os.HashTable.{table_size, pair}
use optimist_os.Boot.Info.{BootInfo}
use optimist_os.Kernel.{Kernel}
use optimist_os.Kernel.Run.{ok}
use optimist_os.Paging.Entry.{present, get_address, set_address}
use optimist_os.Paging.Entry.Laws.{set_address_lem}
use optimist_os.Paging.Index.{pml4_entry, pml3_entry, pml2_entry, pml1_entry, entries_lem}
use optimist_os.Paging.Map.{map}
use optimist_os.Paging.Map.Present.{HasTables, map-translate}
use optimist_os.Paging.Walk.{translate}

abbrev frame : ℕ
frame = 0x5000

set_address_lem_example :
    (get_address (set_address 0x2001 0x5000) ≡ 0x5000 / 2 ^ 12 % 2 ^ 40 * 2 ^ 12)
    × (frame < 2 ^ 52 → frame % 2 ^ 12 ≡ 0 → get_address (set_address 0x2001 0x5000) ≡ 0x5000)
    × (bit_and (set_address 0x2001 0x5000) present ≡ bit_and 0x2001 present)
set_address_lem_example =
    set_address_lem 0x2001 0x5000 present (omega arith) (omega arith) (omega arith) refl

abbrev address : ℕ
address = 0xffffffff80001234

entries_lem_example :
    (pml4_entry address < 512)
    × (pml3_entry address < 512)
    × (pml2_entry address < 512)
    × (pml1_entry address < 512)
    × (pml4_entry address * 2 ^ 39
          + pml3_entry address * 2 ^ 30
          + pml2_entry address * 2 ^ 21
          + pml1_entry address * 2 ^ 12
          + address % 2 ^ 12
        ≡ address % 2 ^ 48)
entries_lem_example = entries_lem address

abbrev offset : ℕ
offset = 0xffff800000000000

abbrev info : BootInfo
info = record {
  framebuffer = record {
    base_address = 0;
    buffer_size = 0;
    width = 0;
    height = 0;
    pixels_per_scan_line = 0;
  };
  psf1_font = 0;
  memory = record {
    free_mem_start = 0x200000;
    extra_mem_start = 0;
    free_mem_size = 0;
    kernel_start = 0;
    kernel_size = 1;
    kernel_start_v = 0;
    hhdm_offset = offset;
  };
}

-- The virtual address 0x8080604000 has the indices 1, 2, 3 and 4.
abbrev at4 : ℕ
at4 = 0x1000 + offset + 8 * 1

abbrev at3 : ℕ
at3 = 0x2000 + offset + 8 * 2

abbrev at2 : ℕ
at2 = 0x3000 + offset + 8 * 3

abbrev at1 : ℕ
at1 = 0x4000 + offset + 8 * 4

abbrev zeros : Memory
zeros x = 0

abbrev tables : Memory
tables = mmio_write64 (mmio_write64 (mmio_write64 zeros at4 0x2003) at3 0x3003) at2 0x4003

abbrev start : Kernel
start = record {
  mem = tables;
  head = 0;
  free_block = 0;
  list_head = 0;
  total_memory = 0;
  used_memory = 0;
  boot_information = info;
  global_boot_info = info;
  address_size_ht = replicate table_size (pair 0 0);
  pml4 = 0x1000;
  kernel_pml4 = 0;
  hhdm_offset = offset;
  free_list = 0;
  mutex = 0;
  paging_mutex = 0;
}

tables-at4 : mmio_read64 tables at4 ≡ 0x2003
tables-at4 = ground (
  arith,
  mmio_read64-mmio_write64-Apart (mmio_write64 (mmio_write64 zeros at4 0x2003) at3 0x3003) at2
      0x4003 at4,
  mmio_read64-mmio_write64-Apart (mmio_write64 zeros at4 0x2003) at3 0x3003 at4,
  mmio_read64-mmio_write64 zeros at4 0x2003,
)

tables-at3 : mmio_read64 tables at3 ≡ 0x3003
tables-at3 = ground (
  arith,
  mmio_read64-mmio_write64-Apart (mmio_write64 (mmio_write64 zeros at4 0x2003) at3 0x3003) at2
      0x4003 at3,
  mmio_read64-mmio_write64 (mmio_write64 zeros at4 0x2003) at3 0x3003,
)

tables-at2 : mmio_read64 tables at2 ≡ 0x4003
tables-at2 =
    mmio_read64-mmio_write64 (mmio_write64 (mmio_write64 zeros at4 0x2003) at3 0x3003) at2 0x4003

tables-at1 : mmio_read64 tables at1 ≡ 0
tables-at1 = ground (
  arith,
  mmio_read64-mmio_write64-Apart (mmio_write64 (mmio_write64 zeros at4 0x2003) at3 0x3003) at2
      0x4003 at1,
  mmio_read64-mmio_write64-Apart (mmio_write64 zeros at4 0x2003) at3 0x3003 at1,
  mmio_read64-mmio_write64-Apart zeros at4 0x2003 at1,
  mmio_read64-zeros zeros at1 (λ x lo hi. refl),
)

start-HasTables : HasTables offset start 0x8080604000 0x2003 0x3003 0x4003
start-HasTables = record {
  direct = record { loaded = refl; nonzero = λ h. omega arith; room = omega arith };
  root = λ h. omega arith;
  root_lt = omega arith;
  read4 = tables-at4;
  table4 = record {
    word = omega arith;
    present = refl;
    frame = λ h. omega arith;
    low = omega arith;
    inner = refl;
  };
  read3 = tables-at3;
  table3 = record {
    word = omega arith;
    present = refl;
    frame = λ h. omega arith;
    low = omega arith;
    inner = refl;
  };
  read2 = tables-at2;
  table2 = record {
    word = omega arith;
    present = refl;
    frame = λ h. omega arith;
    low = omega arith;
    inner = refl;
  };
}

map-translate_example :
    (t : Kernel) × (map 3 0x5000 0x8080604000 3 start ≡ ok true t)
    × ((w : ℕ)
        → w / 2 ^ 12 ≡ 0x8080604000 / 2 ^ 12
        → translate t.mem offset t.pml4 w ≡ some (0x5000 + w % 2 ^ 12))
    × (t ≡ record start { mem = t.mem })
    × ((x : ℕ) → Outside at1 8 x → t.mem x ≡ tables x)
map-translate_example =
    map-translate 3 0x5000 3 start-HasTables (omega arith) (omega arith) (omega arith)
      (omega (arith, tables-at1)) (omega arith) refl refl refl (omega arith) refl
