-- ===== src/Gdt.antt =====
-- kernel/gdt/gdt.hpp, gdt.cpp and gdt.asm: the table of segment descriptors and the segments that
-- `gdtFlush` loads.
use optimist_os.Common.{
  ℕ, ◌+◌, ◌*◌, ◌/◌, ◌%◌, ◌^◌, ◌-◌, ◌≤◌, ◌≡◌, refl, arith, List, [], ◌∷◌, length, get_or, u16,
}

pub record GdtEntry : Type 0 where
  pub limit : ℕ
  pub base_low : ℕ
  pub base_middle : ℕ
  pub access : ℕ
  pub flags : ℕ
  pub base_high : ℕ

abbrev pub descriptor : ℕ → ℕ → ℕ → GdtEntry
descriptor limit access flags = record {
  limit = limit;
  base_low = 0;
  base_middle = 0;
  access = access;
  flags = flags;
  base_high = 0;
}

abbrev pub sizeof_gdt_entry : ℕ
sizeof_gdt_entry = 8

abbrev pub gdt : List GdtEntry
gdt =
    descriptor 0 0 0
    ∷ descriptor 0xffff 0x9a 0x80
    ∷ descriptor 0xffff 0x92 0x80
    ∷ descriptor 0xffff 0x9a 0xcf
    ∷ descriptor 0xffff 0x92 0xcf
    ∷ descriptor 0 0x9a 0xa2
    ∷ descriptor 0 0x92 0xa0
    ∷ descriptor 0 0xf2 0
    ∷ descriptor 0 0xfa 0x20
    ∷ []

pub record GdtPtr : Type 0 where
  pub limit : ℕ
  pub base : ℕ

-- `initGDT` up to its call of `gdtFlush`, for the address of the table.
unfoldable pub init_gdt : ℕ → GdtPtr
init_gdt address = record { limit = u16 (sizeof_gdt_entry * 10 - 1); base = address }

pub record Segments : Type 0 where
  pub table : GdtPtr
  pub code_selector : ℕ
  pub data_selector : ℕ

-- The table register, the code selector of the far return, and the selector of ds, es, fs, gs and ss.
unfoldable pub gdt_flush : GdtPtr → Segments
gdt_flush pointer = record { table = pointer; code_selector = 0x28; data_selector = 0x30 }

-- A selector's descriptor, behind the three bits of its privilege and table.
unfoldable pub selected : ℕ → GdtEntry
selected selector = get_or gdt (selector / 2 ^ 3) (descriptor 0 0 0)

-- Behind `gdtFlush` the code segment is present, executable and 64 bits wide, not 32, the data segment is
-- present and writable, and both lie in the table; but the limit that `initGDT` stores takes in one entry
-- more than the table has.
init_gdt_lem :
    (address : ℕ)
    → let segments = gdt_flush (init_gdt address) in
      ((selected segments.code_selector).access / 2 ^ 7 ≡ 1)
      × ((selected segments.code_selector).access / 2 ^ 3 % 2 ≡ 1)
      × ((selected segments.code_selector).flags / 2 ^ 5 % 2 ≡ 1)
      × ((selected segments.code_selector).flags / 2 ^ 6 % 2 ≡ 0)
      × ((selected segments.data_selector).access / 2 ^ 7 ≡ 1)
      × ((selected segments.data_selector).access / 2 ^ 1 % 2 ≡ 1)
      × (segments.code_selector + sizeof_gdt_entry ≤ sizeof_gdt_entry * length gdt)
      × (segments.data_selector + sizeof_gdt_entry ≤ sizeof_gdt_entry * length gdt)
      × (segments.table.limit + 1 ≡ sizeof_gdt_entry * length gdt + sizeof_gdt_entry)
unfolding init_gdt gdt_flush selected
init_gdt_lem address = (refl, refl, refl, refl, refl, refl, omega arith, omega arith, refl)
