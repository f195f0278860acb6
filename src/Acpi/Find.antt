-- ===== src/Acpi/Find.antt =====
-- What `acpiFindTable` of kernel/acpi/acpi.cpp finds.
use optimist_os.Common.{
  ℕ, zero, suc, ◌+◌, ◌*◌, ◌≤◌, ◌<◌, ◌≡◌, ◌≢◌, ◌⊎◌, ◌-◌, ◌^◌, refl, arith, true, false, inl, inr,
  Bool-cases, ne→==, ne→!=, ℕ_discrete, u64, sub64,
}
use optimist_os.Memory.{Memory, mmio_read32, mmio_read64}
use optimist_os.Strings.{memorycmp}
use optimist_os.Strings.Laws.{memorycmp_iff}
use optimist_os.Kernel.{Kernel}
use optimist_os.Kernel.Run.{ok}
use optimist_os.Frames.Address.{minus_one_ptr, ensure_boot_info, to_physical_addr, to_virtual_addr}
use optimist_os.Acpi.{
  Acpi, sizeof_sdt, entry_count, find_in_rsdt, find_in_xsdt, search_rsdt, search_xsdt,
  acpi_find_table,
}

-- The four bytes at both addresses are the same.
abbrev pub Matches : Memory → ℕ → ℕ → Type 0
Matches mem p name = (k : ℕ) → k < 4 → mem (p + k) ≡ mem (name + k)

memorycmp-Matches : (mem : Memory) (p name : ℕ) → memorycmp p name 4 mem ≡ true → Matches mem p name
memorycmp-Matches mem p name hit = (memorycmp_iff p name 4 mem).0 hit

memorycmp-differs :
    (mem : Memory) (p name : ℕ) → memorycmp p name 4 mem ≡ false → ¬ Matches mem p name
memorycmp-differs mem p name miss same =
    let hit : memorycmp p name 4 mem ≡ true = (memorycmp_iff p name 4 mem).1 same in cc

-- Of the pointers from index `i` on, `r` is the first whose four bytes are those of the name, or
-- `nullptr` if there is none.
abbrev pub IsFirst : Memory → ℕ → (ℕ → ℕ) → ℕ → ℕ → ℕ → Type 0
IsFirst mem name pointer n i r =
    ((j : ℕ) × (i ≤ j)
      × (j < i + n)
      × Matches mem (pointer j) name
      × ((k : ℕ) → i ≤ k → k < j → ¬ Matches mem (pointer k) name)
      × (r ≡ pointer j))
    ⊎ (((k : ℕ) → i ≤ k → k < i + n → ¬ Matches mem (pointer k) name) × (r ≡ 0))

IsFirst-here :
    (mem : Memory) (name : ℕ) (pointer : ℕ → ℕ) (n i : ℕ)
    → memorycmp (pointer i) name 4 mem ≡ true
    → IsFirst mem name pointer (suc n) i (pointer i)
IsFirst-here mem name pointer n i hit = inl (
  i,
  omega arith,
  omega arith,
  memorycmp-Matches mem (pointer i) name hit,
  λ k lo hi. absurd (omega arith),
  refl,
)

IsFirst-later :
    (mem : Memory) (name : ℕ) (pointer : ℕ → ℕ) (n i r : ℕ)
    → memorycmp (pointer i) name 4 mem ≡ false
    → IsFirst mem name pointer n (i + 1) r
    → IsFirst mem name pointer (suc n) i r
IsFirst-later mem name pointer n i r miss (inl (j, lo, hi, hit, before, e)) = inl (
  j,
  omega arith,
  omega arith,
  hit,
  λ k l h. elim (ℕ_discrete k i) [
    | yes same ↦ rw same (memorycmp-differs mem (pointer i) name miss)
    | no ne ↦ before k (omega arith) h
  ],
  e,
)
IsFirst-later mem name pointer n i r miss (inr (none_of, e)) = inr (
  λ k l h. elim (ℕ_discrete k i) [
    | yes same ↦ rw same (memorycmp-differs mem (pointer i) name miss)
    | no ne ↦ none_of k (omega arith) (omega arith)
  ],
  e,
)

find_in_rsdt-IsFirst :
    (mem : Memory) (name rsdt left i : ℕ)
    → IsFirst mem name
        (λ j. mmio_read32 mem (rsdt + sizeof_sdt + 4 * j))
        left
        i
        (find_in_rsdt mem name rsdt left i)
unfolding find_in_rsdt
find_in_rsdt-IsFirst mem name rsdt zero i = inr (λ k l h. absurd (omega arith), refl)
find_in_rsdt-IsFirst mem name rsdt (suc left) i =
    let pointer : ℕ → ℕ = λ j. mmio_read32 mem (rsdt + sizeof_sdt + 4 * j) in
    elim (Bool-cases (memorycmp (pointer i) name 4 mem)) [
      | inl hit ↦ rw hit (IsFirst-here mem name pointer left i hit)
      | inr miss ↦ rw miss (
          IsFirst-later mem name pointer left i (find_in_rsdt mem name rsdt left (i + 1)) miss
            (find_in_rsdt-IsFirst mem name rsdt left (i + 1)))
    ]

-- The copy of the boot information is loaded.
abbrev pub IsLoaded : Kernel → Type 0
IsLoaded s = s.boot_information.memory.hhdm_offset ≢ 0

to_physical_addr-IsLoaded :
    (s : Kernel) (addr : ℕ)
    → IsLoaded s
    → to_physical_addr addr s ≡ ok (sub64 addr s.boot_information.memory.hhdm_offset) s
unfolding to_physical_addr ensure_boot_info
to_physical_addr-IsLoaded s addr v = rw (ne→== s.boot_information.memory.hhdm_offset 0 v) refl

to_virtual_addr-IsLoaded :
    (s : Kernel) (addr : ℕ)
    → IsLoaded s
    → addr ≢ minus_one_ptr
    → to_virtual_addr addr s ≡ ok (u64 (addr + s.boot_information.memory.hhdm_offset)) s
unfolding to_virtual_addr ensure_boot_info
to_virtual_addr-IsLoaded s addr v ne =
    rw (ne→== addr minus_one_ptr ne, ne→== s.boot_information.memory.hhdm_offset 0 v) refl

-- What the code makes of an entry of the table with 64-bit pointers.
abbrev pub xsdt_pointer : Kernel → ℕ → ℕ → ℕ
xsdt_pointer s xsdt j =
    sub64 (mmio_read64 s.mem (xsdt + sizeof_sdt + 8 * j)) s.boot_information.memory.hhdm_offset

find_in_xsdt-IsFirst :
    (s : Kernel) (name xsdt left i : ℕ)
    → IsLoaded s
    → (r : ℕ) × (find_in_xsdt name xsdt left i s ≡ ok r s)
      × IsFirst s.mem name (xsdt_pointer s xsdt) left i r
unfolding find_in_xsdt
find_in_xsdt-IsFirst s name xsdt zero i v = (0, refl, inr (λ k l h. absurd (omega arith), refl))
find_in_xsdt-IsFirst s name xsdt (suc left) i v =
    let entry : ℕ = mmio_read64 s.mem (xsdt + sizeof_sdt + 8 * i) in
    let pointer : ℕ → ℕ = xsdt_pointer s xsdt in
    elim (Bool-cases (memorycmp (pointer i) name 4 s.mem)) [
      | inl hit ↦ (
        pointer i,
        rw (to_physical_addr-IsLoaded s entry v, hit) refl,
        IsFirst-here s.mem name pointer left i hit,
      )
      | inr miss ↦
          let (r, run, first) = find_in_xsdt-IsFirst s name xsdt left (i + 1) v in
          (
            r,
            rw (to_physical_addr-IsLoaded s entry v, miss) run,
            IsFirst-later s.mem name pointer left i r miss first,
          )
    ]

-- The pointers behind the header, by the length of the table.
entry_count-4 :
    (mem : Memory) (sdt n : ℕ)
    → mmio_read32 mem (sdt + 4) ≡ 36 + 4 * n
    → n < 2 ^ 30 - 9
    → entry_count mem sdt 4 ≡ n
unfolding entry_count
entry_count-4 mem sdt n h lt = omega (arith, h)

entry_count-8 :
    (mem : Memory) (sdt n : ℕ)
    → mmio_read32 mem (sdt + 4) ≡ 36 + 8 * n
    → n < 2 ^ 29 - 4
    → entry_count mem sdt 8 ≡ n
unfolding entry_count
entry_count-8 mem sdt n h lt = omega (arith, h)

-- Once the boot information is loaded, `acpiFindTable` returns and changes nothing. With a root table of
-- 32-bit pointers whose length is that of its header of 36 bytes and of `n` pointers, it gives the first of
-- these pointers to four bytes that are those of the signature, or `nullptr` if none is. Otherwise it searches
-- the `n` pointers behind the header of the table of 64-bit pointers in the same way, but compares at, and
-- returns, each pointer less the offset of the direct map.
pub acpi_find_table_lem :
    (acpi : Acpi) (name n : ℕ) (s : Kernel)
    → IsLoaded s
    → acpi.root_rsdt ≢ minus_one_ptr
    → acpi.root_xsdt ≢ minus_one_ptr
    → let rsdt = u64 (acpi.root_rsdt + s.boot_information.memory.hhdm_offset) in
      let xsdt = u64 (acpi.root_xsdt + s.boot_information.memory.hhdm_offset) in
      (acpi.root_rsdt ≢ 0
        → mmio_read32 s.mem (rsdt + 4) ≡ 36 + 4 * n
        → n < 2 ^ 30 - 9
        → (r : ℕ) × (acpi_find_table acpi name s ≡ ok r s)
          × IsFirst s.mem name (λ j. mmio_read32 s.mem (rsdt + 36 + 4 * j)) n 0 r)
      × (acpi.root_rsdt ≡ 0
          → mmio_read32 s.mem (xsdt + 4) ≡ 36 + 8 * n
          → n < 2 ^ 29 - 4
          → (r : ℕ) × (acpi_find_table acpi name s ≡ ok r s)
            × IsFirst s.mem name
                (λ j.
                  sub64
                    (mmio_read64 s.mem (xsdt + 36 + 8 * j))
                    s.boot_information.memory.hhdm_offset)
                n
                0
                r)
unfolding acpi_find_table search_rsdt search_xsdt
acpi_find_table_lem acpi name n s v ner nex =
    let rsdt : ℕ = u64 (acpi.root_rsdt + s.boot_information.memory.hhdm_offset) in
    let xsdt : ℕ = u64 (acpi.root_xsdt + s.boot_information.memory.hhdm_offset) in
    (
      λ ne long lt. (
        find_in_rsdt s.mem name rsdt n 0,
        rw
            (
              ne→!= acpi.root_rsdt 0 ne,
              to_virtual_addr-IsLoaded s acpi.root_rsdt v ner,
              entry_count-4 s.mem rsdt n long lt,
            )
            refl,
        find_in_rsdt-IsFirst s.mem name rsdt n 0,
      ),
      λ e long lt.
          let (r, run, first) = find_in_xsdt-IsFirst s name xsdt n 0 v in
          (
            r,
            rw
                (
                  e,
                  to_virtual_addr-IsLoaded s acpi.root_xsdt v nex,
                  entry_count-8 s.mem xsdt n long lt,
                )
                run,
            first,
          ),
    )
