-- ===== src/Apic.antt =====
-- kernel/acpi/ioapic.cpp over the tables that kernel/acpi/madt.cpp fills. What the registers of a device
-- hold is a parameter; what the code writes is the list of its stores, each a physical address and a
-- value.
pub mod Init
pub mod Laws
use optimist_os.Common.{
  ℕ, zero, suc, ◌+◌, ◌*◌, ◌/◌, ◌%◌, ◌^◌, bit_and, bit_or, Bool, Option, none, some, List, [], ◌∷◌,
  ◌++◌, ◌==◌, ◌!=◌, ◌&&◌, ltb, leb, if◌then◌else◌, u8, u32, u64, sub32, not64,
}

pub record MadtEntry : Type 0 where
  pub type : ℕ
  pub length : ℕ

pub record IoApicInfo : Type 0 where
  pub un : MadtEntry
  pub apic_id : ℕ
  pub reserved : ℕ
  pub apic_addr : ℕ
  pub gsi_base : ℕ

pub record MadtIso : Type 0 where
  pub un : MadtEntry
  pub bus_src : ℕ
  pub irq_src : ℕ
  pub gsi : ℕ
  pub flags : ℕ

abbrev pub io_apic_regsel : ℕ
io_apic_regsel = 0x0

abbrev pub io_apic_iowin : ℕ
io_apic_iowin = 0x10

abbrev pub io_apic_ver : ℕ
io_apic_ver = 0x1

abbrev pub io_apic_redtbl : ℕ
io_apic_redtbl = 0x10

abbrev pub Store : Type 0
Store = ℕ × ℕ

-- The store that selects a register, and the one that writes it.
unfoldable pub io_apic_write : IoApicInfo → ℕ → ℕ → List Store
io_apic_write ioapic reg value =
    (u32 (ioapic.apic_addr + io_apic_regsel), u32 reg)
    ∷ (u32 (ioapic.apic_addr + io_apic_iowin), u32 value)
    ∷ []

unfoldable pub set_entry : IoApicInfo → ℕ → ℕ → List Store
set_entry ioapic idx value =
    io_apic_write ioapic (u8 (io_apic_redtbl + idx * 2)) (u32 value)
    ++ io_apic_write ioapic (u8 (io_apic_redtbl + idx * 2 + 1)) (u32 (value / 2 ^ 32))

-- The value that `redirectGSI` builds, in its steps.
unfoldable pub redirect_value : ℕ → ℕ → ℕ → Bool → ℕ
redirect_value lapic_id vec flags mask =
    let polarity = if bit_and flags (2 ^ 1) != 0 then bit_or vec (2 ^ 13) else vec in
    let trigger = if bit_and flags (2 ^ 3) != 0 then bit_or polarity (2 ^ 15) else polarity in
    let masked = if mask then bit_or trigger (2 ^ 16) else bit_and trigger (not64 (2 ^ 16)) in
    bit_or masked (u64 (lapic_id * 2 ^ 56))

-- The loop of `initIOAPIC` at entry `i`, with the rounds that are left.
unfoldable pub mask_loop : IoApicInfo → ℕ → ℕ → List Store
unfolding io_apic_write
mask_loop ioapic zero i = []
mask_loop ioapic (suc left) i =
    io_apic_write ioapic (io_apic_redtbl + 2 * i) (bit_or 0x00010000 (32 + i))
    ++ io_apic_write ioapic (io_apic_redtbl + 2 * i + 1) 0
    ++ mask_loop ioapic left (i + 1)

module _ (registers : IoApicInfo → ℕ → ℕ) where
  -- `getGSICount`, with `ioAPICRead` of register 1.
  unfoldable pub get_gsi_count : IoApicInfo → ℕ
  get_gsi_count ioapic = bit_and (registers ioapic 1) 0xff0000 / 2 ^ 16

  -- `initIOAPIC` without its prints; `none` is its halt where the device has another identifier.
  unfoldable pub init_io_apic : IoApicInfo → Option (List Store)
  init_io_apic ioapic =
      let count = bit_and (registers ioapic io_apic_ver / 2 ^ 16) 0xff in
      if registers ioapic 0 / 2 ^ 24 != ioapic.apic_id
      then none
      else some (mask_loop ioapic (count + 1) 0)

  -- `at_null` is what the memory behind `nullptr`, which `redirectGSI` does not test for, holds as a
  -- device: the pager maps the page at 0.
  module _ (at_null : IoApicInfo) where
    unfoldable pub get_gsi : List IoApicInfo → ℕ → IoApicInfo
    get_gsi [] gsi = at_null
    get_gsi (a ∷ rest) gsi =
        if leb a.gsi_base gsi && ltb gsi (u64 (a.gsi_base + get_gsi_count a))
        then a
        else get_gsi rest gsi

    unfoldable pub redirect_gsi : List IoApicInfo → ℕ → ℕ → ℕ → ℕ → Bool → List Store
    redirect_gsi ioapics lapic_id vec gsi flags mask =
        let a = get_gsi ioapics gsi in
        let redirect = redirect_value lapic_id vec flags mask in
        let redir_table = u32 (sub32 gsi a.gsi_base * 2 + 16) in
        io_apic_write a redir_table (u32 redirect)
        ++ io_apic_write a (u32 (redir_table + 1)) (u32 (redirect / 2 ^ 32))

    -- The loop over the overrides, and the call behind it.
    unfoldable pub redirect_irq : List IoApicInfo → List MadtIso → ℕ → ℕ → ℕ → Bool → List Store
    redirect_irq ioapics [] lapic_id vec irq mask = redirect_gsi ioapics lapic_id vec irq 0 mask
    redirect_irq ioapics (iso ∷ isos) lapic_id vec irq mask =
        if iso.irq_src == irq
        then redirect_gsi ioapics lapic_id vec iso.gsi iso.flags mask
        else redirect_irq ioapics isos lapic_id vec irq mask

unfoldable pub get_redirect_irq : List MadtIso → ℕ → ℕ
get_redirect_irq [] irq = irq
get_redirect_irq (iso ∷ isos) irq =
    if iso.irq_src == irq then iso.gsi else get_redirect_irq isos irq

-- `unregisterIRQ`: the handler of the number is the null pointer.
unfoldable pub unregister_irq : ℕ → (ℕ → ℕ) → ℕ → ℕ
unregister_irq vec handlers = λ n. if n == vec then 0 else handlers n
