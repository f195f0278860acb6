-- ===== src/Checks/Devices.antt =====
-- kernel/acpi/ioapic.cpp and kernel/idt/idt.cpp at concrete inputs.
use optimist_os.Common.{
  ℕ, ◌+◌, ◌-◌, ◌*◌, ◌/◌, ◌%◌, ◌^◌, ◌≡◌, ◌≢◌, ◌≤◌, ◌<◌, arith, refl, inl, true, none, some, List, [],
  ◌∷◌, if◌then◌else◌, ◌==◌, u32, u64, length, get_or, replicate,
}
use optimist_os.Apic.{IoApicInfo, MadtIso, Store, init_io_apic, redirect_irq, get_redirect_irq}
use optimist_os.Apic.Init.{Device, stores, init_io_apic_lem}
use optimist_os.Apic.Laws.{first, found, passed, redirect_irq_lem}
use optimist_os.Lapic.{lapic_timer}
use optimist_os.Lapic.Laws.{lapic_timer_lem}
use optimist_os.Idt.{IdtEntry, blank_entry, set_idt_gate}
use optimist_os.Idt.Laws.{handler_of, set_idt_gate_lem}

-- The registers by their addresses, the entry of the timer masked with an old vector.
abbrev lapic : ℕ → ℕ
lapic address = if address == 0xfee00320 then 2 ^ 16 + 0x27 else 0

abbrev read_word : ℕ → (ℕ → ℕ) → ℕ
read_word address s = s address

abbrev write_word : ℕ → ℕ → (ℕ → ℕ) → ℕ → ℕ
write_word address value s = λ other. if other == address then value else s other

-- A product of 2 ^ 32 ticks, for which the count is 0.
lapic_timer_lem_example :
    let ticks = u64 (2 ^ 16 * 2 ^ 16) in
    let divided = write_word 0xfee003e0 3 lapic in
    let x = u32 (read_word 0xfee00320 divided) in
    let entry = x / 2 ^ 19 * 2 ^ 19 + x / 2 ^ 8 % 2 ^ 9 * 2 ^ 8 + 48 in
    let count = if ticks == 0 then 1 else ticks % 2 ^ 32 in
    let counted = write_word 0xfee00380 count (write_word 0xfee00320 entry divided) in
    let y = u32 (read_word 0xfee00320 counted) in
    lapic_timer read_word write_word (λ ms s. s) (2 ^ 16) 48 (2 ^ 16) lapic
    ≡ (2 ^ 16, write_word 0xfee00320 (y / 2 ^ 17 * 2 ^ 17 + y % 2 ^ 16) counted)
lapic_timer_lem_example =
    lapic_timer_lem read_word write_word (λ ms s. s) (2 ^ 16) 48 (2 ^ 16) lapic (λ e. omega arith)
      (omega arith)

abbrev ioapic : IoApicInfo
ioapic = record {
  un = record { type = 1; length = 12 };
  apic_id = 0;
  reserved = 0;
  apic_addr = 0xfec00000;
  gsi_base = 0;
}

-- The version register of a device with 24 entries.
abbrev registers : IoApicInfo → ℕ → ℕ
registers a reg = 0x170011

-- The device before its first store.
abbrev fresh : Device
fresh = record { selected = 0; held = λ reg. 0 }

init_io_apic_lem_example :
    (registers ioapic 0 / 2 ^ 24 ≢ ioapic.apic_id → init_io_apic registers ioapic ≡ none)
    × (registers ioapic 0 / 2 ^ 24 ≡ ioapic.apic_id
        → (l : List Store) × (init_io_apic registers ioapic ≡ some l)
          × ((n : ℕ)
              → n ≤ registers ioapic 1 / 2 ^ 16 % 2 ^ 8
              → ((stores ioapic.apic_addr l fresh).held (0x10 + 2 * n) ≡ 2 ^ 16 + (32 + n))
                × ((stores ioapic.apic_addr l fresh).held (0x10 + 2 * n + 1) ≡ 0))
          × ((reg : ℕ) → reg < 0x10 → (stores ioapic.apic_addr l fresh).held reg ≡ fresh.held reg))
init_io_apic_lem_example = init_io_apic_lem registers ioapic fresh

-- The timer, on input 2.
abbrev timer : MadtIso
timer = record {
  un = record { type = 2; length = 10 };
  bus_src = 0;
  irq_src = 0;
  gsi = 2;
  flags = 0;
}

-- A device with the numbers from 24 on.
abbrev second : IoApicInfo
second = record ioapic { apic_id = 1; apic_addr = 0xfec01000; gsi_base = 24 }

redirect_irq_lem_example :
    let reg = (16 + 2 * (2 + 2 ^ 32 - 0)) % 2 ^ 32 in
    (get_redirect_irq (timer ∷ []) 0 ≡ 2)
    × (redirect_irq registers second (second ∷ ioapic ∷ []) (timer ∷ []) 3 32 0 true
        ≡ (0xfec00000, reg)
          ∷ (0xfec00010, 32 + 0 * 2 ^ 13 + 0 * 2 ^ 15 + 1 * 2 ^ 16)
          ∷ (0xfec00000, (reg + 1) % 2 ^ 32)
          ∷ (0xfec00010, 3 * 2 ^ 24)
          ∷ [])
redirect_irq_lem_example =
    redirect_irq_lem 3 32 true (first timer [] refl)
      (passed second ioapic (ioapic ∷ []) (inl (omega arith))
        (found ioapic [] (omega arith) (omega arith)))
      (omega arith, (omega arith, tt)) (omega arith)

abbrev gates : List IdtEntry
gates = replicate 256 blank_entry

set_idt_gate_lem_example :
    let e = get_or (set_idt_gate gates 32 0xffffffff80001234) 32 blank_entry in
    (handler_of e ≡ 0xffffffff80001234)
    × (e.segment_selector ≡ 0x28)
    × (e.attributes ≡ 2 ^ 7 + 0xe)
    × ((j : ℕ)
        → j ≢ 32
        → get_or (set_idt_gate gates 32 0xffffffff80001234) j blank_entry
          ≡ get_or gates j blank_entry)
    × (length (set_idt_gate gates 32 0xffffffff80001234) ≡ length gates)
set_idt_gate_lem_example = set_idt_gate_lem gates 32 0xffffffff80001234 (omega arith) (omega arith)
