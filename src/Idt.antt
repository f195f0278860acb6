-- ===== src/Idt.antt =====
-- kernel/idt/idt.hpp and idt.cpp: the table of interrupt gates.
pub mod Laws
pub mod Interrupt
use optimist_os.Common.{ℕ, ◌/◌, ◌^◌, ◌-◌, bit_and, List, set, get_or, u16, u32}

pub record IdtEntry : Type 0 where
  pub offset_low : ℕ
  pub segment_selector : ℕ
  pub reserved : ℕ
  pub attributes : ℕ
  pub offset_middle : ℕ
  pub offset_high : ℕ
  pub reserved2 : ℕ

abbrev pub blank_entry : IdtEntry
blank_entry = record {
  offset_low = 0;
  segment_selector = 0;
  reserved = 0;
  attributes = 0;
  offset_middle = 0;
  offset_high = 0;
  reserved2 = 0;
}

unfoldable pub make_gate : ℕ → IdtEntry
make_gate gate_addr = record {
  offset_low = u16 (bit_and gate_addr (2 ^ 16 - 1));
  segment_selector = 0x28;
  reserved = 0;
  attributes = 0x8e;
  offset_middle = u16 (bit_and (gate_addr / 2 ^ 16) (2 ^ 16 - 1));
  offset_high = u32 (bit_and (gate_addr / 2 ^ 32) (2 ^ 32 - 1));
  reserved2 = 0;
}

-- `idtEntries` is the list of its entries.
unfoldable pub set_idt_gate : List IdtEntry → ℕ → ℕ → List IdtEntry
unfolding make_gate
set_idt_gate idt_entries gate_number gate_addr = set idt_entries gate_number (make_gate gate_addr)
