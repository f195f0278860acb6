-- ===== src/Idt/Laws.antt =====
-- What the processor reads back from a gate that `setIDTGate` of kernel/idt/idt.cpp has written.
use optimist_os.Common.{
  ℕ, ◌+◌, ◌*◌, ◌/◌, ◌^◌, sym, ◌<◌, ◌≡◌, ◌≢◌, refl, arith, List, set, length, get_or, length-set,
  get_or-set_self, get_or-set_ne,
}
use optimist_os.Common.Bits.{bit_and_low}
use optimist_os.Idt.{IdtEntry, blank_entry, make_gate, set_idt_gate}

-- The address of the handler, as the processor puts it together from a gate.
abbrev pub handler_of : IdtEntry → ℕ
handler_of e = e.offset_low + e.offset_middle * 2 ^ 16 + e.offset_high * 2 ^ 32

make_gate-handler :
    (gate_addr : ℕ) → gate_addr < 2 ^ 64 → handler_of (make_gate gate_addr) ≡ gate_addr
unfolding make_gate
make_gate-handler gate_addr h = omega (
  arith,
  bit_and_low 16 gate_addr,
  bit_and_low 16 (gate_addr / 2 ^ 16),
  bit_and_low 32 (gate_addr / 2 ^ 32),
)

-- For a gate inside the table, `setIDTGate` stores the whole 64-bit address of the handler, with the
-- kernel's code segment, as a present interrupt gate of ring 0; it changes no other gate.
pub set_idt_gate_lem :
    (entries : List IdtEntry) (gate gate_addr : ℕ)
    → gate < length entries
    → gate_addr < 2 ^ 64
    → let e = get_or (set_idt_gate entries gate gate_addr) gate blank_entry in
      (handler_of e ≡ gate_addr)
      × (e.segment_selector ≡ 0x28)
      × (e.attributes ≡ 2 ^ 7 + 0xe)
      × ((j : ℕ)
          → j ≢ gate
          → get_or (set_idt_gate entries gate gate_addr) j blank_entry
            ≡ get_or entries j blank_entry)
      × (length (set_idt_gate entries gate gate_addr) ≡ length entries)
unfolding set_idt_gate
set_idt_gate_lem entries gate gate_addr inside h = rw written (
  make_gate-handler gate_addr h,
  unfold make_gate in refl,
  unfold make_gate in refl,
  λ j ne. get_or-set_ne entries gate j (make_gate gate_addr) blank_entry (λ e. ne (sym e)),
  length-set entries gate (make_gate gate_addr),
)
  where
    written : get_or (set entries gate (make_gate gate_addr)) gate blank_entry ≡ make_gate gate_addr
    written = get_or-set_self entries gate (make_gate gate_addr) blank_entry inside
