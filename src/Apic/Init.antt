-- ===== src/Apic/Init.antt =====
-- What the device of kernel/acpi/ioapic.cpp holds behind `initIOAPIC`.
use optimist_os.Common.{
  ℕ, zero, suc, ◌+◌, ◌*◌, ◌/◌, ◌%◌, ◌^◌, ◌≤◌, ◌<◌, ◌≡◌, ◌≢◌, ◌∙◌, refl, arith, ap, bit_and, bit_or,
  true, false, none, some, List, [], ◌∷◌, ◌++◌, ◌==◌, if◌then◌else◌, u32, ℕ_discrete, eq→==, ne→==,
  ne→!=,
}
use optimist_os.Common.Bits.{bit_and_low, bit_or_split, zero-bit_or}
use optimist_os.Apic.{
  IoApicInfo, Store, io_apic_regsel, io_apic_iowin, io_apic_ver, io_apic_write, mask_loop,
  init_io_apic,
}

-- A device, from its documentation: the register that is selected, and what the registers hold.
pub record Device : Type 0 where
  pub selected : ℕ
  pub held : ℕ → ℕ

-- A store to its first word selects a register, one to the word at 0x10 writes the selected register.
unfoldable pub store : ℕ → Store → Device → Device
store base (address, value) d =
    if address == u32 (base + io_apic_regsel)
    then record d { selected = value }
    else if address == u32 (base + io_apic_iowin)
    then record d { held = λ x. if x == d.selected then value else d.held x }
    else d

unfoldable pub stores : ℕ → List Store → Device → Device
stores base [] d = d
stores base (s ∷ rest) d = stores base rest (store base s d)

stores-append :
    (base : ℕ) (l k : List Store) (d : Device)
    → stores base (l ++ k) d ≡ stores base k (stores base l d)
unfolding stores
stores-append base [] k d = refl
stores-append base (s ∷ l) k d = stores-append base l k (store base s d)

-- The device with one register written.
abbrev pub set_register : ℕ → ℕ → Device → Device
set_register reg value d = record {
  selected = reg;
  held = λ x. if x == reg then value else d.held x;
}

io_apic_write-stores :
    (a : IoApicInfo) (reg value : ℕ) (d : Device)
    → reg < 2 ^ 32
    → value < 2 ^ 32
    → stores a.apic_addr (io_apic_write a reg value) d ≡ set_register reg value d
unfolding stores store io_apic_write
io_apic_write-stores a reg value d hr hv =
    let apart : (u32 (a.apic_addr + io_apic_iowin) == u32 (a.apic_addr + io_apic_regsel)) ≡ false =
      ne→== _ _ (λ e. omega arith) in
    let r : u32 reg ≡ reg = omega arith in
    let v : u32 value ≡ value = omega arith in
    let first : (u32 (a.apic_addr + io_apic_regsel) == u32 (a.apic_addr + io_apic_regsel)) ≡ true =
      eq→== _ _ refl in
    let second : (u32 (a.apic_addr + io_apic_iowin) == u32 (a.apic_addr + io_apic_iowin)) ≡ true =
      eq→== _ _ refl in
    rw (first, apart, second, r, v) refl

masked : (i : ℕ) → 32 + i < 2 ^ 16 → bit_or 0x00010000 (32 + i) ≡ 2 ^ 16 + (32 + i)
masked i h =
    let right : 32 + i ≡ 0 * 2 ^ 16 + (32 + i) = omega arith in
    ap (λ (x : ℕ). bit_or (1 * 2 ^ 16 + 0) x) right
    ∙ bit_or_split 16 1 0 0 (32 + i) (omega arith) h
    ∙ rw (zero-bit_or (32 + i)) (omega arith)

-- One round of the loop.
masked_entry : ℕ → Device → Device
masked_entry i d =
    set_register (0x10 + 2 * i + 1) 0 (set_register (0x10 + 2 * i) (2 ^ 16 + (32 + i)) d)

mask_loop-stores :
    (a : IoApicInfo) (left i : ℕ) (d : Device)
    → i < 256
    → stores a.apic_addr (mask_loop a (suc left) i) d
      ≡ stores a.apic_addr (mask_loop a left (i + 1)) (masked_entry i d)
unfolding mask_loop masked_entry
mask_loop-stores a left i d h =
    let reg : ℕ = 0x10 + 2 * i in
    let value : ℕ = bit_or 0x00010000 (32 + i) in
    let e : value ≡ 2 ^ 16 + (32 + i) = masked i (omega arith) in
    stores-append a.apic_addr (io_apic_write a reg value)
      (io_apic_write a (reg + 1) 0 ++ mask_loop a left (i + 1)) d
    ∙ stores-append a.apic_addr (io_apic_write a (reg + 1) 0) (mask_loop a left (i + 1)) _
    ∙ rw
        (
          io_apic_write-stores a reg value d (omega arith) (omega (arith, e)),
          io_apic_write-stores a (reg + 1) 0 (set_register reg value d) (omega arith) (omega arith),
          e,
        )
        refl

mask_loop-held :
    (a : IoApicInfo) (left i : ℕ) (d : Device)
    → i + left ≤ 256
    → ((n : ℕ)
        → i ≤ n
        → n < i + left
        → ((stores a.apic_addr (mask_loop a left i) d).held (0x10 + 2 * n) ≡ 2 ^ 16 + (32 + n))
          × ((stores a.apic_addr (mask_loop a left i) d).held (0x10 + 2 * n + 1) ≡ 0))
      × ((reg : ℕ)
          → reg < 0x10 + 2 * i
          → (stores a.apic_addr (mask_loop a left i) d).held reg ≡ d.held reg)
mask_loop-held a zero i d h =
    unfold mask_loop stores in (λ n lo hi. absurd (omega arith), λ reg lt. refl)
mask_loop-held a (suc left) i d h =
    let (later, before) = mask_loop-held a left (i + 1) (masked_entry i d) (omega arith) in
    rw (mask_loop-stores a left i d (omega arith)) (
      λ n lo hi. elim (ℕ_discrete n i) [
        | yes e ↦ rw e (
          before (0x10 + 2 * i) (omega arith) ∙ (unfold masked_entry in ground arith),
          before (0x10 + 2 * i + 1) (omega arith) ∙ (unfold masked_entry in ground arith),
        )
        | no ne ↦ later n (omega arith) (omega arith)
      ],
      λ reg lt. before reg (omega arith) ∙ (unfold masked_entry in ground arith),
    )

-- On a device whose identifier is the table's, with `count + 1` entries, `initIOAPIC` leaves every entry
-- masked, with the vector 32 and up in their order and no destination, and changes no register below the
-- entries; on any other device it halts.
pub init_io_apic_lem :
    (registers : IoApicInfo → ℕ → ℕ) (a : IoApicInfo) (d : Device)
    → let count = registers a io_apic_ver / 2 ^ 16 % 2 ^ 8 in
      (registers a 0 / 2 ^ 24 ≢ a.apic_id → init_io_apic registers a ≡ none)
      × (registers a 0 / 2 ^ 24 ≡ a.apic_id
          → (l : List Store) × (init_io_apic registers a ≡ some l)
            × ((n : ℕ)
                → n ≤ count
                → ((stores a.apic_addr l d).held (0x10 + 2 * n) ≡ 2 ^ 16 + (32 + n))
                  × ((stores a.apic_addr l d).held (0x10 + 2 * n + 1) ≡ 0))
            × ((reg : ℕ) → reg < 0x10 → (stores a.apic_addr l d).held reg ≡ d.held reg))
unfolding init_io_apic
init_io_apic_lem registers a d =
    let low : bit_and (registers a io_apic_ver / 2 ^ 16) 0xff
        ≡ registers a io_apic_ver / 2 ^ 16 % 2 ^ 8 =
      bit_and_low 8 (registers a io_apic_ver / 2 ^ 16) in
    let count : ℕ = registers a io_apic_ver / 2 ^ 16 % 2 ^ 8 in
    let (entries, others) = mask_loop-held a (count + 1) 0 d (omega arith) in
    (
      λ ne. rw (ne→!= (registers a 0 / 2 ^ 24) a.apic_id ne) refl,
      λ e. (
        mask_loop a (count + 1) 0,
        rw (e, low) (ground arith),
        λ n le. entries n (omega arith) (omega arith),
        λ reg lt. others reg (omega arith),
      ),
    )
