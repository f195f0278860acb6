-- ===== src/Apic/Laws.antt =====
-- What kernel/acpi/ioapic.cpp writes for an interrupt.
use optimist_os.Common.{
  ℕ, ◌+◌, ◌-◌, ◌*◌, ◌/◌, ◌%◌, ◌^◌, ◌≤◌, ◌<◌, ◌≡◌, ◌≢◌, ◌⊎◌, ◌∙◌, ap, ap₂, refl, eq→==, ne→==, true,
  false, ◌&&◌, leb, ltb, arith, bit_and, bit_or, Bool, List, [], ◌∷◌, ◌!=◌, if◌then◌else◌, u32, u64,
  sub32, not64,
}
use optimist_os.Common.Bits.{
  bit_or_split, bit_and_split, bit_or-zero, zero-bit_or, bit_and_low, bit_and-zero, zero-bit_and,
  bit_and_step,
}
use optimist_os.Apic.{
  IoApicInfo, MadtIso, io_apic_write, redirect_value, get_gsi_count, get_gsi, redirect_gsi,
  redirect_irq, get_redirect_irq,
}

-- The number and the flags of an interrupt: those of its first override, or its own number and no flags.
pub data Routes (irq : ℕ) : List MadtIso → ℕ → ℕ → Type 0 where
  own : Routes irq [] irq 0
  first :
      (iso : MadtIso) (isos : List MadtIso)
      → iso.irq_src ≡ irq
      → Routes irq (iso ∷ isos) iso.gsi iso.flags
  later :
      (iso : MadtIso) (isos : List MadtIso) (gsi flags : ℕ)
      → iso.irq_src ≢ irq
      → Routes irq isos gsi flags
      → Routes irq (iso ∷ isos) gsi flags

-- The device of a number: the first whose inputs, as many as bits 16 to 23 of its register 1 say, include
-- it, or what stands behind `nullptr`.
pub data Serves (registers : IoApicInfo → ℕ → ℕ) (at_null : IoApicInfo) (gsi : ℕ)
    : List IoApicInfo → IoApicInfo → Type 0 where
  nobody : Serves registers at_null gsi [] at_null
  found :
      (a : IoApicInfo) (rest : List IoApicInfo)
      → a.gsi_base ≤ gsi
      → gsi < a.gsi_base + registers a 1 / 2 ^ 16 % 2 ^ 8
      → Serves registers at_null gsi (a ∷ rest) a
  passed :
      (a b : IoApicInfo) (rest : List IoApicInfo)
      → (gsi < a.gsi_base) ⊎ (a.gsi_base + registers a 1 / 2 ^ 16 % 2 ^ 8 ≤ gsi)
      → Serves registers at_null gsi rest b
      → Serves registers at_null gsi (a ∷ rest) b

-- The bases are numbers of 32 bits.
abbrev pub AreWords : List IoApicInfo → Type 0
AreWords [] = Unit
AreWords (a ∷ rest) = (a.gsi_base < 2 ^ 32) × AreWords rest

redirect_irq-Routes :
    (registers : IoApicInfo → ℕ → ℕ) (at_null : IoApicInfo) (ioapics : List IoApicInfo)
    (lapic_id vec : ℕ) (mask : Bool) {irq : ℕ} {isos : List MadtIso} {gsi flags : ℕ}
    → Routes irq isos gsi flags
    → redirect_irq registers at_null ioapics isos lapic_id vec irq mask
      ≡ redirect_gsi registers at_null ioapics lapic_id vec gsi flags mask
unfolding redirect_irq
redirect_irq-Routes registers at_null ioapics lapic_id vec mask own = refl
redirect_irq-Routes registers at_null ioapics lapic_id vec mask {irq = irq} (first iso isos e) =
    rw (eq→== iso.irq_src irq e) refl
redirect_irq-Routes registers at_null ioapics lapic_id vec mask {irq = irq}
      (later iso isos gsi flags ne r) =
    rw (ne→== iso.irq_src irq ne)
      (redirect_irq-Routes registers at_null ioapics lapic_id vec mask r)

get_redirect_irq-Routes :
    {irq : ℕ} {isos : List MadtIso} {gsi flags : ℕ}
    → Routes irq isos gsi flags
    → get_redirect_irq isos irq ≡ gsi
unfolding get_redirect_irq
get_redirect_irq-Routes own = refl
get_redirect_irq-Routes {irq = irq} (first iso isos e) = rw (eq→== iso.irq_src irq e) refl
get_redirect_irq-Routes {irq = irq} (later iso isos gsi flags ne r) =
    rw (ne→== iso.irq_src irq ne) (get_redirect_irq-Routes r)

count_field : (x : ℕ) → bit_and x 0xff0000 / 2 ^ 16 ≡ x / 2 ^ 16 % 2 ^ 8
count_field x =
    let left : x ≡ x / 2 ^ 16 * 2 ^ 16 + x % 2 ^ 16 = omega arith in
    let parts : bit_and x 0xff0000
        ≡ bit_and (x / 2 ^ 16) (2 ^ 8 - 1) * 2 ^ 16 + bit_and (x % 2 ^ 16) 0 =
      ap (λ y. bit_and y 0xff0000) left
      ∙ bit_and_split 16 (x / 2 ^ 16) (x % 2 ^ 16) (2 ^ 8 - 1) 0 (omega arith) (omega arith) in
    omega (arith, parts, bit_and-zero (x % 2 ^ 16), bit_and_low 8 (x / 2 ^ 16))

get_gsi-Serves :
    {registers : IoApicInfo → ℕ → ℕ} {at_null : IoApicInfo} {gsi : ℕ} {a : IoApicInfo}
    {ioapics : List IoApicInfo}
    → AreWords ioapics
    → Serves registers at_null gsi ioapics a
    → get_gsi registers at_null ioapics gsi ≡ a
unfolding get_gsi get_gsi_count
get_gsi-Serves words nobody = refl
get_gsi-Serves {registers} {gsi = gsi} words (found a rest lo hi) =
    let (word, more) = words in
    let inside : (leb a.gsi_base gsi
          && ltb gsi (u64 (a.gsi_base + bit_and (registers a 1) 0xff0000 / 2 ^ 16)))
        ≡ true =
      ground (arith, count_field (registers a 1)) in
    rw inside refl
get_gsi-Serves {registers} {gsi = gsi} words (passed a b rest out s) =
    let (word, more) = words in
    let outside : (leb a.gsi_base gsi
          && ltb gsi (u64 (a.gsi_base + bit_and (registers a 1) 0xff0000 / 2 ^ 16)))
        ≡ false =
      ground (arith, count_field (registers a 1)) in
    rw outside (get_gsi-Serves more s)

-- A field above all bits of the number is added to it.
bit_or_above : (k x c : ℕ) → x < 2 ^ k → bit_or x (c * 2 ^ k) ≡ x + c * 2 ^ k
bit_or_above k x c h = ap₂ bit_or left right ∙ bit_or_split k 0 x c 0 h (omega (arith, h)) ∙ sum
  where
    left : x ≡ 0 * 2 ^ k + x
    left = omega arith

    right : c * 2 ^ k ≡ c * 2 ^ k + 0
    right = omega arith

    sum : bit_or 0 c * 2 ^ k + bit_or x 0 ≡ x + c * 2 ^ k
    sum = rw (zero-bit_or c, bit_or-zero x) (omega arith)

-- A bit above all bits of the number is clear already.
clear_above : (x : ℕ) → x < 2 ^ 16 → bit_and x (not64 (2 ^ 16)) ≡ x
clear_above x h =
    ap₂ bit_and left right
    ∙ bit_and_split 16 0 x (2 ^ 48 - 2) (2 ^ 16 - 1) h (omega arith)
    ∙ rw (zero-bit_and (2 ^ 48 - 2), bit_and_low 16 x) (omega arith)
  where
    left : x ≡ 0 * 2 ^ 16 + x
    left = omega arith

    right : not64 (2 ^ 16) ≡ (2 ^ 48 - 2) * 2 ^ 16 + (2 ^ 16 - 1)
    right = omega arith

bit_1 : (flags : ℕ) → bit_and flags (2 ^ 1) ≡ flags / 2 ^ 1 % 2 * 2
bit_1 flags =
    omega (arith, bit_and_step flags 2, bit_and_step (flags / 2) 1, bit_and-zero (flags / 2 / 2))

bit_3 : (flags : ℕ) → bit_and flags (2 ^ 3) ≡ flags / 2 ^ 3 % 2 * 8
bit_3 flags = omega (arith, bit_and_step flags 8, bit_and_step (flags / 2) 4, bit_1 (flags / 2 / 2))

-- The steps of `redirectGSI` on the value, with each field as a number.
polarity_lem :
    (vec flags : ℕ)
    → vec < 2 ^ 8
    → (if bit_and flags (2 ^ 1) != 0 then bit_or vec (2 ^ 13) else vec)
      ≡ vec + flags / 2 ^ 1 % 2 * 2 ^ 13
polarity_lem vec flags h = ground (arith, bit_1 flags, bit_or_above 13 vec 1 (omega arith))

trigger_lem :
    (x flags : ℕ)
    → x < 2 ^ 15
    → (if bit_and flags (2 ^ 3) != 0 then bit_or x (2 ^ 15) else x) ≡ x + flags / 2 ^ 3 % 2 * 2 ^ 15
trigger_lem x flags h = ground (arith, bit_3 flags, bit_or_above 15 x 1 h)

mask_lem :
    (x : ℕ) (mask : Bool)
    → x < 2 ^ 16
    → (if mask then bit_or x (2 ^ 16) else bit_and x (not64 (2 ^ 16)))
      ≡ x + (if mask then 1 else 0) * 2 ^ 16
mask_lem x mask h = ground (arith, clear_above x h, bit_or_above 16 x 1 h)

destination_lem :
    (x lapic_id : ℕ)
    → x < 2 ^ 56
    → bit_or x (u64 (lapic_id * 2 ^ 56)) ≡ x + lapic_id % 2 ^ 8 * 2 ^ 56
destination_lem x lapic_id h =
    let e : u64 (lapic_id * 2 ^ 56) ≡ lapic_id % 2 ^ 8 * 2 ^ 56 = omega arith in
    rw e (bit_or_above 56 x (lapic_id % 2 ^ 8) h)

-- For a vector of eight bits, the value of a redirection entry is the vector, the polarity in bit
-- 13 and the trigger mode in bit 15, from bits 1 and 3 of the flags, the mask in bit 16, and the
-- low byte of the local APIC's identifier as the destination.
pub redirect_value_lem :
    (lapic_id vec flags : ℕ) (mask : Bool)
    → vec < 2 ^ 8
    → redirect_value lapic_id vec flags mask
      ≡ vec
        + flags / 2 ^ 1 % 2 * 2 ^ 13
        + flags / 2 ^ 3 % 2 * 2 ^ 15
        + (if mask then 1 else 0) * 2 ^ 16
        + lapic_id % 2 ^ 8 * 2 ^ 56
unfolding redirect_value
redirect_value_lem lapic_id vec flags mask h =
    let p = vec + flags / 2 ^ 1 % 2 * 2 ^ 13 in
    let q = p + flags / 2 ^ 3 % 2 * 2 ^ 15 in
    let r = q + (if mask then 1 else 0) * 2 ^ 16 in
    rw
      (
        polarity_lem vec flags h,
        trigger_lem p flags (omega arith),
        mask_lem q mask (omega arith),
        destination_lem r lapic_id (ground arith),
      )
      refl

-- For an interrupt with its number and flags, of the first override of it or its own with no flags, and with
-- the first device that serves that number, or what stands behind `nullptr`, `getRedirectIRQ` gives the number, and `redirectIRQ` makes four stores. At
-- the device's address it selects, and 0x10 behind it it writes, the two registers of the entry of the number,
-- which are counted from the base of the device, 16 for the first one. The low register gets the vector of
-- eight bits, the polarity in bit 13 and the trigger mode in bit 15, from bits 1 and 3 of the flags, and the
-- mask in bit 16; the high one gets the low byte of the local APIC's identifier in bits 24 to 31. The bases of
-- the devices must be numbers of 32 bits.
pub redirect_irq_lem :
    {registers : IoApicInfo → ℕ → ℕ} {at_null a : IoApicInfo} {ioapics : List IoApicInfo}
    {isos : List MadtIso} {irq gsi flags : ℕ} (lapic_id vec : ℕ) (mask : Bool)
    → Routes irq isos gsi flags
    → Serves registers at_null gsi ioapics a
    → AreWords ioapics
    → vec < 2 ^ 8
    → let reg = (16 + 2 * (gsi + 2 ^ 32 - a.gsi_base)) % 2 ^ 32 in
      (get_redirect_irq isos irq ≡ gsi)
      × (redirect_irq registers at_null ioapics isos lapic_id vec irq mask
          ≡ (a.apic_addr % 2 ^ 32, reg)
            ∷ (
              (a.apic_addr + 0x10) % 2 ^ 32,
              vec
                  + flags / 2 ^ 1 % 2 * 2 ^ 13
                  + flags / 2 ^ 3 % 2 * 2 ^ 15
                  + (if mask then 1 else 0) * 2 ^ 16,
            )
            ∷ (a.apic_addr % 2 ^ 32, (reg + 1) % 2 ^ 32)
            ∷ ((a.apic_addr + 0x10) % 2 ^ 32, lapic_id % 2 ^ 8 * 2 ^ 24)
            ∷ [])
unfolding redirect_gsi io_apic_write
redirect_irq_lem {registers} {at_null} {a} {ioapics} {isos} {irq} {gsi} {flags} lapic_id vec mask
      routes serves words small =
    let base : ℕ = a.gsi_base in
    let value : ℕ =
      vec
      + flags / 2 ^ 1 % 2 * 2 ^ 13
      + flags / 2 ^ 3 % 2 * 2 ^ 15
      + (if mask then 1 else 0) * 2 ^ 16
      + lapic_id % 2 ^ 8 * 2 ^ 56 in
    let select : u32 (a.apic_addr + 0) ≡ a.apic_addr % 2 ^ 32 = omega arith in
    let reg : u32 (u32 (sub32 gsi base * 2 + 16)) ≡ (16 + 2 * (gsi + 2 ^ 32 - base)) % 2 ^ 32 =
      omega arith in
    let next : u32 (u32 (u32 (sub32 gsi base * 2 + 16) + 1))
        ≡ ((16 + 2 * (gsi + 2 ^ 32 - base)) % 2 ^ 32 + 1) % 2 ^ 32 =
      omega arith in
    let low : u32 (u32 value)
        ≡ vec
          + flags / 2 ^ 1 % 2 * 2 ^ 13
          + flags / 2 ^ 3 % 2 * 2 ^ 15
          + (if mask then 1 else 0) * 2 ^ 16 =
      ground arith in
    let high : u32 (u32 (value / 2 ^ 32)) ≡ lapic_id % 2 ^ 8 * 2 ^ 24 = ground arith in
    (
      get_redirect_irq-Routes routes,
      redirect_irq-Routes registers at_null ioapics lapic_id vec mask routes
          ∙ rw (get_gsi-Serves words serves, redirect_value_lem lapic_id vec flags mask small)
              (λ i.
                (select i, reg i)
                ∷ (u32 (a.apic_addr + 0x10), low i)
                ∷ (select i, next i)
                ∷ (u32 (a.apic_addr + 0x10), high i)
                ∷ []),
    )
