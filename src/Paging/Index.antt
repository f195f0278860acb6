-- ===== src/Paging/Index.antt =====
-- The four table indices of a virtual address, in `virtualAddrToPTE` of kernel/paging/paging.cpp.
use optimist_os.Common.{ℕ, ◌+◌, ◌*◌, ◌/◌, ◌%◌, ◌^◌, ◌<◌, ◌≡◌, ◌∙◌, ap, ap₂, arith, bit_and}
use native.Mathlib.Nat.{mul-div_left, add-zero}
use optimist_os.Common.Bits.{bit_and-zero, bit_and_split, bit_and_low}

unfoldable pub pml4_entry : ℕ → ℕ
pml4_entry virtual_addr = bit_and virtual_addr (0x1ff * 2 ^ 39) / 2 ^ 39

unfoldable pub pml3_entry : ℕ → ℕ
pml3_entry virtual_addr = bit_and virtual_addr (0x1ff * 2 ^ 30) / 2 ^ 30

unfoldable pub pml2_entry : ℕ → ℕ
pml2_entry virtual_addr = bit_and virtual_addr (0x1ff * 2 ^ 21) / 2 ^ 21

unfoldable pub pml1_entry : ℕ → ℕ
pml1_entry virtual_addr = bit_and virtual_addr (0x1ff * 2 ^ 12) / 2 ^ 12

field-eq : (k v : ℕ) → 0 < 2 ^ k → bit_and v (0x1ff * 2 ^ k) / 2 ^ k ≡ v / 2 ^ k % 2 ^ 9
field-eq k v pos =
    ap (λ (t : ℕ). t / 2 ^ k)
      (ap₂ bit_and parts mask
        ∙ bit_and_split k (v / 2 ^ k) (v % 2 ^ k) 0x1ff 0 (omega arith) pos
        ∙ ap₂ (λ (a b : ℕ). a * 2 ^ k + b) (bit_and_low 9 (v / 2 ^ k)) (bit_and-zero (v % 2 ^ k)))
    ∙ quotient (v / 2 ^ k % 2 ^ 9)
  where
    parts : v ≡ v / 2 ^ k * 2 ^ k + v % 2 ^ k
    parts = grind arith

    mask : 0x1ff * 2 ^ k ≡ 0x1ff * 2 ^ k + 0
    mask = omega arith

    quotient : (q : ℕ) → (q * 2 ^ k + 0) / 2 ^ k ≡ q
    quotient q = rw (add-zero, mul-div_left q pos)

-- Each index is nine bits of the address, so it is below 512, and the four of them and the offset in
-- the page make up the low 48 bits of the address.
pub entries_lem :
    (v : ℕ)
    → (pml4_entry v < 512)
      × (pml3_entry v < 512)
      × (pml2_entry v < 512)
      × (pml1_entry v < 512)
      × (pml4_entry v * 2 ^ 39
            + pml3_entry v * 2 ^ 30
            + pml2_entry v * 2 ^ 21
            + pml1_entry v * 2 ^ 12
            + v % 2 ^ 12
          ≡ v % 2 ^ 48)
unfolding pml4_entry pml3_entry pml2_entry pml1_entry
entries_lem v = omega (
  arith,
  field-eq 39 v (omega arith),
  field-eq 30 v (omega arith),
  field-eq 21 v (omega arith),
  field-eq 12 v (omega arith),
)

pub pml4_entry-eq : (v : ℕ) → pml4_entry v ≡ v / 2 ^ 39 % 512
unfolding pml4_entry
pml4_entry-eq v = field-eq 39 v (omega arith)

pub pml3_entry-eq : (v : ℕ) → pml3_entry v ≡ v / 2 ^ 30 % 512
unfolding pml3_entry
pml3_entry-eq v = field-eq 30 v (omega arith)

pub pml2_entry-eq : (v : ℕ) → pml2_entry v ≡ v / 2 ^ 21 % 512
unfolding pml2_entry
pml2_entry-eq v = field-eq 21 v (omega arith)

pub pml1_entry-eq : (v : ℕ) → pml1_entry v ≡ v / 2 ^ 12 % 512
unfolding pml1_entry
pml1_entry-eq v = field-eq 12 v (omega arith)
