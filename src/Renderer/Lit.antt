-- ===== src/Renderer/Lit.antt =====
-- The bits of a line of a glyph, in `PutChar` of kernel/renderer/BasicRenderer.cpp.
use native.Mathlib.Nat.{one-le-pow, div-add-mod}
use optimist_os.Common.{
  ℕ, zero, suc, ◌+◌, ◌-◌, ◌*◌, ◌/◌, ◌%◌, ◌^◌, ◌≤◌, ◌<◌, ◌≡◌, ◌∙◌, refl, arith, ap, bit_and, mod-lt,
  add-zero, ltb, ◌==◌, true, all_below, all_below_sound,
}
use optimist_os.Common.Bits.{bit_and_split, bit_and_low, bit_and-zero}
use optimist_os.Renderer.{is_lit}

mask_power : (column : ℕ) → column < 8 → 0b10000000 / 2 ^ column ≡ 1 * 2 ^ (7 - column) + 0
mask_power column h =
    let table : all_below 8 (λ c. 0b10000000 / 2 ^ c == 1 * 2 ^ (7 - c) + 0) ≡ true = refl in
    let hit : (0b10000000 / 2 ^ column == 1 * 2 ^ (7 - column) + 0) ≡ true =
      all_below_sound 8 (λ c. 0b10000000 / 2 ^ c == 1 * 2 ^ (7 - c) + 0) column table h in
    ground arith

positive_bit : (b n : ℕ) → b < 2 → 1 ≤ n → ltb 0 (b * n) ≡ (b == 1)
positive_bit zero n h pos = ground arith
positive_bit (suc zero) n h pos = ground arith
positive_bit (suc (suc b)) n h pos = absurd (omega arith)

-- The bits of a line stand from the left, the highest first.
pub is_lit_lem :
    (row column : ℕ) → column < 8 → is_lit row column ≡ (row / 2 ^ (7 - column) % 2 == 1)
unfolding is_lit
is_lit_lem row column h =
    let w : ℕ = 7 - column in
    let pos : 1 ≤ 2 ^ w = one-le-pow w 2 (omega arith) in
    let q : ℕ = row / 2 ^ w in
    let parts : row ≡ q * 2 ^ w + row % 2 ^ w = omega (arith, div-add-mod row (2 ^ w)) in
    let masked : bit_and row (1 * 2 ^ w + 0) ≡ q % 2 * 2 ^ w =
      ap (λ (x : ℕ). bit_and x (1 * 2 ^ w + 0)) parts
      ∙ bit_and_split w q (row % 2 ^ w) 1 0 (mod-lt row pos) pos
      ∙ rw (bit_and_low 1 q, bit_and-zero (row % 2 ^ w)) (add-zero (q % 2 * 2 ^ w)) in
    rw (mask_power column h, masked) (positive_bit (q % 2) (2 ^ w) (omega arith) pos)
