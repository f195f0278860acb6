-- ===== src/Frames/Round/Laws.antt =====
-- Rounding to a power of two, for pageFrameAllocator.cpp.
use optimist_os.Common.{
  ℕ, zero, suc, ◌+◌, ◌-◌, ◌*◌, ◌/◌, ◌%◌, ◌^◌, ◌≤◌, ◌<◌, ◌≡◌, refl, sym, ap, ap₂, ◌∙◌, subst, arith,
  bit_and, u64, sub64, not64,
}
use optimist_os.Common.Bits.{bit_and_split, bit_and_ones, bit_and-zero}
use native.Mathlib.Nat.{pow-suc, one-le-pow, mul-mod_left}
use optimist_os.Frames.Round.{page_size, round_up_to_page_boundary, round_down, round_up}

two-pow-add : (j k : ℕ) → 2 ^ (j + k) ≡ 2 ^ j * 2 ^ k
two-pow-add zero k = let e : 0 + k ≡ k = omega arith in rw e (omega arith)
two-pow-add (suc j) k =
    let e : suc j + k ≡ suc (j + k) = omega arith in
    rw e
      (omega (arith, pow-suc 2 (j + k), ap (λ (t : ℕ). t * 2 ^ k) (pow-suc 2 j), two-pow-add j k))

div-lt-pow : (j k n : ℕ) → n < 2 ^ j * 2 ^ k → n / 2 ^ k < 2 ^ j
div-lt-pow j k n h = grind (arith, one-le-pow k 2)

two-pow-64 : (j k : ℕ) → j + k ≡ 64 → 2 ^ j * 2 ^ k ≡ 2 ^ 64
two-pow-64 j k e = subst (λ t. 2 ^ j * 2 ^ k ≡ 2 ^ t) e (sym (two-pow-add j k))

pred-mul : (a b c : ℕ) → 1 ≤ a → 1 ≤ b → a * b ≡ c → c - 1 - (b - 1) ≡ (a - 1) * b + 0
pred-mul zero b c ha hb e = absurd (omega arith)
pred-mul (suc a) b c ha hb e = let down : suc a - 1 ≡ a = omega arith in rw down (omega arith)

-- `n & ~(2^k - 1)` clears the low `k` bits.
pub bit_and-not64_low :
    (j k n : ℕ) → j + k ≡ 64 → n < 2 ^ 64 → bit_and n (not64 (2 ^ k - 1)) ≡ n / 2 ^ k * 2 ^ k
bit_and-not64_low j k n e h =
    ap₂ bit_and parts ones
    ∙ bit_and_split k (n / 2 ^ k) (n % 2 ^ k) (2 ^ j - 1) 0 (omega (arith, one-le-pow k 2))
        (omega (arith, one-le-pow k 2))
    ∙ omega (
      arith,
      bit_and-zero (n % 2 ^ k),
      ap (λ (t : ℕ). t * 2 ^ k)
          (bit_and_ones j (n / 2 ^ k) (div-lt-pow j k n (rw (two-pow-64 j k e) h))),
    )
  where
    parts : n ≡ n / 2 ^ k * 2 ^ k + n % 2 ^ k
    parts = grind arith

    ones : not64 (2 ^ k - 1) ≡ (2 ^ j - 1) * 2 ^ k + 0
    ones =
        pred-mul (2 ^ j) (2 ^ k) (2 ^ 64) (one-le-pow j 2 (omega arith))
          (one-le-pow k 2 (omega arith)) (two-pow-64 j k e)

module _ (j k n : ℕ) (e : j + k ≡ 64) where
  two-pow-le : 2 ^ k ≤ 2 ^ 64
  two-pow-le = grind (arith, one-le-pow j 2, two-pow-64 j k e)

  mask : sub64 (2 ^ k) 1 ≡ 2 ^ k - 1
  mask = omega (arith, two-pow-le, one-le-pow k 2)

  round_down-eq : n < 2 ^ 64 → round_down n (2 ^ k) ≡ n / 2 ^ k * 2 ^ k
  unfolding round_down
  round_down-eq h = rw mask (bit_and-not64_low j k n e h)

  -- `roundDown` to a power of two gives the multiple of it that is next below the number.
  pub round_down_lem :
      n < 2 ^ 64
      → (round_down n (2 ^ k) % 2 ^ k ≡ 0)
        × (round_down n (2 ^ k) ≤ n)
        × (n < round_down n (2 ^ k) + 2 ^ k)
  round_down_lem h =
      rw (round_down-eq h)
        (mul-mod_left (n / 2 ^ k) (2 ^ k), grind arith, grind (arith, one-le-pow k 2))

  round_up-eq : n + 2 ^ k ≤ 2 ^ 64 → round_up n (2 ^ k) ≡ (n + 2 ^ k - 1) / 2 ^ k * 2 ^ k
  unfolding round_up
  round_up-eq h =
      let sum : sub64 (u64 (n + 2 ^ k)) 1 ≡ n + 2 ^ k - 1 = omega (arith, one-le-pow k 2) in
      rw (mask, sum) (bit_and-not64_low j k (n + 2 ^ k - 1) e (omega (arith, one-le-pow k 2)))

  -- `roundUp` to a power of two gives the multiple of it that is next above the number, when the sum
  -- of both fits 64 bits.
  pub round_up_lem :
      n + 2 ^ k ≤ 2 ^ 64
      → (round_up n (2 ^ k) % 2 ^ k ≡ 0)
        × (n ≤ round_up n (2 ^ k))
        × (round_up n (2 ^ k) < n + 2 ^ k)
  round_up_lem h = rw (round_up-eq h) (
    mul-mod_left ((n + 2 ^ k - 1) / 2 ^ k) (2 ^ k),
    grind (arith, one-le-pow k 2),
    grind (arith, one-le-pow k 2),
  )

-- `roundUpToPageBoundary` gives the least multiple of the page size that is not below the size,
-- when the sum of the size and a page fits 64 bits.
pub round_up_to_page_boundary_lem :
    (size : ℕ)
    → size + page_size ≤ 2 ^ 64
    → (round_up_to_page_boundary size % page_size ≡ 0)
      × (size ≤ round_up_to_page_boundary size)
      × (round_up_to_page_boundary size < size + page_size)
unfolding round_up_to_page_boundary
round_up_to_page_boundary_lem size h =
    ground (arith, bit_and-not64_low 52 12 (sub64 (u64 (size + page_size)) 1) refl)
