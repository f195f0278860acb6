-- ===== src/Heap/Round/Power.antt =====
-- `roundUpToNextPower2` of kernel/memory/malloc.cpp gives the next power of two.
use native.Mathlib.Nat.{
  pow-suc, one-le-pow, pow-le-pow_right, div-div-eq-div-mul, div-eq_of_lt, div-eq_of_lt-le,
}
use optimist_os.Common.{
  ℕ, zero, suc, ◌+◌, ◌-◌, ◌*◌, ◌/◌, ◌%◌, ◌^◌, ◌≤◌, ◌<◌, ◌≡◌, ◌⊎◌, inl, inr, ◌∙◌, sym, ap, ap₂,
  mod-eq_of_lt, mod-lt, arith, bit_or, u64, sub64, dec_le,
}
use optimist_os.Common.Bits.{bit_or_step, bit_or_split, bit_or-zero, bit_or-lt}
use optimist_os.Heap.Round.{smear, round_up_to_next_power2}

two-pow-add : (m n : ℕ) → 2 ^ (m + n) ≡ 2 ^ m * 2 ^ n
two-pow-add zero n = let e : 0 + n ≡ n = omega arith in rw e (omega arith)
two-pow-add (suc m) n =
    let e : suc m + n ≡ suc (m + n) = omega arith in
    rw e (grind (arith, pow-suc 2 (m + n), pow-suc 2 m, two-pow-add m n))

bit_or_ones : (k a : ℕ) → a < 2 ^ k → bit_or a (2 ^ k - 1) ≡ 2 ^ k - 1
bit_or_ones zero a h = let e : a ≡ 0 = omega arith in rw (e, bit_or-zero)
bit_or_ones (suc k) a h =
    ground
      (arith, bit_or_step a (2 ^ suc k - 1), pow-suc 2 k, one-le-pow k 2, bit_or_ones k (a / 2))

bit_or_parts :
    (k x y : ℕ)
    → bit_or x y ≡ bit_or (x / 2 ^ k) (y / 2 ^ k) * 2 ^ k + bit_or (x % 2 ^ k) (y % 2 ^ k)
bit_or_parts k x y =
    ap₂ bit_or (parts x) (parts y)
    ∙ bit_or_split k (x / 2 ^ k) (x % 2 ^ k) (y / 2 ^ k) (y % 2 ^ k) (below x) (below y)
  where
    parts : (n : ℕ) → n ≡ n / 2 ^ k * 2 ^ k + n % 2 ^ k
    parts n = grind arith

    below : (n : ℕ) → n % 2 ^ k < 2 ^ k
    below n = grind (arith, one-le-pow k 2)

bit_or-div : (k x y : ℕ) → bit_or x y / 2 ^ k ≡ bit_or (x / 2 ^ k) (y / 2 ^ k)
bit_or-div k x y =
    ap (λ (t : ℕ). t / 2 ^ k) (bit_or_parts k x y)
    ∙ div-eq_of_lt-le (2 ^ k) (omega arith) (grind (arith, low))
  where
    low : bit_or (x % 2 ^ k) (y % 2 ^ k) < 2 ^ k
    low =
        bit_or-lt k (x % 2 ^ k) (y % 2 ^ k) (grind (arith, one-le-pow k 2))
          (grind (arith, one-le-pow k 2))

-- The top `m` of `w` bits are ones, and there are no others, or all `w` bits are ones.
abbrev Ones : ℕ → ℕ → ℕ → Type 0
Ones m w x = ((p : ℕ) × (w ≡ m + p) × (x / 2 ^ p ≡ 2 ^ m - 1)) ⊎ ((w ≤ m) × (x ≡ 2 ^ w - 1))

two-pow-div : (x m p : ℕ) → x / 2 ^ m / 2 ^ p ≡ x / 2 ^ (m + p)
two-pow-div x m p =
    div-div-eq-div-mul x (2 ^ m) (2 ^ p) ∙ ap (λ (t : ℕ). x / t) (sym (two-pow-add m p))

two-pow-div_comm : (x m p : ℕ) → x / 2 ^ p / 2 ^ m ≡ x / 2 ^ (m + p)
two-pow-div_comm x m p = two-pow-div x p m ∙ ap (λ (t : ℕ). x / 2 ^ t) (omega arith)

ones-div : (m : ℕ) → (2 ^ m - 1) / 2 ^ m ≡ 0
ones-div m = div-eq_of_lt (omega (arith, one-le-pow m 2))

-- With the top half of `2 m` bits all ones, the lower half becomes so.
bit_or-shifted_ones : (m x : ℕ) → x / 2 ^ m ≡ 2 ^ m - 1 → bit_or x (2 ^ m - 1) ≡ 2 ^ (m + m) - 1
bit_or-shifted_ones m x h =
    bit_or_parts m x (2 ^ m - 1)
    ∙ ap₂ (λ (a b : ℕ). a * 2 ^ m + b) high low
    ∙ grind (arith, two-pow-add m m, one-le-pow m 2)
  where
    high : bit_or (x / 2 ^ m) ((2 ^ m - 1) / 2 ^ m) ≡ 2 ^ m - 1
    high = ap₂ bit_or h (ones-div m) ∙ bit_or-zero (2 ^ m - 1)

    low : bit_or (x % 2 ^ m) ((2 ^ m - 1) % 2 ^ m) ≡ 2 ^ m - 1
    low =
        ap (bit_or (x % 2 ^ m)) (mod-eq_of_lt (omega (arith, one-le-pow m 2)))
        ∙ bit_or_ones m (x % 2 ^ m) (mod-lt x (omega (arith, one-le-pow m 2)))

smear_more : (m p x : ℕ) → x / 2 ^ (m + p) ≡ 2 ^ m - 1 → smear m x / 2 ^ p ≡ 2 ^ (m + m) - 1
smear_more m p x h =
    bit_or-div p x (x / 2 ^ m)
    ∙ ap (bit_or (x / 2 ^ p)) (two-pow-div x m p ∙ h)
    ∙ bit_or-shifted_ones m (x / 2 ^ p) (two-pow-div_comm x m p ∙ h)

-- `2 ^ (n + q) - 1` without its last `q` digits.
ones-div_more : (n q : ℕ) → (2 ^ (n + q) - 1) / 2 ^ q ≡ 2 ^ n - 1
ones-div_more n q =
    div-eq_of_lt-le (2 ^ q) (grind (arith, two-pow-add n q, one-le-pow n 2, one-le-pow q 2))
      (grind (arith, two-pow-add n q, one-le-pow n 2, one-le-pow q 2))

smear_all : (m n x : ℕ) → n ≤ m → x / 2 ^ n ≡ 2 ^ m - 1 → smear m x ≡ 2 ^ (m + n) - 1
smear_all m n x le h =
    bit_or_parts n x (x / 2 ^ m)
    ∙ ap₂ (λ (a b : ℕ). a * 2 ^ n + b) high low
    ∙ grind (arith, two-pow-add m n, one-le-pow m 2, one-le-pow n 2)
  where
    above : x / 2 ^ m / 2 ^ n ≡ 0
    above =
        two-pow-div_comm x n m ∙ sym (two-pow-div x n m) ∙ ap (λ (t : ℕ). t / 2 ^ m) h ∙ ones-div m

    high : bit_or (x / 2 ^ n) (x / 2 ^ m / 2 ^ n) ≡ 2 ^ m - 1
    high = ap₂ bit_or h above ∙ bit_or-zero (2 ^ m - 1)

    split : n + (m - n) ≡ m
    split = omega arith

    shifted : x / 2 ^ m ≡ 2 ^ n - 1
    shifted =
        ap (λ (t : ℕ). x / 2 ^ t) (sym split)
        ∙ sym (two-pow-div x n (m - n))
        ∙ ap (λ (t : ℕ). t / 2 ^ (m - n)) (h ∙ ap (λ (t : ℕ). 2 ^ t - 1) (sym split))
        ∙ ones-div_more n (m - n)

    low : bit_or (x % 2 ^ n) (x / 2 ^ m % 2 ^ n) ≡ 2 ^ n - 1
    low =
        ap (bit_or (x % 2 ^ n))
          (ap (λ (t : ℕ). t % 2 ^ n) shifted ∙ mod-eq_of_lt (omega (arith, one-le-pow n 2)))
        ∙ bit_or_ones n (x % 2 ^ n) (mod-lt x (omega (arith, one-le-pow n 2)))

-- One step doubles the number of leading ones.
smear-Ones : (m w x : ℕ) → Ones m w x → Ones (m + m) w (smear m x)
smear-Ones m w x (inl (p, e, h)) = elim (dec_le m p) [
  | yes more ↦
      let split : m + (p - m) ≡ p = omega arith in
      inl (p - m, omega arith, smear_more m (p - m) x (rw split h))
  | no all ↦
      let same : w ≡ m + p = e in
      inr (omega arith, smear_all m p x (omega arith) h ∙ ap (λ (t : ℕ). 2 ^ t - 1) (sym same))
]
smear-Ones m w x (inr (le, h)) = inr (omega arith, ap (bit_or x) shifted ∙ bit_or-zero x ∙ h)
  where
    shifted : x / 2 ^ m ≡ 0
    shifted =
        div-eq_of_lt
          (rw h (omega (arith, one-le-pow w 2, pow-le-pow_right {n = 2} (omega arith) le)))

first-Ones : (w x : ℕ) → x < 2 ^ w → 2 ^ w ≤ 2 * x + 1 → Ones 1 w x
first-Ones zero x lt ge = inr (omega arith, omega arith)
first-Ones (suc w) x lt ge = inl (
  w,
  omega arith,
  div-eq_of_lt-le (2 ^ w) (omega (arith, pow-suc 2 w)) (omega (arith, pow-suc 2 w)),
)

all_smeared :
    (w x : ℕ) → Ones 1 w x → Ones 32 w (smear 16 (smear 8 (smear 4 (smear 2 (smear 1 x)))))
all_smeared w x h = smear-Ones 16 w (smear 8 (smear 4 (smear 2 (smear 1 x)))) (
    smear-Ones 8 w (smear 4 (smear 2 (smear 1 x)))
      (smear-Ones 4 w (smear 2 (smear 1 x)) (smear-Ones 2 w (smear 1 x) (smear-Ones 1 w x h))))

Ones-full : (w y : ℕ) → Ones 32 w y → w ≤ 32 → y ≡ 2 ^ w - 1
Ones-full w y (inl (p, e, h)) le =
    let none_left : p ≡ 0 = omega arith in
    let full : w ≡ 32 = omega arith in
    rw full (omega (arith, ap (λ (t : ℕ). y / 2 ^ t) (sym none_left) ∙ h))
Ones-full w y (inr (k, h)) le = h

-- For a size that is not 0 and at most 2 ^ 32, `roundUpToNextPower2` gives the least power of two that is
-- not below it: the power `2 ^ w` with `size ≤ 2 ^ w < 2 * size`.
pub round_up_to_next_power2_lem :
    (size w : ℕ) → size ≤ 2 ^ w → 2 ^ w < 2 * size → w ≤ 32 → round_up_to_next_power2 size ≡ 2 ^ w
unfolding round_up_to_next_power2
round_up_to_next_power2_lem size w le gt small =
    let bound : 2 ^ w ≤ 2 ^ 32 = pow-le-pow_right {n = 2} (omega arith) small in
    let start : sub64 size 1 ≡ size - 1 = omega arith in
    let full =
      Ones-full w _ (all_smeared w (size - 1) (first-Ones w (size - 1) (omega arith) (omega arith)))
        small in
    ap (λ (x : ℕ). u64 (smear 16 (smear 8 (smear 4 (smear 2 (smear 1 x)))) + 1)) start
    ∙ ap (λ (y : ℕ). u64 (y + 1)) full
    ∙ omega (arith, one-le-pow w 2)
