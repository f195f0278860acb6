-- ===== src/Common/Bits.antt =====
-- Laws of `&`, `|` and `^` at every width, from the digit recursion that the native operations mean.
use Prim.Native.Nat.{
  ℕ, zero, suc, ◌+◌, ◌-◌, ◌*◌, ◌/◌, ◌%◌, ◌^◌, ◌≤◌, ◌<◌, min, max, bit_and, bit_or, digits, bitwise,
  bit_and-bitwise, bit_or-bitwise,
}
use mathlib.Core.Path.{◌≡◌, refl, ◌∙◌}
use native.Mathlib.Nat.{pow-suc, one-le-pow, le_refl}
use native.Mathlib.Omega.{arith}
unfoldable use native.Mathlib.Decide.{ℕ_discrete}

-- Rounds that are more than the first number change nothing.
module _ (rest : ℕ → ℕ) (digit : ℕ → ℕ → ℕ) where
  one_round_more : (n x y : ℕ) → x ≤ n → digits rest digit (suc n) x y ≡ digits rest digit n x y
  one_round_more zero zero y h = refl
  one_round_more zero (suc x) y h = absurd (omega arith)
  one_round_more (suc n) zero y h = refl
  one_round_more (suc n) (suc x) y h = rw (one_round_more n (suc x / 2) (y / 2) (omega arith)) refl

  rounds_more : (m n x y : ℕ) → x ≤ n → n ≤ m → digits rest digit m x y ≡ digits rest digit n x y
  rounds_more zero zero x y h le = refl
  rounds_more zero (suc n) x y h le = absurd (omega arith)
  rounds_more (suc m) n x y h le = elim (ℕ_discrete (suc m) n) [
    | yes same ↦ rw same refl
    | no more ↦ one_round_more m x y (omega arith) ∙ rounds_more m n x y h (omega arith)
  ]

  lowest_digit :
      (x y : ℕ)
      → 0 < x
      → bitwise rest digit x y ≡ digit (x % 2) (y % 2) + 2 * bitwise rest digit (x / 2) (y / 2)
  lowest_digit zero y h = absurd (omega arith)
  lowest_digit (suc x) y h =
      omega (arith, rounds_more x (suc x / 2) (suc x / 2) (y / 2) (le_refl _) (omega arith))

pub bit_or_step : (x y : ℕ) → bit_or x y ≡ max (x % 2) (y % 2) + 2 * bit_or (x / 2) (y / 2)
bit_or_step zero y = simp bit_or-bitwise (omega arith)
bit_or_step (suc x) y = simp bit_or-bitwise (lowest_digit (λ r. r) max (suc x) y (omega arith))

pub bit_and_step : (x y : ℕ) → bit_and x y ≡ min (x % 2) (y % 2) + 2 * bit_and (x / 2) (y / 2)
bit_and_step zero y = simp bit_and-bitwise (omega arith)
bit_and_step (suc x) y = simp bit_and-bitwise (lowest_digit (λ r. 0) min (suc x) y (omega arith))

pub zero-bit_and : (b : ℕ) → bit_and 0 b ≡ 0
zero-bit_and b = bit_and-bitwise 0 b

pub zero-bit_or : (b : ℕ) → bit_or 0 b ≡ b
zero-bit_or b = bit_or-bitwise 0 b

-- Halving both arguments, by strong induction on a bound of the first.
bit_and-zero_fuel : (bound x : ℕ) → x ≤ bound → bit_and x 0 ≡ 0
bit_and-zero_fuel bound zero le = zero-bit_and 0
bit_and-zero_fuel zero (suc x) le = absurd (omega arith)
bit_and-zero_fuel (suc bound) (suc x) le =
    let half : bit_and (suc x / 2) 0 ≡ 0 = bit_and-zero_fuel bound (suc x / 2) (omega arith) in
    omega (arith, half, bit_and_step (suc x) 0)

pub bit_and-zero : (a : ℕ) → bit_and a 0 ≡ 0
bit_and-zero a = bit_and-zero_fuel a a (le_refl a)

bit_or-zero_fuel : (n a : ℕ) → a ≤ n → bit_or a 0 ≡ a
bit_or-zero_fuel n zero h = zero-bit_or 0
bit_or-zero_fuel zero (suc a) h = absurd (omega arith)
bit_or-zero_fuel (suc n) (suc a) h =
    omega (arith, bit_or_step (suc a) 0, bit_or-zero_fuel n (suc a / 2) (omega arith))

pub bit_or-zero : (a : ℕ) → bit_or a 0 ≡ a
bit_or-zero a = bit_or-zero_fuel a a (le_refl a)

mul-two-pow-suc : (a k : ℕ) → a * 2 ^ suc k ≡ 2 * (a * 2 ^ k)
mul-two-pow-suc a k =
    let power : 2 ^ suc k ≡ 2 * 2 ^ k = omega (arith, pow-suc 2 k) in rw power (grind arith)

-- Both operations act on the digits below `k` and on those from `k` on apart from one another.
pub bit_and_split :
    (k a b c d : ℕ)
    → b < 2 ^ k
    → d < 2 ^ k
    → bit_and (a * 2 ^ k + b) (c * 2 ^ k + d) ≡ bit_and a c * 2 ^ k + bit_and b d
bit_and_split zero a b c d hb hd =
    let eb : b ≡ 0 = omega arith in
    let ed : d ≡ 0 = omega arith in
    let ea : a * 1 + 0 ≡ a = omega arith in
    let ec : c * 1 + 0 ≡ c = omega arith in rw (eb, ed, ea, ec, zero-bit_and) (omega arith)
bit_and_split (suc k) a b c d hb hd = ground (
  arith,
  bit_and_step (a * 2 ^ suc k + b) (c * 2 ^ suc k + d),
  bit_and_step b d,
  mul-two-pow-suc a k,
  mul-two-pow-suc c k,
  mul-two-pow-suc (bit_and a c) k,
  pow-suc 2 k,
  bit_and_split k a (b / 2) c (d / 2),
)

pub bit_or_split :
    (k a b c d : ℕ)
    → b < 2 ^ k
    → d < 2 ^ k
    → bit_or (a * 2 ^ k + b) (c * 2 ^ k + d) ≡ bit_or a c * 2 ^ k + bit_or b d
bit_or_split zero a b c d hb hd =
    let eb : b ≡ 0 = omega arith in
    let ed : d ≡ 0 = omega arith in
    let ea : a * 1 + 0 ≡ a = omega arith in
    let ec : c * 1 + 0 ≡ c = omega arith in rw (eb, ed, ea, ec, zero-bit_or) (omega arith)
bit_or_split (suc k) a b c d hb hd = ground (
  arith,
  bit_or_step (a * 2 ^ suc k + b) (c * 2 ^ suc k + d),
  bit_or_step b d,
  mul-two-pow-suc a k,
  mul-two-pow-suc c k,
  mul-two-pow-suc (bit_or a c) k,
  pow-suc 2 k,
  bit_or_split k a (b / 2) c (d / 2),
)

-- A mask of `k` low ones is the remainder by `2 ^ k`.
pub bit_and_ones : (k a : ℕ) → a < 2 ^ k → bit_and a (2 ^ k - 1) ≡ a
bit_and_ones zero a h = let e : a ≡ 0 = omega arith in rw (e, bit_and-zero)
bit_and_ones (suc k) a h =
    ground
      (arith, bit_and_step a (2 ^ suc k - 1), pow-suc 2 k, one-le-pow k 2, bit_and_ones k (a / 2))

pub bit_and_low : (k a : ℕ) → bit_and a (2 ^ k - 1) ≡ a % 2 ^ k
bit_and_low k a = ground (
  arith,
  one-le-pow k 2,
  bit_and_split k (a / 2 ^ k) (a % 2 ^ k) 0 (2 ^ k - 1),
  bit_and-zero (a / 2 ^ k),
  bit_and_ones k (a % 2 ^ k),
)

-- Clearing the bits of `f` and then setting them is setting them.
pub clear-set :
    (k a f : ℕ) → a < 2 ^ k → f < 2 ^ k → bit_or (bit_and a (2 ^ k - 1 - f)) f ≡ bit_or a f
clear-set zero a f ha hf =
    let ea : a ≡ 0 = omega arith in let ef : f ≡ 0 = omega arith in rw (ea, ef)
clear-set (suc k) a f ha hf = ground (
  arith,
  bit_or_step (bit_and a (2 ^ suc k - 1 - f)) f,
  bit_and_step a (2 ^ suc k - 1 - f),
  bit_or_step a f,
  pow-suc 2 k,
  one-le-pow k 2,
  clear-set k (a / 2) (f / 2),
)

-- Bits that are set read back.
pub set-get : (k a f : ℕ) → f < 2 ^ k → bit_and (bit_or a f) f ≡ f
set-get zero a f hf = let ef : f ≡ 0 = omega arith in rw (ef, bit_and-zero)
set-get (suc k) a f hf =
    ground
      (arith, bit_and_step (bit_or a f) f, bit_or_step a f, pow-suc 2 k, set-get k (a / 2) (f / 2))

-- Bits that are cleared read back as zero.
pub clear-get : (k a f : ℕ) → f < 2 ^ k → bit_and (bit_and a (2 ^ k - 1 - f)) f ≡ 0
clear-get zero a f hf = let ef : f ≡ 0 = omega arith in rw (ef, bit_and-zero)
clear-get (suc k) a f hf = ground (
  arith,
  bit_and_step (bit_and a (2 ^ suc k - 1 - f)) f,
  bit_and_step a (2 ^ suc k - 1 - f),
  pow-suc 2 k,
  one-le-pow k 2,
  clear-get k (a / 2) (f / 2),
)

-- Setting the bits of `f` leaves those of a disjoint mask `g` alone.
pub set-other : (k a f g : ℕ) → g < 2 ^ k → bit_and f g ≡ 0 → bit_and (bit_or a f) g ≡ bit_and a g
set-other zero a f g hg h = let eg : g ≡ 0 = omega arith in rw (eg, bit_and-zero, bit_and-zero)
set-other (suc k) a f g hg h = ground (
  arith,
  bit_and_step (bit_or a f) g,
  bit_or_step a f,
  bit_and_step a g,
  bit_and_step f g,
  pow-suc 2 k,
  set-other k (a / 2) (f / 2) (g / 2),
)

-- Neither operation leaves the width of its arguments.
pub bit_or-lt : (k a b : ℕ) → a < 2 ^ k → b < 2 ^ k → bit_or a b < 2 ^ k
bit_or-lt zero a b ha hb =
    let ea : a ≡ 0 = omega arith in let eb : b ≡ 0 = omega arith in rw (ea, eb) (omega arith)
bit_or-lt (suc k) a b ha hb =
    ground (arith, bit_or_step a b, pow-suc 2 k, bit_or-lt k (a / 2) (b / 2))

pub bit_and-le : (k a b : ℕ) → a < 2 ^ k → bit_and a b ≤ a
bit_and-le zero a b h = let e : a ≡ 0 = omega arith in rw (e, zero-bit_and) (omega arith)
bit_and-le (suc k) a b h =
    ground (arith, bit_and_step a b, pow-suc 2 k, bit_and-le k (a / 2) (b / 2))

pub and-or_distrib :
    (k a b c : ℕ) → c < 2 ^ k → bit_and (bit_or a b) c ≡ bit_or (bit_and a c) (bit_and b c)
and-or_distrib zero a b c h =
    let e : c ≡ 0 = omega arith in
    rw e (rw (bit_and-zero (bit_or a b), bit_and-zero a, bit_and-zero b, zero-bit_or))
and-or_distrib (suc k) a b c h = ground (
  arith,
  bit_and_step (bit_or a b) c,
  bit_or_step a b,
  bit_or_step (bit_and a c) (bit_and b c),
  bit_and_step a c,
  bit_and_step b c,
  pow-suc 2 k,
  and-or_distrib k (a / 2) (b / 2) (c / 2),
)

pub and_idem : (k a f : ℕ) → f < 2 ^ k → bit_and (bit_and a f) f ≡ bit_and a f
and_idem zero a f h =
    let e : f ≡ 0 = omega arith in rw e (rw (bit_and-zero (bit_and a 0), bit_and-zero a))
and_idem (suc k) a f h =
    ground (
      arith,
      bit_and_step (bit_and a f) f,
      bit_and_step a f,
      pow-suc 2 k,
      and_idem k (a / 2) (f / 2),
    )

-- A value that was masked by `f` has nothing of a mask that is disjoint from `f`.
pub and-other : (k a f g : ℕ) → g < 2 ^ k → bit_and f g ≡ 0 → bit_and (bit_and a f) g ≡ 0
and-other zero a f g hg h = let e : g ≡ 0 = omega arith in rw (e, bit_and-zero (bit_and a f))
and-other (suc k) a f g hg h = ground (
  arith,
  bit_and_step (bit_and a f) g,
  bit_and_step a f,
  bit_and_step f g,
  pow-suc 2 k,
  and-other k (a / 2) (f / 2) (g / 2),
)

-- Clearing the bits of `f` leaves those of a disjoint mask alone.
pub clear-other :
    (k a f g : ℕ)
    → f < 2 ^ k
    → g < 2 ^ k
    → bit_and f g ≡ 0
    → bit_and (bit_and a (2 ^ k - 1 - f)) g ≡ bit_and a g
clear-other zero a f g hf hg h =
    let e : g ≡ 0 = omega arith in
    rw e (rw (bit_and-zero (bit_and a (2 ^ 0 - 1 - f)), bit_and-zero a))
clear-other (suc k) a f g hf hg h = ground (
  arith,
  bit_and_step (bit_and a (2 ^ suc k - 1 - f)) g,
  bit_and_step a (2 ^ suc k - 1 - f),
  bit_and_step a g,
  bit_and_step f g,
  pow-suc 2 k,
  one-le-pow k 2,
  clear-other k (a / 2) (f / 2) (g / 2),
)

pub bit_and_comm_zero : (k f g : ℕ) → f < 2 ^ k → bit_and f g ≡ 0 → bit_and g f ≡ 0
bit_and_comm_zero zero f g hf h = let e : f ≡ 0 = omega arith in rw (e, bit_and-zero g)
bit_and_comm_zero (suc k) f g hf h =
    ground
      (arith, bit_and_step f g, bit_and_step g f, pow-suc 2 k, bit_and_comm_zero k (f / 2) (g / 2))
