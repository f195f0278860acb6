-- ===== src/Print/Digits.antt =====
-- What `e9_printhex` and `e9_printdec` of kernel/printutils/e9print.cpp print reads back as the number.
use optimist_os.Common.{
  ℕ, zero, suc, ◌+◌, ◌-◌, ◌*◌, ◌/◌, ◌%◌, ◌^◌, ◌≤◌, ◌<◌, ◌≡◌, ◌∙◌, refl, sym, arith, some, List, [],
  ◌∷◌, ◌++◌, ltb, ◌==◌, if◌then◌else◌, ℕ_discrete, ne→==, ap, true, all_below, all_below_sound,
}
use native.Mathlib.Nat.{pow-zero, pow-suc, div-lt_iff_lt-mul}
use optimist_os.Print.{codes, hex_digit, dec_digit, fill, e9_printhex, e9_printdec}

div-below : (base room num : ℕ) → 2 ≤ base → num < base ^ suc room → num / base < base ^ room
div-below base room num big h =
    (div-lt_iff_lt-mul {k = base} (omega arith)).1 (omega (arith, pow-suc base room))

-- The value of a digit's byte, and of a text of such bytes behind the number `acc`.
abbrev pub digit_value : ℕ → ℕ
digit_value c = if ltb c b'a' then c - b'0' else c - b'a' + 10

unfoldable pub read : ℕ → ℕ → List ℕ → ℕ
read base acc [] = acc
read base acc (c ∷ cs) = read base (acc * base + digit_value c) cs

module _ (digit : ℕ → ℕ) (base : ℕ) (big : 2 ≤ base)
    (reads : (d : ℕ) → d < base → digit_value (digit d) ≡ d) where
  -- The filled part reads as the digits of `num` behind what is already there.
  pub fill-read :
      (room num : ℕ) (buf : List ℕ)
      → num < base ^ room
      → (out : List ℕ) × (fill digit base room num buf ≡ some out)
        × (read base 0 out ≡ read base num buf)
  unfolding fill read
  fill-read zero num buf h = let e : num ≡ 0 = omega (arith, pow-zero base) in (buf, rw e, rw e)
  fill-read (suc room) num buf h = elim (ℕ_discrete num 0) [
    | yes e ↦ (buf, rw e, rw e)
    | no ne ↦
        let (out, run, same) =
          fill-read room (num / base) (digit (num % base) ∷ buf) (div-below base room num big h) in
        (out, rw (ne→== num 0 ne) run, same ∙ ap (λ (n : ℕ). read base n buf) digits)
  ]
    where
      digits : num / base * base + digit_value (digit (num % base)) ≡ num
      digits = grind (arith, reads (num % base) (omega arith))

hex_table : all_below 16 (λ x. digit_value (hex_digit x) == x) ≡ true
hex_table = refl

hex_digit-reads : (d : ℕ) → d < 16 → digit_value (hex_digit d) ≡ d
hex_digit-reads d h =
    let hit : (digit_value (hex_digit d) == d) ≡ true =
      all_below_sound 16 (λ x. digit_value (hex_digit x) == x) d hex_table h in
    ground arith

pub dec_digit-reads : (d : ℕ) → d < 10 → digit_value (dec_digit d) ≡ d
dec_digit-reads d h = ground arith

-- `e9_printhex` stays inside its buffer for every `size_t`, and prints `0x` and digits that read back
-- as the number.
pub e9_printhex_lem :
    (num : ℕ)
    → num < 2 ^ 64
    → (out : List ℕ) × (e9_printhex num ≡ some (codes "0x" ++ out)) × (read 16 0 out ≡ num)
unfolding e9_printhex
e9_printhex_lem num h = elim (ℕ_discrete num 0) [
  | yes e ↦ (codes "0", rw e, unfold read in sym e)
  | no ne ↦
      let (out, run, same) = fill-read hex_digit 16 (omega arith) hex_digit-reads 16 num [] h in
      (out, rw (ne→== num 0 ne, run), unfold read in same)
]

-- `e9_printdec` stays inside its buffer for every `size_t`, and prints digits that read back as the
-- number.
pub e9_printdec_lem :
    (num : ℕ) → num < 2 ^ 64 → (out : List ℕ) × (e9_printdec num ≡ some out) × (read 10 0 out ≡ num)
unfolding e9_printdec
e9_printdec_lem num h = elim (ℕ_discrete num 0) [
  | yes e ↦ (codes "0", rw e, unfold read in sym e)
  | no ne ↦
      let (out, run, same) =
        fill-read dec_digit 10 (omega arith) dec_digit-reads 20 num [] (omega arith) in
      (out, rw (ne→== num 0 ne) run, unfold read in same)
]
