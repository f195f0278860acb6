-- ===== src/Process/Timer.antt =====
-- `pitInit`, `sleep`, `sleepMS` and `getPITCount` of kernel/process/process.cpp. The count of the timer's
-- ticks that a round of a loop reads is a parameter.
use optimist_os.Common.{
  ℕ, zero, suc, ◌+◌, ◌-◌, ◌*◌, ◌/◌, ◌%◌, ◌^◌, ◌≤◌, ◌<◌, ◌≡◌, bit_and, refl, arith, ap, subst,
  ℕ_discrete, ne→==, le→ltb, add-zero, ◌≢◌, Bool-cases, inl, inr, ◌==◌, Option, none, some, List,
  [], ◌∷◌, ltb, if◌then◌else◌, u8, u32, sub64,
}

-- What goes to the ports, each with its byte.
abbrev pub Port : Type 0
Port = ℕ × ℕ

abbrev pub divisor : ℕ
divisor = u32 1193180 / u32 100

-- `pitInit` does not read its argument. The handler of interrupt 32 is the address `pit_handler`.
unfoldable pub pit_init : ℕ → ℕ → (ℕ → ℕ) → List Port × (ℕ → ℕ)
pit_init hertz pit_handler handlers = (
  (0x43, 0x34)
      ∷ (0x40, u8 (bit_and divisor 0xff))
      ∷ (0x40, u8 (bit_and (divisor / 2 ^ 8) 0xff))
      ∷ [],
  λ n. if n == 32 then pit_handler else handlers n,
)

-- The loops of `sleep` and `sleepMS` at round `i`, on fuel: the round in which they end.
unfoldable pub wait_loop : ℕ → (ℕ → ℕ) → ℕ → ℕ → ℕ → Option ℕ
wait_loop zero count start target i = none
wait_loop (suc rounds) count start target i =
    let rest = wait_loop rounds count start target (i + 1) in
    if ltb (sub64 (count i) start) target then rest else some i

-- An `int` in a `uint64_t`.
abbrev pub widen : ℕ → ℕ
widen n = if ltb n (2 ^ 31) then n else n + 2 ^ 64 - 2 ^ 32

unfoldable pub sleep : ℕ → (ℕ → ℕ) → ℕ → Option ℕ
sleep rounds count seconds = wait_loop rounds count (count 0) (widen (u32 (seconds * 100))) 1

unfoldable pub sleep_ms : ℕ → (ℕ → ℕ) → ℕ → Option ℕ
sleep_ms rounds count milliseconds =
    wait_loop rounds count (count 0) (widen (u32 (milliseconds * 10))) 1

wait_loop-ends :
    (left i : ℕ) (count : ℕ → ℕ) (start target : ℕ)
    → target ≤ sub64 (count (i + left)) start
    → (j : ℕ) × (wait_loop (suc left) count start target i ≡ some j)
      × (i ≤ j)
      × (j ≤ i + left)
      × (target ≤ sub64 (count j) start)
      × ((k : ℕ) → i ≤ k → k < j → sub64 (count k) start < target)
unfolding wait_loop
wait_loop-ends zero i count start target h =
    let reached : target ≤ sub64 (count i) start =
      subst (λ (x : ℕ). target ≤ sub64 (count x) start) (add-zero i) h in
    (
      i,
      rw (le→ltb (sub64 (count i) start) target reached) refl,
      omega arith,
      omega arith,
      reached,
      λ k lo hi. absurd (omega arith),
    )
wait_loop-ends (suc left) i count start target h =
    let there : i + suc left ≡ i + 1 + left = omega arith in
    let (j, run, lo, hi, reached, before) =
      wait_loop-ends left (i + 1) count start target
        (subst (λ (x : ℕ). target ≤ sub64 (count x) start) there h) in
    elim (Bool-cases (ltb (sub64 (count i) start) target)) [
      | inr over ↦
          (i, rw over refl, omega arith, omega arith, ground arith, λ k lo hi. absurd (omega arith))
      | inl wait ↦ (
        j,
        rw wait run,
        omega arith,
        omega arith,
        reached,
        λ k l h. elim (ℕ_discrete k i) [
          | yes e ↦ rw e (ground arith)
          | no ne ↦ before k (omega arith) h
        ],
      )
    ]

-- `sleepMS` of fewer than 2 ^ 31 / 10 milliseconds ends if the count of the timer has at some round gone up
-- by ten for each of them, in the first such round: with the timer at 100 ticks in a second, that is a
-- hundred times as long as it says. For ten milliseconds it does what `sleep` does for a second.
pub sleep_ms_lem :
    (left : ℕ) (count : ℕ → ℕ) (milliseconds : ℕ)
    → milliseconds * 10 < 2 ^ 31
    → ((milliseconds * 10 ≤ sub64 (count (1 + left)) (count 0))
        → (j : ℕ) × (sleep_ms (suc left) count milliseconds ≡ some j)
          × (milliseconds * 10 ≤ sub64 (count j) (count 0))
          × ((k : ℕ) → 1 ≤ k → k < j → sub64 (count k) (count 0) < milliseconds * 10))
      × ((seconds : ℕ)
          → milliseconds ≡ 10 * seconds
          → sleep_ms left count milliseconds ≡ sleep left count seconds)
unfolding sleep_ms sleep
sleep_ms_lem left count milliseconds small = (
  λ h.
      let wide : widen (u32 (milliseconds * 10)) ≡ milliseconds * 10 = ground arith in
      let (j, run, lo, hi, reached, before) =
        wait_loop-ends left 1 count (count 0) (milliseconds * 10) h in
      (j, rw wide run, reached, before),
  λ seconds e.
      let same : milliseconds * 10 ≡ seconds * 100 = omega arith in
      ap (λ (n : ℕ). wait_loop left count (count 0) (widen (u32 n)) 1) same,
)

-- Whatever frequency it is asked for, `pitInit` programs the divisor 11931, for about 100 ticks in a second,
-- its low byte before its high one, and registers the handler for interrupt 32 alone.
pub pit_init_lem :
    (hertz pit_handler : ℕ) (handlers : ℕ → ℕ)
    → let (out, installed) = pit_init hertz pit_handler handlers in
      (out ≡ (0x43, 0x34) ∷ (0x40, 11931 % 2 ^ 8) ∷ (0x40, 11931 / 2 ^ 8) ∷ [])
      × (installed 32 ≡ pit_handler)
      × ((n : ℕ) → n ≢ 32 → installed n ≡ handlers n)
unfolding pit_init
pit_init_lem hertz pit_handler handlers = (refl, refl, λ n ne. rw (ne→== n 32 ne) refl)
