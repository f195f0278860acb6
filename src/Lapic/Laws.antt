-- ===== src/Lapic/Laws.antt =====
-- What `lapicTimer` of kernel/acpi/lapic.cpp leaves in the registers of the timer.
use optimist_os.Common.{
  ℕ, ◌+◌, ◌*◌, ◌/◌, ◌%◌, ◌-◌, ◌^◌, ◌<◌, ◌≡◌, ◌≢◌, ◌∙◌, ap₂, refl, arith, bit_and, bit_or, ◌==◌,
  if◌then◌else◌, u32, u64, ne→==,
}
use optimist_os.Common.Bits.{bit_or_split, bit_and_split, bit_or-zero, zero-bit_or, bit_and_low}
use optimist_os.Lapic.{not32, lapic_write, lapic_read, start_timer, lapic_timer}

-- A mask of the bits from `j` on, `n` of them, and of the lowest `k`.
bit_and_mask :
    (j k n x : ℕ)
    → x ≡ x / 2 ^ j * 2 ^ j + x % 2 ^ j
    → x % 2 ^ j < 2 ^ j
    → 2 ^ k - 1 < 2 ^ j
    → bit_and x ((2 ^ n - 1) * 2 ^ j + (2 ^ k - 1)) ≡ x / 2 ^ j % 2 ^ n * 2 ^ j + x % 2 ^ j % 2 ^ k
bit_and_mask j k n x parts r h =
    ap₂ bit_and parts refl
    ∙ bit_and_split j (x / 2 ^ j) (x % 2 ^ j) (2 ^ n - 1) (2 ^ k - 1) r h
    ∙ rw (bit_and_low n (x / 2 ^ j), bit_and_low k (x % 2 ^ j)) refl

one_shot :
    (x : ℕ)
    → x < 2 ^ 32
    → bit_or (bit_and x (not32 (3 * 2 ^ 17))) (0 * 2 ^ 17) ≡ x / 2 ^ 19 * 2 ^ 19 + x % 2 ^ 17
one_shot x h =
    bit_or-zero (bit_and x (not32 (3 * 2 ^ 17)))
    ∙ bit_and_mask 19 17 13 x (omega arith) (omega arith) (omega arith)
    ∙ omega arith

named :
    (x vector : ℕ)
    → x < 2 ^ 32
    → vector < 2 ^ 8
    → bit_or (bit_and x 0xffffff00) vector ≡ x / 2 ^ 8 * 2 ^ 8 + vector
named x vector h hv =
    let low : bit_and x 0xffffff00 ≡ x / 2 ^ 8 * 2 ^ 8 + 0 =
      bit_and_mask 8 0 24 x (omega arith) (omega arith) (omega arith) ∙ omega arith in
    let number : vector ≡ 0 * 2 ^ 8 + vector = omega arith in
    ap₂ bit_or low number
    ∙ bit_or_split 8 (x / 2 ^ 8) 0 0 vector (omega arith) hv
    ∙ rw (bit_or-zero (x / 2 ^ 8), zero-bit_or vector) refl

unmasked : (x : ℕ) → x < 2 ^ 32 → bit_and x (not32 (2 ^ 16)) ≡ x / 2 ^ 17 * 2 ^ 17 + x % 2 ^ 16
unmasked x h = bit_and_mask 17 16 15 x (omega arith) (omega arith) (omega arith) ∙ omega arith

-- Once `ticksPerMS` is measured, `lapicTimer` keeps it, divides the clock by the code 3, writes the vector
-- below the bits of the timer's entry that it keeps, with the mode bits 17 and 18 clear, then the count of
-- ticks, and last the entry that it reads back with its mask bit 16 clear. The count is 1 for a time of no
-- ticks and otherwise the lowest 32 bits of the product, so 0 for a multiple of 2 ^ 32.
pub lapic_timer_lem :
    {S : Type 0} (mmio_read : ℕ → S → ℕ) (mmio_write : ℕ → ℕ → S → S) (sleep_ms : ℕ → S → S)
    (ticks_per_ms vector ms : ℕ) (s : S)
    → ticks_per_ms ≢ 0
    → vector < 2 ^ 8
    → let ticks = u64 (ticks_per_ms * ms) in
      let divided = mmio_write 0xfee003e0 3 s in
      let x = u32 (mmio_read 0xfee00320 divided) in
      let entry = x / 2 ^ 19 * 2 ^ 19 + x / 2 ^ 8 % 2 ^ 9 * 2 ^ 8 + vector in
      let count = if ticks == 0 then 1 else ticks % 2 ^ 32 in
      let counted = mmio_write 0xfee00380 count (mmio_write 0xfee00320 entry divided) in
      let y = u32 (mmio_read 0xfee00320 counted) in
      lapic_timer mmio_read mmio_write sleep_ms ticks_per_ms vector ms s
      ≡ (ticks_per_ms, mmio_write 0xfee00320 (y / 2 ^ 17 * 2 ^ 17 + y % 2 ^ 16) counted)
unfolding lapic_timer start_timer lapic_write lapic_read
lapic_timer_lem mmio_read mmio_write sleep_ms ticks_per_ms vector ms s ne hv =
    let ticks : ℕ = u64 (ticks_per_ms * ms) in
    let divided = mmio_write 0xfee003e0 3 s in
    let x : ℕ = u32 (mmio_read 0xfee00320 divided) in
    let m : ℕ = x / 2 ^ 19 * 2 ^ 19 + x % 2 ^ 17 in
    let entry : ℕ = x / 2 ^ 19 * 2 ^ 19 + x / 2 ^ 8 % 2 ^ 9 * 2 ^ 8 + vector in
    let e : u32 (m / 2 ^ 8 * 2 ^ 8 + vector) ≡ entry = omega arith in
    let c : u32 (if ticks == 0 then 1 else ticks) ≡ (if ticks == 0 then 1 else ticks % 2 ^ 32) =
      ground arith in
    let count : ℕ = if ticks == 0 then 1 else ticks % 2 ^ 32 in
    let counted = mmio_write 0xfee00380 count (mmio_write 0xfee00320 entry divided) in
    let y : ℕ = u32 (mmio_read 0xfee00320 counted) in
    let last : u32 (y / 2 ^ 17 * 2 ^ 17 + y % 2 ^ 16) ≡ y / 2 ^ 17 * 2 ^ 17 + y % 2 ^ 16 =
      omega arith in
    rw
      (
        ne→== ticks_per_ms 0 ne,
        one_shot x (omega arith),
        named m vector (omega arith) hv,
        e,
        c,
        unmasked y (omega arith),
        last,
      )
      refl
