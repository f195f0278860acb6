-- ===== src/Lapic.antt =====
-- kernel/acpi/lapic.cpp: the timer of a processor and its calibration, over a device whose state `S`, its
-- reads and writes at physical addresses, and what `sleepMS` lets happen to it, are parameters.
pub mod Laws
use optimist_os.Common.{
  ℕ, ◌+◌, ◌*◌, ◌/◌, ◌-◌, ◌^◌, bit_and, bit_or, ◌==◌, if◌then◌else◌, u32, u64, sub32,
}

-- `~a` on an `int` that becomes a `uint32_t`.
abbrev pub not32 : ℕ → ℕ
not32 a = 2 ^ 32 - 1 - a

abbrev pub lapic_icdestshift : ℕ
lapic_icdestshift = 24

module _ {S : Type 0} (mmio_read : ℕ → S → ℕ) (mmio_write : ℕ → ℕ → S → S)
    (sleep_ms : ℕ → S → S) where
  unfoldable pub lapic_write : ℕ → ℕ → S → S
  lapic_write reg value s = mmio_write (u32 (0xfee00000 + reg)) (u32 value) s

  unfoldable pub lapic_read : ℕ → S → ℕ
  lapic_read reg s = u32 (mmio_read (u32 (0xfee00000 + reg)) s)

  unfoldable pub init_lapic : S → S
  init_lapic s = lapic_write 0xf0 (bit_or (lapic_read 0xf0 s) 0x100) s

  unfoldable pub lapic_get_id : S → ℕ
  lapic_get_id s = lapic_read 0x0020 s / 2 ^ lapic_icdestshift

  unfoldable pub lapic_ipi : ℕ → ℕ → S → S
  lapic_ipi flags id s = lapic_write 0x300 flags (lapic_write 0x310 (u32 (id * 2 ^ 24)) s)

  unfoldable pub lapic_eoi : S → S
  lapic_eoi s = lapic_write 0xb0 0x00 s

  -- `lapicTimerCalibrate` gives `ticksPerMS`, which it stores.
  unfoldable pub lapic_timer_calibrate : S → ℕ × S
  lapic_timer_calibrate s =
      let divided = lapic_write 0x380 0xffffffff (lapic_write 0x3e0 0x03 s) in
      let running =
        lapic_write 0x320 (bit_and (lapic_read 0x320 divided) (not32 (2 ^ 16))) divided in
      let slept = sleep_ms 10 running in
      let stopped = lapic_write 0x320 (bit_or (lapic_read 0x320 slept) (2 ^ 16)) slept in
      (sub32 0xffffffff (lapic_read 0x390 stopped) / 10, stopped)

  -- `lapicTimer` behind its test of `ticksPerMS`.
  unfoldable pub start_timer : ℕ → ℕ → ℕ → S → S
  start_timer ticks_per_ms vector ms s =
      let ticks = u64 (ticks_per_ms * ms) in
      let divided = lapic_write 0x3e0 0x03 s in
      let mode = bit_or (bit_and (lapic_read 0x320 divided) (not32 (3 * 2 ^ 17))) (0 * 2 ^ 17) in
      let value = bit_or (bit_and mode 0xffffff00) vector in
      let named = lapic_write 0x320 value divided in
      let counted = lapic_write 0x380 (if ticks == 0 then 1 else ticks) named in
      lapic_write 0x320 (bit_and (lapic_read 0x320 counted) (not32 (2 ^ 16))) counted

  -- `ticksPerMS` is 0 before the first call.
  unfoldable pub lapic_timer : ℕ → ℕ → ℕ → S → ℕ × S
  lapic_timer ticks_per_ms vector ms s =
      let (calibrated, measured) = lapic_timer_calibrate s in
      if ticks_per_ms == 0
      then (calibrated, start_timer calibrated vector ms measured)
      else (ticks_per_ms, start_timer ticks_per_ms vector ms s)
