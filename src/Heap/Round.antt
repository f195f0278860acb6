-- ===== src/Heap/Round.antt =====
-- `roundUpToNextPower2` of kernel/memory/malloc.cpp.
pub mod Power
use optimist_os.Common.{ℕ, ◌+◌, ◌/◌, ◌^◌, bit_or, u64, sub64}

-- `size |= size >> k`
abbrev pub smear : ℕ → ℕ → ℕ
smear k size = bit_or size (size / 2 ^ k)

unfoldable pub round_up_to_next_power2 : ℕ → ℕ
round_up_to_next_power2 size =
    u64 (smear 16 (smear 8 (smear 4 (smear 2 (smear 1 (sub64 size 1))))) + 1)
