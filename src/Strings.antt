-- ===== src/Strings.antt =====
-- kernel/lib/string.cpp over the byte memory. Each `for` loop recurs on the rounds that are left.
pub mod Laws
use optimist_os.Common.{ℕ, zero, suc, ◌+◌, Bool, true, false, ◌!=◌, if◌then◌else◌}
use optimist_os.Memory.{Memory, write8}

-- The loop of `memoryset` at index `i`.
unfoldable pub memoryset_loop : ℕ → ℕ → ℕ → ℕ → Memory → Memory
memoryset_loop start value zero i m = m
memoryset_loop start value (suc left) i m =
    memoryset_loop start value left (i + 1) (write8 m (start + i) value)

unfoldable pub memoryset : ℕ → ℕ → ℕ → Memory → Memory
memoryset start value num m = memoryset_loop start value num 0 m

-- The loop of `memorycmp` at index `i`: the early return is the first branch.
unfoldable pub memorycmp_loop : ℕ → ℕ → ℕ → ℕ → Memory → Bool
memorycmp_loop p1 p2 zero i m = true
memorycmp_loop p1 p2 (suc left) i m =
    if m (p1 + i) != m (p2 + i) then false else memorycmp_loop p1 p2 left (i + 1) m

unfoldable pub memorycmp : ℕ → ℕ → ℕ → Memory → Bool
memorycmp s1 s2 n m = memorycmp_loop s1 s2 n 0 m

-- The loop of `memorycpy` at index `i`.
unfoldable pub memorycpy_loop : ℕ → ℕ → ℕ → ℕ → Memory → Memory
memorycpy_loop dest src zero i m = m
memorycpy_loop dest src (suc left) i m =
    memorycpy_loop dest src left (i + 1) (write8 m (dest + i) (m (src + i)))

unfoldable pub memorycpy : ℕ → ℕ → ℕ → Memory → Memory
memorycpy destination source num m = memorycpy_loop destination source num 0 m
