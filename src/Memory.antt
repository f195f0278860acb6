-- ===== src/Memory.antt =====
-- The byte-addressed memory behind every pointer of the kernel, with the accesses of
-- kernel/lib/memory.cpp. An address is a number, and a word is little-endian. An access that would run
-- past the top of the address space is not wrapped.
pub mod Laws
use optimist_os.Common.{ℕ, ◌+◌, ◌*◌, ◌/◌, ◌%◌, ◌^◌, ◌==◌, if◌then◌else◌}

abbrev pub Memory : Type 0
Memory = ℕ → ℕ

-- `*(uint8_t*)address = value`
unfoldable pub write8 : Memory → ℕ → ℕ → Memory
write8 m a v x = if x == a then v % 2 ^ 8 else m x

-- `*((volatile uint32_t*)address) = value`
unfoldable pub mmio_write32 : Memory → ℕ → ℕ → Memory
unfolding write8
mmio_write32 m a v =
    write8 (write8 (write8 (write8 m a v) (a + 1) (v / 2 ^ 8)) (a + 2) (v / 2 ^ 16)) (a + 3)
      (v / 2 ^ 24)

-- `*((volatile uint64_t*)address) = value`
unfoldable pub mmio_write64 : Memory → ℕ → ℕ → Memory
mmio_write64 m a v = mmio_write32 (mmio_write32 m a v) (a + 4) (v / 2 ^ 32)

-- `*((uint32_t*)address)`
unfoldable pub mmio_read32 : Memory → ℕ → ℕ
mmio_read32 m a = m a + 2 ^ 8 * m (a + 1) + 2 ^ 16 * m (a + 2) + 2 ^ 24 * m (a + 3)

-- `*((uint64_t*)address)`
unfoldable pub mmio_read64 : Memory → ℕ → ℕ
mmio_read64 m a = mmio_read32 m a + 2 ^ 32 * mmio_read32 m (a + 4)
