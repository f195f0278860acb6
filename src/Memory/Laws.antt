-- ===== src/Memory/Laws.antt =====
-- Reads after writes, for kernel/lib/memory.cpp.
use optimist_os.Common.{ℕ, ◌+◌, ◌/◌, ◌%◌, ◌^◌, ◌≤◌, ◌<◌, ◌≡◌, ◌≢◌, ◌⊎◌, arith}
use optimist_os.Memory.{Memory, write8, mmio_write32, mmio_write64, mmio_read32, mmio_read64}

-- `x` is none of the `n` bytes from `a` on.
abbrev pub Outside : ℕ → ℕ → ℕ → Type 0
Outside a n x = (x < a) ⊎ (a + n ≤ x)

pub write8_self : (m : Memory) (a v : ℕ) → write8 m a v a ≡ v % 2 ^ 8
unfolding write8
write8_self m a v = ground arith

pub write8-ne : (m : Memory) (a v x : ℕ) → x ≢ a → write8 m a v x ≡ m x
unfolding write8
write8-ne m a v x h = ground arith

pub mmio_write32-Outside : (m : Memory) (a v x : ℕ) → Outside a 4 x → mmio_write32 m a v x ≡ m x
unfolding mmio_write32
mmio_write32-Outside m a v x h = ground arith

pub mmio_write64-Outside : (m : Memory) (a v x : ℕ) → Outside a 8 x → mmio_write64 m a v x ≡ m x
unfolding mmio_write64
mmio_write64-Outside m a v x h = ground (
  arith,
  mmio_write32-Outside (mmio_write32 m a v) (a + 4) (v / 2 ^ 32) x,
  mmio_write32-Outside m a v x,
)

mmio_write32_bytes :
    (m : Memory) (a v : ℕ)
    → (mmio_write32 m a v a ≡ v % 2 ^ 8)
      × (mmio_write32 m a v (a + 1) ≡ v / 2 ^ 8 % 2 ^ 8)
      × (mmio_write32 m a v (a + 2) ≡ v / 2 ^ 16 % 2 ^ 8)
      × (mmio_write32 m a v (a + 3) ≡ v / 2 ^ 24 % 2 ^ 8)
unfolding mmio_write32
mmio_write32_bytes m a v = (ground arith, ground arith, ground arith, ground arith)

pub mmio_read32-mmio_write32 :
    (m : Memory) (a v : ℕ) → mmio_read32 (mmio_write32 m a v) a ≡ v % 2 ^ 32
unfolding mmio_read32
mmio_read32-mmio_write32 m a v = omega (arith, mmio_write32_bytes m a v)

pub mmio_read32_frame :
    (m m' : Memory) (b : ℕ)
    → m' b ≡ m b
    → m' (b + 1) ≡ m (b + 1)
    → m' (b + 2) ≡ m (b + 2)
    → m' (b + 3) ≡ m (b + 3)
    → mmio_read32 m' b ≡ mmio_read32 m b
unfolding mmio_read32
mmio_read32_frame m m' b h0 h1 h2 h3 = rw (h0, h1, h2, h3)

-- The two ranges `[a, a + n)` and `[b, b + k)` have no byte in common.
abbrev pub Apart : ℕ → ℕ → ℕ → ℕ → Type 0
Apart a n b k = (a + n ≤ b) ⊎ (b + k ≤ a)

pub mmio_read32-mmio_write32-Apart :
    (m : Memory) (a v b : ℕ) → Apart a 4 b 4 → mmio_read32 (mmio_write32 m a v) b ≡ mmio_read32 m b
mmio_read32-mmio_write32-Apart m a v b h =
    mmio_read32_frame m (mmio_write32 m a v) b (mmio_write32-Outside m a v b (omega arith))
      (mmio_write32-Outside m a v (b + 1) (omega arith))
      (mmio_write32-Outside m a v (b + 2) (omega arith))
      (mmio_write32-Outside m a v (b + 3) (omega arith))

-- A 64-bit word reads back as it was written.
pub mmio_read64-mmio_write64 :
    (m : Memory) (a v : ℕ) → mmio_read64 (mmio_write64 m a v) a ≡ v % 2 ^ 64
unfolding mmio_read64 mmio_write64
mmio_read64-mmio_write64 m a v = omega (
  arith,
  mmio_read32-mmio_write32-Apart (mmio_write32 m a v) (a + 4) (v / 2 ^ 32) a (omega arith),
  mmio_read32-mmio_write32 m a v,
  mmio_read32-mmio_write32 (mmio_write32 m a v) (a + 4) (v / 2 ^ 32),
)

-- A 64-bit word is unchanged by a write to bytes that it does not contain.
pub mmio_read64-mmio_write64-Apart :
    (m : Memory) (a v b : ℕ) → Apart a 8 b 8 → mmio_read64 (mmio_write64 m a v) b ≡ mmio_read64 m b
unfolding mmio_read64 mmio_write64
mmio_read64-mmio_write64-Apart m a v b h = omega (
  arith,
  mmio_read32-mmio_write32-Apart (mmio_write32 m a v) (a + 4) (v / 2 ^ 32) b (omega arith),
  mmio_read32-mmio_write32-Apart (mmio_write32 m a v) (a + 4) (v / 2 ^ 32) (b + 4) (omega arith),
  mmio_read32-mmio_write32-Apart m a v b (omega arith),
  mmio_read32-mmio_write32-Apart m a v (b + 4) (omega arith),
)

-- A word depends on its own eight bytes only.
pub mmio_read64_ext :
    (m m' : Memory) (b : ℕ)
    → ((x : ℕ) → b ≤ x → x < b + 8 → m' x ≡ m x)
    → mmio_read64 m' b ≡ mmio_read64 m b
unfolding mmio_read64
mmio_read64_ext m m' b h = omega (
  arith,
  mmio_read32_frame m m' b (h b (omega arith) (omega arith)) (h (b + 1) (omega arith) (omega arith))
      (h (b + 2) (omega arith) (omega arith)) (h (b + 3) (omega arith) (omega arith)),
  mmio_read32_frame m m' (b + 4) (h (b + 4) (omega arith) (omega arith))
      (h (b + 4 + 1) (omega arith) (omega arith)) (h (b + 4 + 2) (omega arith) (omega arith))
      (h (b + 4 + 3) (omega arith) (omega arith)),
)

-- Eight zero bytes read as the word zero.
pub mmio_read64-zeros :
    (m : Memory) (b : ℕ) → ((x : ℕ) → b ≤ x → x < b + 8 → m x ≡ 0) → mmio_read64 m b ≡ 0
unfolding mmio_read64 mmio_read32
mmio_read64-zeros m b h = omega (
  arith,
  h b (omega arith) (omega arith),
  h (b + 1) (omega arith) (omega arith),
  h (b + 2) (omega arith) (omega arith),
  h (b + 3) (omega arith) (omega arith),
  h (b + 4) (omega arith) (omega arith),
  h (b + 4 + 1) (omega arith) (omega arith),
  h (b + 4 + 2) (omega arith) (omega arith),
  h (b + 4 + 3) (omega arith) (omega arith),
)

pub mmio_read64-write8-Apart :
    (m : Memory) (a v b : ℕ) → Apart a 1 b 8 → mmio_read64 (write8 m a v) b ≡ mmio_read64 m b
mmio_read64-write8-Apart m a v b h =
    mmio_read64_ext m (write8 m a v) b (λ x lo hi. write8-ne m a v x (omega arith))
