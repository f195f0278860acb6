-- ===== src/Heap/Mutex.antt =====
-- The mutex of kernel/memory/malloc.cpp: calls that find it held by their own caller.
use optimist_os.Common.{
  ℕ, zero, suc, ◌*◌, ◌+◌, ◌^◌, ◌≤◌, ◌<◌, ◌≡◌, ◌≢◌, refl, arith, sub64, inl, inr, ◌⊎◌, ℕ_discrete,
}
use optimist_os.Memory.{mmio_read64}
use optimist_os.Lock.{lock}
use optimist_os.Lock.Alone.{lock_lem}
use optimist_os.Kernel.{Kernel}
use optimist_os.Kernel.Run.{ok, out_of_fuel}
use optimist_os.Heap.{node_size_at, sizeof_head, acquire}
use optimist_os.Heap.Round.{round_up_to_next_power2}
use optimist_os.Heap.Allocate.{mallocx}
use optimist_os.Heap.Release.{reallocx}

acquire-held : (rounds : ℕ) (s : Kernel) → s.mutex ≢ 0 → acquire rounds s ≡ out_of_fuel
unfolding acquire
acquire-held rounds s held = ground (arith, (lock_lem rounds s.mutex).1 held)

pub acquire-free :
    (rounds : ℕ) (s : Kernel)
    → s.mutex ≡ 0
    → acquire (suc rounds) s ≡ ok tt (record s { mutex = 1 })
unfolding acquire
acquire-free rounds s free = ground (arith, (lock_lem rounds 0).0)

mallocx-held :
    (fuel rounds size : ℕ) (s : Kernel) → s.mutex ≢ 0 → mallocx fuel rounds size s ≡ out_of_fuel
unfolding mallocx
mallocx-held fuel rounds size s held = ground (arith, acquire-held rounds s held)

-- Either the lock is never taken, or it is held afterwards.
pub acquired :
    (rounds : ℕ) (s : Kernel)
    → (acquire rounds s ≡ out_of_fuel) ⊎ (acquire rounds s ≡ ok tt (record s { mutex = 1 }))
unfolding acquire lock
acquired zero s = inl refl
acquired (suc rounds) s = elim (ℕ_discrete s.mutex 0) [
  | yes free ↦ inr (ground arith)
  | no held ↦ inl (acquire-held (suc rounds) s held)
]

-- For a block whose node is not at 0, with a size that is not 0 and whose double fits 64 bits,
-- `reallocx` to a size that rounds up to twice that or more never returns, for any number of
-- rounds: it calls `mallocx` while it holds the mutex that `mallocx` waits for.
pub reallocx_grows :
    (fuel rounds block size : ℕ) (s : Kernel)
    → let node = sub64 block sizeof_head in
      node ≢ 0
      → let own = mmio_read64 s.mem (node + node_size_at) in
        own ≢ 0
        → own * 2 < 2 ^ 64
        → own * 2 ≤ round_up_to_next_power2 size
        → reallocx fuel rounds block size s ≡ out_of_fuel
unfolding reallocx
reallocx_grows fuel rounds block size s ne own_ne small grows = elim (acquired rounds s) [
  | inl stuck ↦ rw stuck refl
  | inr free ↦
      ground
        (arith, free, mallocx-held fuel rounds size (record s { mutex = 1 }) (λ h. omega arith))
]
