-- ===== src/Lock/Alone.antt =====
-- `lock` of kernel/lib/lock.cpp when no other processor changes the word meanwhile.
use optimist_os.Common.{ℕ, zero, suc, ◌≡◌, ◌≢◌, refl, none, some, arith}
use optimist_os.Lock.{lock, unlock}

lock-one : (rounds : ℕ) → lock rounds 1 ≡ none
unfolding lock
lock-one zero = refl
lock-one (suc rounds) = ground (arith, lock-one rounds)

-- A free lock is taken in the first round; a lock that is held is never taken, for any number of
-- rounds, so a second `lock` of the holder spins for ever; `unlock` makes the lock free again.
pub lock_lem :
    (rounds word : ℕ)
    → (lock (suc rounds) 0 ≡ some 1)
      × (word ≢ 0 → lock rounds word ≡ none)
      × (lock (suc rounds) (unlock word) ≡ some 1)
unfolding lock unlock
lock_lem rounds word = (refl, held rounds, refl)
  where
    held : (n : ℕ) → word ≢ 0 → lock n word ≡ none
    held zero ne = refl
    held (suc n) ne = ground (arith, lock-one n)
