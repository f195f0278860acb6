-- ===== src/Checks/Locks.antt =====
-- kernel/lib/lock.cpp at concrete inputs.
use optimist_os.Common.{ℕ, ◌≡◌, ◌≢◌, refl, none, some}
use optimist_os.Lock.{
  System, Reach, here, next, call, round, move, outside, spinning, holding, initial, lock, unlock,
}
use optimist_os.Lock.Alone.{lock_lem}
use optimist_os.Lock.Exclusion.{mutual_exclusion}

abbrev held : ℕ
held = 1

lock_lem_example :
    (lock 8 0 ≡ some 1) × (held ≢ 0 → lock 7 held ≡ none) × (lock 8 (unlock held) ≡ some 1)
lock_lem_example = lock_lem 7 held

abbrev third : ℕ
third = 3

-- Processor 3 calls `lock` and takes it.
abbrev called : System
called = record { word = 0; phase = move (λ i. outside) 3 spinning }

abbrev taken : System
taken = record { word = 1; phase = move called.phase 3 holding }

abbrev way : Reach initial taken
way = next (next here (call initial 3 refl)) (round called 3 refl)

mutual_exclusion_example : (taken.word ≢ 0) × (taken.phase third ≡ holding → third ≡ third)
mutual_exclusion_example = mutual_exclusion way third third refl
