-- ===== src/Lock/Exclusion.antt =====
-- Mutual exclusion of the spin lock of kernel/lib/lock.cpp.
use optimist_os.Common.{ℕ, ◌≡◌, ◌≢◌, arith}
use optimist_os.Lock.{
  holding, System, unlock, Step, call, round, release, Reach, here, next, initial,
}

-- A free word means no holder, and there is at most one holder.
pub record IsExclusive (s : System) : Type 0 where
  pub free : (i : ℕ) → s.word ≡ 0 → s.phase i ≢ holding
  pub one : (i j : ℕ) → s.phase i ≡ holding → s.phase j ≡ holding → i ≡ j

Step-IsExclusive : {s t : System} → Step s t → IsExclusive s → IsExclusive t
unfolding unlock
Step-IsExclusive (call s i at) v = record {
  free = λ j z. ground (arith, v.free j);
  one = λ j k hj hk. ground (arith, v.one j k);
}
Step-IsExclusive (round s i at) v = record {
  free = λ j z. ground (arith, v.free j);
  one = λ j k hj hk. ground (arith, v.one j k, v.free j, v.free k);
}
Step-IsExclusive (release s i at) v = record {
  free = λ j z. ground (arith, v.one i j);
  one = λ j k hj hk. ground (arith, v.one j k);
}

Reach-IsExclusive : {s t : System} → Reach s t → IsExclusive s → IsExclusive t
Reach-IsExclusive here v = v
Reach-IsExclusive (next r st) v = Step-IsExclusive st (Reach-IsExclusive r v)

initial-IsExclusive : IsExclusive initial
initial-IsExclusive = record { free = λ i z. ground arith; one = λ i j hi hj. ground arith }

-- However the processors interleave from the free lock, at most one of them is between `lock` and
-- `unlock`, and while one is, the lock word is not 0.
pub mutual_exclusion :
    {s : System}
    → Reach initial s
    → (i j : ℕ) → s.phase i ≡ holding
    → (s.word ≢ 0) × (s.phase j ≡ holding → i ≡ j)
mutual_exclusion {s} r i j hi =
    let v : IsExclusive s = Reach-IsExclusive r initial-IsExclusive in
    (λ z. v.free i z hi, λ hj. v.one i j hi hj)
