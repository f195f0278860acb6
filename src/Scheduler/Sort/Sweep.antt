-- ===== src/Scheduler/Sort/Sweep.antt =====
-- The inner loop of `prioritySort` of kernel/scheduler/scheduler.cpp on a list with a last node that holds no thread.
use mathlib.Core.List.{Perm}
use mathlib.Core.List.Perm
use optimist_os.Common.{
  ℕ, ◌+◌, ◌≤◌, ◌≡◌, refl, arith, Bool, true, false, none, some, List, [], ◌∷◌, ◌++◌, map, ltb, ◌==◌,
  if◌then◌else◌, Bool-cases, inl, inr,
}
use optimist_os.Scheduler.Thread.{Thread, rank}
use optimist_os.Scheduler.Sort.{Nodes, sorted, sweep}

abbrev pub level : Thread → ℕ
level t = rank t.priority

-- The same loop on the threads alone.
unfoldable pub bubble : List Thread → List Thread × Bool
bubble [] = ([], false)
bubble (a ∷ []) = (a ∷ [], false)
bubble (a ∷ b ∷ r) = elim (ltb (level a) (level b)) [
  | true ↦ (b ∷ (bubble (a ∷ r)).0, true)
  | false ↦ (a ∷ (bubble (b ∷ r)).0, (bubble (b ∷ r)).1)
]

-- The nodes of the threads, the node that stops the walk, and the nodes behind it.
abbrev pub closed : List Thread → Nodes → Nodes
closed ts rest = map some ts ++ none ∷ rest

pub sweep-bubble :
    (a : Thread) (ts : List Thread) (rest : Nodes)
    → sweep (closed (a ∷ ts) rest) ≡ sorted (closed (bubble (a ∷ ts)).0 rest) (bubble (a ∷ ts)).1
unfolding sweep bubble
sweep-bubble a [] rest = refl
sweep-bubble a (b ∷ ts) rest = ground (arith, sweep-bubble a ts rest, sweep-bubble b ts rest)

bubble-swap :
    (a b : Thread) (ts : List Thread)
    → ltb (level a) (level b) ≡ true
    → bubble (a ∷ b ∷ ts) ≡ (b ∷ (bubble (a ∷ ts)).0, true)
unfolding bubble
bubble-swap a b ts h = ground arith

bubble-keep :
    (a b : Thread) (ts : List Thread)
    → ltb (level a) (level b) ≡ false
    → bubble (a ∷ b ∷ ts) ≡ (a ∷ (bubble (b ∷ ts)).0, (bubble (b ∷ ts)).1)
unfolding bubble
bubble-keep a b ts h = ground arith

pub bubble-perm : (ts : List Thread) → Perm (bubble ts).0 ts
unfolding bubble
bubble-perm [] = Perm.refl []
bubble-perm (a ∷ []) = Perm.refl (a ∷ [])
bubble-perm (a ∷ b ∷ ts) = elim (Bool-cases (ltb (level a) (level b))) [
  | inl less ↦
      rw (bubble-swap a b ts less)
        (Perm.trans (Perm.cons b (bubble-perm (a ∷ ts))) (Perm.swap a b ts))
  | inr more ↦ rw (bubble-keep a b ts more) (Perm.cons a (bubble-perm (b ∷ ts)))
]

-- The threads of one priority, in their order.
unfoldable pub of_level : ℕ → List Thread → List Thread
of_level k [] = []
of_level k (t ∷ ts) = if level t == k then t ∷ of_level k ts else of_level k ts

-- A pass swaps only threads of different priorities.
pub of_level-bubble : (k : ℕ) (ts : List Thread) → of_level k (bubble ts).0 ≡ of_level k ts
unfolding of_level bubble
of_level-bubble k [] = refl
of_level-bubble k (a ∷ []) = refl
of_level-bubble k (a ∷ b ∷ ts) = elim (Bool-cases (ltb (level a) (level b))) [
  | inl less ↦ rw (bubble-swap a b ts less) (ground (arith, of_level-bubble k (a ∷ ts)))
  | inr more ↦ rw (bubble-keep a b ts more) (ground (arith, of_level-bubble k (b ∷ ts)))
]

-- How many of the threads have a higher priority than `t`.
unfoldable pub over : Thread → List Thread → ℕ
over t [] = 0
over t (u ∷ us) = (if ltb (level t) (level u) then 1 else 0) + over t us

-- The pairs that stand in the wrong order.
unfoldable pub inversions : List Thread → ℕ
inversions [] = 0
inversions (t ∷ ts) = over t ts + inversions ts

over-bubble : (t : Thread) (ts : List Thread) → over t (bubble ts).0 ≡ over t ts
unfolding over bubble
over-bubble t [] = refl
over-bubble t (a ∷ []) = refl
over-bubble t (a ∷ b ∷ ts) = elim (Bool-cases (ltb (level a) (level b))) [
  | inl less ↦ rw (bubble-swap a b ts less) (omega (arith, over-bubble t (a ∷ ts)))
  | inr more ↦ rw (bubble-keep a b ts more) (omega (arith, over-bubble t (b ∷ ts)))
]

-- A pass that swaps leaves fewer pairs in the wrong order, and no pass leaves more.
pub inversions-bubble :
    (ts : List Thread) → inversions (bubble ts).0 + (if (bubble ts).1 then 1 else 0) ≤ inversions ts
unfolding inversions over bubble
inversions-bubble [] = omega arith
inversions-bubble (a ∷ []) = omega arith
inversions-bubble (a ∷ b ∷ ts) = elim (Bool-cases (ltb (level a) (level b))) [
  | inl less ↦
      rw (bubble-swap a b ts less)
        (ground (arith, over-bubble b (a ∷ ts), inversions-bubble (a ∷ ts)))
  | inr more ↦
      rw (bubble-keep a b ts more)
        (ground (arith, over-bubble a (b ∷ ts), inversions-bubble (b ∷ ts)))
]

-- No thread stands in front of one with a higher priority.
abbrev pub IsDescending : List Thread → Type 0
IsDescending [] = Unit
IsDescending (a ∷ []) = Unit
IsDescending (a ∷ b ∷ r) = (level b ≤ level a) × IsDescending (b ∷ r)

-- A pass that swaps nothing has found the list in order, and leaves it alone.
pub bubble-still :
    (ts : List Thread) → (bubble ts).1 ≡ false → ((bubble ts).0 ≡ ts) × IsDescending ts
unfolding bubble
bubble-still [] h = (refl, tt)
bubble-still (a ∷ []) h = (refl, tt)
bubble-still (a ∷ b ∷ ts) h = ground (arith, bubble-still (b ∷ ts))
