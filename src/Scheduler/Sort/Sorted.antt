-- ===== src/Scheduler/Sort/Sorted.antt =====
-- `prioritySort` of kernel/scheduler/scheduler.cpp as a whole.
use mathlib.Core.List.{Perm}
use mathlib.Core.List.Perm
use optimist_os.Common.{
  ℕ, zero, suc, ◌*◌, ◌≤◌, ◌<◌, ◌≡◌, ◌≢◌, refl, ap, ap₂, ◌∙◌, arith, true, false, some, List, [],
  ◌∷◌, ◌++◌, map, length, Bool-cases, inl, inr,
}
use optimist_os.Scheduler.Thread.{
  Thread, ThreadPriority, priority_low, priority_medium, priority_high,
}
use optimist_os.Scheduler.Sort.{Nodes, sorted, fault, sweep, sort_loop, priority_sort}
use optimist_os.Scheduler.Sort.Sweep.{
  bubble, closed, sweep-bubble, bubble-perm, over, inversions, inversions-bubble, IsDescending,
  level, bubble-still, of_level, of_level-bubble,
}

over-le : (t : Thread) (ts : List Thread) → over t ts ≤ length ts
unfolding over
over-le t [] = omega arith
over-le t (u ∷ us) = ground (arith, over-le t us)

inversions-le : (ts : List Thread) → inversions ts ≤ length ts * length ts
unfolding inversions
inversions-le [] = omega arith
inversions-le (t ∷ ts) = grind (arith, over-le t ts, inversions-le ts)

bubble-ne : (a : Thread) (ts : List Thread) → (bubble (a ∷ ts)).0 ≢ []
unfolding bubble
bubble-ne a [] = ground arith
bubble-ne a (b ∷ ts) = ground arith

sort_loop-again :
    (rounds : ℕ) (l : Nodes) {l' : Nodes}
    → sweep l ≡ sorted l' true
    → sort_loop (suc rounds) l ≡ sort_loop rounds l'
unfolding sort_loop
sort_loop-again rounds l e = ground arith

sort_loop-done :
    (rounds : ℕ) (l : Nodes) {l' : Nodes}
    → sweep l ≡ sorted l' false
    → sort_loop (suc rounds) l ≡ sorted l' false
unfolding sort_loop
sort_loop-done rounds l e = ground arith

sort_loop-fault : (rounds : ℕ) (l : Nodes) → sweep l ≡ fault → sort_loop (suc rounds) l ≡ fault
unfolding sort_loop
sort_loop-fault rounds l e = ground arith

sort_loop-sorted :
    (rounds : ℕ) (ts : List Thread) (rest : Nodes)
    → ts ≢ []
    → inversions ts < rounds
    → (us : List Thread) × (sort_loop rounds (closed ts rest) ≡ sorted (closed us rest) false)
      × Perm us ts
      × IsDescending us
      × ((k : ℕ) → of_level k us ≡ of_level k ts)
sort_loop-sorted zero ts rest ne h = absurd (omega arith)
sort_loop-sorted (suc rounds) [] rest ne h = absurd (ne refl)
sort_loop-sorted (suc rounds) (a ∷ ts) rest ne h = elim (Bool-cases (bubble (a ∷ ts)).1) [
  | inl swapped ↦
      let (us, run, p, d, keep) =
        sort_loop-sorted rounds (bubble (a ∷ ts)).0 rest (bubble-ne a ts)
          (ground (arith, inversions-bubble (a ∷ ts))) in
      (
        us,
        sort_loop-again rounds _
              (sweep-bubble a ts rest ∙ ap (sorted (closed (bubble (a ∷ ts)).0 rest)) swapped)
            ∙ run,
        Perm.trans p (bubble-perm (a ∷ ts)),
        d,
        λ k. keep k ∙ of_level-bubble k (a ∷ ts),
      )
  | inr still ↦
      let (same, d) = bubble-still (a ∷ ts) still in
      (
        a ∷ ts,
        sort_loop-done rounds _
            (sweep-bubble a ts rest ∙ ap₂ (λ us b. sorted (closed us rest) b) same still),
        Perm.refl (a ∷ ts),
        d,
        λ k. refl,
      )
]

priority_sort-sorted :
    (rounds : ℕ) (a : Thread) (ts : List Thread) (rest : Nodes)
    → length (a ∷ ts) * length (a ∷ ts) < rounds
    → (us : List Thread) × (priority_sort rounds (closed (a ∷ ts) rest)
        ≡ sorted (closed us rest) false)
      × Perm us (a ∷ ts)
      × IsDescending us
      × ((k : ℕ) → of_level k us ≡ of_level k (a ∷ ts))
unfolding priority_sort
priority_sort-sorted rounds a [] rest h =
    sort_loop-sorted rounds (a ∷ []) rest (cc) (omega (arith, inversions-le (a ∷ [])))
priority_sort-sorted rounds a (b ∷ ts) rest h =
    sort_loop-sorted rounds (a ∷ b ∷ ts) rest (cc) (omega (arith, inversions-le (a ∷ b ∷ ts)))

-- On a list whose walk is stopped by a node with no thread, `prioritySort` ends within n * n + 1 passes
-- for n threads, and leaves the same threads in an order of falling priority. The nodes from the one
-- with no thread on stay as they were.
pub priority_sort_lem :
    (rounds : ℕ) (a : Thread) (ts : List Thread) (rest : Nodes)
    → length (a ∷ ts) * length (a ∷ ts) < rounds
    → (us : List Thread) × (priority_sort rounds (closed (a ∷ ts) rest)
        ≡ sorted (closed us rest) false)
      × Perm us (a ∷ ts)
      × IsDescending us
priority_sort_lem rounds a ts rest h =
    let (us, run, p, d, keep) = priority_sort-sorted rounds a ts rest h in (us, run, p, d)

-- The threads of each priority in their old order, the highest first.
abbrev pub by_priority : List Thread → List Thread
by_priority ts = of_level 2 ts ++ of_level 1 ts ++ of_level 0 ts

IsDescending-tail : (a : Thread) (us : List Thread) → IsDescending (a ∷ us) → IsDescending us
IsDescending-tail a [] d = tt
IsDescending-tail a (b ∷ us) d = d.1

-- Behind a thread no thread of a falling list has a higher priority.
above :
    (k : ℕ) (a : Thread) (us : List Thread)
    → IsDescending (a ∷ us)
    → level a < k
    → of_level k us ≡ []
unfolding of_level
above k a [] d h = refl
above k a (b ∷ us) d h = ground (arith, above k b us)

by_priority-eq : (us : List Thread) → IsDescending us → us ≡ by_priority us
unfolding of_level
by_priority-eq [] d = refl
by_priority-eq (a ∷ us) d = go a.priority refl (by_priority-eq us (IsDescending-tail a us d))
  where
    go : (p : ThreadPriority) → a.priority ≡ p → us ≡ by_priority us → a ∷ us ≡ by_priority (a ∷ us)
    go priority_high e tail = ground (arith, tail)
    go priority_medium e tail = ground (arith, tail, above 2 a us d)
    go priority_low e tail = ground (arith, tail, above 2 a us d, above 1 a us d)

-- On a list whose walk is stopped by a node with no thread, `prioritySort` ends within n * n + 1 passes
-- for n threads with the stable sort of the threads: those of high priority first, then those of medium,
-- then those of low, each in the order in which they stood. The nodes from the one with no thread on
-- stay as they were.
pub priority_sort-by_priority :
    (rounds : ℕ) (a : Thread) (ts : List Thread) (rest : Nodes)
    → length (a ∷ ts) * length (a ∷ ts) < rounds
    → priority_sort rounds (closed (a ∷ ts) rest)
      ≡ sorted (closed (by_priority (a ∷ ts)) rest) false
priority_sort-by_priority rounds a ts rest h =
    let (us, run, p, d, keep) = priority_sort-sorted rounds a ts rest h in
    let same : us ≡ by_priority (a ∷ ts) = by_priority-eq us d ∙ rw (keep 2, keep 1, keep 0) refl in
    run ∙ ap (λ l. sorted (closed l rest) false) same

sweep-open : (a : Thread) (ts : List Thread) → sweep (map some (a ∷ ts)) ≡ fault
unfolding sweep
sweep-open a [] = refl
sweep-open a (b ∷ ts) = ground (arith, sweep-open a ts, sweep-open b ts)

-- On a list of two or more threads that ends in `nullptr` alone, as `addThreadToList` builds it, the walk
-- runs past the last node: `prioritySort` always faults.
pub priority_sort-open :
    (rounds : ℕ) (a b : Thread) (ts : List Thread)
    → priority_sort (suc rounds) (map some (a ∷ b ∷ ts)) ≡ fault
unfolding priority_sort
priority_sort-open rounds a b ts = sort_loop-fault rounds _ (sweep-open a (b ∷ ts))
