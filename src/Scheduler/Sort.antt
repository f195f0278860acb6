-- ===== src/Scheduler/Sort.antt =====
-- `prioritySort` of kernel/scheduler/scheduler.cpp. A list of nodes is the list of their `threadInfo`
-- pointers, `none` for `nullptr`; the `next` of the last node is `nullptr`.
pub mod Sweep
pub mod Sorted
use optimist_os.Common.{
  ℕ, zero, suc, Bool, true, false, Option, none, some, List, [], ◌∷◌, ltb, if◌then◌else◌,
}
use optimist_os.Scheduler.Thread.{Thread, rank}

abbrev pub Nodes : Type 0
Nodes = List (Option Thread)

-- `fault` is an access through `nullptr`.
pub data Sorting : Type 0 where
  sorted : Nodes → Bool → Sorting
  fault : Sorting
  out_of_rounds : Sorting

-- Puts a node that the walk has passed back in front, and keeps or sets `swapped`.
abbrev pub in_front : Option Thread → Bool → Sorting → Sorting
in_front c swapped (sorted rest b) = sorted (c ∷ rest) (if swapped then true else b)
in_front c swapped fault = fault
in_front c swapped out_of_rounds = out_of_rounds

-- The inner `while` from `currentThread` on, with the final value of `swapped`.
unfoldable pub sweep : Nodes → Sorting
sweep [] = fault
sweep (c ∷ []) = fault
sweep (c ∷ none ∷ rest) = sorted (c ∷ none ∷ rest) false
sweep (none ∷ some b ∷ rest) = fault
sweep (some a ∷ some b ∷ rest) = elim (ltb (rank a.priority) (rank b.priority)) [
  | true ↦ in_front (some b) true (sweep (some a ∷ rest))
  | false ↦ in_front (some a) false (sweep (some b ∷ rest))
]

-- The `do … while (swapped)` loop on fuel.
unfoldable pub sort_loop : ℕ → Nodes → Sorting
sort_loop zero l = out_of_rounds
sort_loop (suc rounds) l = elim (sweep l) [
  | sorted l' true ↦ sort_loop rounds l'
  | sorted l' false ↦ sorted l' false
  | fault ↦ fault
  | out_of_rounds ↦ out_of_rounds
]

unfoldable pub priority_sort : ℕ → Nodes → Sorting
priority_sort rounds [] = sorted [] false
priority_sort rounds (c ∷ []) = sorted (c ∷ []) false
priority_sort rounds (c ∷ d ∷ rest) = sort_loop rounds (c ∷ d ∷ rest)
