-- ===== src/Process/Threads.antt =====
-- `addThreadToList`, `removeThreadFromList`, `getThreadInfo`, `getThreadList` and `getNextThread` of
-- kernel/process/process.cpp. Each node holds a pointer to a thread.
pub mod Laws
use optimist_os.Common.{
  ℕ, zero, suc, Bool, true, false, Option, none, some, List, [], ◌∷◌, ◌==◌, if◌then◌else◌,
}

-- The thread that a node points to: its address and its identifier.
pub record ThreadRef : Type 0 where
  pub address : ℕ
  pub thread_id : ℕ

abbrev pub Threads : Type 0
Threads = List ThreadRef

-- `fault` is an access through `nullptr`, `spinning` a loop that has used up its rounds.
pub data Outcome (A : Type 0) : Type 0 where
  done : A → Outcome A
  fault : Outcome A
  spinning : Outcome A

-- With no head the new node becomes the head; else it is linked behind the last one.
unfoldable pub add_thread_to_list : ThreadRef → Threads → Threads
add_thread_to_list new [] = new ∷ []
add_thread_to_list new (t ∷ []) = t ∷ new ∷ []
add_thread_to_list new (t ∷ u ∷ rest) = t ∷ add_thread_to_list new (u ∷ rest)

-- The loop of `removeThreadFromList` from the node `tHead` on. The node behind it is not unlinked: it
-- is given the thread of the node behind itself.
unfoldable pub overwrite_thread : ℕ → ℕ → Threads → Outcome (Threads × Bool)
overwrite_thread thread zero l = done (l, false)
overwrite_thread thread (suc left) [] = fault
overwrite_thread thread (suc left) (t ∷ []) = fault
overwrite_thread thread (suc left) (t ∷ u ∷ []) =
    if u.address == thread then fault else elim (overwrite_thread thread left (u ∷ [])) [
      | done (l, found) ↦ done (t ∷ l, found)
      | fault ↦ fault
      | spinning ↦ spinning
    ]
overwrite_thread thread (suc left) (t ∷ u ∷ v ∷ rest) = elim (u.address == thread) [
  | true ↦ done (t ∷ v ∷ v ∷ rest, true)
  | false ↦ elim (overwrite_thread thread left (u ∷ v ∷ rest)) [
    | done (l, found) ↦ done (t ∷ l, found)
    | fault ↦ fault
    | spinning ↦ spinning
  ]
]

-- The loop runs for `i <= threadToRemove->threadID`.
unfoldable pub remove_thread_from_list : ThreadRef → Threads → Outcome (Threads × Bool)
remove_thread_from_list thread l = overwrite_thread thread.address (suc thread.thread_id) l

-- `tList` never moves in the loop of `getThreadInfo`.
unfoldable pub get_thread_info : ℕ → ℕ → Threads → Outcome (Option ThreadRef)
get_thread_info zero thread_id l = spinning
get_thread_info (suc rounds) thread_id [] = done none
get_thread_info (suc rounds) thread_id (t ∷ rest) = elim (t.thread_id == thread_id) [
  | true ↦ done (some t)
  | false ↦ get_thread_info rounds thread_id (t ∷ rest)
]

-- `getThreadList`: the list from the node that it returns. Both branches of its loop return.
unfoldable pub get_thread_list : ℕ → Threads → Threads
get_thread_list thread_id [] = []
get_thread_list thread_id (t ∷ rest) = if t.thread_id == thread_id then t ∷ rest else rest

-- `getThreadList(currentThread->threadID, true)->next->threadInfo`
unfoldable pub next_of : Threads → Outcome ThreadRef
next_of [] = fault
next_of (t ∷ []) = fault
next_of (t ∷ u ∷ rest) = done u

unfoldable pub get_next_thread : ThreadRef → Threads → Outcome ThreadRef
get_next_thread current l = next_of (get_thread_list current.thread_id l)
