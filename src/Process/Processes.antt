-- ===== src/Process/Processes.antt =====
-- `registerProcess`, `removeProcessFromList` and the search of `getProcessInfo` of kernel/process/process.cpp.
pub mod Laws
use optimist_os.Common.{
  ℕ, zero, suc, ◌+◌, ◌*◌, ◌^◌, Bool, true, false, Option, none, some, List, [], ◌∷◌, ◌==◌,
  if◌then◌else◌, u64,
}

pub record ProcessNode : Type 0 where
  pub address : ℕ
  pub process_id : ℕ
  pub thread_count : ℕ

-- `processHead` and `processCount`.
pub record Processes : Type 0 where
  pub head : List ProcessNode
  pub count : ℕ

-- `fault` is an access through `nullptr`.
pub data Access (A : Type 0) : Type 0 where
  done : A → Access A
  fault : Access A

abbrev pub then_done : {A B : Type 0} → Access A → (A → B) → Access B
then_done (done a) f = done (f a)
then_done fault f = fault

-- The node that `setupProcessInfo` fills, at the address that `mallocx` gave.
unfoldable pub setup_process_info : ℕ → Processes → ProcessNode
setup_process_info address ps = record {
  address = address;
  process_id = u64 (7 * ps.count);
  thread_count = 1;
}

-- The walk to the last node, and the write of its `next`.
unfoldable pub link_last : ProcessNode → List ProcessNode → Access (List ProcessNode)
link_last new [] = fault
link_last new (p ∷ []) = done (p ∷ new ∷ [])
link_last new (p ∷ q ∷ rest) = then_done (link_last new (q ∷ rest)) (λ l. p ∷ l)

unfoldable pub register_process : ProcessNode → Processes → Access Processes
register_process new ps =
    if ps.count == 0
    then done (record { head = new ∷ []; count = u64 (ps.count + 1) })
    else then_done (link_last new ps.head) (λ l. record { head = l; count = u64 (ps.count + 1) })

-- The loop of `removeProcessFromList` from the node `pHead` on, with the rounds that are left. The
-- result is what the list is from there on, and what the function returns.
unfoldable pub unlink_process : ℕ → ℕ → List ProcessNode → Access (List ProcessNode × Bool)
unlink_process process zero l = done (l, false)
unlink_process process (suc left) [] = fault
unlink_process process (suc left) (p ∷ []) =
    if process == 0
    then fault
    else then_done (unlink_process process left []) (λ (l, found). (p ∷ l, found))
unlink_process process (suc left) (p ∷ q ∷ rest) = elim (q.address == process) [
  | true ↦ done (p ∷ rest, true)
  | false ↦ then_done (unlink_process process left (q ∷ rest)) (λ (l, found). (p ∷ l, found))
]

-- The loop runs for `i <= processCount`.
unfoldable pub remove_process_from_list : ℕ → Processes → Access (Processes × Bool)
remove_process_from_list process ps =
    then_done (unlink_process process (suc ps.count) ps.head)
      (λ (l, found). (record { head = l; count = ps.count }, found))

-- The walk of `getProcessInfo`: the node that it copies.
unfoldable pub find_process : ℕ → List ProcessNode → Option ProcessNode
find_process process_id [] = none
find_process process_id (p ∷ rest) =
    if p.process_id == process_id then some p else find_process process_id rest
