-- ===== src/Process/Processes/Laws.antt =====
-- What the list functions of kernel/process/process.cpp do to the list of processes.
use optimist_os.Common.{
  ℕ, zero, suc, ◌+◌, ◌^◌, ◌≤◌, ◌<◌, ◌≡◌, refl, arith, Bool, true, false, false≢true, List, [], ◌∷◌,
  ◌++◌, ◌==◌, if◌then◌else◌, length, u64,
}
use optimist_os.Process.Processes.{
  ProcessNode, Processes, done, fault, link_last, register_process, unlink_process,
  remove_process_from_list,
}

link_last-append :
    (new p : ProcessNode) (l : List ProcessNode)
    → link_last new (p ∷ l) ≡ done ((p ∷ l) ++ new ∷ [])
unfolding link_last
link_last-append new p [] = refl
link_last-append new p (q ∷ l) = rw (link_last-append new q l)

-- The count is that of the list, and below its wrap.
pub record IsCounted (ps : Processes) : Type 0 where
  pub count : ps.count ≡ length ps.head
  pub small : ps.count + 1 < 2 ^ 64

length-snoc : (l : List ProcessNode) (new : ProcessNode) → length (l ++ new ∷ []) ≡ length l + 1
length-snoc [] new = omega arith
length-snoc (p ∷ l) new = omega (arith, length-snoc l new)

-- With a count that is the list's length, `registerProcess` puts the process behind the last one and
-- counts it, on the empty list too.
pub register_process_lem :
    (new : ProcessNode) {ps : Processes}
    → IsCounted ps
    → (qs : Processes) × (register_process new ps ≡ done qs)
      × (qs.head ≡ ps.head ++ new ∷ [])
      × (qs.count ≡ length qs.head)
unfolding register_process
register_process_lem new {ps} v = go ps.head refl
  where
    go :
        (l : List ProcessNode)
        → ps.head ≡ l
        → (qs : Processes) × (register_process new ps ≡ done qs)
          × (qs.head ≡ ps.head ++ new ∷ [])
          × (qs.count ≡ length qs.head)
    go [] e = (
      record { head = new ∷ []; count = u64 (ps.count + 1) },
      ground arith,
      ground arith,
      ground arith,
    )
    go (p ∷ l) e = (
      record { head = ps.head ++ new ∷ []; count = u64 (ps.count + 1) },
      ground (arith, link_last-append new p l),
      refl,
      ground (arith, length-snoc ps.head new),
    )

-- Whether a node of the list stands at the address, and the list without the first such node.
unfoldable pub has : ℕ → List ProcessNode → Bool
has process [] = false
has process (p ∷ l) = if p.address == process then true else has process l

unfoldable pub erase : ℕ → List ProcessNode → List ProcessNode
erase process [] = []
erase process (p ∷ l) = if p.address == process then l else p ∷ erase process l

unlink_process-erase :
    (process left : ℕ) (p : ProcessNode) (l : List ProcessNode)
    → has process l ≡ true
    → length l ≤ left
    → unlink_process process (suc left) (p ∷ l) ≡ done (p ∷ erase process l, true)
unfolding unlink_process has erase
unlink_process-erase process left p [] h e = absurd (false≢true h)
unlink_process-erase process zero p (q ∷ l) h e = absurd (omega arith)
unlink_process-erase process (suc left) p (q ∷ l) h e =
    ground (arith, unlink_process-erase process left q l)

unlink_process-fault :
    (process left : ℕ) (p : ProcessNode) (l : List ProcessNode)
    → has process l ≡ false
    → length l < left
    → unlink_process process (suc left) (p ∷ l) ≡ fault
unfolding unlink_process has
unlink_process-fault process zero p l h e = absurd (omega arith)
unlink_process-fault process (suc left) p [] h e = ground arith
unlink_process-fault process (suc left) p (q ∷ l) h e =
    ground (arith, unlink_process-fault process left q l)

-- With a count that is the list's length, `removeProcessFromList` of a process behind the head
-- unlinks the first node with its address there and returns true; it does not change the count.
pub remove_process_lem :
    (process count : ℕ) (p : ProcessNode) (l : List ProcessNode)
    → IsCounted (record { head = p ∷ l; count = count })
    → has process l ≡ true
    → remove_process_from_list process (record { head = p ∷ l; count = count })
      ≡ done (record { head = p ∷ erase process l; count = count }, true)
unfolding remove_process_from_list
remove_process_lem process count p l v h =
    rw (unlink_process-erase process count p l h (omega (arith, v.count)))

-- With a count that is the list's length, for a process that is not behind the head, the head
-- itself among them, `removeProcessFromList` runs past the end of the list instead of returning
-- false.
pub remove_process_missing :
    (process count : ℕ) (p : ProcessNode) (l : List ProcessNode)
    → IsCounted (record { head = p ∷ l; count = count })
    → has process l ≡ false
    → remove_process_from_list process (record { head = p ∷ l; count = count }) ≡ fault
unfolding remove_process_from_list
remove_process_missing process count p l v h =
    rw (unlink_process-fault process count p l h (omega (arith, v.count)))

-- With a count that is the list's length, `removeProcessFromList` of a process behind the head unlinks the
-- first node with its address there, returns true, and leaves the count; for every other process, the head
-- itself among them, it runs past the end of the list instead of returning false.
pub remove_process_cases :
    (process count : ℕ) (p : ProcessNode) (l : List ProcessNode)
    → IsCounted (record { head = p ∷ l; count = count })
    → (has process l ≡ true
        → remove_process_from_list process (record { head = p ∷ l; count = count })
          ≡ done (record { head = p ∷ erase process l; count = count }, true))
      × (has process l ≡ false
          → remove_process_from_list process (record { head = p ∷ l; count = count }) ≡ fault)
remove_process_cases process count p l v =
    (remove_process_lem process count p l v, remove_process_missing process count p l v)
