-- ===== src/Scheduler/Run/Choice.antt =====
-- What `runThread` of kernel/scheduler/scheduler.cpp chooses, and what a dispatch to a thread writes.
use optimist_os.Common.{
  ℕ, zero, suc, ◌≡◌, ◌≢◌, ◌⊎◌, ◌∙◌, refl, sym, ap, subst, arith, some, none, ◌∷◌, [], List, inl,
  inr, ◌==◌, Bool-cases, Option-cases, ne→==, eq→==, ℕ_discrete, Option,
}
use optimist_os.Lock as Lock
use optimist_os.Lock.{unlock}
use optimist_os.Scheduler.Thread.{Thread, CpuRegs}
use optimist_os.Process.Threads.{ThreadRef, get_next_thread}
use optimist_os.Process.Threads as Threads
use optimist_os.Scheduler.Run.{
  Scheduler, Dispatch, returned, switched, spinning, fault, is_idle, take_first, start_regs,
  dispatched, save_running, take_next, choose_thread, switch_locked, switch_to, run_thread,
}

pub lock-taken : (rounds word w : ℕ) → Lock.lock rounds word ≡ some w → w ≡ 1
unfolding Lock.lock
lock-taken zero word w h = absurd (cc)
lock-taken (suc rounds) word w h = ground (arith, lock-taken rounds 1 w)

switch_locked-cases :
    (o : Option ℕ) (wrapper : ℕ) (pml4_of : ℕ → ℕ) (s : Scheduler)
    → ((word : ℕ) → o ≡ some word → word ≡ 1)
    → (switch_locked o wrapper pml4_of s
        ≡ switched
            (start_regs wrapper (s.threads s.running_thread))
            (dispatched 1 wrapper pml4_of s))
      ⊎ (switch_locked o wrapper pml4_of s ≡ spinning s)
      ⊎ (switch_locked o wrapper pml4_of s ≡ fault)
unfolding switch_locked
switch_locked-cases none wrapper pml4_of s one = inr (inl refl)
switch_locked-cases (some word) wrapper pml4_of s one =
    elim (Bool-cases ((s.threads s.running_thread).parent_process == 0)) [
      | inl orphan ↦ inr (inr (rw orphan refl))
      | inr owned ↦ inl (rw (owned, one word refl) refl)
    ]

-- The state of a dispatch.
after : Scheduler → Dispatch → Scheduler
after d (returned s) = d
after d (switched r s) = s
after d (spinning s) = d
after d fault = d

switch_to-switched :
    (rounds wrapper : ℕ) (pml4_of : ℕ → ℕ) (s t : Scheduler) (r : CpuRegs)
    → switch_to rounds wrapper pml4_of s ≡ switched r t
    → t ≡ dispatched 1 wrapper pml4_of s
unfolding after switch_to
switch_to-switched rounds wrapper pml4_of s t r h =
    elim (switch_locked-cases (Lock.lock rounds (s.threads s.running_thread).lock) wrapper pml4_of s
      (lock-taken rounds (s.threads s.running_thread).lock)) [
        | inl e ↦ ap (after s) (sym h ∙ e)
        | inr (inl e) ↦ absurd (cc)
        | inr (inr e) ↦ absurd (cc)
      ]

pub run_thread-switched :
    (rounds wrapper : ℕ) (pml4_of : ℕ → ℕ) (regs r : CpuRegs) (s t : Scheduler)
    → run_thread rounds wrapper pml4_of regs s ≡ switched r t
    → (u : Scheduler) × (choose_thread regs s ≡ some u) × (t ≡ dispatched 1 wrapper pml4_of u)
unfolding run_thread
run_thread-switched rounds wrapper pml4_of regs r s t h = elim (Bool-cases (is_idle s)) [
  | inl idle ↦ absurd (cc)
  | inr busy ↦ elim (Option-cases (choose_thread regs s)) [
    | inl off ↦ absurd (cc)
    | inr (u, chosen) ↦ (u, chosen, switch_to-switched rounds wrapper pml4_of u t r (cc))
  ]
]

-- The choice of a thread writes `runningThread` and nothing else.
take_first_rest :
    (s : Scheduler) → ((take_first s).lockx ≡ s.lockx) × ((take_first s).threads ≡ s.threads)
unfolding take_first
take_first_rest s = go s.thread_head
  where
    first : List ℕ → Scheduler
    first l = elim l [ [] ↦ s | a ∷ rest ↦ record s { running_thread = a } ]

    go : (l : List ℕ) → ((first l).lockx ≡ s.lockx) × ((first l).threads ≡ s.threads)
    go [] = (refl, refl)
    go (a ∷ l) = (refl, refl)

-- What is chosen, if anything, has the lock word and the threads.
unfoldable pub HasRest : ℕ → (ℕ → Thread) → Option Scheduler → Type 0
HasRest word threads none = Unit
HasRest word threads (some u) = (u.lockx ≡ word) × (u.threads ≡ threads)

take_next-HasRest :
    (s : Scheduler) (o : Threads.Outcome ThreadRef) → HasRest s.lockx s.threads (take_next s o)
unfolding take_next HasRest
take_next-HasRest s (Threads.done t) = elim (Bool-cases (t.address == 0)) [
  | inl null ↦ rw null (take_first_rest (record s { running_thread = 0 }))
  | inr found ↦ rw found (refl, refl)
]
take_next-HasRest s Threads.fault = tt
take_next-HasRest s Threads.spinning = tt

-- With a thread running, its registers and its state are written first.
pub choose_thread-HasRest :
    (regs : CpuRegs) (s : Scheduler)
    → (s.running_thread ≡ 0 → HasRest s.lockx s.threads (choose_thread regs s))
      × (s.running_thread ≢ 0
          → HasRest s.lockx (save_running regs s).threads (choose_thread regs s))
unfolding choose_thread HasRest save_running
choose_thread-HasRest regs s = (
  λ none_yet. rw (eq→== s.running_thread 0 none_yet) (take_first_rest s),
  λ running. rw (ne→== s.running_thread 0 running) (take_next-HasRest (save_running regs s) _),
)

pub choose_thread-lockx :
    (regs : CpuRegs) (s u : Scheduler) → choose_thread regs s ≡ some u → u.lockx ≡ s.lockx
unfolding HasRest
choose_thread-lockx regs s u chosen = elim (ℕ_discrete s.running_thread 0) [
  | yes e ↦ (subst (HasRest s.lockx s.threads) chosen ((choose_thread-HasRest regs s).0 e)).0
  | no ne ↦
      (subst (HasRest s.lockx (save_running regs s).threads) chosen
        ((choose_thread-HasRest regs s).1 ne)).0
]
