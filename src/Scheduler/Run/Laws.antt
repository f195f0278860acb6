-- ===== src/Scheduler/Run/Laws.antt =====
-- How a thread starts, and what a dispatch leaves behind, in kernel/scheduler/scheduler.cpp and
-- kernel/idt/isr.cpp.
use optimist_os.Common.{
  ℕ, suc, ◌≡◌, ◌≢◌, ◌∙◌, refl, sym, ap, subst, arith, false, ◌∷◌, List, inl, inr, Option-cases,
  ne→==, eq→==,
}
use optimist_os.Lock as Lock
use optimist_os.Lock.{unlock}
use optimist_os.Lock.Alone.{lock_lem}
use optimist_os.Scheduler.Thread.{CpuRegs, thread_ready, thread_running}
use optimist_os.Process.Threads.{ThreadRef, get_next_thread}
use optimist_os.Process.Threads as Threads
use optimist_os.Scheduler.Run.{
  Scheduler, Dispatch, returned, switched, spinning, fault, is_idle, take_first, start_regs,
  dispatched, save_running, choose_thread, switch_locked, switch_to, run_thread, count_tick,
  end_tick, pit_handler, finish, run_next, scheduler_wrapper,
}
use optimist_os.Scheduler.Run.Choice.{
  lock-taken, run_thread-switched, HasRest, choose_thread-HasRest, choose_thread-lockx,
}

end_tick-switched :
    (d : Dispatch) (r : CpuRegs) (t : Scheduler) → end_tick d ≡ switched r t → d ≡ switched r t
unfolding end_tick
end_tick-switched (returned u) r t h = absurd (cc)
end_tick-switched (switched r' u) r t h = h
end_tick-switched (spinning u) r t h = absurd (cc)
end_tick-switched fault r t h = absurd (cc)

-- When `pitHandler` has switched to a thread, it has left `lockx` locked: in every later state in which
-- `lockx` still has the value that this switch left, `pitHandler` waits at it forever and changes nothing,
-- whatever the registers.
pub pit_handler-again :
    (rounds wrapper : ℕ) (pml4_of : ℕ → ℕ) (regs r : CpuRegs) (s t : Scheduler)
    → pit_handler rounds wrapper pml4_of regs s ≡ switched r t
    → (later : ℕ) (regs' : CpuRegs) (u : Scheduler) → u.lockx ≡ t.lockx
    → pit_handler later wrapper pml4_of regs' u ≡ spinning u
unfolding pit_handler dispatched count_tick
pit_handler-again rounds wrapper pml4_of regs r s t h later regs' v stays =
    elim (Option-cases (Lock.lock rounds s.lockx)) [
      | inl held ↦ absurd (cc)
      | inr (word, taken) ↦
          let (u, chosen, same) =
            run_thread-switched rounds wrapper pml4_of regs r (count_tick word s) t
              (end_tick-switched _ r t (cc)) in
          let kept : u.lockx ≡ word = choose_thread-lockx regs (count_tick word s) u chosen in
          let held : v.lockx ≡ 1 =
            stays
            ∙ ap (λ (x : Scheduler). x.lockx) same
            ∙ kept
            ∙ lock-taken rounds s.lockx word taken in
          rw ((lock_lem later v.lockx).1 (λ e. omega arith), pit_handler) refl
    ]

-- With no thread running yet and a list whose first thread has a free lock and a process, `runThread`
-- switches to that thread: it starts in `schedulerWrapper` with the thread's entry point as the argument
-- and the thread's own other registers, on the page map of its process, marked as running and locked.
pub run_thread-first :
    (rounds wrapper : ℕ) (pml4_of : ℕ → ℕ) (regs : CpuRegs) (s : Scheduler) (a : ℕ) (rest : List ℕ)
    → s.thread_head ≡ a ∷ rest
    → is_idle s ≡ false
    → s.running_thread ≡ 0
    → (s.threads a).lock ≡ 0
    → (s.threads a).parent_process ≢ 0
    → (r : CpuRegs) × (t : Scheduler) × (run_thread (suc rounds) wrapper pml4_of regs s
        ≡ switched r t)
      × (r ≡ record (s.threads a).regs { rdi = (s.threads a).entry_point; rip = wrapper })
      × (t.running_thread ≡ a)
      × (t.threads a ≡ record (s.threads a) { lock = 1; state = thread_running; regs = r })
      × (t.cr3 ≡ pml4_of (s.threads a).parent_process)
unfolding run_thread choose_thread take_first switch_to switch_locked dispatched start_regs
run_thread-first rounds wrapper pml4_of regs s a rest head busy idle free owned =
    let chosen : take_first s ≡ record s { running_thread = a } = rw head refl in
    (
      start_regs wrapper (s.threads a),
      dispatched 1 wrapper pml4_of (record s { running_thread = a }),
      rw
          (
            busy,
            eq→== s.running_thread 0 idle,
            chosen,
            free,
            (lock_lem rounds 0).0,
            ne→== (s.threads a).parent_process 0 owned,
          )
          refl,
      refl,
      refl,
      rw (eq→== a a refl) refl,
      refl,
    )

run_next-switched :
    (rounds wrapper : ℕ) (pml4_of : ℕ → ℕ) (s t : Scheduler) (r : CpuRegs)
    (o : Threads.Outcome ThreadRef)
    → run_next rounds wrapper pml4_of s o ≡ switched r t
    → (regs : CpuRegs) × (run_thread rounds wrapper pml4_of regs s ≡ switched r t)
unfolding run_next
run_next-switched rounds wrapper pml4_of s t r (Threads.done next) h =
    ((s.threads next.address).regs, h)
run_next-switched rounds wrapper pml4_of s t r Threads.fault h = absurd (cc)
run_next-switched rounds wrapper pml4_of s t r Threads.spinning h = absurd (cc)

-- When the function of a thread has returned and `schedulerWrapper` switches to another thread, the thread
-- that has ended is marked as ready again, for `runThread` saves the next thread's registers in it and
-- resets its state: an ended thread is not told from one that waits for its turn.
pub scheduler_wrapper-ready :
    (rounds wrapper : ℕ) (pml4_of : ℕ → ℕ) (func : Scheduler → Scheduler) (s u : Scheduler)
    (r : CpuRegs)
    → (func s).running_thread ≢ 0
    → scheduler_wrapper rounds wrapper pml4_of func s ≡ switched r u
    → u.running_thread ≢ (func s).running_thread
    → (u.threads (func s).running_thread).state ≡ thread_ready
unfolding scheduler_wrapper dispatched finish save_running HasRest
scheduler_wrapper-ready rounds wrapper pml4_of func s u r running h other =
    let t = finish (func s) in
    let a : ℕ = (func s).running_thread in
    let (regs, run) = run_next-switched rounds wrapper pml4_of t u r _ h in
    let (v, chosen, same) = run_thread-switched rounds wrapper pml4_of regs r t u run in
    let rest =
      subst (HasRest t.lockx (save_running regs t).threads) chosen
        ((choose_thread-HasRest regs t).1 running) in
    let moved : a ≢ v.running_thread =
      λ e. other (ap (λ (x : Scheduler). x.running_thread) same ∙ sym e) in
    ap (λ (x : Scheduler). (x.threads a).state) same
    ∙ rw (ne→== a v.running_thread moved, rest.1, eq→== a a refl) refl
