-- ===== src/Scheduler/Run.antt =====
-- `runThread`, `schedulerWrapper` and `getProcessorCount` of kernel/scheduler/scheduler.cpp, and `pitHandler`
-- of kernel/idt/isr.cpp. A thread is an object at an address. `contextSwitch` ends in `iretq`, so what
-- stands behind its calls is not reached: a run that gets there ends in the registers that it loads.
pub mod Choice
pub mod Laws
pub mod Start
use optimist_os.Common.{
  ℕ, ◌+◌, ◌==◌, Bool, true, Option, none, some, List, [], ◌∷◌, map, ◌||◌, if◌then◌else◌, u64, sub64,
}
use optimist_os.Lock as Lock
use optimist_os.Lock.{unlock}
use optimist_os.Scheduler.Thread.{Thread, CpuRegs, thread_ready, thread_running, thread_suspended}
use optimist_os.Process.Threads.{ThreadRef, Threads, get_next_thread}
use optimist_os.Process.Threads as Threads

-- The globals of process.cpp, scheduler.cpp and isr.cpp, the thread objects, and the processor's cr3. The
-- list of threads holds their addresses.
pub record Scheduler : Type 0 where
  pub process_head : ℕ
  pub thread_head : List ℕ
  pub thread_count : ℕ
  pub running_thread : ℕ
  pub threads : ℕ → Thread
  pub cr3 : ℕ
  pub lockx : ℕ
  pub pit_ticks : ℕ
  pub cpus_started : ℕ

-- How a run ends: it returns, it loads registers and goes on in another thread, it waits at a lock after
-- all its rounds, or it dereferences `nullptr`.
pub data Dispatch : Type 0 where
  returned : Scheduler → Dispatch
  switched : CpuRegs → Scheduler → Dispatch
  spinning : Scheduler → Dispatch
  fault : Dispatch

abbrev pub update : Scheduler → ℕ → (Thread → Thread) → Scheduler
update s a f = record s { threads = λ x. if x == a then f (s.threads x) else s.threads x }

abbrev pub ref : Scheduler → ℕ → ThreadRef
ref s a = record { address = a; thread_id = (s.threads a).thread_id }

abbrev pub refs : Scheduler → Threads
refs s = map (ref s) s.thread_head

-- The early return.
unfoldable pub is_idle : Scheduler → Bool
is_idle s = elim s.thread_head [
  | [] ↦ true
  | a ∷ rest ↦ s.process_head == 0 || a == 0 || s.thread_count == 0
]

-- `runningThread = threadHead->threadInfo`
unfoldable pub take_first : Scheduler → Scheduler
take_first s = elim s.thread_head [ [] ↦ s | a ∷ rest ↦ record s { running_thread = a } ]

-- The thread that `getNextThread` gives. For a node without a thread, the call of `runThread` from within
-- finds `runningThread` at `nullptr` and takes the first.
unfoldable pub take_next : Scheduler → Threads.Outcome ThreadRef → Option Scheduler
take_next s (Threads.done t) = some (
    if t.address == 0
    then take_first (record s { running_thread = 0 })
    else record s { running_thread = t.address })
take_next s Threads.fault = none
take_next s Threads.spinning = none

-- `runningThread->regs = *regs; runningThread->state = THREAD_READY`
unfoldable pub save_running : CpuRegs → Scheduler → Scheduler
save_running regs s =
    update s s.running_thread (λ t. record t { regs = regs; state = thread_ready })

unfoldable pub choose_thread : CpuRegs → Scheduler → Option Scheduler
choose_thread regs s =
    if s.running_thread == 0
    then some (take_first s)
    else take_next (save_running regs s)
        (get_next_thread (ref (save_running regs s) s.running_thread) (refs (save_running regs s)))

-- The registers that the thread is given; their copy into the interrupted frame is left out. `wrapper` is the address of `schedulerWrapper`.
unfoldable pub start_regs : ℕ → Thread → CpuRegs
start_regs wrapper t = record t.regs { rdi = t.entry_point; rip = wrapper }

-- The state at `contextSwitch`, for the word in the thread's lock: `pml4_of` reads the page map of a process.
unfoldable pub dispatched : ℕ → ℕ → (ℕ → ℕ) → Scheduler → Scheduler
dispatched word wrapper pml4_of s =
    record (update s s.running_thread
      (λ t. record t { lock = word; state = thread_running; regs = start_regs wrapper t })) {
        cr3 = pml4_of (s.threads s.running_thread).parent_process;
      }

-- Behind `lock`, for the word that it leaves, to `contextSwitch`.
unfoldable pub switch_locked : Option ℕ → ℕ → (ℕ → ℕ) → Scheduler → Dispatch
switch_locked none wrapper pml4_of s = spinning s
switch_locked (some word) wrapper pml4_of s =
    if (s.threads s.running_thread).parent_process == 0
    then fault
    else switched (start_regs wrapper (s.threads s.running_thread))
        (dispatched word wrapper pml4_of s)

unfoldable pub switch_to : ℕ → ℕ → (ℕ → ℕ) → Scheduler → Dispatch
switch_to rounds wrapper pml4_of s =
    switch_locked (Lock.lock rounds (s.threads s.running_thread).lock) wrapper pml4_of s

unfoldable pub run_thread : ℕ → ℕ → (ℕ → ℕ) → CpuRegs → Scheduler → Dispatch
run_thread rounds wrapper pml4_of regs s =
    if is_idle s
    then returned s
    else elim (choose_thread regs s) [ none ↦ fault | some t ↦ switch_to rounds wrapper pml4_of t ]

-- `++pitTicks` behind `lock(lockx)`.
unfoldable pub count_tick : ℕ → Scheduler → Scheduler
count_tick word s = record s { lockx = word; pit_ticks = u64 (s.pit_ticks + 1) }

-- Only a run that returns gets to `unlock(lockx)`.
unfoldable pub end_tick : Dispatch → Dispatch
end_tick (returned t) = returned (record t { lockx = unlock t.lockx })
end_tick (switched r t) = switched r t
end_tick (spinning t) = spinning t
end_tick fault = fault

unfoldable pub pit_handler : ℕ → ℕ → (ℕ → ℕ) → CpuRegs → Scheduler → Dispatch
pit_handler rounds wrapper pml4_of regs s = elim (Lock.lock rounds s.lockx) [
  | none ↦ spinning s
  | some word ↦ end_tick (run_thread rounds wrapper pml4_of regs (count_tick word s))
]

-- The state behind the call of `func`, which is a parameter, up to the choice of the next thread.
unfoldable pub finish : Scheduler → Scheduler
finish s =
    record (update s s.running_thread
      (λ t. record t { state = thread_suspended; lock = unlock t.lock })) {
        lockx = unlock s.lockx;
        thread_count = sub64 s.thread_count 1;
      }

-- `runThread(&next->regs)`. If it returns, `schedulerWrapper` waits in its last loop: `returned`.
unfoldable pub run_next : ℕ → ℕ → (ℕ → ℕ) → Scheduler → Threads.Outcome ThreadRef → Dispatch
run_next rounds wrapper pml4_of s (Threads.done next) =
    run_thread rounds wrapper pml4_of (s.threads next.address).regs s
run_next rounds wrapper pml4_of s Threads.fault = fault
run_next rounds wrapper pml4_of s Threads.spinning = fault

unfoldable pub scheduler_wrapper : ℕ → ℕ → (ℕ → ℕ) → (Scheduler → Scheduler) → Scheduler → Dispatch
scheduler_wrapper rounds wrapper pml4_of func s =
    let t = finish (func s) in
    run_next rounds wrapper pml4_of t (get_next_thread (ref t t.running_thread) (refs t))

unfoldable pub get_processor_count : Scheduler → ℕ
get_processor_count s = s.cpus_started
