-- ===== src/Checks/Dispatches.antt =====
-- kernel/scheduler/scheduler.cpp and kernel/idt/isr.cpp with two threads.
use optimist_os.Common.{ℕ, ◌+◌, ◌≡◌, refl, arith, [], ◌∷◌}
use optimist_os.Lock.{lock, unlock}
use optimist_os.Scheduler.Thread.{Thread, CpuRegs, priority_high, thread_ready}
use optimist_os.Process.Threads.{get_next_thread, get_thread_list, next_of}
use optimist_os.Scheduler.Run.{
  Scheduler, spinning, switched, is_idle, take_first, choose_thread, take_next, save_running,
  start_regs, dispatched, switch_locked, switch_to, run_thread, count_tick, end_tick, pit_handler,
  finish, run_next, scheduler_wrapper,
}
use optimist_os.Scheduler.Run.Laws.{pit_handler-again, scheduler_wrapper-ready}

abbrev no_regs : CpuRegs
no_regs = record {
  r15 = 0;
  r14 = 0;
  r13 = 0;
  r12 = 0;
  r11 = 0;
  r10 = 0;
  r9 = 0;
  r8 = 0;
  rbp = 0;
  rdi = 0;
  rsi = 0;
  rdx = 0;
  rcx = 0;
  rbx = 0;
  rax = 0;
  core = 0;
  int_no = 0;
  err = 0;
  rip = 0;
  cs = 0x28;
  e_flags = 0x202;
  rsp = 0x8000;
  ss = 0x30;
}

abbrev thread_at : ℕ → Thread
thread_at a = record {
  thread_id = a;
  regs = no_regs;
  priority = priority_high;
  stack_address = 0;
  cpu_id = 0;
  kernel_stack = 0;
  entry_point = 0x400000;
  state = thread_ready;
  parent_process = 0x700;
  lock = 0;
}

abbrev two_threads : Scheduler
two_threads = record {
  process_head = 0x900;
  thread_head = 0x100 ∷ 0x200 ∷ [];
  thread_count = 2;
  running_thread = 0;
  threads = thread_at;
  cr3 = 0;
  lockx = 0;
  pit_ticks = 0;
  cpus_started = 1;
}

abbrev wrapper : ℕ
wrapper = 0x300000

abbrev pml4_of : ℕ → ℕ
pml4_of p = p + 0x1000

abbrev ticked : Scheduler
ticked = dispatched 1 wrapper pml4_of (record (count_tick 1 two_threads) { running_thread = 0x100 })

first_tick :
    pit_handler 1 wrapper pml4_of no_regs two_threads
    ≡ switched (start_regs wrapper (thread_at 0x100)) ticked
unfolding pit_handler lock run_thread is_idle choose_thread take_first switch_to switch_locked
    count_tick end_tick
first_tick = refl

-- Later, on another page map.
abbrev ticked_later : Scheduler
ticked_later = record ticked { cr3 = 0x9000 }

pit_handler-again_example :
    pit_handler 1000 wrapper pml4_of no_regs ticked_later ≡ spinning ticked_later
pit_handler-again_example =
    pit_handler-again 1 wrapper pml4_of no_regs (start_regs wrapper (thread_at 0x100)) two_threads
      ticked first_tick 1000 no_regs ticked_later refl

abbrev running : Scheduler
running = record two_threads { running_thread = 0x100 }

abbrev next : Scheduler
next =
    dispatched 1 wrapper pml4_of
      (record (save_running no_regs (finish running)) { running_thread = 0x200 })

ended_thread :
    scheduler_wrapper 1 wrapper pml4_of (λ s. s) running
    ≡ switched (start_regs wrapper (thread_at 0x200)) next
unfolding scheduler_wrapper run_next finish unlock get_next_thread get_thread_list next_of
    run_thread is_idle choose_thread take_next save_running switch_to switch_locked lock dispatched
    start_regs
ended_thread = refl

scheduler_wrapper-ready_example : (next.threads 0x100).state ≡ thread_ready
unfolding dispatched save_running
scheduler_wrapper-ready_example =
    scheduler_wrapper-ready 1 wrapper pml4_of (λ s. s) running next
      (start_regs wrapper (thread_at 0x200)) (λ e. omega arith) ended_thread (λ e. omega arith)
