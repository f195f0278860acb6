-- ===== src/Checks/Lists.antt =====
-- kernel/scheduler, kernel/process and kernel/printutils/e9print.cpp at concrete inputs.
use mathlib.Core.List.{Perm}
use optimist_os.Common.{ℕ, ◌<◌, ◌≡◌, ◌≢◌, arith, false, some, List, [], ◌∷◌, map}
use optimist_os.Scheduler.Thread.{
  ThreadPriority, priority_low, priority_medium, priority_high, thread_ready, CpuRegs, Thread, rank,
  get_quanta, change_priority, change_priority_lem,
}
use optimist_os.Scheduler.Sort.{sorted, priority_sort}
use optimist_os.Scheduler.Sort as Sort
use optimist_os.Scheduler.Sort.Sweep.{closed, IsDescending}
use optimist_os.Scheduler.Sort.Sorted.{
  priority_sort_lem, by_priority, priority_sort-by_priority, priority_sort-open,
}

change_priority_lem_example :
    (change_priority priority_low ≢ priority_low)
    × (change_priority (change_priority (change_priority priority_low)) ≡ priority_low)
    × (rank priority_low < 2 → get_quanta priority_low < get_quanta (change_priority priority_low))
change_priority_lem_example = change_priority_lem priority_low

abbrev no_regs : CpuRegs
no_regs = record {
  r15 = 0;
  r14 = 0;
  r13 = 0;
  r12 = 0;
  r11 = 0;
  r10 = 0;
  r9 = 0;
  r8 = 0;
  rbp = 0;
  rdi = 0;
  rsi = 0;
  rdx = 0;
  rcx = 0;
  rbx = 0;
  rax = 0;
  core = 0;
  int_no = 0;
  err = 0;
  rip = 0;
  cs = 0;
  e_flags = 0;
  rsp = 0;
  ss = 0;
}

abbrev thread : ℕ → ThreadPriority → Thread
thread n p = record {
  thread_id = n;
  regs = no_regs;
  priority = p;
  stack_address = 0;
  cpu_id = 0;
  kernel_stack = 0;
  entry_point = 0;
  state = thread_ready;
  parent_process = 0;
  lock = 0;
}

abbrev three : List Thread
three = thread 7 priority_medium ∷ thread 14 priority_high ∷ []

priority_sort_lem_example :
    (us : List Thread) × (priority_sort 10 (closed (thread 0 priority_low ∷ three) [])
      ≡ sorted (closed us []) false)
    × Perm us (thread 0 priority_low ∷ three)
    × IsDescending us
priority_sort_lem_example = priority_sort_lem 10 (thread 0 priority_low) three [] (omega arith)

priority_sort-by_priority_example :
    priority_sort 10 (closed (thread 0 priority_low ∷ three) [])
    ≡ sorted (closed (by_priority (thread 0 priority_low ∷ three)) []) false
priority_sort-by_priority_example =
    priority_sort-by_priority 10 (thread 0 priority_low) three [] (omega arith)

priority_sort-open_example :
    priority_sort 10 (map some (thread 0 priority_low ∷ three)) ≡ Sort.fault
priority_sort-open_example =
    priority_sort-open 9 (thread 0 priority_low) (thread 7 priority_medium)
      (thread 14 priority_high ∷ [])
