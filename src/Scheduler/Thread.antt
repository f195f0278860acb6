-- ===== src/Scheduler/Thread.antt =====
-- The types of kernel/scheduler/schedulerDecls.hpp, `getQuanta` and `changePriority` of scheduler.cpp.
use optimist_os.Common.{ℕ, ◌≡◌, ◌≢◌, ◌<◌, arith}

pub data ThreadPriority : Type 0 where
  priority_low priority_medium priority_high : ThreadPriority

pub data ThreadState : Type 0 where
  thread_ready thread_running thread_suspended : ThreadState

pub record CpuRegs : Type 0 where
  pub r15 : ℕ
  pub r14 : ℕ
  pub r13 : ℕ
  pub r12 : ℕ
  pub r11 : ℕ
  pub r10 : ℕ
  pub r9 : ℕ
  pub r8 : ℕ
  pub rbp : ℕ
  pub rdi : ℕ
  pub rsi : ℕ
  pub rdx : ℕ
  pub rcx : ℕ
  pub rbx : ℕ
  pub rax : ℕ
  pub core : ℕ
  pub int_no : ℕ
  pub err : ℕ
  pub rip : ℕ
  pub cs : ℕ
  pub e_flags : ℕ
  pub rsp : ℕ
  pub ss : ℕ

-- A pointer is an address.
pub record Thread : Type 0 where
  pub thread_id : ℕ
  pub regs : CpuRegs
  pub priority : ThreadPriority
  pub stack_address : ℕ
  pub cpu_id : ℕ
  pub kernel_stack : ℕ
  pub entry_point : ℕ
  pub state : ThreadState
  pub parent_process : ℕ
  pub lock : ℕ

-- The value of the enumerator, by which `<` compares.
abbrev pub rank : ThreadPriority → ℕ
rank priority_low = 0
rank priority_medium = 1
rank priority_high = 2

unfoldable pub get_quanta : ThreadPriority → ℕ
get_quanta priority_high = 8
get_quanta priority_medium = 6
get_quanta priority_low = 3

unfoldable pub change_priority : ThreadPriority → ThreadPriority
change_priority priority_high = priority_low
change_priority priority_low = priority_medium
change_priority priority_medium = priority_high

-- `changePriority` goes round the three priorities: it always changes the priority, three calls give
-- it back, and a call lengthens the quantum unless it comes from the highest priority.
pub change_priority_lem :
    (p : ThreadPriority)
    → (change_priority p ≢ p)
      × (change_priority (change_priority (change_priority p)) ≡ p)
      × (rank p < 2 → get_quanta p < get_quanta (change_priority p))
unfolding change_priority get_quanta
change_priority_lem p = ground arith
