-- ===== src/Checks/Processors.antt =====
-- kernel/smp/smp.cpp, kernel/idt/isr.cpp and the timer of kernel/process/process.cpp at concrete inputs.
use optimist_os.Common.{
  ℕ, ◌+◌, ◌*◌, ◌/◌, ◌%◌, ◌^◌, ◌≤◌, ◌<◌, ◌≡◌, ◌≢◌, refl, arith, Bool, true, false, some, List, [],
  ◌∷◌, get_or, replicate, ◌==◌, u64, sub64,
}
use optimist_os.Print.{codes}
use optimist_os.Idt.{IdtEntry, blank_entry, make_gate}
use optimist_os.Idt.Interrupt.{
  Frame, halted, has_error_code, isr_common, as_cpu_regs, isr_handler, isr_install,
  isr_handler-isr_common,
}
use optimist_os.Scheduler.Thread.{Thread, priority_high, thread_ready, thread_suspended}
use optimist_os.Scheduler.Run.{start_regs}
use optimist_os.Scheduler.Run.Start.{setup_thread_context_lem}
use optimist_os.Process.Context.{
  thread_stack_size, zero_regs, prepare, user_context, kernel_context, set_e_flags,
}
use optimist_os.Process.Timer.{pit_init, sleep, sleep_ms, pit_init_lem, sleep_ms_lem}
use optimist_os.Smp.{CpuInfo, passed, entered, started, Smp, move, pass, Reach, here, next, sent}
use optimist_os.Smp.Order.{up_to, one_by_one, come_up}

-- The processor 1 behind its loop.
abbrev one_passed : Smp
one_passed = record { cpus_started = 1; phase = move (sent (up_to 3)).phase 1 passed }

one_by_one_example :
    ((i : ℕ) → one_passed.phase i ≡ passed → i ≡ 1)
    × ((i : ℕ) (c : CpuInfo) → one_passed.phase i ≡ entered c → i ≡ 1)
    × ((i : ℕ) (c : CpuInfo)
        → one_passed.phase i ≡ started c
        → (i < 1) × (c.cpu_number ≡ i) × (c.lapic_id ≡ i))
one_by_one_example =
    one_by_one {n = 3} {s = one_passed} (omega arith)
      (next here (pass (sent (up_to 3)) 1 refl refl))

-- Besides the first processor, the one with identifier 2 alone.
abbrev even_only : ℕ → Bool
even_only i = i == 2

come_up_example :
    ((s : Smp) × Reach (sent (up_to 3)) s × (s.cpus_started ≡ 3))
    × ((s : Smp)
        → Reach (sent even_only) s
        → (s.cpus_started ≡ 1) × ((i : ℕ) (c : CpuInfo) → s.phase i ≢ started c))
come_up_example = come_up 3 even_only (omega arith) (omega arith) (λ i e. ground arith)

-- A breakpoint, through its stub.
abbrev breakpoint : Frame
breakpoint = record {
  regs = record zero_regs { rip = 0x400000; cs = 0x28 };
  vector = 3;
  error_code = 0;
}

abbrev stubs : ℕ → ℕ
stubs n = 0x8000 + 16 * n

abbrev no_gates : List IdtEntry
no_gates = replicate 256 blank_entry

isr_handler-isr_common_example :
    let (gates, table, installed) = isr_install 0x7000 0x7100 stubs (λ n. 0x5000) no_gates in
    let regs = as_cpu_regs (isr_common breakpoint) in
    (get_or gates 3 blank_entry ≡ make_gate (stubs 3))
    × (get_or gates 32 blank_entry ≡ make_gate 0x7000)
    × (regs.core ≡ 3)
    × (regs.err ≡ 0x400000)
    × (regs.rip ≡ 0x28)
    × (has_error_code 3 ≡ true → regs.int_no ≡ 0)
    × (has_error_code 3 ≡ false
        → isr_handler installed regs ≡ halted (some (codes "Division by Zero")))
isr_handler-isr_common_example =
    isr_handler-isr_common 0x7000 0x7100 stubs (λ n. 0x5000) no_gates breakpoint (omega arith)
      (omega arith) (λ e. omega arith)

abbrev stale : Thread
stale = record {
  thread_id = 9;
  regs = zero_regs;
  priority = priority_high;
  stack_address = 1;
  cpu_id = 0;
  kernel_stack = 2;
  entry_point = 3;
  state = thread_suspended;
  parent_process = 0;
  lock = 1;
}

setup_thread_context_lem_example :
    let prepared = prepare stale 0x400000 0x10000 0x20000 in
    let user = set_e_flags (user_context prepared 0x10000) in
    let kernel = set_e_flags (kernel_context prepared) in
    (user.regs.rip ≡ 0)
    × (kernel.regs.rip ≡ 0)
    × (user.state ≡ thread_ready)
    × (kernel.state ≡ thread_ready)
    × (user.lock ≡ 0)
    × (kernel.lock ≡ 0)
    × (start_regs 0x300000 user ≡ record zero_regs {
      rdi = 0x400000;
      rip = 0x300000;
      cs = 0x28;
      e_flags = 0x202;
      rsp = u64 (0x10000 + thread_stack_size);
      ss = 0x30;
    })
    × (start_regs 0x300000 kernel ≡ record zero_regs {
      rdi = 0x400000;
      rip = 0x300000;
      cs = 0x28;
      e_flags = 0x202;
      rsp = u64 (0x20000 + thread_stack_size);
      ss = 0x30;
    })
setup_thread_context_lem_example = setup_thread_context_lem stale 0x400000 0x10000 0x20000 0x300000

-- A count that goes up by one in each round.
abbrev ticks : ℕ → ℕ
ticks i = i

sleep_ms_lem_example :
    ((10 * 10 ≤ sub64 (1 + 99) 0)
      → (j : ℕ) × (sleep_ms 100 ticks 10 ≡ some j)
        × (10 * 10 ≤ sub64 j 0)
        × ((k : ℕ) → 1 ≤ k → k < j → sub64 k 0 < 10 * 10))
    × ((seconds : ℕ) → 10 ≡ 10 * seconds → sleep_ms 99 ticks 10 ≡ sleep 99 ticks seconds)
sleep_ms_lem_example = sleep_ms_lem 99 ticks 10 (omega arith)

pit_init_lem_example :
    let (out, installed) = pit_init 25 0x4000 stubs in
    (out ≡ (0x43, 0x34) ∷ (0x40, 11931 % 2 ^ 8) ∷ (0x40, 11931 / 2 ^ 8) ∷ [])
    × (installed 32 ≡ 0x4000)
    × ((n : ℕ) → n ≢ 32 → installed n ≡ stubs n)
pit_init_lem_example = pit_init_lem 25 0x4000 stubs
