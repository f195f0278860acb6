-- ===== src/Scheduler/Run/Start.antt =====
-- The first run of a thread that `setupThreadContext` of kernel/process/process.cpp has prepared.
use optimist_os.Common.{ℕ, ◌+◌, ◌≡◌, refl, u64}
use optimist_os.Scheduler.Thread.{Thread, thread_ready}
use optimist_os.Scheduler.Run.{start_regs}
use optimist_os.Process.Context.{
  thread_stack_size, zero_regs, prepare, user_context, kernel_context, set_e_flags,
}

-- Whatever the thread object held before, both kinds of thread are ready, unlocked and keep their entry
-- point, but neither keeps it in `rip`, which the registers' reset leaves at 0: a thread gets to its entry
-- point since `runThread` hands it to `schedulerWrapper` in `rdi`. It starts with interrupts enabled, at the
-- top of the frame for a user thread and at the top of the heap block for a kernel thread, and with every
-- other general register 0.
pub setup_thread_context_lem :
    (t : Thread) (entry_point stack heap wrapper : ℕ)
    → let prepared = prepare t entry_point stack heap in
      let user = set_e_flags (user_context prepared stack) in
      let kernel = set_e_flags (kernel_context prepared) in
      (user.regs.rip ≡ 0)
      × (kernel.regs.rip ≡ 0)
      × (user.state ≡ thread_ready)
      × (kernel.state ≡ thread_ready)
      × (user.lock ≡ 0)
      × (kernel.lock ≡ 0)
      × (start_regs wrapper user ≡ record zero_regs {
        rdi = entry_point;
        rip = wrapper;
        cs = 0x28;
        e_flags = 0x202;
        rsp = u64 (stack + thread_stack_size);
        ss = 0x30;
      })
      × (start_regs wrapper kernel ≡ record zero_regs {
        rdi = entry_point;
        rip = wrapper;
        cs = 0x28;
        e_flags = 0x202;
        rsp = u64 (heap + thread_stack_size);
        ss = 0x30;
      })
unfolding start_regs prepare user_context kernel_context set_e_flags
setup_thread_context_lem t entry_point stack heap wrapper =
    (refl, refl, refl, refl, refl, refl, refl, refl)
