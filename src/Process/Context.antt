-- ===== src/Process/Context.antt =====
-- `setupThreadContext` of kernel/process/process.cpp, over the frame allocator, the heap and the page tables.
-- `heap_fuel`, `rounds` and `fuel` are those of `mallocx` and `allocateFrame`.
use optimist_os.Common.{ℕ, zero, suc, ◌+◌, ◌-◌, bit_or, Bool, if◌then◌else◌, u64}
use optimist_os.Kernel.Run.{M, pure, ◌>>=◌, ◌>>◌}
use optimist_os.Frames.Address.{to_physical_addr, to_virtual_addr}
use optimist_os.Frames.Allocate.{allocate_frame}
use optimist_os.Heap.Allocate.{mallocx}
use optimist_os.Paging.Entry.{present, read_write, larger_pages}
use optimist_os.Paging.Map.{map}
use optimist_os.Scheduler.Thread.{Thread, ThreadState, CpuRegs, thread_ready}

abbrev pub thread_stack_size : ℕ
thread_stack_size = 20480

abbrev pub thread_stack_addr : ℕ
thread_stack_addr = 0x70000000000

abbrev pub stack_flags : ℕ
stack_flags = bit_or (bit_or read_write present) larger_pages

-- The fields that an initialiser does not name are 0.
abbrev pub zero_regs : CpuRegs
zero_regs = record {
  r15 = 0;
  r14 = 0;
  r13 = 0;
  r12 = 0;
  r11 = 0;
  r10 = 0;
  r9 = 0;
  r8 = 0;
  rbp = 0;
  rdi = 0;
  rsi = 0;
  rdx = 0;
  rcx = 0;
  rbx = 0;
  rax = 0;
  core = 0;
  int_no = 0;
  err = 0;
  rip = 0;
  cs = 0;
  e_flags = 0;
  rsp = 0;
  ss = 0;
}

-- The loop over the pages of 2 MB of a user's stack from offset `i` on, with the rounds that are left.
unfoldable pub map_stack : ℕ → ℕ → ℕ → ℕ → M (Unit {0})
map_stack fuel stack zero i = pure tt
map_stack fuel stack (suc left) i = do
  physical ← to_physical_addr stack
  done ← map fuel (u64 (physical + i)) (u64 (thread_stack_addr - thread_stack_size + i)) stack_flags
  map_stack fuel stack left (i + 0x200000)

-- The assignments up to the test of `user`.
unfoldable pub prepare : Thread → ℕ → ℕ → ℕ → Thread
prepare t entry_point stack heap = record t {
  regs = record t.regs { rip = entry_point };
  entry_point = entry_point;
  stack_address = stack;
  kernel_stack = u64 (heap + thread_stack_size);
  state = thread_ready;
  lock = 0;
}

unfoldable pub user_context : Thread → ℕ → Thread
user_context t stack = record t {
  regs = record zero_regs { cs = 0x28; ss = 0x30; rsp = u64 (stack + thread_stack_size) };
}

unfoldable pub kernel_context : Thread → Thread
kernel_context t = record t {
  regs = record zero_regs { cs = 0x28; rsp = t.kernel_stack; ss = 0x30 };
  stack_address = t.kernel_stack;
}

-- `thread->regs.eFlags = 0x202`
unfoldable pub set_e_flags : Thread → Thread
set_e_flags t = record t { regs = record t.regs { e_flags = 0x202 } }

-- The parameter `state` is never read. The result is the thread, and `threadCount`.
unfoldable pub setup_thread_context :
    ℕ → ℕ → ℕ → Thread → ℕ → Bool → ThreadState → ℕ → M (Thread × ℕ)
setup_thread_context heap_fuel rounds fuel t entry_point user state thread_count = do
  frame ← allocate_frame fuel thread_stack_size
  stack ← to_virtual_addr frame
  heap ← mallocx heap_fuel rounds thread_stack_size
  if user
      then (do
        map_stack fuel stack 1 0
        pure (
          set_e_flags (user_context (prepare t entry_point stack heap) stack),
          u64 (thread_count + 1),
        ))
      else pure
          (set_e_flags (kernel_context (prepare t entry_point stack heap)), u64 (thread_count + 1))
