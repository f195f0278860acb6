-- ===== src/Idt/Interrupt.antt =====
-- `isrInstall` and `isrHandler` of kernel/idt/isr.cpp, and the stack that `isrCommon` of kernel/idt/isr.asm
-- makes for them.
use optimist_os.Common.{
  ℕ, zero, suc, ◌+◌, ◌<◌, ◌≡◌, ◌≢◌, ◌∙◌, refl, arith, Bool, true, false, List, [], ◌∷◌, replicate,
  Option, some, get_elem?, leb, ltb, ◌==◌, ◌||◌, ◌&&◌, if◌then◌else◌, get_or, length, length-set,
  get_or-set_self, get_or-set_ne, ne→==, ◌≤◌, ℕ_discrete,
}
use optimist_os.Print.{codes}
use optimist_os.Idt.{IdtEntry, blank_entry, make_gate, set_idt_gate}
use optimist_os.Scheduler.Thread.{CpuRegs}

-- The texts for the interrupts from 0 to 30. The array has a place for 31 as well, which is `nullptr`.
unfoldable pub exception_messages : List (List ℕ)
exception_messages =
    codes "Division by Zero"
    ∷ codes "Debug"
    ∷ codes "Non-Maskable Interrupt"
    ∷ codes "Breakpoint"
    ∷ codes "Overflow"
    ∷ codes "Out of Bounds"
    ∷ codes "Invalid Opcode"
    ∷ codes "No Coprocessor"
    ∷ codes "Double Fault"
    ∷ codes "Coprocessor Segment Overrun"
    ∷ codes "Bat TSS"
    ∷ codes "Segment not Present"
    ∷ codes "Stack Fault"
    ∷ codes "General Protection Fault"
    ∷ codes "Page Fault"
    ∷ codes "Unknown Interrupt"
    ∷ codes "Coprocessor Fault"
    ∷ codes "Alignment Check"
    ∷ replicate 13 (codes "Reserved")

-- What the handler does: it prints the text of an exception, `none` where it is `nullptr`, and stops, or it calls the address of a
-- handler, 0 for none, and then sends the end of the interrupt to port 0x20 or does not.
pub data Handled : Type 0 where
  halted : Option (List ℕ) → Handled
  handled : ℕ → Bool → Handled

unfoldable pub isr_handler : (ℕ → ℕ) → CpuRegs → Handled
isr_handler handlers regs =
    if ltb regs.int_no 32
    then halted (get_elem? exception_messages regs.int_no)
    else handled (handlers regs.int_no) (leb 0x20 regs.int_no)

-- An interrupt other than 32, whose gate passes the stub by: what the processor pushes, and what the stub of a vector and `PUSHALL` push on top of it.
pub record Frame : Type 0 where
  pub regs : CpuRegs
  pub vector : ℕ
  pub error_code : ℕ

-- The vectors for which the processor pushes an error code, as the stub has them.
unfoldable pub has_error_code : ℕ → Bool
has_error_code n = n == 8 || (leb 10 n && leb n 14) || n == 17 || n == 21 || n == 29 || n == 30

-- The words from the stack pointer on that `isrHandler` is given.
unfoldable pub isr_common : Frame → List ℕ
isr_common f =
    f.regs.r15
    ∷ f.regs.r14
    ∷ f.regs.r13
    ∷ f.regs.r12
    ∷ f.regs.r11
    ∷ f.regs.r10
    ∷ f.regs.r9
    ∷ f.regs.r8
    ∷ f.regs.rbp
    ∷ f.regs.rdi
    ∷ f.regs.rsi
    ∷ f.regs.rdx
    ∷ f.regs.rcx
    ∷ f.regs.rbx
    ∷ f.regs.rax
    ∷ f.vector
    ∷ (if has_error_code f.vector then f.error_code else 0)
    ∷ f.regs.rip
    ∷ f.regs.cs
    ∷ f.regs.e_flags
    ∷ f.regs.rsp
    ∷ f.regs.ss
    ∷ []

-- `(cpuRegs*)rsp`
unfoldable pub as_cpu_regs : List ℕ → CpuRegs
as_cpu_regs words = record {
  r15 = get_or words 0 0;
  r14 = get_or words 1 0;
  r13 = get_or words 2 0;
  r12 = get_or words 3 0;
  r11 = get_or words 4 0;
  r10 = get_or words 5 0;
  r9 = get_or words 6 0;
  r8 = get_or words 7 0;
  rbp = get_or words 8 0;
  rdi = get_or words 9 0;
  rsi = get_or words 10 0;
  rdx = get_or words 11 0;
  rcx = get_or words 12 0;
  rbx = get_or words 13 0;
  rax = get_or words 14 0;
  core = get_or words 15 0;
  int_no = get_or words 16 0;
  err = get_or words 17 0;
  rip = get_or words 18 0;
  cs = get_or words 19 0;
  e_flags = get_or words 20 0;
  rsp = get_or words 21 0;
  ss = get_or words 22 0;
}

-- The loop of `isrInstall` at gate `i`, with the rounds that are left.
unfoldable pub install_loop : (ℕ → ℕ) → ℕ → ℕ → List IdtEntry → List IdtEntry
install_loop int_table zero i entries = entries
install_loop int_table (suc left) i entries =
    install_loop int_table left (i + 1) (set_idt_gate entries i (int_table i))

-- The gates, `int_table` and the handlers behind `isrInstall`, for the addresses of `pitHandler` and `isr13`.
unfoldable pub isr_install :
    ℕ → ℕ → (ℕ → ℕ) → (ℕ → ℕ) → List IdtEntry → List IdtEntry × (ℕ → ℕ) × (ℕ → ℕ)
isr_install pit_handler isr13 int_table handlers entries =
    let table : ℕ → ℕ = λ n. if n == 32 then pit_handler else int_table n in
    (install_loop table 256 0 entries, table, λ n. if n == 0xd then isr13 else handlers n)

install_loop-set :
    (int_table : ℕ → ℕ) (left i : ℕ) (entries : List IdtEntry) (n : ℕ)
    → i + left ≤ length entries
    → (i ≤ n
        → n < i + left
        → get_or (install_loop int_table left i entries) n blank_entry ≡ make_gate (int_table n))
      × (n < i
          → get_or (install_loop int_table left i entries) n blank_entry
            ≡ get_or entries n blank_entry)
unfolding install_loop set_idt_gate
install_loop-set int_table zero i entries n h = (λ lo hi. absurd (omega arith), λ lt. refl)
install_loop-set int_table (suc left) i entries n h =
    let next : List IdtEntry = set_idt_gate entries i (int_table i) in
    let (inside, before) =
      install_loop-set int_table left (i + 1) next n
        (omega (arith, length-set entries i (make_gate (int_table i)))) in
    (
      λ lo hi. elim (ℕ_discrete n i) [
        | yes e ↦
            before (omega arith)
            ∙ rw e (get_or-set_self entries i (make_gate (int_table i)) blank_entry (omega arith))
        | no ne ↦ inside (omega arith) (omega arith)
      ],
      λ lt.
          before (omega arith)
          ∙ get_or-set_ne entries i n (make_gate (int_table i)) blank_entry (λ e. omega arith),
    )

-- With room for 256 gates, `isrInstall` points every gate at its stub, but gate 32 at `pitHandler` itself,
-- past `isrCommon`: the timer's handler is entered with no stack that holds registers.
pub isr_install_lem :
    (pit_handler isr13 : ℕ) (int_table handlers : ℕ → ℕ) (entries : List IdtEntry)
    → 256 ≤ length entries
    → let gates = (isr_install pit_handler isr13 int_table handlers entries).0 in
      ((n : ℕ) → n < 256 → n ≢ 32 → get_or gates n blank_entry ≡ make_gate (int_table n))
      × (get_or gates 32 blank_entry ≡ make_gate pit_handler)
unfolding isr_install
isr_install_lem pit_handler isr13 int_table handlers entries room =
    let table : ℕ → ℕ = λ n. if n == 32 then pit_handler else int_table n in
    (
      λ n lt ne.
          (install_loop-set table 256 0 entries n room).0 (omega arith) (omega arith)
          ∙ rw (ne→== n 32 ne) refl,
      (install_loop-set table 256 0 entries 32 room).0 (omega arith) (omega arith),
    )

-- Behind `isrInstall`, with room for 256 gates, the gate of every vector but 32 is that of its stub, which goes
-- on in `isrCommon`, and gate 32 is `pitHandler` itself. The frame that `isrCommon` makes has no word for the
-- field `core`, so `isrHandler` reads each field behind it one word too low: the number of the interrupt as
-- `core`, its error code as `int_no`, and the interrupted `rip` as `err`. So whatever the handlers, an interrupt
-- other than 32 for which the processor pushes no error code is taken for number 0 and stops the kernel as a
-- division by zero.
pub isr_handler-isr_common :
    (pit_handler isr13 : ℕ) (int_table handlers : ℕ → ℕ) (entries : List IdtEntry) (f : Frame)
    → 256 ≤ length entries
    → f.vector < 256
    → f.vector ≢ 32
    → let (gates, table, installed) = isr_install pit_handler isr13 int_table handlers entries in
      let regs = as_cpu_regs (isr_common f) in
      (get_or gates f.vector blank_entry ≡ make_gate (int_table f.vector))
      × (get_or gates 32 blank_entry ≡ make_gate pit_handler)
      × (regs.core ≡ f.vector)
      × (regs.err ≡ f.regs.rip)
      × (regs.rip ≡ f.regs.cs)
      × (has_error_code f.vector ≡ true → regs.int_no ≡ f.error_code)
      × (has_error_code f.vector ≡ false
          → isr_handler installed regs ≡ halted (some (codes "Division by Zero")))
unfolding as_cpu_regs isr_common isr_handler exception_messages
isr_handler-isr_common pit_handler isr13 int_table handlers entries f room lt ne =
    let (gate, timer) = isr_install_lem pit_handler isr13 int_table handlers entries room in
    (gate f.vector lt ne, timer, refl, refl, refl, λ e. rw e refl, λ e. rw e refl)
