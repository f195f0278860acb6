-- ===== src/Lib.antt =====
-- The kernel of OptimistOS: boot, memory management, the spin lock, threads, processes and their scheduler,
-- the kernel heap, the system tables, the start of the processors, interrupts, the renderer and the debug
-- output.
--
-- Parts and files:
--   Common    shared names, tests on numbers, lists, machine words (u8 to u64, sub64, not64) and the
--             laws of bitwise operations.
--   Memory    kernel/lib/memory.cpp over a memory of bytes: mmioWrite and mmioRead, little-endian.
--   Strings   kernel/lib/string.cpp: memoryset, memorycmp, memorycpy.
--   HashTable kernel/paging/hashtable.cpp: hash, insert, search, deleteKey.
--   Lock      kernel/lib/lock.cpp: lock and unlock of one processor, and the step relation of many.
--   Boot      kernel/boot.h, kernel/boot.cpp: bootInfo (Boot/Info), the loop over the memory map and
--             quickMalloc (Boot/Memmap), checkStringEndsWith and getFile (Boot/Suffix), _start with its
--             tests and exits (Boot/Start, Boot/Bootable, the region that it takes in Boot/Region), and on to the
--             first frame (Boot/FirstFrame).
--   Kernel    the globals of kernel/paging, kernel/memory and boot.cpp beside the memory, and
--             Kernel/Run, the runs of code over them: a value and a state, the state at a `hlt`, a
--             fault at `nullptr`, or a loop out of fuel.
--   Frames    kernel/paging/pageFrameAllocator.cpp and freeList.cpp: rounding (Frames/Round), addresses
--             (Frames/Address), the header of a block and initFreeList (Frames/FreeList), allocateFrame in
--             its steps (Frames/Allocate), the pool of bytes that it implements (Frames/Allocate/Pool),
--             freeFrame (Frames/Free), the first call (Frames/First).
--   Paging    kernel/paging/paging.hpp and paging.cpp: PageDirectoryEntry (Paging/Entry), the indices of
--             an address (Paging/Index), virtualAddrToPTE, map, init and newPML4 (Paging/Map), with the
--             tables that are there (Paging/Map/Present) and those that are made (Paging/Map/Link, Open,
--             Tables, Missing, Fresh); initPaging and requiredSize (Paging/Setup, with the loop over 4 GB in
--             Setup/Low and the regions in Setup/Pages, Region, Regions, Memory). Paging/Walk is the
--             processor's translation, from its documentation, and Paging/Space the abstract view of the
--             tables for pages of 2 MB.
--   Scheduler kernel/scheduler: threads, getQuanta, changePriority (Scheduler/Thread), prioritySort
--             (Scheduler/Sort), runThread, schedulerWrapper and pitHandler (Scheduler/Run).
--   Process   kernel/process/process.cpp: the list of processes (Process/Processes), the list of threads
--             (Process/Threads), setupThreadContext (Process/Context), the timer and the sleeps
--             (Process/Timer).
--   Heap      kernel/memory/malloc.hpp and malloc.cpp: nodes and initNodes (Heap), roundUpToNextPower2
--             (Heap/Round), mallocx and coalesceBlocks (Heap/Allocate, with a first page that is split in
--             Heap/Split and Heap/Halves), freex and reallocx (Heap/Release).
--   Apic      kernel/acpi/ioapic.cpp with the entries of madt.hpp: initIOAPIC, with the device that its
--             stores are read by (Apic/Init), and the redirection of interrupts (Apic/Laws).
--   Acpi      kernel/acpi/acpi.hpp and acpi.cpp: initACPI and acpiFindTable (Acpi, Acpi/Find);
--             kernel/acpi/madt.hpp and madt.cpp: initMADT (Acpi/Madt, Acpi/Last).
--   Smp       kernel/smp/smp.hpp and smp.cpp: initOtherCPUs as steps of the processors, getCPUInfo.
--   Lapic     kernel/acpi/lapic.cpp: lapicTimer, its calibration and the other registers (Lapic, Lapic/Laws).
--   Gdt       kernel/gdt/gdt.hpp, gdt.cpp and gdt.asm: the table of segments, initGDT, gdtFlush.
--   Idt       kernel/idt/idt.hpp and idt.cpp: setIDTGate; isr.cpp and isr.asm: isrInstall, isrHandler and
--             the stack that isrCommon makes (Idt/Interrupt).
--   Renderer  kernel/renderer/BasicRenderer.hpp and BasicRenderer.cpp: PutChar (Renderer/Lit, Renderer/Row,
--             Renderer/Glyph), Clear (Renderer/Screen), Print (Renderer/Text), PrintInt (Renderer/Number).
--   Print     kernel/printutils/e9print.cpp: e9_printf, e9_printhex, e9_printdec.
--   Checks    the theorems at concrete inputs.
--
-- How the parts meet: initNodes takes the pool of the heap from allocateFrame, and mallocx, freex
-- and reallocx hold the lock of Lock. map and newPML4 take their tables from allocateFrame, which
-- clears frames with memoryset and records their sizes with insert; freeFrame looks them up with
-- search; allocateFrame and the address conversions read the bootInfo that boot.cpp stores.
-- addThreadToList builds the list that prioritySort walks. _start stores the bootInfo from which the first
-- call of allocateFrame makes the free list. initMADT fills the lists that redirectIRQ reads. pitHandler
-- calls runThread, which takes getNextThread's thread and its lock.
--
-- Numbers: every machine word is a natural number with its wrap written out (u32, u64, sub64). An
-- `int` is its bit pattern. An access to memory that would run past the top of the address space
-- is not wrapped. A pointer is an address, `nullptr` is 0. The lists of Process and Scheduler are
-- the sequences of their nodes; an access through `nullptr` is a result of its own (`fault`).
--
-- Fuel: the loops of allocateFrame over the free list take a number of rounds; on a list of one
-- block no round is used, so every number is enough. The probing loop of the hash table has 100
-- rounds, and ends within them. The loop of mallocx has a number of rounds, of which a first node
-- that fits uses one. prioritySort takes n * n + 1 passes for n threads. The loops of `lock`, of
-- initMADT and of getThreadInfo can run for ever, which is stated for every number of rounds. The buffers
-- of e9_printhex and e9_printdec are their rounds: an index below 0 is `none`. e9_printf takes a round for
-- each byte or directive of its format and one more.
-- The loops of initPaging over a region take a round for each of its pages and one more, and the one
-- over the first 4 GB exactly its 2048 pages. sleep and sleepMS take a round for each look at the count of the ticks.
--
-- Parameters: LIMINE_MEMMAP_USABLE, a value of the boot loader's header, the boot loader's answers, what
-- the registers of an IO-APIC hold, the reads and writes of a local APIC and what a sleep does to it,
-- the count of the timer's ticks, the addresses of code and of its texts, the page map of a
-- process, and what a thread's function does to the scheduler's state.
--
-- Not modelled: the printed text of the allocator, of the pager and of _start (debug output); what runs
-- after a `hlt` is woken up, but for that of freeFrame; instructions (cr3, sti, lidt, cli, port accesses);
-- createThreadInternal and createProcessFromRoutine, which write through pointers that are not
-- initialised; the memory of the list nodes of Process; the 256 places of cpuInformation, which
-- initOtherCPUs fills by its processor's number; the copy of the registers into the interrupted frame in runThread. Only one
-- processor runs the code of Frames, Paging, Heap and Scheduler at a time.
pub mod Common
pub mod Acpi
pub mod Apic
pub mod Boot
pub mod Checks
pub mod Frames
pub mod Gdt
pub mod HashTable
pub mod Heap
pub mod Idt
pub mod Kernel
pub mod Lapic
pub mod Lock
pub mod Memory
pub mod Paging
pub mod Print
pub mod Process
pub mod Renderer
pub mod Scheduler
pub mod Smp
pub mod Strings
