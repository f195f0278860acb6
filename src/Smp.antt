-- ===== src/Smp.antt =====
-- kernel/smp/smp.cpp: how the processors come up, as the steps that they take in any order, and
-- `getCPUInfo`. A processor is known by its local APIC's identifier.
pub mod Order
use optimist_os.Common.{ℕ, ◌+◌, ◌≡◌, ltb, leb, ◌==◌, ◌&&◌, Bool, false, if◌then◌else◌, u32}

-- `cpuInfo`. A pointer is an address.
pub record CpuInfo : Type 0 where
  pub lock : ℕ
  pub lapic_id : ℕ
  pub current_process : ℕ
  pub process_list : ℕ
  pub process_size : ℕ
  pub process_index : ℕ
  pub process_pr_count : ℕ
  pub last_idle_time : ℕ
  pub total_time : ℕ
  pub cpu_number : ℕ

-- The block that `initOtherCPUs` fills.
unfoldable pub make_cpu_info : ℕ → ℕ → CpuInfo
make_cpu_info lapic_id cpus_started = record {
  lock = 0;
  lapic_id = lapic_id;
  current_process = 0;
  process_list = 0;
  process_size = 0;
  process_index = 0;
  process_pr_count = 0;
  last_idle_time = 0;
  total_time = 0;
  cpu_number = cpus_started;
}

-- Where a processor stands in `initOtherCPUs`: not there, in the loop at `cpusStarted`, behind it, with its
-- block entered in the table, or in the last loop.
pub data Phase : Type 0 where
  absent waiting passed : Phase
  entered started : CpuInfo → Phase

-- `cpusStarted`, and the processors.
pub record Smp : Type 0 where
  pub cpus_started : ℕ
  pub phase : ℕ → Phase

abbrev pub move : (ℕ → Phase) → ℕ → Phase → ℕ → Phase
move f i p j = if j == i then p else f j

-- One processor moves: out of its loop, to its entry of `cpuInformation`, or over `cpusStarted++`.
pub data Step : Smp → Smp → Type 0 where
  pass :
      (s : Smp) (i : ℕ)
      → s.phase i ≡ waiting
      → ltb s.cpus_started i ≡ false
      → Step s (record s { phase = move s.phase i passed })
  enter :
      (s : Smp) (i : ℕ)
      → s.phase i ≡ passed
      → Step s (record s { phase = move s.phase i (entered (make_cpu_info i s.cpus_started)) })
  count :
      (s : Smp) (i : ℕ) (info : CpuInfo)
      → s.phase i ≡ entered info
      → Step s (record {
        cpus_started = u32 (s.cpus_started + 1);
        phase = move s.phase i (started info);
      })

pub data Reach (s : Smp) : Smp → Type 0 where
  here : Reach s s
  next : {t u : Smp} → Reach s t → Step t u → Reach s u

-- The state when `initSMP` has sent the processors for which the test holds to `initOtherCPUs`.
abbrev pub sent : (ℕ → Bool) → Smp
sent present = record { cpus_started = 1; phase = λ i. if present i then waiting else absent }

-- `getCPUInfo` over the table of pointers.
unfoldable pub get_cpu_info : ℕ → (ℕ → ℕ) → ℕ → ℕ
get_cpu_info cpus_started cpu_information cpu_number =
    if ltb cpus_started cpu_number then 0 else cpu_information cpu_number
