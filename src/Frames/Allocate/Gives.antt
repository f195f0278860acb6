-- ===== src/Frames/Allocate/Gives.antt =====
-- What a call of `allocateFrame` of kernel/paging/pageFrameAllocator.cpp gives its caller.
use optimist_os.Common.{ℕ, ◌+◌, ◌-◌, ◌^◌, ◌≤◌, ◌<◌, ◌≡◌, ◌≢◌, refl, ◌∙◌, arith, length, u32, u64}
use optimist_os.Memory.{mmio_read64}
use optimist_os.Memory.Laws.{Outside, mmio_read64_ext}
use optimist_os.HashTable.{table_size, entry, pair, hash, insert}
use optimist_os.HashTable.Laws.{insert_lem}
use optimist_os.Strings.{memoryset}
use optimist_os.Strings.Laws.{memoryset_lem}
use optimist_os.Kernel.{Kernel}
use optimist_os.Kernel.Run.{ok, halted}
use optimist_os.Frames.Round.{page_size, round_up_to_page_boundary}
use optimist_os.Frames.Round.Laws.{round_up_to_page_boundary_lem}
use optimist_os.Frames.FreeList.{size_at, next_at, sizeof_f_block}
use optimist_os.Frames.Address.{load_boot_info}
use optimist_os.Frames.Allocate.{ensure_free_list, allocate_frame}
use optimist_os.Frames.Allocate.Bump.{
  IsBump, cut, cut-frame, cut-size, cut-next, bumped, allocate_frame-bumped,
}

rounded_ge :
    (request : ℕ)
    → 0 < request
    → request + page_size ≤ 2 ^ 64
    → page_size ≤ round_up_to_page_boundary request
rounded_ge request pos small = omega (arith, round_up_to_page_boundary_lem request small)

module _ {limit : ℕ} {s : Kernel} (v : IsBump limit s) (rounded : ℕ) (big : page_size ≤ rounded)
    (fits : rounded ≤ s.global_boot_info.memory.free_mem_size) where
  straight : u64 (s.head + rounded) ≡ s.head + rounded
  straight = omega arith

  bumped-head : (bumped rounded s).head ≡ s.head + rounded
  unfolding bumped
  bumped-head = straight

  bumped-mem :
      (x : ℕ)
      → (bumped rounded s).mem x
        ≡ memoryset s.head 0 rounded (cut s.mem s.head (s.head + rounded) rounded) x
  unfolding bumped
  bumped-mem x = rw straight

  bumped-zero : (x : ℕ) → s.head ≤ x → x < s.head + rounded → (bumped rounded s).mem x ≡ 0
  bumped-zero x lo hi = ground (
    arith,
    bumped-mem x,
    memoryset_lem s.head 0 rounded (cut s.mem s.head (s.head + rounded) rounded) x,
  )

  bumped-behind :
      (x : ℕ)
      → Outside s.head rounded x
      → (bumped rounded s).mem x ≡ cut s.mem s.head (s.head + rounded) rounded x
  bumped-behind x out = ground (
    arith,
    bumped-mem x,
    memoryset_lem s.head 0 rounded (cut s.mem s.head (s.head + rounded) rounded) x,
  )

  bumped-same :
      (x : ℕ) → Outside s.head (rounded + sizeof_f_block) x → (bumped rounded s).mem x ≡ s.mem x
  bumped-same x out =
      bumped-behind x (omega arith)
      ∙ cut-frame s.mem s.head rounded (omega arith) x (omega arith) (omega arith)

  header :
      (offset : ℕ)
      → mmio_read64 (bumped rounded s).mem (s.head + rounded + offset)
        ≡ mmio_read64 (cut s.mem s.head (s.head + rounded) rounded) (s.head + rounded + offset)
  header offset =
      mmio_read64_ext (cut s.mem s.head (s.head + rounded) rounded) (bumped rounded s).mem
        (s.head + rounded + offset) (λ x lo hi. bumped-behind x (omega arith))

  bumped-size :
      mmio_read64 (bumped rounded s).mem (s.head + rounded + size_at)
      ≡ s.global_boot_info.memory.free_mem_size - rounded
  bumped-size = omega (arith, header size_at, cut-size s.mem s.head rounded (omega arith))

  bumped-next : mmio_read64 (bumped rounded s).mem (s.head + rounded + next_at) ≡ 0
  bumped-next = omega (arith, header next_at, cut-next s.mem s.head rounded (omega arith))

  bumped-info :
      ((bumped rounded s).global_boot_info.memory.free_mem_size
        ≡ s.global_boot_info.memory.free_mem_size - rounded)
      × ((bumped rounded s).global_boot_info.memory.hhdm_offset
          ≡ s.global_boot_info.memory.hhdm_offset)
      × ((bumped rounded s).free_block ≡ (bumped rounded s).head)
      × ((bumped rounded s).used_memory ≡ u64 (s.used_memory + rounded))
      × ((bumped rounded s).address_size_ht ≡ insert s.address_size_ht s.head (u32 rounded))
      × ((bumped rounded s).boot_information.memory.hhdm_offset
          ≡ s.global_boot_info.memory.hhdm_offset)
      × ((bumped rounded s).pml4 ≡ s.pml4)
      × ((bumped rounded s).hhdm_offset ≡ s.hhdm_offset)
  unfolding bumped
  bumped-info = (omega arith, refl, refl, refl, refl, refl, refl, refl)

  bumped-IsBump : IsBump limit (bumped rounded s)
  bumped-IsBump = record {
    head_ne = omega (arith, bumped-head);
    at = omega (arith, bumped-info);
    next = rw bumped-head bumped-next;
    size = rw bumped-head (omega (arith, bumped-size, bumped-info));
    reach = omega (arith, bumped-head, bumped-info);
    room = omega arith;
    offset = omega (arith, bumped-head, bumped-info);
  }

-- What a call leaves in the state `t`: the block behind the frame, the cleared frame, the memory around
-- it, the accounts and the entry of the table.
pub record Gives (limit rounded : ℕ) (s t : Kernel) : Type 0 where
  pub bump : IsBump limit t
  pub head : t.head ≡ s.head + rounded
  pub zero : (x : ℕ) → s.head ≤ x → x < s.head + rounded → t.mem x ≡ 0
  pub same : (x : ℕ) → Outside s.head (rounded + sizeof_f_block) x → t.mem x ≡ s.mem x
  pub free :
      t.global_boot_info.memory.free_mem_size ≡ s.global_boot_info.memory.free_mem_size - rounded
  pub offset : t.global_boot_info.memory.hhdm_offset ≡ s.global_boot_info.memory.hhdm_offset
  pub used : t.used_memory ≡ u64 (s.used_memory + rounded)
  pub recorded :
      length s.address_size_ht ≡ table_size
      → entry t.address_size_ht (hash s.head) ≡ pair s.head (u32 rounded)
  pub loaded : t.boot_information.memory.hhdm_offset ≡ s.global_boot_info.memory.hhdm_offset
  pub root : t.pml4 ≡ s.pml4
  pub high : t.hhdm_offset ≡ s.hhdm_offset

-- For a request that is not 0 and that rounds up within 64 bits, and with one free block that is
-- large enough, `allocateFrame` returns the physical address of the start of the block, cleared up
-- to the rounded request, and keeps the rest as the one free block. It writes nothing but the
-- frame and the 40 bytes of the header behind it.
pub allocate_frame_lem :
    {limit : ℕ} (fuel request : ℕ) {s : Kernel}
    → IsBump limit s
    → 0 < request
    → request + page_size ≤ 2 ^ 64
    → round_up_to_page_boundary request ≤ s.global_boot_info.memory.free_mem_size
    → (t : Kernel) × (allocate_frame fuel request s
        ≡ ok (s.head - s.global_boot_info.memory.hhdm_offset) t)
      × Gives limit (round_up_to_page_boundary request) s t
allocate_frame_lem {limit} fuel request {s} v pos small fits = (
  bumped rounded s,
  allocate_frame-bumped fuel request v fits,
  record {
    bump = bumped-IsBump v rounded big fits;
    head = bumped-head v rounded big fits;
    zero = bumped-zero v rounded big fits;
    same = bumped-same v rounded big fits;
    free = (bumped-info v rounded big fits).0;
    offset = (bumped-info v rounded big fits).1;
    used = (bumped-info v rounded big fits).3;
    recorded = λ len. ground (
      arith,
      (bumped-info v rounded big fits).4,
      (insert_lem s.address_size_ht s.head (u32 rounded) len).1 (hash s.head),
    );
    loaded = (bumped-info v rounded big fits).5;
    root = (bumped-info v rounded big fits).6;
    high = (bumped-info v rounded big fits).7;
  },
)
  where
    rounded : ℕ
    rounded = round_up_to_page_boundary request

    big : page_size ≤ rounded
    big = rounded_ge request pos small

-- With a list, a request that rounds up to more than the free memory stops the kernel at `hlt`,
-- whatever the list holds, with the memory and the head of the list as they were.
pub allocate_frame_too_large :
    (fuel request : ℕ) (s : Kernel)
    → s.head ≢ 0
    → s.global_boot_info.memory.free_mem_size < round_up_to_page_boundary request
    → (t : Kernel) × (allocate_frame fuel request s ≡ halted t)
      × (t.mem ≡ s.mem)
      × (t.head ≡ s.head)
unfolding allocate_frame ensure_free_list load_boot_info
allocate_frame_too_large fuel request s ne large = (
  record s {
    boot_information = s.global_boot_info;
    total_memory = s.global_boot_info.memory.free_mem_size;
  },
  ground arith,
  refl,
  refl,
)

-- With one free block, a request that rounds up to all of the free memory succeeds, and the header
-- of the empty rest is then written behind the end of the free memory: its words `size` and `next`
-- there are 0 afterwards, whatever they were.
pub allocate_frame_past_end :
    {limit : ℕ} (fuel request : ℕ) {s : Kernel}
    → IsBump limit s
    → 0 < request
    → request + page_size ≤ 2 ^ 64
    → round_up_to_page_boundary request ≡ s.global_boot_info.memory.free_mem_size
    → (t : Kernel) × (allocate_frame fuel request s
        ≡ ok (s.head - s.global_boot_info.memory.hhdm_offset) t)
      × (t.head ≡ limit)
      × (mmio_read64 t.mem (limit + size_at) ≡ 0)
      × (mmio_read64 t.mem (limit + next_at) ≡ 0)
allocate_frame_past_end {limit} fuel request {s} v pos small all =
    let (t, run, gives) = allocate_frame_lem fuel request v pos small (omega arith) in
    let e : t.head ≡ limit = omega (arith, gives.head) in
    (t, run, e, rw (← e) (omega (arith, gives.bump.size, gives.free)), rw (← e) gives.bump.next)
