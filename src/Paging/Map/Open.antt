-- ===== src/Paging/Map/Open.antt =====
-- One level of the walk of `virtualAddrToPTE` of kernel/paging/paging.cpp where a table is missing.
use optimist_os.Common.{
  ℕ, ◌+◌, ◌-◌, ◌%◌, ◌^◌, ◌≤◌, ◌<◌, ◌≡◌, ◌≢◌, ◌∙◌, ap, subst, arith, true, add-zero,
}
use optimist_os.Memory.{mmio_read64}
use optimist_os.Memory.Laws.{Outside, Apart, mmio_read64_ext}
use optimist_os.Kernel.{Kernel}
use optimist_os.Kernel.Run.{ok}
use optimist_os.Frames.Round.{round_up_to_page_boundary}
use optimist_os.Frames.Round.Laws.{round_up_to_page_boundary_lem}
use optimist_os.Frames.FreeList.{size_at, next_at, sizeof_f_block}
use optimist_os.Frames.Allocate.{allocate_frame}
use optimist_os.Frames.Allocate.Bump.{IsBump}
use optimist_os.Frames.Allocate.Gives.{Gives, allocate_frame_lem}
use optimist_os.Paging.Map.{entry_of, get_next_level_pointer, next_table}
use optimist_os.Paging.Map.Level.{
  HasOffset, IsTable, slot, entry_of-slot, is_valid_lem, to_virtual_addr-offset,
}
use optimist_os.Paging.Walk.{frame_of}
use optimist_os.Paging.Map.Link.{updated, linked, linked-at, linked-Outside}

-- The direct map is loaded, and the allocator has one block of whole frames in it, none at the address 0.
pub record IsReady (offset limit : ℕ) (s : Kernel) : Type 0 where
  pub direct : HasOffset offset s
  pub bump : IsBump limit s
  pub same : s.global_boot_info.memory.hhdm_offset ≡ offset
  pub aligned : (s.head - offset) % 2 ^ 12 ≡ 0
  pub first : offset < s.head
  pub low : limit ≤ offset + 2 ^ 47

pub IsTable-linked :
    (frame : ℕ)
    → frame % 2 ^ 12 ≡ 0
    → frame ≢ 0
    → frame < 2 ^ 47
    → IsTable (frame + 7) × (frame_of (frame + 7) ≡ frame)
IsTable-linked frame al ne lt = (
  record {
    word = omega arith;
    present = omega arith;
    frame = λ e. ne (omega arith);
    low = omega arith;
    inner = omega arith;
  },
  omega arith,
)

-- The state `t` behind the step that makes a table for the empty entry at `at`.
pub record Opens (offset limit at : ℕ) (s t : Kernel) : Type 0 where
  pub ready : IsReady offset limit t
  pub head : t.head ≡ s.head + 0x1000
  pub free :
      t.global_boot_info.memory.free_mem_size ≡ s.global_boot_info.memory.free_mem_size - 0x1000
  pub entry : mmio_read64 t.mem at ≡ s.head - offset + 7
  pub zero : (x : ℕ) → s.head ≤ x → x < s.head + 0x1000 → t.mem x ≡ 0
  pub same :
      (x : ℕ) → Outside at 8 x → Outside s.head (0x1000 + sizeof_f_block) x → t.mem x ≡ s.mem x
  pub root : t.pml4 ≡ s.pml4
  pub high : t.hhdm_offset ≡ s.hhdm_offset

-- The state of the allocator with an entry linked in its memory.
with_link : Kernel → ℕ → ℕ → Kernel
with_link u at frame = record u { mem = linked u.mem at frame }

get_next_level_pointer-run :
    (fuel at frame : ℕ) (s u : Kernel)
    → at ≢ 0
    → frame ≢ 0
    → mmio_read64 s.mem (at + 0) ≡ 0
    → allocate_frame fuel 0x1000 s ≡ ok frame u
    → get_next_level_pointer fuel at true s ≡ ok frame (with_link u at frame)
unfolding get_next_level_pointer with_link linked updated
get_next_level_pointer-run fuel at frame s u ne nz empty run =
    ground (arith, is_valid_lem 0 (omega arith), run)

page_rounds : round_up_to_page_boundary 0x1000 ≡ 0x1000
page_rounds = omega (arith, round_up_to_page_boundary_lem 0x1000)

next_table-run :
    {offset : ℕ} (fuel table index frame : ℕ) (s t : Kernel)
    → get_next_level_pointer fuel (entry_of table index) true s ≡ ok frame t
    → HasOffset offset t
    → frame < 2 ^ 47
    → offset + frame ≢ 0
    → next_table fuel table index s ≡ ok (frame + offset) t
unfolding next_table
next_table-run fuel table index frame s t run d lt ne =
    ground (arith, run, to_virtual_addr-offset frame d lt)

module _ {offset limit : ℕ} {s u : Kernel} (r : IsReady offset limit s) (at : ℕ)
    (below : at + 8 ≤ s.head) (empty : mmio_read64 s.mem at ≡ 0) (gives : Gives limit 0x1000 s u)
    (enough : 0x1000 ≤ s.global_boot_info.memory.free_mem_size) where
  linked-read :
      (b : ℕ)
      → Apart at 8 b 8
      → mmio_read64 (linked u.mem at (s.head - offset)) b ≡ mmio_read64 u.mem b
  linked-read b apart =
      mmio_read64_ext u.mem (linked u.mem at (s.head - offset)) b
        (λ x lo hi. linked-Outside u.mem at (s.head - offset) x (omega arith))

  linked-entry : mmio_read64 (linked u.mem at (s.head - offset)) at ≡ s.head - offset + 7
  linked-entry =
      let before : mmio_read64 u.mem at ≡ 0 =
        mmio_read64_ext s.mem u.mem at (λ x lo hi. gives.same x (omega arith)) ∙ empty in
      let here : at ≡ at + 0 = omega arith in
      ap (λ (b : ℕ). mmio_read64 (linked u.mem at (s.head - offset)) b) here
      ∙ linked-at u.mem at (s.head - offset) (rw (← here) before) r.aligned (omega arith)

  with_link-Opens : Opens offset limit at s (with_link u at (s.head - offset))
  unfolding with_link
  with_link-Opens = record {
    ready = record {
      direct = record {
        loaded = gives.loaded ∙ r.same;
        nonzero = r.direct.nonzero;
        room = r.direct.room;
      };
      bump = record {
        head_ne = gives.bump.head_ne;
        at = gives.bump.at;
        next = linked-read (u.head + next_at) (omega (arith, gives.head)) ∙ gives.bump.next;
        size = linked-read (u.head + size_at) (omega (arith, gives.head)) ∙ gives.bump.size;
        reach = gives.bump.reach;
        room = gives.bump.room;
        offset = gives.bump.offset;
      };
      same = gives.offset ∙ r.same;
      aligned = omega (arith, gives.head);
      first = omega (arith, gives.head);
      low = r.low;
    };
    head = gives.head;
    free = gives.free;
    entry = linked-entry;
    zero =
        λ x lo hi. linked-Outside u.mem at (s.head - offset) x (omega arith) ∙ gives.zero x lo hi;
    same = λ x out frame. linked-Outside u.mem at (s.head - offset) x out ∙ gives.same x frame;
    root = gives.root;
    high = gives.high;
  }

-- In an empty entry of a table that stands below the free block, `getNextLevelPointer` links a new table,
-- the frame at the start of the block, all zero; nothing else changes but the header behind the frame.
pub next_table-Opens :
    {offset limit : ℕ} {s : Kernel} (fuel table index : ℕ)
    → IsReady offset limit s
    → 0x1000 ≤ s.global_boot_info.memory.free_mem_size
    → index < 512
    → table + 2 ^ 12 + offset ≤ s.head
    → slot offset table index ≢ 0
    → mmio_read64 s.mem (slot offset table index) ≡ 0
    → (t : Kernel) × (next_table fuel (table + offset) index s ≡ ok s.head t)
      × Opens offset limit (slot offset table index) s t
next_table-Opens {offset} {limit} {s} fuel table index r enough i below ne empty =
    let at : ℕ = slot offset table index in
    let frame : ℕ = s.head - offset in
    let (u, run, gives) =
      allocate_frame_lem fuel 0x1000 r.bump (omega arith) (omega arith)
        (omega (arith, page_rounds)) in
    let given : Gives limit 0x1000 s u = subst (λ n. Gives limit n s u) page_rounds gives in
    let there : entry_of (table + offset) index ≡ at =
      entry_of-slot offset table index r.direct.room (omega arith) i in
    let opens = with_link-Opens r at (omega arith) empty given enough in
    (
      with_link u at frame,
      next_table-run fuel (table + offset) index frame s (with_link u at frame)
            (rw there (
              get_next_level_pointer-run fuel at frame s u ne (omega arith) (rw add-zero empty)
                (run ∙ ap (λ (n : ℕ). ok (s.head - n) u) r.same)))
            opens.ready.direct (omega arith) (omega arith)
          ∙ ap (λ (p : ℕ). ok p (with_link u at frame)) (omega arith),
      opens,
    )
