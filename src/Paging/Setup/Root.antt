-- ===== src/Paging/Setup/Root.antt =====
-- `init` of kernel/paging/paging.cpp, and the loop of `initPaging` behind it.
use optimist_os.Common.{
  ℕ, ◌+◌, ◌-◌, ◌%◌, ◌^◌, ◌≤◌, ◌<◌, ◌≡◌, ◌≢◌, ◌∙◌, inl, refl, ap, subst, arith, none, ◌==◌,
  if◌then◌else◌,
}
use optimist_os.Memory.Laws.{mmio_read64-zeros}
use optimist_os.Kernel.{Kernel}
use optimist_os.Kernel.Run.{ok}
use optimist_os.Frames.Round.{round_up_to_page_boundary}
use optimist_os.Frames.Round.Laws.{round_up_to_page_boundary_lem}
use optimist_os.Frames.Allocate.{allocate_frame}
use optimist_os.Frames.Allocate.Bump.{IsBump}
use optimist_os.Frames.Allocate.Gives.{Gives, allocate_frame_lem}
use optimist_os.Frames.First.{IsFresh, ensure_free_list_lem}
use optimist_os.Paging.Map.{init}
use optimist_os.Paging.Map.Level.{slot}
use optimist_os.Paging.Map.Open.{IsReady}
use optimist_os.Paging.Walk.{translate}
use optimist_os.Paging.Space.{Layout, HasLayout, entry_translation-zero, translate-leaf}
use optimist_os.Paging.Space.Large.{IsSpace}

-- The region of the boot information is one of whole frames in the direct map, none at the address 0.
pub record IsRegion (s : Kernel) : Type 0 where
  pub fresh : IsFresh s
  pub nonzero : s.global_boot_info.memory.hhdm_offset ≢ 0
  pub room : s.global_boot_info.memory.hhdm_offset + 2 ^ 47 ≤ 2 ^ 64
  pub aligned : s.global_boot_info.memory.free_mem_start % 2 ^ 12 ≡ 0
  pub first : s.global_boot_info.memory.free_mem_start ≢ 0
  pub low :
      s.global_boot_info.memory.free_mem_start + s.global_boot_info.memory.free_mem_size ≤ 2 ^ 47

-- The state with a new root.
unfoldable pub rooted : Kernel → ℕ → Kernel
rooted u frame = record u {
  pml4 = frame;
  kernel_pml4 = if u.kernel_pml4 == 0 then frame else u.kernel_pml4;
}

init-run :
    (fuel frame : ℕ) (s u : Kernel)
    → allocate_frame fuel 0x1000 s ≡ ok frame u
    → init fuel s ≡ ok tt (rooted u frame)
unfolding init rooted
init-run fuel frame s u run = ground (arith, run)

abbrev no_tables : Layout
no_tables = record { third = λ i. 0; second = λ j. 0; owner = λ f. 0; leaf = λ k. 0 }

-- The root is a frame of zeros, and the allocator has the rest of its block.
module _ {offset limit : ℕ} {s u : Kernel} (high : ℕ) (v : IsBump limit s)
    (gives : Gives limit 0x1000 s u) (same : s.global_boot_info.memory.hhdm_offset ≡ offset)
    (nonzero : offset ≢ 0) (room : offset + 2 ^ 47 ≤ 2 ^ 64)
    (aligned : (s.head - offset) % 2 ^ 12 ≡ 0) (first : offset < s.head)
    (low : limit ≤ offset + 2 ^ 47) where
  abbrev root_state : Kernel
  root_state = record (rooted u (s.head - offset)) { hhdm_offset = high }

  root_state-IsReady : IsReady offset limit root_state
  unfolding rooted
  root_state-IsReady = record {
    direct = record { loaded = gives.loaded ∙ same; nonzero = nonzero; room = room };
    bump = record {
      head_ne = gives.bump.head_ne;
      at = gives.bump.at;
      next = gives.bump.next;
      size = gives.bump.size;
      reach = gives.bump.reach;
      room = gives.bump.room;
      offset = gives.bump.offset;
    };
    same = gives.offset ∙ same;
    aligned = omega (arith, gives.head);
    first = omega (arith, gives.head);
    low = low;
  }

  root_state-HasLayout : HasLayout offset limit no_tables root_state
  unfolding rooted
  root_state-HasLayout = record {
    ready = root_state-IsReady;
    root = λ z. omega arith;
    root_at = record { aligned = aligned; below = omega (arith, gives.head); owned = refl };
    third_at = λ i hi there. absurd (there refl);
    second_at = λ j hj there. absurd (there refl);
    entry4 = λ i hi. (
      λ z.
          mmio_read64-zeros u.mem (slot offset (s.head - offset) i)
            (λ x lo hx. gives.zero x (omega arith) (omega arith)),
      λ ne. absurd (ne refl),
    );
    entry3 = λ j hj there. absurd (there refl);
    entry2 = λ k hk there. absurd (there refl);
    no_third = λ j hj none. refl;
    no_second = λ k hk none. refl;
    pages = λ k hk. inl refl;
  }

  root_state-nothing : (w : ℕ) → translate u.mem offset (s.head - offset) w ≡ none
  unfolding rooted
  root_state-nothing w = translate-leaf root_state-HasLayout w ∙ entry_translation-zero w

page_rounds : round_up_to_page_boundary 0x1000 ≡ 0x1000
page_rounds = omega (arith, round_up_to_page_boundary_lem 0x1000)

init-fresh :
    (fuel : ℕ) (s t : Kernel)
    → ((request : ℕ) → allocate_frame fuel request s ≡ allocate_frame fuel request t)
    → init fuel s ≡ init fuel t
unfolding init
init-fresh fuel s t same = rw (same 0x1000) refl

-- The end of the region in the direct map.
abbrev pub limit_of : Kernel → ℕ
limit_of s =
    s.global_boot_info.memory.free_mem_start + s.global_boot_info.memory.hhdm_offset
    + s.global_boot_info.memory.free_mem_size

-- `init` ends with a root at the start of the region, in an address space without pages.
pub init-root :
    (fuel : ℕ) {s : Kernel}
    → IsRegion s
    → 0x1000 ≤ s.global_boot_info.memory.free_mem_size
    → let offset = s.global_boot_info.memory.hhdm_offset in
      (t : Kernel) × (init fuel s ≡ ok tt t)
      × IsSpace offset (limit_of s) (record t { hhdm_offset = offset })
      × ((w : ℕ) → translate t.mem offset t.pml4 w ≡ none)
      × (t.pml4 ≡ s.global_boot_info.memory.free_mem_start)
      × (s.global_boot_info.memory.free_mem_size ≤ t.global_boot_info.memory.free_mem_size + 0x1000)
init-root fuel {s} r enough =
    let offset : ℕ = s.global_boot_info.memory.hhdm_offset in
    let limit : ℕ = limit_of s in
    let (l, listed, bump, later, head, info) = ensure_free_list_lem r.fresh in
    let free : l.global_boot_info.memory.free_mem_size ≡ s.global_boot_info.memory.free_mem_size =
      ap (λ i. i.memory.free_mem_size) info in
    let same : l.global_boot_info.memory.hhdm_offset ≡ offset =
      ap (λ i. i.memory.hhdm_offset) info in
    let (u, run, given) =
      allocate_frame_lem fuel 0x1000 bump (omega arith) (omega arith)
        (omega (arith, page_rounds)) in
    let gives : Gives limit 0x1000 l u = subst (λ n. Gives limit n l u) page_rounds given in
    let frame : ℕ = l.head - offset in
    let layout =
      root_state-HasLayout offset bump gives same r.nonzero r.room (omega (arith, r.aligned))
        (omega (arith, r.first)) (omega (arith, r.low)) in
    (
      rooted u frame,
      init-fresh fuel s l (later fuel)
          ∙ init-run fuel frame l u (run ∙ ap (λ (n : ℕ). ok (l.head - n) u) same),
      (no_tables, layout),
      λ w.
          (unfold rooted in
            root_state-nothing offset bump gives same r.nonzero r.room (omega (arith, r.aligned))
              (omega (arith, r.first)) (omega (arith, r.low)) w),
      unfold rooted in omega (arith, head),
      unfold rooted in omega (arith, gives.free),
    )
