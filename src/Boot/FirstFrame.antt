-- ===== src/Boot/FirstFrame.antt =====
-- From `_start` of kernel/boot.cpp to the first frame of kernel/paging/pageFrameAllocator.cpp.
use optimist_os.Common.{ℕ, ◌+◌, ◌^◌, ◌≤◌, ◌<◌, ◌≡◌, ◌∙◌, sym, subst, arith, inl, inr}
use optimist_os.Kernel.{Kernel}
use optimist_os.Kernel.Run.{ok}
use optimist_os.Frames.Round.{page_size, round_up_to_page_boundary}
use optimist_os.Frames.FreeList.{sizeof_f_block}
use optimist_os.Frames.Allocate.{allocate_frame}
use optimist_os.Frames.Allocate.Bump.{IsBump}
use optimist_os.Frames.First.{IsFresh, first_frame}
use optimist_os.Boot.Memmap.{Choice, initial, choose, AtMost, IsOne, choose_lem}
use optimist_os.Boot.Start.{Limine, make_memory, start}
use optimist_os.Boot.Bootable.{IsBootable, region-IsBootable, boot_info, boot_font, start_lem}

-- The region that `_start` takes.
abbrev pub region :
    {usable : ℕ} {mem : ℕ → ℕ} {limine : Limine} → IsBootable usable mem limine → Choice
region {usable} b = choose usable b.kernel.physical_base b.entries initial

started :
    {usable : ℕ} (font : ℕ) (s : Kernel) {limine : Limine} → IsBootable usable s.mem limine → Kernel
started font s b = record s { global_boot_info = boot_info font b }

started-IsFresh :
    {usable : ℕ} (font : ℕ) (s : Kernel) {limine : Limine} (b : IsBootable usable s.mem limine)
    → s.head ≡ 0
    → s.boot_information.memory.hhdm_offset ≡ 0
    → (region b).free_mem_start + b.offset + (region b).free_mem_size + sizeof_f_block ≤ 2 ^ 64
    → IsFresh (started font s b)
unfolding started make_memory
started-IsFresh font s b head copy top =
    let (start, size, _) = region-IsBootable b in
    record {
      no_list = head;
      no_copy = copy;
      region = omega (arith, start, size);
      mapped = λ h. b.somewhere (omega arith);
    }

region-IsOne :
    {usable : ℕ} {mem : ℕ → ℕ} {limine : Limine} (b : IsBootable usable mem limine)
    → IsOne usable b.kernel.physical_base (region b) b.entries
region-IsOne {usable} b = elim ((choose_lem usable b.kernel.physical_base b.entries).1) [
  | inl one ↦ one
  | inr no_region ↦ absurd (b.somewhere (sym (region-IsBootable b).0 ∙ no_region.0))
]

-- From the globals as they are at the start and answers with which the kernel comes up, the first call of
-- `allocateFrame` behind `_start` gives the start of a usable region of the memory map that no other usable
-- region is longer than, and the free list is then one block up to the end of this region. The region, with
-- a header behind it, must fit the address space at the offset of the direct map, and the request, not 0,
-- must fit the region.
pub start-allocate_frame :
    {usable : ℕ} (font fuel request : ℕ) (s : Kernel) {limine : Limine}
    (b : IsBootable usable s.mem limine)
    → s.head ≡ 0
    → s.boot_information.memory.hhdm_offset ≡ 0
    → (region b).free_mem_start + b.offset + (region b).free_mem_size + sizeof_f_block ≤ 2 ^ 64
    → 0 < request
    → request + page_size ≤ 2 ^ 64
    → round_up_to_page_boundary request ≤ (region b).free_mem_size
    → (t : Kernel) × (start usable font limine s ≡ ok (boot_font b) t)
      × ((u : Kernel) × (allocate_frame fuel request t ≡ ok (region b).free_mem_start u)
          × IsBump ((region b).free_mem_start + b.offset + (region b).free_mem_size) u)
      × IsOne usable b.kernel.physical_base (region b) b.entries
      × AtMost usable b.kernel.physical_base (region b).free_mem_size b.entries
start-allocate_frame {usable} font fuel request s {limine} b head copy top pos small fits =
    let fresh = started-IsFresh font s b head copy top in
    let (base, size, _) = region-IsBootable b in
    unfold started make_memory in
    (
      started font s b,
      (start_lem usable font s limine).0 b,
      subst
          (λ (e : ℕ × ℕ).
            (u : Kernel) × (allocate_frame fuel request (started font s b) ≡ ok e.0 u)
            × IsBump (e.0 + b.offset + e.1) u)
          (λ i. (sym base i, sym size i))
          (first_frame fuel request fresh pos small
            (subst (λ (n : ℕ). round_up_to_page_boundary request ≤ n) size fits)),
      region-IsOne b,
      (choose_lem usable b.kernel.physical_base b.entries).0,
    )
