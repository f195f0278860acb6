-- ===== src/Frames/Free/Laws.antt =====
-- `freeFrame` of kernel/paging/pageFrameAllocator.cpp over the table of kernel/paging/hashtable.cpp.
use optimist_os.Common.{
  ℕ, ◌+◌, ◌-◌, ◌^◌, u64, sub64, ◌≡◌, ◌≢◌, ◌∙◌, ◌%◌, ap, sym, subst, refl, arith, true, false,
  Bool-cases, inl, inr, ◌==◌, if◌then◌else◌,
}
use optimist_os.HashTable.{minus_one}
use optimist_os.HashTable.Laws.{search_lem, delete_key_lem}
use optimist_os.Kernel.{Kernel}
use optimist_os.Kernel.Run.{ok, halted}
use optimist_os.Frames.Address.{
  to_virtual_addr, minus_one_ptr, ensure_boot_info, load_boot_info, set_boot_info,
}
use optimist_os.Frames.Free.{release_block, free_frame}
use optimist_os.Frames.Allocate.{with_free_mem_size}
use optimist_os.Frames.FreeList.{size_at, next_at, previous_at, in_use_at}
use optimist_os.Memory.{write8, mmio_read64, mmio_write64}
use optimist_os.Memory.Laws.{
  Apart, mmio_read64-mmio_write64, mmio_read64-mmio_write64-Apart, mmio_read64-write8-Apart,
}

-- `toVirtualAddr` returns, and changes no more than the copy of the boot information.
virtual :
    (frame : ℕ) (s : Kernel)
    → (a : ℕ) × (t : Kernel) × (to_virtual_addr frame s ≡ ok a t)
      × ((t.mem ≡ s.mem)
          × (t.head ≡ s.head)
          × (t.used_memory ≡ s.used_memory)
          × (t.address_size_ht ≡ s.address_size_ht))
unfolding to_virtual_addr ensure_boot_info load_boot_info
virtual frame s = elim (Bool-cases (frame == minus_one_ptr)) [
  | inl failed ↦ (0, s, rw failed, (refl, refl, refl, refl))
  | inr fine ↦ elim (Bool-cases (s.boot_information.memory.hhdm_offset == 0)) [
    | inl blank ↦ (
      u64 (frame + s.global_boot_info.memory.hhdm_offset),
      record s { boot_information = s.global_boot_info },
      ground arith,
      (refl, refl, refl, refl),
    )
    | inr loaded ↦ (
      u64 (frame + s.boot_information.memory.hhdm_offset),
      s,
      ground arith,
      (refl, refl, refl, refl),
    )
  ]
]

halts :
    (frame : ℕ) (s : Kernel) (a : ℕ) (t : Kernel)
    → to_virtual_addr frame s ≡ ok a t
    → free_frame false frame s ≡ halted t
unfolding free_frame
halts frame s a t run = rw (run, (search_lem t.address_size_ht a 0).0)

wakes :
    (frame : ℕ) (s : Kernel) (a : ℕ) (t : Kernel)
    → to_virtual_addr frame s ≡ ok a t
    → free_frame true frame s ≡ release_block a minus_one t
unfolding free_frame
wakes frame s a t run = rw (run, (search_lem t.address_size_ht a 0).0)

-- The block becomes the head of the list with the size -1.
abbrev released : Kernel → ℕ → Kernel
released t a =
    let size = 2 ^ 64 - 1 in
    let mem =
      mmio_write64
        (mmio_write64 (write8 (mmio_write64 t.mem (a + size_at) size) (a + in_use_at) 0)
          (a + next_at) t.head)
        (t.head + previous_at) a in
    let free = t.boot_information.memory.free_mem_size in
    let info = with_free_mem_size t.boot_information (u64 (free + size)) in
    record t {
      mem = mem;
      head = a;
      used_memory = sub64 t.used_memory size;
      boot_information = if free == 0 then t.boot_information else info;
      global_boot_info = if free == 0 then t.global_boot_info else info;
    }

release_block-minus_one :
    (t : Kernel) (a : ℕ)
    → a ≢ 0
    → t.head ≢ 0
    → a ≢ t.head
    → release_block a minus_one t ≡ ok tt (released t a)
unfolding release_block set_boot_info
release_block-minus_one t a ne there other = ground (arith, delete_key_lem t.address_size_ht a)

-- The size of the block stands behind the later writes.
released-size :
    (t : Kernel) (a : ℕ)
    → Apart (t.head + previous_at) 8 a 8
    → mmio_read64 (released t a).mem a ≡ 2 ^ 64 - 1
released-size t a apart =
    let m = mmio_write64 t.mem (a + size_at) (2 ^ 64 - 1) in
    let used = write8 m (a + in_use_at) 0 in
    let linked = mmio_write64 used (a + next_at) t.head in
    mmio_read64-mmio_write64-Apart linked (t.head + previous_at) a a apart
    ∙ mmio_read64-mmio_write64-Apart used (a + next_at) t.head a (omega arith)
    ∙ mmio_read64-write8-Apart m (a + in_use_at) 0 a (omega arith)
    ∙ ap (λ (x : ℕ). mmio_read64 (mmio_write64 t.mem x (2 ^ 64 - 1)) a) (omega arith)
    ∙ mmio_read64-mmio_write64 t.mem a (2 ^ 64 - 1)
    ∙ refl

-- For every argument, also for a frame that is allocated, `freeFrame` comes to the `hlt` of its test for a
-- double free, and until an interrupt comes it has freed nothing: at most the copy of the boot information has
-- been loaded. If an interrupt wakes the processor, and the frame's address is not 0 and not the head of a free
-- list with a block, `freeFrame` goes on with the size -1: it puts the frame at the head of the list, counts one
-- byte more as used, and leaves the table of sizes as it was. The size field of the frame then holds
-- 2 ^ 64 - 1, unless the link of the old head overlaps it.
pub free_frame_halts :
    (frame : ℕ) (s : Kernel)
    → (a : ℕ) × (t : Kernel) × (to_virtual_addr frame s ≡ ok a t)
      × (free_frame false frame s ≡ halted t)
      × (t.mem ≡ s.mem)
      × (t.head ≡ s.head)
      × (t.used_memory ≡ s.used_memory)
      × (t.address_size_ht ≡ s.address_size_ht)
      × (a ≢ 0
          → s.head ≢ 0
          → a ≢ s.head
          → (u : Kernel) × (free_frame true frame s ≡ ok tt u)
            × (u.head ≡ a)
            × (u.used_memory ≡ (s.used_memory + 1) % 2 ^ 64)
            × (u.address_size_ht ≡ s.address_size_ht)
            × (Apart (s.head + previous_at) 8 a 8 → mmio_read64 u.mem a ≡ 2 ^ 64 - 1))
free_frame_halts frame s =
    let (a, t, run, (mem, head, used, table)) = virtual frame s in
    (
      a,
      t,
      run,
      halts frame s a t run,
      mem,
      head,
      used,
      table,
      λ ne there other. (
        released t a,
        wakes frame s a t run
            ∙ release_block-minus_one t a ne (λ z. there (sym head ∙ z)) (λ e. other (e ∙ head)),
        refl,
        omega (arith, used),
        table,
        λ apart.
            released-size t a (subst (λ (h : ℕ). Apart (h + previous_at) 8 a 8) (sym head) apart),
      ),
    )
