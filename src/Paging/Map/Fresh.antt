-- ===== src/Paging/Map/Fresh.antt =====
-- `map` of kernel/paging/paging.cpp where no table is on the way of the address, over `allocateFrame` of
-- kernel/paging/pageFrameAllocator.cpp.
use optimist_os.Common.{
  ℕ, ◌+◌, ◌-◌, ◌*◌, ◌/◌, ◌%◌, ◌^◌, ◌≤◌, ◌<◌, ◌≡◌, ◌∙◌, refl, sym, ap, subst, arith, bit_and, true,
  some,
}
use optimist_os.Memory.{Memory, mmio_read64}
use optimist_os.Memory.Laws.{Outside, Apart, mmio_read64_ext}
use optimist_os.Kernel.{Kernel}
use optimist_os.Kernel.Run.{ok}
use optimist_os.Frames.FreeList.{size_at, next_at, sizeof_f_block}
use optimist_os.Paging.Entry.{address_mask, larger_pages}
use optimist_os.Paging.Entry.Laws.{IsWord}
use optimist_os.Paging.Map.{virtual_addr_to_pte, map}
use optimist_os.Paging.Map.Level.{slot}
use optimist_os.Paging.Map.Open.{IsReady}
use optimist_os.Paging.Map.Present.{virtual_addr_to_pte-slot, map-translate}
use optimist_os.Paging.Walk.{frame_of, translate}
use optimist_os.Paging.Map.Tables.{IsEmpty, Walked}
use optimist_os.Paging.Map.Missing.{virtual_addr_to_pte-Walked}

map-walk :
    (fuel physical v flags p : ℕ) (s t : Kernel)
    → virtual_addr_to_pte fuel v flags s ≡ ok p t
    → virtual_addr_to_pte fuel v flags t ≡ ok p t
    → map fuel physical v flags s ≡ map fuel physical v flags t
unfolding map
map-walk fuel physical v flags p s t first again = rw (first, again) refl

-- A write below the free block leaves the allocator as it was.
pub kept-IsReady :
    {offset limit : ℕ} {s : Kernel} (at : ℕ) (m : Memory)
    → IsReady offset limit s
    → at + 8 ≤ s.head
    → ((x : ℕ) → Outside at 8 x → m x ≡ s.mem x)
    → IsReady offset limit (record s { mem = m })
kept-IsReady {offset} {limit} {s} at m r below keeps =
    let read =
      λ (b : ℕ) (h : s.head ≤ b). mmio_read64_ext s.mem m b (λ x lo hi. keeps x (omega arith)) in
    record {
      direct = record {
        loaded = r.direct.loaded;
        nonzero = r.direct.nonzero;
        room = r.direct.room;
      };
      bump = record {
        head_ne = r.bump.head_ne;
        at = r.bump.at;
        next = read (s.head + next_at) (omega arith) ∙ r.bump.next;
        size = read (s.head + size_at) (omega arith) ∙ r.bump.size;
        reach = r.bump.reach;
        room = r.bump.room;
        offset = r.bump.offset;
      };
      same = r.same;
      aligned = r.aligned;
      first = r.first;
      low = r.low;
    }

-- The slot of the page is apart from the three slots above it.
module _ {offset limit v : ℕ} {s t : Kernel} (e : IsEmpty offset limit v s)
    (w : Walked offset limit v s t) where
  -- The slot of the page.
  leaf_slot : ℕ
  leaf_slot = slot offset (frame_of (s.head - offset + 0x2000 + 7)) (v / 2 ^ 12 % 512)

  leaf_slot-eq : leaf_slot ≡ s.head + 0x2000 + 8 * (v / 2 ^ 12 % 512)
  unfolding leaf_slot
  leaf_slot-eq = omega (arith, w.frame, e.ready.first)

  small_frames :
      ((s.head - offset) % 2 ^ 12 ≡ 0) × (s.head - offset + 0x3000 ≤ 2 ^ 47) × (offset < s.head)
  small_frames =
      omega (arith, e.ready.aligned, e.ready.low, e.ready.bump.reach, e.enough, e.ready.first)

  leaf-Apart :
      Apart leaf_slot 8 (slot offset t.pml4 (v / 2 ^ 39 % 512)) 8
      × Apart leaf_slot 8 (slot offset (frame_of (s.head - offset + 7)) (v / 2 ^ 30 % 512)) 8
      × Apart leaf_slot 8
          (slot offset (frame_of (s.head - offset + 0x1000 + 7)) (v / 2 ^ 21 % 512))
          8
  leaf-Apart = (
    omega (arith, leaf_slot-eq, w.root, e.below),
    omega (arith, leaf_slot-eq, small_frames),
    omega (arith, leaf_slot-eq, small_frames),
  )

  leaf-IsWord : IsWord (mmio_read64 t.mem leaf_slot)
  unfolding leaf_slot
  leaf-IsWord = rw (w.frame, w.leaf) (omega arith)

  map-Walked :
      (fuel physical flags : ℕ)
      → IsWord flags
      → bit_and flags address_mask ≡ 0
      → bit_and flags larger_pages ≡ 0
      → flags % 2 ≡ 1
      → physical < 2 ^ 52
      → physical % 2 ^ 12 ≡ 0
      → (u : Kernel) × (map fuel physical v flags t ≡ ok true u)
        × ((p : ℕ)
            → p / 2 ^ 12 ≡ v / 2 ^ 12
            → translate u.mem offset u.pml4 p ≡ some (physical + p % 2 ^ 12))
        × IsReady offset limit u
        × (u.head ≡ s.head + 3 * 0x1000)
        × ((x : ℕ)
            → Outside (slot offset s.pml4 (v / 2 ^ 39 % 512)) 8 x
            → Outside s.head (3 * 0x1000 + sizeof_f_block) x
            → u.mem x ≡ s.mem x)
        × (u.pml4 ≡ s.pml4)
  unfolding leaf_slot
  map-Walked fuel physical flags word apart small odd lt al =
      let (m4, m3, m2) = leaf-Apart in
      let (u, mapped, translates, only, keeps) =
        map-translate fuel physical flags w.tables m4 m3 m2 leaf-IsWord word apart small odd lt
          al in
      (
        u,
        mapped,
        translates,
        subst (IsReady offset limit) (sym only)
            (kept-IsReady leaf_slot u.mem w.ready (omega (arith, leaf_slot-eq, w.head)) keeps),
        ap (λ (k : Kernel). k.head) only ∙ w.head,
        λ x out new. keeps x (omega (arith, leaf_slot-eq)) ∙ w.same x out new,
        ap (λ (k : Kernel). k.pml4) only ∙ w.root,
      )

-- With a root that stands below the free block and whose entry for the address is empty, and three frames
-- free, `map` of a 4 KB page makes the three missing tables of the first three frames of the block and
-- returns true, for a page-aligned physical address below 2 ^ 52 and flags that include the present bit, no
-- bit of the address field and not the bit of larger pages. Afterwards the processor translates every
-- address of the page to the same place of the physical page. The block starts behind the three frames and
-- the allocator is ready again; no byte changes but the root's entry, the three frames and the header behind
-- them, and the root stays.
pub map-fresh :
    {offset limit v : ℕ} {s : Kernel} (fuel physical flags : ℕ)
    → IsEmpty offset limit v s
    → IsWord flags
    → bit_and flags address_mask ≡ 0
    → bit_and flags larger_pages ≡ 0
    → flags % 2 ≡ 1
    → physical < 2 ^ 52
    → physical % 2 ^ 12 ≡ 0
    → (t : Kernel) × (map fuel physical v flags s ≡ ok true t)
      × ((w : ℕ)
          → w / 2 ^ 12 ≡ v / 2 ^ 12
          → translate t.mem offset t.pml4 w ≡ some (physical + w % 2 ^ 12))
      × IsReady offset limit t
      × (t.head ≡ s.head + 3 * 0x1000)
      × ((x : ℕ)
          → Outside (slot offset s.pml4 (v / 2 ^ 39 % 512)) 8 x
          → Outside s.head (3 * 0x1000 + sizeof_f_block) x
          → t.mem x ≡ s.mem x)
      × (t.pml4 ≡ s.pml4)
map-fresh {offset} {limit} {v} {s} fuel physical flags e word apart small odd lt al =
    let (t, run, w) = virtual_addr_to_pte-Walked fuel flags e small in
    let again =
      virtual_addr_to_pte-slot w.tables fuel flags small
      ∙ ap (λ (f : ℕ). ok (slot offset f (v / 2 ^ 12 % 512)) t) w.frame in
    let (u, mapped, translates, ready, head, same, root) =
      map-Walked e w fuel physical flags word apart small odd lt al in
    (
      u,
      map-walk fuel physical v flags _ s t run again ∙ mapped,
      translates,
      ready,
      head,
      same,
      root,
    )
