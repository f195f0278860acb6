-- ===== src/Checks/Spaces.antt =====
-- kernel/paging/paging.cpp with kernel/paging/pageFrameAllocator.cpp at concrete states: the root, where
-- there is one, is the frame at 0x1000, all zero.
use optimist_os.Common.{
  ℕ, ◌+◌, ◌*◌, ◌/◌, ◌%◌, ◌^◌, ◌≤◌, ◌<◌, ◌≡◌, ◌∙◌, ◌⊎◌, inl, inr, refl, arith, true, false, none,
  some, List, [], ◌∷◌, get_elem?, ◌==◌, if◌then◌else◌,
}
use optimist_os.Memory.{mmio_read64}
use optimist_os.Memory.Laws.{Outside, mmio_read64-mmio_write64-Apart, mmio_read64-zeros}
use optimist_os.Boot.Info.{BootInfo}
use optimist_os.Kernel.{Kernel}
use optimist_os.Kernel.Run.{ok}
use optimist_os.Frames.FreeList.{size_at, sizeof_f_block}
use optimist_os.Paging.Map.{map}
use optimist_os.Paging.Map.Level.{slot}
use optimist_os.Paging.Map.Open.{IsReady}
use optimist_os.Paging.Map.Tables.{IsEmpty}
use optimist_os.Paging.Map.Fresh.{map-fresh}
use optimist_os.Paging.Walk.{translate}
use optimist_os.Paging.Space.{Layout, HasLayout, page_number}
use optimist_os.Paging.Space.Large.{IsSpace, map-large}
use optimist_os.Boot.Memmap.{MemmapEntry}
use optimist_os.Paging.Setup.{PagingInput, map_memory}
use optimist_os.Paging.Setup.Regions.{covers}
use optimist_os.Paging.Setup.Memory.{IsInput, map_memory_lem}
use optimist_os.Checks.FrameCalls.{
  offset, free, info, zeros, fresh, first, one_block, one_block-IsBump,
}

abbrev rooted : Kernel
rooted = record one_block { pml4 = 0x1000 }

rooted-IsReady : IsReady offset (first + free) rooted
rooted-IsReady = record {
  direct = record { loaded = refl; nonzero = λ z. omega arith; room = omega arith };
  bump = record {
    head_ne = one_block-IsBump.head_ne;
    at = refl;
    next = one_block-IsBump.next;
    size = one_block-IsBump.size;
    reach = refl;
    room = omega arith;
    offset = omega arith;
  };
  same = refl;
  aligned = refl;
  first = omega arith;
  low = omega arith;
}

rooted-empty : (i : ℕ) → i < 512 → mmio_read64 rooted.mem (slot offset 0x1000 i) ≡ 0
rooted-empty i h =
    mmio_read64-mmio_write64-Apart zeros (first + size_at) free (slot offset 0x1000 i) (omega arith)
    ∙ mmio_read64-zeros zeros (slot offset 0x1000 i) (λ x lo hi. refl)

rooted-IsEmpty : IsEmpty offset (first + free) 0x8080604000 rooted
rooted-IsEmpty = record {
  ready = rooted-IsReady;
  root = λ z. omega arith;
  below = omega arith;
  empty = rooted-empty 1 (omega arith);
  enough = omega arith;
}

map-fresh_example :
    (t : Kernel) × (map 3 0x5000 0x8080604000 3 rooted ≡ ok true t)
    × ((w : ℕ)
        → w / 2 ^ 12 ≡ 0x8080604000 / 2 ^ 12
        → translate t.mem offset t.pml4 w ≡ some (0x5000 + w % 2 ^ 12))
    × IsReady offset (first + free) t
    × (t.head ≡ first + 3 * 0x1000)
    × ((x : ℕ)
        → Outside (slot offset 0x1000 1) 8 x
        → Outside first (3 * 0x1000 + sizeof_f_block) x
        → t.mem x ≡ rooted.mem x)
    × (t.pml4 ≡ 0x1000)
map-fresh_example =
    map-fresh 3 0x5000 3 rooted-IsEmpty (omega arith) refl refl refl (omega arith) refl

abbrev no_tables : Layout
no_tables = record { third = λ i. 0; second = λ j. 0; owner = λ f. 0; leaf = λ k. 0 }

rooted-HasLayout : HasLayout offset (first + free) no_tables rooted
rooted-HasLayout = record {
  ready = rooted-IsReady;
  root = λ z. omega arith;
  root_at = record { aligned = refl; below = omega arith; owned = refl };
  third_at = λ i hi there. absurd (there refl);
  second_at = λ j hj there. absurd (there refl);
  entry4 = λ i hi. (λ z. rooted-empty i hi, λ ne. absurd (ne refl));
  entry3 = λ j hj there. absurd (there refl);
  entry2 = λ k hk there. absurd (there refl);
  no_third = λ j hj none. refl;
  no_second = λ k hk none. refl;
  pages = λ k hk. inl refl;
}

map-large_example :
    (t : Kernel) × (map 3 0x600000 0xffff800000600000 131 rooted ≡ ok true t)
    × IsSpace offset (first + free) t
    × ((w : ℕ)
        → translate t.mem offset t.pml4 w ≡ (
            if page_number w == page_number 0xffff800000600000
            then some (0x600000 + w % 2 ^ 21)
            else translate rooted.mem offset 0x1000 w))
    × (t.pml4 ≡ 0x1000)
    × (t.hhdm_offset ≡ 0)
    × (free ≤ t.global_boot_info.memory.free_mem_size + 2 * 0x1000)
map-large_example =
    map-large 3 0x600000 0xffff800000600000 131 (no_tables, rooted-HasLayout) (omega arith)
      (omega arith) refl refl refl (omega arith) refl

abbrev large_info : BootInfo
large_info = record info { memory = record info.memory { free_mem_size = 2 ^ 26 } }

-- Before the first call of the allocator, with 64 MB free.
abbrev untouched : Kernel
untouched = record fresh { global_boot_info = large_info }

-- Two regions of the memory map, the second one of 1 GB from 5 GB on.
abbrev regions : List MemmapEntry
regions =
    record { base = 0x100000; length = 0x7ee00000; type = 0 }
    ∷ record { base = 0x140000000; length = 0x40000000; type = 0 }
    ∷ []

abbrev input : PagingInput
input = record {
  hhdm = offset;
  entries = regions;
  physical_base = 0x200000;
  virtual_base = 0xffffffff80000000;
  blob_begin = 0xffffffff80000000;
  blob_size = 0x10000;
}

untouched-IsInput : IsInput 1000 input untouched
untouched-IsInput = record {
  unlocked = refl;
  region = record {
    fresh = record {
      no_list = refl;
      no_copy = refl;
      region = omega arith;
      mapped = λ h. omega arith;
    };
    nonzero = λ z. omega arith;
    room = omega arith;
    aligned = refl;
    first = λ z. omega arith;
    low = omega arith;
  };
  offset = refl;
  high = record { aligned = refl; above = omega arith; below = omega arith; room = omega arith };
  regions = (
    inl (omega arith),
    (
      inr (record {
        base_aligned = refl;
        length_aligned = refl;
        large = omega arith;
        above = omega arith;
        reached = record { aligned = refl; room = omega arith; below = omega arith };
        enough = omega arith;
      }),
      tt,
    ),
  );
  enough = omega arith;
}

map_memory_lem_example :
    (t : Kernel) × (map_memory 1 1001 input untouched ≡ ok tt t)
    × ((a : ℕ)
        → a < 2 ^ 32
        → (translate t.mem offset t.pml4 a ≡ some a)
          × (translate t.mem offset t.pml4 (a + offset) ≡ some a))
    × ((i : ℕ) (e : MemmapEntry) (a : ℕ)
        → get_elem? regions i ≡ some e
        → 2 ^ 32 ≤ e.base
        → e.base ≤ a
        → a < e.base + e.length
        → translate t.mem offset t.pml4 (a + offset) ≡ some a)
    × ((w : ℕ)
        → 2 ^ 32 ≤ w % 2 ^ 48
        → (w % 2 ^ 48 < offset % 2 ^ 48) ⊎ (offset % 2 ^ 48 + 2 ^ 32 ≤ w % 2 ^ 48)
        → covers offset regions w ≡ false
        → translate t.mem offset t.pml4 w ≡ none)
    × (t.pml4 ≡ 0x200000)
map_memory_lem_example = map_memory_lem 1 1000 input untouched-IsInput
