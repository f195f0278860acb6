-- ===== src/Paging/Setup/Memory.antt =====
-- `initPaging` of kernel/paging/paging.cpp up to the loop over the kernel, from the globals at the start.
use mathlib.Core.Bool.{or-true}
use mathlib.Core.Option.{some-injective}
use optimist_os.Common.{
  ℕ, zero, suc, ◌+◌, ◌-◌, ◌*◌, ◌%◌, ◌^◌, ◌≤◌, ◌<◌, ◌≡◌, ◌∙◌, ◌⊎◌, inl, inr, refl, sym, ap, subst,
  arith, ◌||◌, if◌then◌else◌, some, none, true, false, List, [], ◌∷◌, get_elem?,
}
use optimist_os.Lock.{lock}
use optimist_os.Kernel.{Kernel}
use optimist_os.Kernel.Run.{ok}
use optimist_os.Boot.Memmap.{MemmapEntry}
use optimist_os.Frames.Address.{get_boot_info}
use optimist_os.Paging.Map.{init}
use optimist_os.Paging.Walk.{translate}
use optimist_os.Paging.Setup.{PagingInput, acquire_paging, map_low, map_entries, map_memory}
use optimist_os.Paging.Setup.Low.{IsHigh, window, window-low, window-high, map_low-window}
use optimist_os.Paging.Setup.Region.{within}
use optimist_os.Paging.Setup.Regions.{IsPlain, ArePlain, pages_of, covers, map_entries-covers}
use optimist_os.Paging.Setup.Root.{IsRegion, init-root}

-- The mutex is free and the boot loader's answers fit the boot information and the free memory.
pub record IsInput (rounds : ℕ) (input : PagingInput) (s : Kernel) : Type 0 where
  pub unlocked : s.paging_mutex ≡ 0
  pub region : IsRegion s
  pub offset : input.hhdm ≡ s.global_boot_info.memory.hhdm_offset
  pub high : IsHigh s.global_boot_info.memory.hhdm_offset
  pub regions : ArePlain s.global_boot_info.memory.hhdm_offset (suc rounds) input.entries
  pub enough :
      2 ^ 25 + 0x1000 + pages_of input.entries * (2 * 0x1000)
      ≤ s.global_boot_info.memory.free_mem_size

-- The state behind the lock.
abbrev locked : Kernel → Kernel
locked s = record s { paging_mutex = 1 }

acquire_paging-locked :
    (rounds : ℕ) (s : Kernel)
    → s.paging_mutex ≡ 0
    → acquire_paging (suc rounds) s ≡ ok tt (locked s)
unfolding acquire_paging lock
acquire_paging-locked rounds s free = rw free refl

locked-IsRegion : {s : Kernel} → IsRegion s → IsRegion (locked s)
locked-IsRegion r = record {
  fresh = record {
    no_list = r.fresh.no_list;
    no_copy = r.fresh.no_copy;
    region = r.fresh.region;
    mapped = r.fresh.mapped;
  };
  nonzero = r.nonzero;
  room = r.room;
  aligned = r.aligned;
  first = r.first;
  low = r.low;
}

map_memory-run :
    (fuel rounds : ℕ) (input : PagingInput) (s t u v : Kernel)
    → s.paging_mutex ≡ 0
    → init fuel (locked s) ≡ ok tt t
    → map_low fuel 2048 0 (record t { hhdm_offset = input.hhdm }) ≡ ok tt u
    → map_entries fuel (suc rounds) input.entries u ≡ ok tt v
    → map_memory fuel (suc rounds) input s ≡ ok tt v
unfolding map_memory get_boot_info
map_memory-run fuel rounds input s t u v free first low regions =
    rw (acquire_paging-locked rounds s free, first, low) regions

-- The first 4 GB at the offset are in no region.
covers-low :
    (high w : ℕ) (es : List MemmapEntry)
    → w % 2 ^ 48 < high % 2 ^ 48 + 2 ^ 32
    → covers high es w ≡ false
unfolding within
covers-low high w [] lt = refl
covers-low high w (e ∷ es) lt =
    let here : within high e w ≡ false = ground arith in rw here (covers-low high w es lt)

-- A region of the list covers its addresses.
covers-region :
    (high rounds : ℕ) (es : List MemmapEntry) (i : ℕ) (e : MemmapEntry) (a : ℕ)
    → ArePlain high rounds es
    → get_elem? es i ≡ some e
    → 2 ^ 32 ≤ e.base
    → e.base ≤ a
    → a < e.base + e.length
    → (covers high es (a + high) ≡ true) × ((a + high) % 2 ^ 48 - high % 2 ^ 48 ≡ a)
unfolding within
covers-region high rounds [] i e a plain at above lo hi = absurd (cc)
covers-region high rounds (d ∷ es) (suc i) e a (one, plain) at above lo hi =
    let (later, value) = covers-region high rounds es i e a plain at above lo hi in
    (rw later (or-true (within high d (a + high))), value)
covers-region high rounds (d ∷ es) zero e a (one, plain) at above lo hi =
    let same : d ≡ e = some-injective d e at in
    elim (subst (IsPlain high rounds) same one) [
      | inl low ↦ absurd (omega arith)
      | inr whole ↦
          let sum : (a + high) % 2 ^ 48 ≡ high % 2 ^ 48 + a = omega (arith, whole.reached.below) in
          let here : within high e (a + high) ≡ true = ground (arith, sum) in
          (
            ap (λ f. within high f (a + high) || covers high es (a + high)) same ∙ rw here refl,
            omega (arith, sum),
          )
    ]

window-elsewhere :
    (high w : ℕ)
    → high % 2 ^ 21 ≡ 0
    → 2 ^ 32 ≤ w % 2 ^ 48
    → (w % 2 ^ 48 < high % 2 ^ 48) ⊎ (high % 2 ^ 48 + 2 ^ 32 ≤ w % 2 ^ 48)
    → window high 0 2048 w none ≡ none
window-elsewhere high w al up out = ground arith

-- With the mutex free, from the globals before the first call of `allocateFrame`, with a region of whole
-- frames, not at the address 0, that the direct map reaches, with the offset of the direct map as the boot
-- loader's, one of whole pages of 2 MB at which the first 4 GB neither wrap nor meet themselves, with a memory
-- map whose regions begin below 4 GB or are at least 1 GB of whole pages of 2 MB whose place at the offset does
-- not wrap, with more rounds than such a region has pages, and with 32 MB, a frame and two frames for each page
-- of these regions free, `initPaging` comes to its loop over the kernel. Then the processor translates
-- every address below 4 GB to itself, and at the offset to the same. It translates every address of a region
-- that begins at 4 GB or above, at the offset, to the address. It translates no other address.
pub map_memory_lem :
    (fuel rounds : ℕ) (input : PagingInput) {s : Kernel}
    → IsInput rounds input s
    → let offset = s.global_boot_info.memory.hhdm_offset in
      (t : Kernel) × (map_memory fuel (suc rounds) input s ≡ ok tt t)
      × ((a : ℕ)
          → a < 2 ^ 32
          → (translate t.mem offset t.pml4 a ≡ some a)
            × (translate t.mem offset t.pml4 (a + offset) ≡ some a))
      × ((i : ℕ) (e : MemmapEntry) (a : ℕ)
          → get_elem? input.entries i ≡ some e
          → 2 ^ 32 ≤ e.base
          → e.base ≤ a
          → a < e.base + e.length
          → translate t.mem offset t.pml4 (a + offset) ≡ some a)
      × ((w : ℕ)
          → 2 ^ 32 ≤ w % 2 ^ 48
          → (w % 2 ^ 48 < offset % 2 ^ 48) ⊎ (offset % 2 ^ 48 + 2 ^ 32 ≤ w % 2 ^ 48)
          → covers offset input.entries w ≡ false
          → translate t.mem offset t.pml4 w ≡ none)
      × (t.pml4 ≡ s.global_boot_info.memory.free_mem_start)
map_memory_lem fuel rounds input {s} h =
    let offset : ℕ = s.global_boot_info.memory.hhdm_offset in
    let es : List MemmapEntry = input.entries in
    let (t, first, space, nothing, root, free) =
      init-root fuel (locked-IsRegion h.region) (omega (arith, h.enough)) in
    let (u, low, space', t', root', same', free') =
      map_low-window fuel 2048 0 space h.high (omega arith) (omega (arith, h.enough, free)) in
    let (v, regions, space'', t'', root'', same'') =
      map_entries-covers fuel rounds es space'
        (subst (λ o. ArePlain o (suc rounds) es) (sym same') h.regions)
        (omega (arith, h.enough, free, free')) in
    let where_to : (w : ℕ)
        → translate v.mem offset v.pml4 w ≡ (
            if covers offset es w
            then some (w % 2 ^ 48 - offset % 2 ^ 48)
            else window offset 0 2048 w none) =
      λ w.
        t'' w
        ∙ ap
            (λ (o : ℕ).
              if covers o es w
              then some (w % 2 ^ 48 - o % 2 ^ 48)
              else translate u.mem offset u.pml4 w)
            same'
        ∙ ap (λ old. if covers offset es w then some (w % 2 ^ 48 - offset % 2 ^ 48) else old)
            (t' w ∙ ap (window offset 0 2048 w) (nothing w)) in
    (
      v,
      map_memory-run fuel rounds input s t u v h.unlocked first
          (ap (λ (o : ℕ). map_low fuel 2048 0 (record t { hhdm_offset = o })) h.offset ∙ low)
          regions,
      λ a lt. (
        where_to a
            ∙ rw (covers-low offset a es (omega (arith, h.high.above)))
                (window-low offset a none lt),
        where_to (a + offset)
            ∙ rw (covers-low offset (a + offset) es (omega (arith, h.high.below)))
                (window-high offset a none h.high lt),
      ),
      λ i e a at above lo hi.
          let (inside, value) =
            covers-region offset (suc rounds) es i e a h.regions at above lo hi in
          where_to (a + offset) ∙ rw (inside, value) refl,
      λ w up out none_covers.
          where_to w ∙ rw none_covers (window-elsewhere offset w h.high.aligned up out),
      root'' ∙ root' ∙ root,
    )
