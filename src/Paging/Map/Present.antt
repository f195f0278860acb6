-- ===== src/Paging/Map/Present.antt =====
-- `virtualAddrToPTE` and `map` of kernel/paging/paging.cpp where the upper tables exist, against the
-- processor's translation.
use optimist_os.Common.{
  ℕ, ◌+◌, ◌/◌, ◌%◌, ◌^◌, ◌≤◌, ◌<◌, ◌≡◌, ◌≢◌, ◌∙◌, refl, sym, ap, subst, arith, bit_and, true, some,
  add-zero,
}
use optimist_os.Common.Bits.{bit_and_step}
use optimist_os.Memory.{Memory, mmio_read64, mmio_write64}
use optimist_os.Memory.Laws.{
  Apart, Outside, mmio_write64-Outside, mmio_read64-mmio_write64, mmio_read64_ext,
}
use optimist_os.Kernel.{Kernel}
use optimist_os.Kernel.Run.{ok}
use optimist_os.Paging.Entry.{address_mask, larger_pages, set_flag, set_address}
use optimist_os.Paging.Entry.Laws.{IsWord, map_entry_lem, set_address-IsWord}
use optimist_os.Paging.Index.{pml4_entry-eq, pml3_entry-eq, pml2_entry-eq, pml1_entry-eq}
use optimist_os.Paging.Map.{entry_of, next_table, virtual_addr_to_pte, map}
use optimist_os.Paging.Map.Level.{
  HasOffset, IsTable, slot, entry_of-slot, to_virtual_addr-offset, next_table-valid,
  get_address-frame_of,
}
use optimist_os.Paging.Walk.{frame_of, translate}

-- The entries `e4`, `e3` and `e2` on the way of the address `v` name tables.
pub record HasTables (offset : ℕ) (s : Kernel) (v e4 e3 e2 : ℕ) : Type 0 where
  pub direct : HasOffset offset s
  pub root : s.pml4 ≢ 0
  pub root_lt : s.pml4 + 2 ^ 12 ≤ 2 ^ 47
  pub read4 : mmio_read64 s.mem (slot offset s.pml4 (v / 2 ^ 39 % 512)) ≡ e4
  pub table4 : IsTable e4
  pub read3 : mmio_read64 s.mem (slot offset (frame_of e4) (v / 2 ^ 30 % 512)) ≡ e3
  pub table3 : IsTable e3
  pub read2 : mmio_read64 s.mem (slot offset (frame_of e3) (v / 2 ^ 21 % 512)) ≡ e2
  pub table2 : IsTable e2

-- One level of the walk, at the slot of its entry.
pub next_table-slot :
    {offset : ℕ} {t : Kernel} (fuel table index value : ℕ)
    → HasOffset offset t
    → table + 2 ^ 12 ≤ 2 ^ 47
    → index < 512
    → mmio_read64 t.mem (slot offset table index) ≡ value
    → IsTable value
    → next_table fuel (table + offset) index t ≡ ok (frame_of value + offset) t
next_table-slot {offset} {t} fuel table index value d lt i read is =
    let at : entry_of (table + offset) index ≡ slot offset table index =
      entry_of-slot offset table index d.room lt i in
    next_table-valid fuel (table + offset) index value d (rw at (ground arith))
      (rw (at, add-zero) read) is.word is.present is.frame is.low

module _ {offset : ℕ} {s : Kernel} {v e4 e3 e2 : ℕ} (h : HasTables offset s v e4 e3 e2)
    (fuel : ℕ) where
  -- The walk for a page of 4 KB ends at the slot of the last table, and changes nothing.
  pub virtual_addr_to_pte-slot :
      (flags : ℕ)
      → bit_and flags larger_pages ≡ 0
      → virtual_addr_to_pte fuel v flags s ≡ ok (slot offset (frame_of e2) (v / 2 ^ 12 % 512)) s
  unfolding virtual_addr_to_pte
  virtual_addr_to_pte-slot flags small = ground (
    arith,
    pml4_entry-eq v,
    pml3_entry-eq v,
    pml2_entry-eq v,
    pml1_entry-eq v,
    to_virtual_addr-offset s.pml4 h.direct,
    next_table-slot {t = record s { pml4 = s.pml4 + offset }} fuel s.pml4 (v / 2 ^ 39 % 512) e4
        (record { loaded = h.direct.loaded; nonzero = h.direct.nonzero; room = h.direct.room })
        h.root_lt (omega arith) h.read4 h.table4,
    next_table-slot {t = s} fuel (frame_of e4) (v / 2 ^ 30 % 512) e3 h.direct
        (omega (arith, h.table4.low)) (omega arith) h.read3 h.table3,
    next_table-slot {t = s} fuel (frame_of e3) (v / 2 ^ 21 % 512) e2 h.direct
        (omega (arith, h.table3.low)) (omega arith) h.read2 h.table2,
    entry_of-slot offset (frame_of e2) (v / 2 ^ 12 % 512) h.direct.room
        (omega (arith, h.table2.low)) (omega arith),
  )

-- What `map` writes over the old value of the last entry.
abbrev pub mapped_entry : ℕ → ℕ → ℕ → ℕ
mapped_entry old physical flags = set_flag (set_address old physical) flags true

abbrev pub mapped_mem : Memory → ℕ → ℕ → ℕ → Memory
mapped_mem m at physical flags =
    let addressed = mmio_write64 m (at + 0) (set_address (mmio_read64 m (at + 0)) physical) in
    mmio_write64 addressed (at + 0) (set_flag (mmio_read64 addressed (at + 0)) flags true)

pub odd_of_mask : (e flags : ℕ) → bit_and e flags ≡ flags → flags % 2 ≡ 1 → e % 2 ≡ 1
odd_of_mask e flags h odd = omega (arith, bit_and_step e flags)

module _ (m : Memory) (at physical flags : ℕ) (old_word : IsWord (mmio_read64 m (at + 0)))
    (flags_word : IsWord flags) (apart : bit_and flags address_mask ≡ 0) (lt : physical < 2 ^ 52)
    (aligned : physical % 2 ^ 12 ≡ 0) where
  pub mapped_mem-at :
      mmio_read64 (mapped_mem m at physical flags) (at + 0)
      ≡ mapped_entry (mmio_read64 m (at + 0)) physical flags
  mapped_mem-at = ground (
    arith,
    mmio_read64-mmio_write64 m (at + 0) (set_address (mmio_read64 m (at + 0)) physical),
    mmio_read64-mmio_write64
        (mmio_write64 m (at + 0) (set_address (mmio_read64 m (at + 0)) physical)) (at + 0)
        (mapped_entry (mmio_read64 m (at + 0)) physical flags),
    set_address-IsWord (mmio_read64 m (at + 0)) physical old_word (omega arith),
    map_entry_lem (mmio_read64 m (at + 0)) physical flags old_word flags_word apart lt aligned,
  )

  pub mapped_mem-Outside : (x : ℕ) → Outside at 8 x → mapped_mem m at physical flags x ≡ m x
  mapped_mem-Outside x out = ground (
    arith,
    mmio_write64-Outside (mmio_write64 m (at + 0) (set_address (mmio_read64 m (at + 0)) physical))
        (at + 0)
        (set_flag
          (mmio_read64 (mmio_write64 m (at + 0) (set_address (mmio_read64 m (at + 0)) physical))
            (at + 0))
          flags true)
        x,
    mmio_write64-Outside m (at + 0) (set_address (mmio_read64 m (at + 0)) physical) x,
  )

  mapped_mem-Apart :
      (b : ℕ) → Apart at 8 b 8 → mmio_read64 (mapped_mem m at physical flags) b ≡ mmio_read64 m b
  mapped_mem-Apart b out =
      mmio_read64_ext m (mapped_mem m at physical flags) b
        (λ x lo hi. mapped_mem-Outside x (omega arith))

-- The processor follows three tables to a 4 KB page.
pub translate-tables :
    (m : Memory) (offset root w e4 e3 e2 e1 : ℕ)
    → mmio_read64 m (slot offset root (w / 2 ^ 39 % 512)) ≡ e4
    → IsTable e4
    → mmio_read64 m (slot offset (frame_of e4) (w / 2 ^ 30 % 512)) ≡ e3
    → IsTable e3
    → mmio_read64 m (slot offset (frame_of e3) (w / 2 ^ 21 % 512)) ≡ e2
    → IsTable e2
    → mmio_read64 m (slot offset (frame_of e2) (w / 2 ^ 12 % 512)) ≡ e1
    → e1 % 2 ≡ 1
    → translate m offset root w ≡ some (frame_of e1 + w % 2 ^ 12)
unfolding translate
translate-tables m offset root w e4 e3 e2 e1 r4 t4 r3 t3 r2 t2 r1 odd = ground arith

map-ok :
    {offset : ℕ} {s : Kernel} {v e4 e3 e2 : ℕ} (fuel physical flags : ℕ)
    → HasTables offset s v e4 e3 e2
    → bit_and flags larger_pages ≡ 0
    → map fuel physical v flags s
      ≡ ok true (record s {
        mem = mapped_mem s.mem (slot offset (frame_of e2) (v / 2 ^ 12 % 512)) physical flags;
      })
unfolding map
map-ok {offset} {s} {v} {e4} {e3} {e2} fuel physical flags h small =
    ground (arith, virtual_addr_to_pte-slot h fuel flags small)

-- With the tables of the upper levels in place, their entries apart from the one that is written,
-- and for a page-aligned physical address below 2 ^ 52 and flags that include the present bit, no
-- bit of the address field and not the bit of larger pages, `map` of a 4 KB page returns true.
-- Afterwards the processor translates every address of that page to the same place of the physical
-- page. No byte outside of the one entry changes, and nothing else of the state.
pub map-translate :
    {offset : ℕ} {s : Kernel} {v e4 e3 e2 : ℕ} (fuel physical flags : ℕ)
    → HasTables offset s v e4 e3 e2
    → let at = slot offset (frame_of e2) (v / 2 ^ 12 % 512) in
      Apart at 8 (slot offset s.pml4 (v / 2 ^ 39 % 512)) 8
      → Apart at 8 (slot offset (frame_of e4) (v / 2 ^ 30 % 512)) 8
      → Apart at 8 (slot offset (frame_of e3) (v / 2 ^ 21 % 512)) 8
      → IsWord (mmio_read64 s.mem at)
      → IsWord flags
      → bit_and flags address_mask ≡ 0
      → bit_and flags larger_pages ≡ 0
      → flags % 2 ≡ 1
      → physical < 2 ^ 52
      → physical % 2 ^ 12 ≡ 0
      → (t : Kernel) × (map fuel physical v flags s ≡ ok true t)
        × ((w : ℕ)
            → w / 2 ^ 12 ≡ v / 2 ^ 12
            → translate t.mem offset t.pml4 w ≡ some (physical + w % 2 ^ 12))
        × (t ≡ record s { mem = t.mem })
        × ((x : ℕ) → Outside at 8 x → t.mem x ≡ s.mem x)
map-translate {offset} {s} {v} {e4} {e3} {e2} fuel physical flags h a4 a3 a2 ow fw apart small odd
      lt al =
    let at = slot offset (frame_of e2) (v / 2 ^ 12 % 512) in
    let word : IsWord (mmio_read64 s.mem (at + 0)) = rw add-zero ow in
    let m' : Memory = mapped_mem s.mem at physical flags in
    let e1 = mapped_entry (mmio_read64 s.mem (at + 0)) physical flags in
    let made = map_entry_lem (mmio_read64 s.mem (at + 0)) physical flags word fw apart lt al in
    let read1 : mmio_read64 m' at ≡ e1 =
      subst (λ a. mmio_read64 m' a ≡ e1) (add-zero at)
        (mapped_mem-at s.mem at physical flags word fw apart lt al) in
    let keeps = mapped_mem-Apart s.mem at physical flags word fw apart lt al in
    (
      record s { mem = m' },
      map-ok fuel physical flags h small,
      λ w same.
          translate-tables m' offset s.pml4 w e4 e3 e2 e1
            (subst (λ i. mmio_read64 m' (slot offset s.pml4 i) ≡ e4) (omega arith)
              (keeps _ a4 ∙ h.read4))
            h.table4
            (subst (λ i. mmio_read64 m' (slot offset (frame_of e4) i) ≡ e3) (omega arith)
              (keeps _ a3 ∙ h.read3))
            h.table3
            (subst (λ i. mmio_read64 m' (slot offset (frame_of e3) i) ≡ e2) (omega arith)
              (keeps _ a2 ∙ h.read2))
            h.table2
            (subst (λ i. mmio_read64 m' (slot offset (frame_of e2) i) ≡ e1) (omega arith) read1)
            (odd_of_mask e1 flags made.1 odd)
          ∙ ap (λ (f : ℕ). some (f + w % 2 ^ 12)) (sym (get_address-frame_of e1 made.2) ∙ made.0),
      refl,
      mapped_mem-Outside s.mem at physical flags word fw apart lt al,
    )
