-- ===== src/Paging/Space/Large.antt =====
-- `map` of kernel/paging/paging.cpp for a page of 2 MB.
use optimist_os.Common.{
  ℕ, ◌+◌, ◌*◌, ◌/◌, ◌%◌, ◌^◌, ◌≤◌, ◌<◌, ◌≡◌, ◌≢◌, ◌∙◌, inl, inr, refl, sym, ap, subst, arith, ◌==◌,
  if◌then◌else◌, ℕ_discrete, bit_and, true, some, add-zero, eq→==, ne→==,
}
use optimist_os.Memory.{Memory, mmio_read64}
use optimist_os.Kernel.{Kernel}
use optimist_os.Kernel.Run.{ok}
use optimist_os.Paging.Entry.{address_mask}
use optimist_os.Paging.Entry.Laws.{IsWord, map_entry_lem}
use optimist_os.Paging.Map.{virtual_addr_to_pte, map}
use optimist_os.Paging.Map.Level.{get_address-frame_of}
use optimist_os.Paging.Map.Present.{
  mapped_entry, mapped_mem, mapped_mem-at, mapped_mem-Outside, odd_of_mask,
}
use optimist_os.Paging.Walk.{frame_of, translate}
use optimist_os.Paging.Space.{
  Layout, HasLayout, IsPage, page_number, entry_translation, translate-leaf,
}
use optimist_os.Paging.Space.Grow.{put}
use optimist_os.Paging.Space.Write.{with_leaf, HasLayout-leaf}
use optimist_os.Paging.Space.Visit.{bit_7, is_larger, page_slot, virtual_addr_to_pte-Walks}

-- The entry that `map` writes is the entry of a page at the physical address.
page_entry :
    (old physical flags : ℕ)
    → IsWord old
    → IsWord flags
    → bit_and flags address_mask ≡ 0
    → flags % 2 ≡ 1
    → flags / 2 ^ 7 % 2 ≡ 1
    → physical < 2 ^ 52
    → physical % 2 ^ 21 ≡ 0
    → IsPage (mapped_entry old physical flags)
      × (mapped_entry old physical flags / 2 ^ 21 % 2 ^ 31 * 2 ^ 21 ≡ physical)
page_entry old physical flags ow fw apart odd big lt al =
    let e = mapped_entry old physical flags in
    let (address, mask, word) = map_entry_lem old physical flags ow fw apart lt (omega arith) in
    let seven : e / 2 ^ 7 % 2 ≡ 1 =
      sym (bit_7 e flags big) ∙ ap (λ (x : ℕ). x / 2 ^ 7 % 2) mask ∙ big in
    let frame : frame_of e ≡ physical = sym (get_address-frame_of e word) ∙ address in
    ((word, odd_of_mask e flags mask odd, seven), omega (arith, frame))

map-run :
    (fuel physical v flags at : ℕ) (s t : Kernel)
    → at ≢ 0
    → virtual_addr_to_pte fuel v flags s ≡ ok at t
    → map fuel physical v flags s ≡ ok true (record t { mem = mapped_mem t.mem at physical flags })
unfolding map
map-run fuel physical v flags at s t ne run = ground (arith, run)

-- The layout behind the write.
module _ {offset limit : ℕ} {l : Layout} {t : Kernel} (h : HasLayout offset limit l t)
    (k physical flags : ℕ) (small : k < 2 ^ 27) (has : l.second (k / 512) ≢ 0) (fw : IsWord flags)
    (apart : bit_and flags address_mask ≡ 0) (odd : flags % 2 ≡ 1) (big : flags / 2 ^ 7 % 2 ≡ 1)
    (lt : physical < 2 ^ 52) (al : physical % 2 ^ 21 ≡ 0) where
  abbrev old : ℕ
  old = mmio_read64 t.mem (page_slot offset l k + 0)

  abbrev entry : ℕ
  entry = mapped_entry old physical flags

  old-IsWord : IsWord old
  old-IsWord =
      let leaf : old ≡ l.leaf k = rw add-zero (h.entry2 k small has) in
      elim (h.pages k small) [
        | inl none ↦ omega (arith, leaf, none)
        | inr page ↦ omega (arith, leaf, page.0)
      ]

  entry_lem : IsPage entry × (entry / 2 ^ 21 % 2 ^ 31 * 2 ^ 21 ≡ physical)
  entry_lem = page_entry old physical flags old-IsWord fw apart odd big lt al

  abbrev mem' : Memory
  mem' = mapped_mem t.mem (page_slot offset l k) physical flags

  HasLayout-mapped : HasLayout offset limit (with_leaf l k entry) (record t { mem = mem' })
  HasLayout-mapped =
      HasLayout-leaf h mem' small has
        (mapped_mem-Outside t.mem (page_slot offset l k) physical flags old-IsWord fw apart lt
          (omega arith))
        (subst (λ a. mmio_read64 mem' a ≡ entry) (add-zero (page_slot offset l k))
          (mapped_mem-at t.mem (page_slot offset l k) physical flags old-IsWord fw apart lt
            (omega arith)))
        entry_lem.0

  -- A page is translated by its entry, the new one or the old one.
  translation-mapped :
      (w : ℕ)
      → entry_translation (put k entry l.leaf (page_number w)) w ≡ (
          if page_number w == k
          then some (physical + w % 2 ^ 21)
          else entry_translation (l.leaf (page_number w)) w)
  unfolding entry_translation
  translation-mapped w = elim (ℕ_discrete (page_number w) k) [
    | yes e ↦
        let bit : entry % 2 ≡ 1 = entry_lem.0.1 in
        rw (eq→== (page_number w) k e, eq→== (entry % 2) 1 bit, entry_lem.1) refl
    | no ne ↦ rw (ne→== (page_number w) k ne) refl
  ]

-- The address space is a layout of tables for pages of 2 MB.
abbrev pub IsSpace : ℕ → ℕ → Kernel → Type 0
IsSpace offset limit s = (l : Layout) × HasLayout offset limit l s

-- In an address space of pages of 2 MB and with two frames free, `map` with the bit of larger pages returns
-- true and leaves such an address space, for a physical address below 2 ^ 52 that is a multiple of 2 MB and
-- flags that include the present bit and no bit of the address field. Afterwards the processor translates
-- the addresses of the page to the same place of the physical page, and every other address as before,
-- whatever tables had to be made. The root and the global offset stay, and at most two frames are used.
pub map-large :
    {offset limit : ℕ} {s : Kernel} (fuel physical v flags : ℕ)
    → IsSpace offset limit s
    → 2 * 0x1000 ≤ s.global_boot_info.memory.free_mem_size
    → IsWord flags
    → bit_and flags address_mask ≡ 0
    → flags % 2 ≡ 1
    → flags / 2 ^ 7 % 2 ≡ 1
    → physical < 2 ^ 52
    → physical % 2 ^ 21 ≡ 0
    → (t : Kernel) × (map fuel physical v flags s ≡ ok true t)
      × IsSpace offset limit t
      × ((w : ℕ)
          → translate t.mem offset t.pml4 w ≡ (
              if page_number w == page_number v
              then some (physical + w % 2 ^ 21)
              else translate s.mem offset s.pml4 w))
      × (t.pml4 ≡ s.pml4)
      × (t.hhdm_offset ≡ s.hhdm_offset)
      × (s.global_boot_info.memory.free_mem_size
          ≤ t.global_boot_info.memory.free_mem_size + 2 * 0x1000)
map-large {offset} {limit} {s} fuel physical v flags (l, h) enough fw apart odd big lt al =
    let k : ℕ = page_number v in
    let (l', t, run, w) = virtual_addr_to_pte-Walks h fuel v flags (is_larger flags big) enough in
    let made =
      HasLayout-mapped w.layout k physical flags (omega arith) w.has fw apart odd big lt al in
    (
      record t { mem = mem' w.layout k physical flags (omega arith) w.has fw apart odd big lt al },
      map-run fuel physical v flags (page_slot offset l' k) s t
          (λ z. h.ready.direct.nonzero (omega arith)) run,
      (_, made),
      λ x.
          translate-leaf made x
          ∙ translation-mapped w.layout k physical flags (omega arith) w.has fw apart odd big lt al
              x
          ∙ ap
              (λ (f : ℕ → ℕ).
                if page_number x == k
                then some (physical + x % 2 ^ 21)
                else entry_translation (f (page_number x)) x)
              w.leaf
          ∙ ap (λ r. if page_number x == k then some (physical + x % 2 ^ 21) else r)
              (sym (translate-leaf h x)),
      w.root,
      w.high,
      w.free,
    )
