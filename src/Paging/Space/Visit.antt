-- ===== src/Paging/Space/Visit.antt =====
-- The walk of `virtualAddrToPTE` of kernel/paging/paging.cpp to the slot of a page of 2 MB.
use optimist_os.Common.{
  ℕ, ◌+◌, ◌*◌, ◌/◌, ◌%◌, ◌^◌, ◌≤◌, ◌<◌, ◌≡◌, ◌≢◌, ◌∙◌, refl, sym, ap, ap₂, arith, bit_and,
}
use optimist_os.Common.Bits.{bit_and_step, bit_and_split, bit_and-le}
use optimist_os.Kernel.{Kernel}
use optimist_os.Kernel.Run.{ok}
use optimist_os.Paging.Entry.{larger_pages}
use optimist_os.Paging.Index.{pml4_entry-eq, pml3_entry-eq, pml2_entry-eq}
use optimist_os.Paging.Map.{entry_of, next_table, virtual_addr_to_pte}
use optimist_os.Paging.Map.Level.{HasOffset, slot, entry_of-slot, to_virtual_addr-offset}
use optimist_os.Paging.Map.Tables.{with_root}
use optimist_os.Paging.Space.{Layout, HasLayout, page_number, page_number_indices}
use optimist_os.Paging.Space.Enter.{enter_third, enter_second}

-- Bit 7 of a conjunction.
pub bit_7 : (a b : ℕ) → b / 2 ^ 7 % 2 ≡ 1 → bit_and a b / 2 ^ 7 % 2 ≡ a / 2 ^ 7 % 2
bit_7 a b h =
    let left : a ≡ a / 2 ^ 7 * 2 ^ 7 + a % 2 ^ 7 = omega arith in
    let right : b ≡ b / 2 ^ 7 * 2 ^ 7 + b % 2 ^ 7 = omega arith in
    let parts : bit_and a b
        ≡ bit_and (a / 2 ^ 7) (b / 2 ^ 7) * 2 ^ 7 + bit_and (a % 2 ^ 7) (b % 2 ^ 7) =
      ap₂ bit_and left right
      ∙ bit_and_split 7 (a / 2 ^ 7) (a % 2 ^ 7) (b / 2 ^ 7) (b % 2 ^ 7) (omega arith)
          (omega arith) in
    let low : bit_and (a % 2 ^ 7) (b % 2 ^ 7) ≤ a % 2 ^ 7 =
      bit_and-le 7 (a % 2 ^ 7) (b % 2 ^ 7) (omega arith) in
    omega (arith, bit_and_step (a / 2 ^ 7) (b / 2 ^ 7))

-- Flags with bit 7 are flags for larger pages.
pub is_larger : (flags : ℕ) → flags / 2 ^ 7 % 2 ≡ 1 → bit_and flags larger_pages ≢ 0
is_larger flags h z = omega (arith, bit_7 flags larger_pages refl)

-- The walk of `virtualAddrToPTE` for a page of 2 MB.
walk-large :
    {offset : ℕ} (fuel v flags p3 p2 : ℕ) (s a b : Kernel)
    → HasOffset offset s
    → s.pml4 ≢ 0
    → s.pml4 < 2 ^ 47
    → bit_and flags larger_pages ≢ 0
    → next_table fuel (s.pml4 + offset) (v / 2 ^ 39 % 512) (with_root (s.pml4 + offset) s) ≡ ok p3 a
    → next_table fuel p3 (v / 2 ^ 30 % 512) (with_root s.pml4 a) ≡ ok p2 b
    → virtual_addr_to_pte fuel v flags s ≡ ok (entry_of p2 (v / 2 ^ 21 % 512)) b
unfolding virtual_addr_to_pte with_root
walk-large fuel v flags p3 p2 s a b d ne lt big r4 r3 = ground (
  arith,
  pml4_entry-eq v,
  pml3_entry-eq v,
  pml2_entry-eq v,
  to_virtual_addr-offset s.pml4 d,
  r4,
  r3,
)

-- The walk ends in a layout with the same pages.
pub record Walks (offset limit : ℕ) (l : Layout) (s : Kernel) (k : ℕ) (l' : Layout) (t : Kernel)
    : Type 0 where
  pub layout : HasLayout offset limit l' t
  pub leaf : l'.leaf ≡ l.leaf
  pub has : l'.second (k / 512) ≢ 0
  pub root : t.pml4 ≡ s.pml4
  pub high : t.hhdm_offset ≡ s.hhdm_offset
  pub free :
      s.global_boot_info.memory.free_mem_size ≤ t.global_boot_info.memory.free_mem_size + 2 * 0x1000

abbrev pub page_slot : ℕ → Layout → ℕ → ℕ
page_slot offset l k = slot offset (l.second (k / 512)) (k % 512)

pub virtual_addr_to_pte-Walks :
    {offset limit : ℕ} {l : Layout} {s : Kernel} (h : HasLayout offset limit l s) (fuel v flags : ℕ)
    → bit_and flags larger_pages ≢ 0
    → 2 * 0x1000 ≤ s.global_boot_info.memory.free_mem_size
    → (l' : Layout) × (t : Kernel) × (virtual_addr_to_pte fuel v flags s
        ≡ ok (page_slot offset l' (page_number v)) t)
      × Walks offset limit l s (page_number v) l' t
virtual_addr_to_pte-Walks {offset} {limit} {l} {s} h fuel v flags big enough =
    let k : ℕ = page_number v in
    let (i4, i3, i2) = page_number_indices v in
    let (l3, a, run4, e3, has3) = enter_third h fuel (omega arith) (k / 512 / 512) (omega arith) in
    let (l2, b, run3, e2, has2) =
      enter_second e3.layout fuel (omega (arith, e3.free)) (k / 512) (omega arith) has3 in
    let low : l2.second (k / 512) + 2 ^ 12 ≤ 2 ^ 47 = omega (
      arith,
      (e2.layout.second_at (k / 512) (omega arith) has2).below,
      e2.layout.ready.low,
      e2.layout.ready.bump.reach,
    ) in
    (
      l2,
      b,
      walk-large fuel v flags (l3.third (k / 512 / 512) + offset) (l2.second (k / 512) + offset) s a
            b h.ready.direct h.root
            (omega (arith, h.root_at.below, h.ready.low, h.ready.bump.reach)) big
            (ap (λ (i : ℕ). next_table fuel (s.pml4 + offset) i (with_root (s.pml4 + offset) s))
                (sym i4)
              ∙ run4)
            (ap
                (λ (i : ℕ).
                  next_table fuel (l3.third (k / 512 / 512) + offset) i (with_root s.pml4 a))
                (sym i3)
              ∙ run3)
          ∙ ap (λ (p : ℕ). ok p b)
              (entry_of-slot offset (l2.second (k / 512)) (v / 2 ^ 21 % 512) h.ready.direct.room low
                  (omega arith)
                ∙ ap (λ (i : ℕ). slot offset (l2.second (k / 512)) i) (sym i2)),
      record {
        layout = e2.layout;
        leaf = e2.leaf ∙ e3.leaf;
        has = has2;
        root = e2.root ∙ e3.root;
        high = e2.high ∙ e3.high;
        free = omega (arith, e2.free, e3.free);
      },
    )
