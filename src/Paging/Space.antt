-- ===== src/Paging/Space.antt =====
-- The tables that kernel/paging/paging.cpp builds for pages of 2 MB, as an abstract map from page numbers to
-- entries. A page has a number of 27 bits, its table of level 2 one of 18 and that of level 3 one of 9.
pub mod Enter
pub mod Grow
pub mod Write
pub mod Large
pub mod Second
pub mod Third
pub mod Visit
use optimist_os.Common.{
  ℕ, ◌+◌, ◌-◌, ◌*◌, ◌/◌, ◌%◌, ◌^◌, ◌≤◌, ◌<◌, ◌≡◌, ◌≢◌, ◌∙◌, ◌⊎◌, inl, inr, refl, sym, ap, subst,
  arith, Option, some, none, ◌==◌, if◌then◌else◌, ℕ_discrete,
}
use optimist_os.Memory.{Memory, mmio_read64}
use optimist_os.Memory.Laws.{Apart}
use optimist_os.Kernel.{Kernel}
use optimist_os.Paging.Entry.Laws.{IsWord}
use optimist_os.Paging.Map.Level.{IsTable, slot}
use optimist_os.Paging.Map.Open.{IsReady}
use optimist_os.Paging.Walk.{frame_of, is_page, translate}

-- The frames of the tables by their numbers, 0 for none, the number that each frame belongs to, and the
-- entries of the pages.
pub record Layout : Type 0 where
  pub third : ℕ → ℕ
  pub second : ℕ → ℕ
  pub owner : ℕ → ℕ
  pub leaf : ℕ → ℕ

-- An entry for the table at the frame `f`, or an empty one.
abbrev pub IsEntry : ℕ → ℕ → Type 0
IsEntry f e = (f ≡ 0 → e ≡ 0) × (f ≢ 0 → IsTable e × (frame_of e ≡ f))

-- The entry of a page.
abbrev pub IsPage : ℕ → Type 0
IsPage e = IsWord e × (e % 2 ≡ 1) × (is_page e ≡ 1)

abbrev pub third_tag : ℕ → ℕ
third_tag i = 1 + i

abbrev pub second_tag : ℕ → ℕ
second_tag j = 1000 + j

-- A frame that holds the table with a tag, below the free block.
pub record Holds (offset : ℕ) (l : Layout) (s : Kernel) (frame tag : ℕ) : Type 0 where
  pub aligned : frame % 2 ^ 12 ≡ 0
  pub below : frame + 2 ^ 12 + offset ≤ s.head
  pub owned : l.owner frame ≡ tag

-- The memory of the state holds the layout.
pub record HasLayout (offset limit : ℕ) (l : Layout) (s : Kernel) : Type 0 where
  pub ready : IsReady offset limit s
  pub root : s.pml4 ≢ 0
  pub root_at : Holds offset l s s.pml4 0
  pub third_at : (i : ℕ) → i < 512 → l.third i ≢ 0 → Holds offset l s (l.third i) (third_tag i)
  pub second_at :
      (j : ℕ) → j < 2 ^ 18 → l.second j ≢ 0 → Holds offset l s (l.second j) (second_tag j)
  pub entry4 : (i : ℕ) → i < 512 → IsEntry (l.third i) (mmio_read64 s.mem (slot offset s.pml4 i))
  pub entry3 :
      (j : ℕ)
      → j < 2 ^ 18
      → l.third (j / 512) ≢ 0
      → IsEntry (l.second j) (mmio_read64 s.mem (slot offset (l.third (j / 512)) (j % 512)))
  pub entry2 :
      (k : ℕ)
      → k < 2 ^ 27
      → l.second (k / 512) ≢ 0
      → mmio_read64 s.mem (slot offset (l.second (k / 512)) (k % 512)) ≡ l.leaf k
  pub no_third : (j : ℕ) → j < 2 ^ 18 → l.third (j / 512) ≡ 0 → l.second j ≡ 0
  pub no_second : (k : ℕ) → k < 2 ^ 27 → l.second (k / 512) ≡ 0 → l.leaf k ≡ 0
  pub pages : (k : ℕ) → k < 2 ^ 27 → (l.leaf k ≡ 0) ⊎ IsPage (l.leaf k)

-- The number of the page of an address.
abbrev pub page_number : ℕ → ℕ
page_number v = v / 2 ^ 21 % 2 ^ 27

-- Slots of different tables, and different slots of one, have no byte in common.
pub Apart-slots :
    (offset f g i j : ℕ)
    → f % 2 ^ 12 ≡ 0
    → g % 2 ^ 12 ≡ 0
    → i < 512
    → j < 512
    → (f ≢ g) ⊎ (i ≢ j)
    → Apart (slot offset f i) 8 (slot offset g j) 8
Apart-slots offset f g i j af ag hi hj (inl ne) = omega arith
Apart-slots offset f g i j af ag hi hj (inr ne) = elim (ℕ_discrete f g) [
  | yes e ↦ omega arith
  | no d ↦ omega arith
]

-- Where an address goes by the entry of its page.
pub entry_translation : ℕ → ℕ → Option ℕ
entry_translation e v =
    if e % 2 == 1 then some (e / 2 ^ 21 % 2 ^ 31 * 2 ^ 21 + v % 2 ^ 21) else none

pub entry_translation-zero : (v : ℕ) → entry_translation 0 v ≡ none
unfolding entry_translation
entry_translation-zero v = refl

module _ (m : Memory) (offset root v : ℕ) where
  translate-no_third :
      mmio_read64 m (slot offset root (v / 2 ^ 39 % 512)) ≡ 0 → translate m offset root v ≡ none
  unfolding translate
  translate-no_third r4 = ground arith

  translate-no_second :
      {e4 f : ℕ}
      → mmio_read64 m (slot offset root (v / 2 ^ 39 % 512)) ≡ e4
      → IsTable e4
      → frame_of e4 ≡ f
      → mmio_read64 m (slot offset f (v / 2 ^ 30 % 512)) ≡ 0
      → translate m offset root v ≡ none
  unfolding translate
  translate-no_second r4 t4 f4 r3 = ground arith

  translate-entry :
      {e4 f e3 g e2 : ℕ}
      → mmio_read64 m (slot offset root (v / 2 ^ 39 % 512)) ≡ e4
      → IsTable e4
      → frame_of e4 ≡ f
      → mmio_read64 m (slot offset f (v / 2 ^ 30 % 512)) ≡ e3
      → IsTable e3
      → frame_of e3 ≡ g
      → mmio_read64 m (slot offset g (v / 2 ^ 21 % 512)) ≡ e2
      → (e2 ≡ 0) ⊎ IsPage e2
      → translate m offset root v ≡ entry_translation e2 v
  unfolding translate entry_translation
  translate-entry r4 t4 f4 r3 t3 f3 r2 leaf = ground arith

-- The indices of an address by the number of its page.
pub page_number_indices :
    (v : ℕ)
    → (page_number v / 512 / 512 ≡ v / 2 ^ 39 % 512)
      × (page_number v / 512 % 512 ≡ v / 2 ^ 30 % 512)
      × (page_number v % 512 ≡ v / 2 ^ 21 % 512)
page_number_indices v = omega arith

module _ {offset limit : ℕ} {l : Layout} {s : Kernel} (h : HasLayout offset limit l s) (v : ℕ) where
  read_at : ℕ → ℕ → ℕ
  read_at f i = mmio_read64 s.mem (slot offset f i)

  -- The processor's translation is that of the entry of the page.
  pub translate-leaf :
      translate s.mem offset s.pml4 v ≡ entry_translation (l.leaf (page_number v)) v
  unfolding entry_translation read_at
  translate-leaf =
      let k : ℕ = page_number v in
      let (i4, i3, i2) = page_number_indices v in
      let (e4, e4') = h.entry4 (k / 512 / 512) (omega arith) in
      elim (ℕ_discrete (l.third (k / 512 / 512)) 0) [
        | yes gone ↦
            let leaf : l.leaf k ≡ 0 =
              h.no_second k (omega arith) (h.no_third (k / 512) (omega arith) gone) in
            translate-no_third s.mem offset s.pml4 v
              (subst (λ i. read_at s.pml4 i ≡ 0) i4 (e4 gone))
            ∙ rw leaf refl
        | no there ↦
            let (t4, f4) = e4' there in
            let (e3, e3') = h.entry3 (k / 512) (omega arith) there in
            let r4 = ap (read_at s.pml4) (sym i4) in
            elim (ℕ_discrete (l.second (k / 512)) 0) [
              | yes gone ↦
                  let leaf : l.leaf k ≡ 0 = h.no_second k (omega arith) gone in
                  translate-no_second s.mem offset s.pml4 v r4 t4 f4
                    (subst (λ i. read_at (l.third (k / 512 / 512)) i ≡ 0) i3 (e3 gone))
                  ∙ rw leaf refl
              | no here ↦
                  let (t3, f3) = e3' here in
                  translate-entry s.mem offset s.pml4 v r4 t4 f4
                    (ap (read_at (l.third (k / 512 / 512))) (sym i3)) t3 f3
                    (subst (λ i. read_at (l.second (k / 512)) i ≡ l.leaf k) i2
                      (h.entry2 k (omega arith) here))
                    (h.pages k (omega arith))
            ]
      ]
