-- ===== src/Paging/Setup/Regions.antt =====
-- The loop of `initPaging` of kernel/paging/paging.cpp over the regions of the memory map.
use optimist_os.Common.{
  ℕ, suc, Bool, ◌+◌, ◌-◌, ◌*◌, ◌/◌, ◌%◌, ◌^◌, ◌≤◌, ◌<◌, ◌≡◌, ◌∙◌, ◌⊎◌, inl, inr, refl, sym, ap,
  subst, arith, ◌||◌, ltb, if◌then◌else◌, Option, some, true, false, List, [], ◌∷◌,
}
use optimist_os.Kernel.{Kernel}
use optimist_os.Kernel.Run.{ok}
use optimist_os.Boot.Memmap.{MemmapEntry}
use optimist_os.Frames.Round.{round_down}
use optimist_os.Frames.Round.Laws.{round_down_lem}
use optimist_os.Paging.Walk.{translate}
use optimist_os.Paging.Space.Large.{IsSpace}
use optimist_os.Paging.Setup.{page_4kb, map_entry, map_entries}
use optimist_os.Paging.Setup.Region.{IsWhole, within, map_entry-within}

-- A region that is left out, or one of whole pages of 2 MB.
abbrev pub IsPlain : ℕ → ℕ → MemmapEntry → Type 0
IsPlain high rounds e = (e.base < 2 ^ 32) ⊎ IsWhole high rounds e

abbrev pub ArePlain : ℕ → ℕ → List MemmapEntry → Type 0
ArePlain high rounds [] = Unit {0}
ArePlain high rounds (e ∷ es) = IsPlain high rounds e × ArePlain high rounds es

-- The pages that the regions take.
abbrev pub pages_of : List MemmapEntry → ℕ
pages_of [] = 0
pages_of (e ∷ es) = (if ltb e.base (2 ^ 32) then 0 else e.length / 2 ^ 21) + pages_of es

-- The address lies at the offset in one of the regions.
abbrev pub covers : ℕ → List MemmapEntry → ℕ → Bool
covers high [] w = false
covers high (e ∷ es) w = within high e w || covers high es w

map_entry-low :
    {s : Kernel} (fuel rounds : ℕ) (e : MemmapEntry)
    → e.base < 2 ^ 32
    → map_entry fuel rounds e s ≡ ok tt s
unfolding map_entry
map_entry-low fuel rounds e lt =
    let start : round_down e.base page_4kb ≤ e.base =
      omega (arith, round_down_lem 52 12 e.base refl (omega arith)) in
    let low : ltb (round_down e.base page_4kb) (2 ^ 32) ≡ true = ground arith in rw low refl

within-low : (high : ℕ) (e : MemmapEntry) (w : ℕ) → e.base < 2 ^ 32 → within high e w ≡ false
unfolding within
within-low high e w lt = ground arith

either-some :
    (a b : Bool) (v old : Option ℕ)
    → (if b then v else (if a then v else old)) ≡ (if a || b then v else old)
either-some true true v old = refl
either-some true false v old = refl
either-some false true v old = refl
either-some false false v old = refl

-- One region.
map_entry-IsPlain :
    {offset limit : ℕ} (fuel rounds : ℕ) {s : Kernel} (e : MemmapEntry)
    → IsSpace offset limit s
    → IsPlain s.hhdm_offset (suc rounds) e
    → pages_of (e ∷ []) * (2 * 0x1000) ≤ s.global_boot_info.memory.free_mem_size
    → (t : Kernel) × (map_entry fuel (suc rounds) e s ≡ ok tt t)
      × IsSpace offset limit t
      × ((w : ℕ)
          → translate t.mem offset t.pml4 w ≡ (
              if within s.hhdm_offset e w
              then some (w % 2 ^ 48 - s.hhdm_offset % 2 ^ 48)
              else translate s.mem offset s.pml4 w))
      × (t.pml4 ≡ s.pml4)
      × (t.hhdm_offset ≡ s.hhdm_offset)
      × (s.global_boot_info.memory.free_mem_size
          ≤ t.global_boot_info.memory.free_mem_size + pages_of (e ∷ []) * (2 * 0x1000))
map_entry-IsPlain {offset} fuel rounds {s} e space (inl low) enough = (
  s,
  map_entry-low fuel (suc rounds) e low,
  space,
  λ w. rw (within-low s.hhdm_offset e w low) refl,
  refl,
  refl,
  omega arith,
)
map_entry-IsPlain fuel rounds {s} e space (inr whole) enough =
    let above : ltb e.base (2 ^ 32) ≡ false = ground (arith, whole.above) in
    let pages : pages_of (e ∷ []) ≡ e.length / 2 ^ 21 = rw above (omega arith) in
    let (t, run, space', translation, root, same, free) =
      map_entry-within fuel rounds e space whole (omega arith) in
    (t, run, space', translation, root, same, omega (arith, free))

-- The loop maps every region that is not left out at the offset, and changes nothing else.
pub map_entries-covers :
    {offset limit : ℕ} (fuel rounds : ℕ) (es : List MemmapEntry) {s : Kernel}
    → IsSpace offset limit s
    → ArePlain s.hhdm_offset (suc rounds) es
    → pages_of es * (2 * 0x1000) ≤ s.global_boot_info.memory.free_mem_size
    → (t : Kernel) × (map_entries fuel (suc rounds) es s ≡ ok tt t)
      × IsSpace offset limit t
      × ((w : ℕ)
          → translate t.mem offset t.pml4 w ≡ (
              if covers s.hhdm_offset es w
              then some (w % 2 ^ 48 - s.hhdm_offset % 2 ^ 48)
              else translate s.mem offset s.pml4 w))
      × (t.pml4 ≡ s.pml4)
      × (t.hhdm_offset ≡ s.hhdm_offset)
unfolding map_entries
map_entries-covers fuel rounds [] {s} space plain enough = (s, refl, space, λ w. refl, refl, refl)
map_entries-covers {offset} fuel rounds (e ∷ es) {s} space (one, plain) enough =
    let high : ℕ = s.hhdm_offset in
    let (a, run, space', t, root, same, free) =
      map_entry-IsPlain fuel rounds e space one (omega arith) in
    let (b, rest, space'', t', root', same') =
      map_entries-covers fuel rounds es space'
        (subst (λ o. ArePlain o (suc rounds) es) (sym same) plain) (omega (arith, free)) in
    (
      b,
      rw run rest,
      space'',
      λ w.
          t' w
          ∙ ap
              (λ (o : ℕ).
                if covers o es w
                then some (w % 2 ^ 48 - o % 2 ^ 48)
                else translate a.mem offset a.pml4 w)
              same
          ∙ ap (λ old. if covers high es w then some (w % 2 ^ 48 - high % 2 ^ 48) else old) (t w)
          ∙ either-some (within high e w) (covers high es w) (some (w % 2 ^ 48 - high % 2 ^ 48))
              (translate s.mem offset s.pml4 w),
      root' ∙ root,
      same' ∙ same,
    )
