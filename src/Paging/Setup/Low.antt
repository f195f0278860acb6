-- ===== src/Paging/Setup/Low.antt =====
-- The loop of `initPaging` of kernel/paging/paging.cpp over the first 4 GB.
use optimist_os.Common.{
  ℕ, zero, suc, ◌+◌, ◌-◌, ◌*◌, ◌/◌, ◌%◌, ◌^◌, ◌≤◌, ◌<◌, ◌≡◌, ◌∙◌, refl, sym, ap, subst, arith, ◌==◌,
  ◌&&◌, ltb, leb, if◌then◌else◌, Option, some, true, u64,
}
use optimist_os.Kernel.{Kernel}
use optimist_os.Kernel.Run.{ok}
use optimist_os.Paging.Map.{map}
use optimist_os.Paging.Walk.{translate}
use optimist_os.Paging.Space.{page_number}
use optimist_os.Paging.Space.Large.{IsSpace, map-large}
use optimist_os.Paging.Setup.{large_flags, map_low}

-- An offset at which the first 4 GB have pages of their own in the upper half.
pub record IsHigh (high : ℕ) : Type 0 where
  pub aligned : high % 2 ^ 21 ≡ 0
  pub above : 2 ^ 32 ≤ high % 2 ^ 48
  pub below : high % 2 ^ 48 + 2 ^ 32 ≤ 2 ^ 48
  pub room : high + 2 ^ 32 ≤ 2 ^ 64

-- The translation of `w` with `left` pages from number `n` on, at their own address and at the offset.
abbrev pub window : ℕ → ℕ → ℕ → ℕ → Option ℕ → Option ℕ
window high n left w old =
    let k = page_number w in
    let h = page_number high in
    if leb n k && ltb k (n + left)
    then some (k * 2 ^ 21 + w % 2 ^ 21)
    else if leb (h + n) k && ltb k (h + n + left)
    then some ((k - h) * 2 ^ 21 + w % 2 ^ 21)
    else old

page_number-low : (n : ℕ) → n < 2048 → page_number (n * 2 ^ 21) ≡ n
page_number-low n h = omega arith

page_number-high :
    (high n : ℕ)
    → IsHigh high
    → n < 2048
    → (u64 (n * 2 ^ 21 + high) ≡ n * 2 ^ 21 + high)
      × (page_number (n * 2 ^ 21 + high) ≡ page_number high + n)
      × (2048 ≤ page_number high)
page_number-high high n h lt = omega (arith, h.aligned, h.above, h.below, h.room)

window-zero : (high n w : ℕ) (old : Option ℕ) → old ≡ window high n 0 w old
window-zero high n w old = ground arith

-- A page at both addresses, and then the pages behind it.
window-suc :
    (high n left w : ℕ) (old : Option ℕ)
    → n + suc left ≤ 2048
    → 2048 ≤ page_number high
    → window high (n + 1) left w (
        if page_number w == page_number high + n
        then some (n * 2 ^ 21 + w % 2 ^ 21)
        else if page_number w == n
        then some (n * 2 ^ 21 + w % 2 ^ 21)
        else old)
      ≡ window high n (suc left) w old
window-suc high n left w old h above = ground arith

-- One round maps a page at its own address and in the upper half.
map_round :
    {offset limit : ℕ} {s : Kernel} (fuel n : ℕ)
    → IsSpace offset limit s
    → IsHigh s.hhdm_offset
    → n < 2048
    → 4 * 0x1000 ≤ s.global_boot_info.memory.free_mem_size
    → (a b : Kernel) × (map fuel (n * 2 ^ 21) (n * 2 ^ 21) large_flags s ≡ ok true a)
      × (a.hhdm_offset ≡ s.hhdm_offset)
      × (map fuel (n * 2 ^ 21) (u64 (n * 2 ^ 21 + s.hhdm_offset)) large_flags a ≡ ok true b)
      × IsSpace offset limit b
      × ((w : ℕ)
          → translate b.mem offset b.pml4 w ≡ (
              if page_number w == page_number s.hhdm_offset + n
              then some (n * 2 ^ 21 + w % 2 ^ 21)
              else if page_number w == n
              then some (n * 2 ^ 21 + w % 2 ^ 21)
              else translate s.mem offset s.pml4 w))
      × (b.pml4 ≡ s.pml4)
      × (b.hhdm_offset ≡ s.hhdm_offset)
      × (s.global_boot_info.memory.free_mem_size
          ≤ b.global_boot_info.memory.free_mem_size + 4 * 0x1000)
map_round {offset} {limit} {s} fuel n space high small enough =
    let (straight, number, far) = page_number-high s.hhdm_offset n high small in
    let (a, run, space', t, root, same, free) =
      map-large fuel (n * 2 ^ 21) (n * 2 ^ 21) large_flags space (omega arith) (omega arith) refl
        refl refl (omega arith) (omega arith) in
    let (b, run', space'', t', root', same', free') =
      map-large fuel (n * 2 ^ 21) (u64 (n * 2 ^ 21 + s.hhdm_offset)) large_flags space'
        (omega arith) (omega arith) refl refl refl (omega arith) (omega arith) in
    let k : page_number (u64 (n * 2 ^ 21 + s.hhdm_offset)) ≡ page_number s.hhdm_offset + n =
      ap page_number straight ∙ number in
    (
      a,
      b,
      run,
      same,
      run',
      space'',
      λ w. t' w ∙ rw (k, t w, page_number-low n small) refl,
      root' ∙ root,
      same' ∙ same,
      omega arith,
    )

pub map_low-window :
    {offset limit : ℕ} (fuel left n : ℕ) {s : Kernel}
    → IsSpace offset limit s
    → IsHigh s.hhdm_offset
    → n + left ≤ 2048
    → left * (4 * 0x1000) ≤ s.global_boot_info.memory.free_mem_size
    → (t : Kernel) × (map_low fuel left (n * 2 ^ 21) s ≡ ok tt t)
      × IsSpace offset limit t
      × ((w : ℕ)
          → translate t.mem offset t.pml4 w
            ≡ window s.hhdm_offset n left w (translate s.mem offset s.pml4 w))
      × (t.pml4 ≡ s.pml4)
      × (t.hhdm_offset ≡ s.hhdm_offset)
      × (s.global_boot_info.memory.free_mem_size
          ≤ t.global_boot_info.memory.free_mem_size + left * (4 * 0x1000))
unfolding map_low
map_low-window {offset} {limit} fuel zero n {s} space high small enough = (
  s,
  refl,
  space,
  λ w. window-zero s.hhdm_offset n w (translate s.mem offset s.pml4 w),
  refl,
  refl,
  omega arith,
)
map_low-window {offset} {limit} fuel (suc left) n {s} space high small enough =
    let (a, b, run, same, run', space', t, root, same', free) =
      map_round fuel n space high (omega arith) (omega arith) in
    let (c, rest, space'', t', root', same'', free') =
      map_low-window fuel left (n + 1) space' (subst IsHigh (sym same') high) (omega arith)
        (omega (arith, free)) in
    (
      c,
      rw (run, same, run') (ap (λ (i : ℕ). map_low fuel left i b) (omega arith) ∙ rest),
      space'',
      λ w.
          t' w
          ∙ ap (λ (h : ℕ). window h (n + 1) left w (translate b.mem offset b.pml4 w)) same'
          ∙ ap (window s.hhdm_offset (n + 1) left w) (t w)
          ∙ window-suc s.hhdm_offset n left w (translate s.mem offset s.pml4 w) small
              (page_number-high s.hhdm_offset n high (omega arith)).2,
      root' ∙ root,
      same'' ∙ same',
      omega (arith, free, free'),
    )

pub window-low : (high a : ℕ) (old : Option ℕ) → a < 2 ^ 32 → window high 0 2048 a old ≡ some a
window-low high a old lt = ground arith

pub window-high :
    (high a : ℕ) (old : Option ℕ)
    → IsHigh high
    → a < 2 ^ 32
    → window high 0 2048 (a + high) old ≡ some a
window-high high a old h lt =
    let place : (page_number (a + high) ≡ page_number high + a / 2 ^ 21)
        × ((a + high) % 2 ^ 21 ≡ a % 2 ^ 21)
        × (2048 ≤ page_number high) =
      omega (arith, h.aligned, h.above, h.below) in
    ground arith
