-- ===== src/Paging/Setup/Pages.antt =====
-- The first loop of `initPaging` of kernel/paging/paging.cpp over a region, for a region of whole pages of
-- 2 MB above the first 4 GB.
use optimist_os.Common.{
  ℕ, zero, suc, ◌+◌, ◌-◌, ◌*◌, ◌%◌, ◌^◌, ◌≤◌, ◌<◌, ◌≡◌, ◌∙◌, refl, sym, ap, ap₂, subst, arith, ◌==◌,
  ◌&&◌, ltb, leb, if◌then◌else◌, Option, some, true, u64,
}
use optimist_os.Kernel.{Kernel}
use optimist_os.Kernel.Run.{ok}
use optimist_os.Paging.Entry.{larger_pages}
use optimist_os.Paging.Map.{map}
use optimist_os.Paging.Walk.{translate}
use optimist_os.Paging.Space.{page_number}
use optimist_os.Paging.Space.Large.{IsSpace, map-large}
use optimist_os.Paging.Setup.{megabyte, large_flags, map_pages}

-- An offset at which the addresses below `last` do not wrap and stay in one half.
pub record IsReached (high last : ℕ) : Type 0 where
  pub aligned : high % 2 ^ 21 ≡ 0
  pub room : high + last ≤ 2 ^ 64
  pub below : high % 2 ^ 48 + last ≤ 2 ^ 48

-- The translation of `w` with `count` pages from number `n` on, at the offset.
abbrev pub shifted : ℕ → ℕ → ℕ → ℕ → Option ℕ → Option ℕ
shifted high n count w old =
    let k = page_number w in
    let h = page_number high in
    if leb (h + n) k && ltb k (h + n + count) then some ((k - h) * 2 ^ 21 + w % 2 ^ 21) else old

shifted-zero : (high n w : ℕ) (old : Option ℕ) → old ≡ shifted high n 0 w old
shifted-zero high n w old = ground arith

shifted-suc :
    (high n count w : ℕ) (old : Option ℕ)
    → shifted high
        (n + 1)
        count
        w
        (if page_number w == page_number high + n then some (n * 2 ^ 21 + w % 2 ^ 21) else old)
      ≡ shifted high n (suc count) w old
shifted-suc high n count w old = ground arith

page_number-shifted :
    (high n last : ℕ)
    → IsReached high last
    → n * 2 ^ 21 < last
    → (u64 (n * 2 ^ 21 + high) ≡ n * 2 ^ 21 + high)
      × (page_number (n * 2 ^ 21 + high) ≡ page_number high + n)
page_number-shifted high n last r lt = omega (arith, r.aligned, r.room, r.below)

module _ (fuel rounds step flags end k : ℕ) where
  pub map_pages-end :
      (s : Kernel) → end ≤ k → map_pages fuel (suc rounds) step flags end k s ≡ ok tt s
  unfolding map_pages
  map_pages-end s h = ground arith

  map_pages-suc :
      (s a : Kernel)
      → k < end
      → 2 ^ 32 ≤ k
      → map fuel k (u64 (k + s.hhdm_offset)) large_flags s ≡ ok true a
      → flags ≡ larger_pages
      → map_pages fuel (suc rounds) step flags end k s
        ≡ map_pages fuel rounds step flags end (u64 (k + step)) a
  unfolding map_pages
  map_pages-suc s a lt low run same = ground (arith, run)

-- The loop ends within a round more than there are pages.
pub map_pages-shifted :
    {offset limit : ℕ} (fuel rounds count n : ℕ) {s : Kernel}
    → IsSpace offset limit s
    → count < rounds
    → 2048 ≤ n
    → IsReached s.hhdm_offset ((n + count) * 2 ^ 21)
    → count * (2 * 0x1000) ≤ s.global_boot_info.memory.free_mem_size
    → (t : Kernel) × (map_pages fuel rounds
          (2 * megabyte)
          larger_pages
          ((n + count) * 2 ^ 21)
          (n * 2 ^ 21)
          s
        ≡ ok tt t)
      × IsSpace offset limit t
      × ((w : ℕ)
          → translate t.mem offset t.pml4 w
            ≡ shifted s.hhdm_offset n count w (translate s.mem offset s.pml4 w))
      × (t.pml4 ≡ s.pml4)
      × (t.hhdm_offset ≡ s.hhdm_offset)
      × (s.global_boot_info.memory.free_mem_size
          ≤ t.global_boot_info.memory.free_mem_size + count * (2 * 0x1000))
map_pages-shifted fuel zero count n space h above r enough = absurd (omega arith)
map_pages-shifted {offset} fuel (suc rounds) zero n {s} space h above r enough = (
  s,
  map_pages-end fuel rounds (2 * megabyte) larger_pages ((n + 0) * 2 ^ 21) (n * 2 ^ 21) s
      (omega arith),
  space,
  λ w. shifted-zero s.hhdm_offset n w (translate s.mem offset s.pml4 w),
  refl,
  refl,
  omega arith,
)
map_pages-shifted {offset} fuel (suc rounds) (suc count) n {s} space h above r enough =
    let end : ℕ = (n + suc count) * 2 ^ 21 in
    let high : ℕ = s.hhdm_offset in
    let reach : end ≤ 2 ^ 48 = omega (arith, r.below) in
    let (straight, number) = page_number-shifted high n end r (omega arith) in
    let (a, run, space', t, root, same, free) =
      map-large fuel (n * 2 ^ 21) (u64 (n * 2 ^ 21 + high)) large_flags space (omega arith)
        (omega arith) refl refl refl (omega arith) (omega arith) in
    let last : end ≡ (n + 1 + count) * 2 ^ 21 = omega arith in
    let next : u64 (n * 2 ^ 21 + 2 * megabyte) ≡ (n + 1) * 2 ^ 21 = omega arith in
    let k : page_number (u64 (n * 2 ^ 21 + high)) ≡ page_number high + n =
      ap page_number straight ∙ number in
    let (b, rest, space'', t', root', same', free') =
      map_pages-shifted fuel rounds count (n + 1) space' (omega arith) (omega arith)
        (subst (λ o. IsReached o ((n + 1 + count) * 2 ^ 21)) (sym same)
          (subst (IsReached high) last r))
        (omega (arith, free)) in
    (
      b,
      map_pages-suc fuel rounds (2 * megabyte) larger_pages end (n * 2 ^ 21) s a (omega arith)
            (omega arith) run refl
          ∙ ap₂ (λ (e k : ℕ). map_pages fuel rounds (2 * megabyte) larger_pages e k a) last next
          ∙ rest,
      space'',
      λ w.
          t' w
          ∙ ap (λ o. shifted o (n + 1) count w (translate a.mem offset a.pml4 w)) same
          ∙ ap (shifted high (n + 1) count w) (
              t w
              ∙ ap
                  (λ (p : ℕ).
                    if page_number w == p
                    then some (n * 2 ^ 21 + w % 2 ^ 21)
                    else translate s.mem offset s.pml4 w)
                  k)
          ∙ shifted-suc high n count w (translate s.mem offset s.pml4 w),
      root' ∙ root,
      same' ∙ same,
      omega (arith, free, free'),
    )
