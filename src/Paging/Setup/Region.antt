-- ===== src/Paging/Setup/Region.antt =====
-- A region of the memory map in `initPaging` of kernel/paging/paging.cpp, of whole pages of 2 MB.
use optimist_os.Common.{
  ℕ, suc, Bool, ◌+◌, ◌-◌, ◌*◌, ◌/◌, ◌%◌, ◌^◌, ◌≤◌, ◌<◌, ◌≡◌, ◌∙◌, refl, sym, ap₂, subst, arith,
  ◌&&◌, ltb, leb, if◌then◌else◌, Option, some, false, u64, sub64,
}
use optimist_os.Kernel.{Kernel}
use optimist_os.Kernel.Run.{ok}
use optimist_os.Boot.Memmap.{MemmapEntry}
use optimist_os.Frames.Round.{round_down, round_up}
use optimist_os.Frames.Round.Laws.{round_down_lem, round_up_lem}
use optimist_os.Paging.Entry.{larger_pages}
use optimist_os.Paging.Walk.{translate}
use optimist_os.Paging.Space.Large.{IsSpace}
use optimist_os.Paging.Setup.{megabyte, page_4kb, required_size, map_pages, map_rest, map_entry}
use optimist_os.Paging.Setup.Pages.{IsReached, shifted, map_pages-shifted}

-- A region behind the first 4 GB of whole pages of 2 MB and of at least 1 GB.
pub record IsWhole (high rounds : ℕ) (e : MemmapEntry) : Type 0 where
  pub base_aligned : e.base % 2 ^ 21 ≡ 0
  pub length_aligned : e.length % 2 ^ 21 ≡ 0
  pub large : 2 ^ 30 ≤ e.length
  pub above : 2 ^ 32 ≤ e.base
  pub reached : IsReached high (e.base + e.length)
  pub enough : e.length < rounds * 2 ^ 21

pub round_down-aligned :
    (j k n : ℕ) → j + k ≡ 64 → n < 2 ^ 64 → n % 2 ^ k ≡ 0 → round_down n (2 ^ k) ≡ n
round_down-aligned j k n e lt al = grind (arith, round_down_lem j k n e lt)

round_down-4kb : (n : ℕ) → n < 2 ^ 64 → n % 2 ^ 12 ≡ 0 → round_down n page_4kb ≡ n
round_down-4kb n lt al = omega (arith, round_down_lem 52 12 n refl lt)

round_up-4kb : (n : ℕ) → n + 2 ^ 12 ≤ 2 ^ 64 → n % 2 ^ 12 ≡ 0 → round_up n page_4kb ≡ n
round_up-4kb n lt al = omega (arith, round_up_lem 52 12 n refl lt)

round_down-2mb : (n : ℕ) → n < 2 ^ 64 → n % 2 ^ 21 ≡ 0 → round_down n (2 * megabyte) ≡ n
round_down-2mb n lt al = omega (arith, round_down_lem 43 21 n refl lt)

required_size-large : (n : ℕ) → 2 ^ 30 ≤ n → required_size n ≡ (2 * megabyte, larger_pages)
unfolding required_size
required_size-large n h = ground arith

map_rest-end :
    (fuel rounds step flags end : ℕ) (s : Kernel)
    → map_rest fuel (suc rounds) step flags end end s ≡ ok tt s
unfolding map_rest
map_rest-end fuel rounds step flags end s = ground arith

-- Of such a region only the first loop maps anything.
map_entry-run :
    {high : ℕ} (fuel rounds : ℕ) (e : MemmapEntry) (s t : Kernel)
    → IsWhole high (suc rounds) e
    → map_pages fuel (suc rounds) (2 * megabyte) larger_pages (e.base + e.length) e.base s ≡ ok tt t
    → map_entry fuel (suc rounds) e s ≡ ok tt t
unfolding map_entry
map_entry-run {high} fuel rounds e s t w run =
    let last : e.base + e.length ≤ 2 ^ 48 = omega (arith, w.reached.below) in
    let start : round_down e.base page_4kb ≡ e.base =
      round_down-4kb e.base (omega arith) (omega (arith, w.base_aligned)) in
    let sum : u64 (e.base + e.length) ≡ e.base + e.length = omega arith in
    let end : round_up (e.base + e.length) page_4kb ≡ e.base + e.length =
      round_up-4kb (e.base + e.length) (omega arith)
        (omega (arith, w.base_aligned, w.length_aligned)) in
    let size : sub64 (e.base + e.length) e.base ≡ e.length = omega arith in
    let all : round_down e.length (2 * megabyte) ≡ e.length =
      round_down-2mb e.length (omega arith) w.length_aligned in
    let none : sub64 e.length e.length ≡ 0 = omega arith in
    let rest : u64 (e.base + e.length + 0) ≡ e.base + e.length = omega arith in
    let low : ltb e.base (2 ^ 32) ≡ false = ground (arith, w.above) in
    rw (sum, start, end, low, size, required_size-large e.length w.large, all, none, sum, run, rest)
      (map_rest-end fuel rounds (2 * megabyte) larger_pages (e.base + e.length) t)

-- The address lies at the offset in the region.
unfoldable pub within : ℕ → MemmapEntry → ℕ → Bool
within high e w =
    leb (2 ^ 32) e.base
    && leb (high % 2 ^ 48 + e.base) (w % 2 ^ 48)
    && ltb (w % 2 ^ 48) (high % 2 ^ 48 + (e.base + e.length))

shifted-within :
    {high rounds : ℕ} (e : MemmapEntry) (w : ℕ) (old : Option ℕ)
    → IsWhole high rounds e
    → shifted high (e.base / 2 ^ 21) (e.length / 2 ^ 21) w old
      ≡ (if within high e w then some (w % 2 ^ 48 - high % 2 ^ 48) else old)
unfolding within
shifted-within {high} e w old h =
    ground (arith, h.base_aligned, h.length_aligned, h.above, h.reached.aligned, h.reached.below)

-- The region is mapped at the offset.
pub map_entry-within :
    {offset limit : ℕ} (fuel rounds : ℕ) {s : Kernel} (e : MemmapEntry)
    → IsSpace offset limit s
    → IsWhole s.hhdm_offset (suc rounds) e
    → e.length / 2 ^ 21 * (2 * 0x1000) ≤ s.global_boot_info.memory.free_mem_size
    → (t : Kernel) × (map_entry fuel (suc rounds) e s ≡ ok tt t)
      × IsSpace offset limit t
      × ((w : ℕ)
          → translate t.mem offset t.pml4 w ≡ (
              if within s.hhdm_offset e w
              then some (w % 2 ^ 48 - s.hhdm_offset % 2 ^ 48)
              else translate s.mem offset s.pml4 w))
      × (t.pml4 ≡ s.pml4)
      × (t.hhdm_offset ≡ s.hhdm_offset)
      × (s.global_boot_info.memory.free_mem_size
          ≤ t.global_boot_info.memory.free_mem_size + e.length / 2 ^ 21 * (2 * 0x1000))
map_entry-within {offset} {limit} fuel rounds {s} e space whole enough =
    let n : ℕ = e.base / 2 ^ 21 in
    let count : ℕ = e.length / 2 ^ 21 in
    let start : n * 2 ^ 21 ≡ e.base = omega (arith, whole.base_aligned) in
    let last : (n + count) * 2 ^ 21 ≡ e.base + e.length =
      omega (arith, whole.base_aligned, whole.length_aligned) in
    let (t, run, space', translation, root, same, free) =
      map_pages-shifted fuel (suc rounds) count n space (omega (arith, whole.enough))
        (omega (arith, whole.above)) (subst (IsReached s.hhdm_offset) (sym last) whole.reached)
        enough in
    (
      t,
      map_entry-run fuel rounds e s t whole (
          ap₂
            (λ (last first : ℕ).
              map_pages fuel (suc rounds) (2 * megabyte) larger_pages last first s)
            (sym last) (sym start)
          ∙ run),
      space',
      λ w. translation w ∙ shifted-within e w (translate s.mem offset s.pml4 w) whole,
      root,
      same,
      free,
    )
