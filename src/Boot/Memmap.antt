-- ===== src/Boot/Memmap.antt =====
-- The choice of the free region among the entries of the memory map, in `_start` of kernel/boot.cpp, and
-- `quickMalloc`. The value of LIMINE_MEMMAP_USABLE comes from the boot loader's header.
use optimist_os.Common.{
  ℕ, ◌+◌, ◌≤◌, ◌≡◌, ◌⊎◌, inr, refl, arith, Option, none, some, List, [], ◌∷◌, ◌==◌, ltb,
  if◌then◌else◌, u64,
}

-- `limine_memmap_entry`.
pub record MemmapEntry : Type 0 where
  pub base : ℕ
  pub length : ℕ
  pub type : ℕ

-- `freeMemStart`, `freeMemSize` and `kernelSize`.
pub record Choice : Type 0 where
  pub free_mem_start : ℕ
  pub free_mem_size : ℕ
  pub kernel_size : ℕ

unfoldable pub quick_malloc : ℕ → ℕ → Option (ℕ × ℕ)
quick_malloc start_ram_addr size =
    if start_ram_addr == 0 then none else some (start_ram_addr, u64 (start_ram_addr + size))

abbrev pub initial : Choice
initial = record { free_mem_start = 0; free_mem_size = 0; kernel_size = 1 }

module _ (usable kernel_start : ℕ) where
  -- The body of the loop.
  unfoldable pub consider : MemmapEntry → Choice → Choice
  consider e c =
      if e.type == usable
      then (if ltb c.free_mem_size e.length
          then record c { free_mem_start = e.base; free_mem_size = e.length }
          else c)
      else if e.base == kernel_start
      then record c { kernel_size = e.length }
      else c

  unfoldable pub choose : List MemmapEntry → Choice → Choice
  choose [] c = c
  choose (e ∷ es) c = choose es (consider e c)

  -- Every usable entry is at most `n` long.
  abbrev pub AtMost : ℕ → List MemmapEntry → Type 0
  AtMost n [] = Unit
  AtMost n (e ∷ es) = (e.type ≡ usable → e.length ≤ n) × AtMost n es

  -- The region is a usable entry of the list.
  abbrev pub IsOne : Choice → List MemmapEntry → Type 0
  IsOne c [] = ⊥
  IsOne c (e ∷ es) =
      ((e.type ≡ usable) × (e.base ≡ c.free_mem_start) × (e.length ≡ c.free_mem_size)) ⊎ IsOne c es

  choose-grows :
      (es : List MemmapEntry) (c : Choice) → c.free_mem_size ≤ (choose es c).free_mem_size
  unfolding choose consider
  choose-grows [] c = omega arith
  choose-grows (e ∷ es) c = ground (arith, choose-grows es (consider e c))

  choose-AtMost : (es : List MemmapEntry) (c : Choice) → AtMost (choose es c).free_mem_size es
  unfolding choose consider
  choose-AtMost [] c = tt
  choose-AtMost (e ∷ es) c =
      (λ u. ground (arith, choose-grows es (consider e c)), choose-AtMost es (consider e c))

  choose-IsOne :
      (es : List MemmapEntry) (c : Choice)
      → IsOne (choose es c) es
        ⊎ (((choose es c).free_mem_start ≡ c.free_mem_start)
            × ((choose es c).free_mem_size ≡ c.free_mem_size))
  unfolding choose consider
  choose-IsOne [] c = inr (refl, refl)
  choose-IsOne (e ∷ es) c = ground (arith, choose-IsOne es (consider e c))

  -- The loop takes a usable region that no other usable region is longer than, or none, with size 0,
  -- and then every usable region is empty.
  pub choose_lem :
      (es : List MemmapEntry)
      → AtMost (choose es initial).free_mem_size es
        × (IsOne (choose es initial) es
            ⊎ (((choose es initial).free_mem_start ≡ 0) × ((choose es initial).free_mem_size ≡ 0)))
  choose_lem es = (choose-AtMost es initial, choose-IsOne es initial)
