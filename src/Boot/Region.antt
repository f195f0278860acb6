-- ===== src/Boot/Region.antt =====
-- What the loop of `_start` of kernel/boot.cpp over the memory map chooses.
use optimist_os.Common.{
  ℕ, ◌≤◌, ◌<◌, ◌≡◌, ◌≢◌, ◌∙◌, ◌⊎◌, inl, inr, refl, sym, subst, arith, List, [], ◌∷◌, ℕ_discrete,
}
use optimist_os.Boot.Memmap.{MemmapEntry, Choice, initial, consider, choose, AtMost}

module _ (usable kernel_start : ℕ) where
  -- The first of the longest usable entries, which is not empty.
  pub data IsLongest : List MemmapEntry → MemmapEntry → Type 0 where
    first :
        (e : MemmapEntry) (es : List MemmapEntry)
        → e.type ≡ usable
        → 0 < e.length
        → AtMost usable kernel_start e.length es
        → IsLongest (e ∷ es) e
    later :
        (d e : MemmapEntry) (es : List MemmapEntry)
        → (d.type ≡ usable → d.length < e.length)
        → IsLongest es e
        → IsLongest (d ∷ es) e

  pub IsLongest-pos : {es : List MemmapEntry} {e : MemmapEntry} → IsLongest es e → 0 < e.length
  IsLongest-pos (first e es same pos h) = pos
  IsLongest-pos (later d e es shorter h) = IsLongest-pos h

  -- An entry that is not usable and begins where the kernel does.
  abbrev pub IsKernel : MemmapEntry → Type 0
  IsKernel e = (e.type ≢ usable) × (e.base ≡ kernel_start)

  abbrev pub NoKernel : List MemmapEntry → Type 0
  NoKernel [] = Unit
  NoKernel (e ∷ es) = (¬ IsKernel e) × NoKernel es

  -- The size of the last such entry, or 1 if there is none.
  pub data IsKernelSize : List MemmapEntry → ℕ → Type 0 where
    nowhere : (es : List MemmapEntry) → NoKernel es → IsKernelSize es 1
    last :
        (e : MemmapEntry) (es : List MemmapEntry)
        → IsKernel e
        → NoKernel es
        → IsKernelSize (e ∷ es) e.length
    before :
        (d : MemmapEntry) (es : List MemmapEntry) (n : ℕ)
        → ¬ NoKernel es
        → IsKernelSize es n
        → IsKernelSize (d ∷ es) n

  consider-small :
      (e : MemmapEntry) (c : Choice)
      → (e.type ≡ usable → e.length ≤ c.free_mem_size)
      → ((consider usable kernel_start e c).free_mem_start ≡ c.free_mem_start)
        × ((consider usable kernel_start e c).free_mem_size ≡ c.free_mem_size)
  unfolding consider
  consider-small e c h = elim (ℕ_discrete e.type usable) [
    | yes same ↦ let small : e.length ≤ c.free_mem_size = h same in ground arith
    | no ne ↦ ground arith
  ]

  consider-large :
      (e : MemmapEntry) (c : Choice)
      → e.type ≡ usable
      → c.free_mem_size < e.length
      → ((consider usable kernel_start e c).free_mem_start ≡ e.base)
        × ((consider usable kernel_start e c).free_mem_size ≡ e.length)
  unfolding consider
  consider-large e c same lt = ground arith

  pub choose-stays :
      (es : List MemmapEntry) (c : Choice)
      → AtMost usable kernel_start c.free_mem_size es
      → ((choose usable kernel_start es c).free_mem_start ≡ c.free_mem_start)
        × ((choose usable kernel_start es c).free_mem_size ≡ c.free_mem_size)
  unfolding choose
  choose-stays [] c h = (refl, refl)
  choose-stays (e ∷ es) c (here, h) =
      let (start, size) = consider-small e c here in
      let (start', size') =
        choose-stays es (consider usable kernel_start e c)
          (subst (λ n. AtMost usable kernel_start n es) (sym size) h) in
      (start' ∙ start, size' ∙ size)

  consider-lt :
      (d : MemmapEntry) (c : Choice) (n : ℕ)
      → (d.type ≡ usable → d.length < n)
      → c.free_mem_size < n
      → (consider usable kernel_start d c).free_mem_size < n
  unfolding consider
  consider-lt d c n shorter lt = elim (ℕ_discrete d.type usable) [
    | yes same ↦ let short : d.length < n = shorter same in ground arith
    | no ne ↦ ground arith
  ]

  pub choose-IsLongest :
      {es : List MemmapEntry} {e : MemmapEntry}
      → IsLongest es e
      → (c : Choice) → c.free_mem_size < e.length
      → ((choose usable kernel_start es c).free_mem_start ≡ e.base)
        × ((choose usable kernel_start es c).free_mem_size ≡ e.length)
  unfolding choose
  choose-IsLongest (first e es same pos h) c lt =
      let (start, size) = consider-large e c same lt in
      let (start', size') =
        choose-stays es (consider usable kernel_start e c)
          (subst (λ n. AtMost usable kernel_start n es) (sym size) h) in
      (start' ∙ start, size' ∙ size)
  choose-IsLongest (later d e es shorter h) c lt =
      let small : (consider usable kernel_start d c).free_mem_size < e.length =
        consider-lt d c e.length shorter lt in
      choose-IsLongest h (consider usable kernel_start d c) small

  -- Either no entry is longer than what is chosen already, or there is a longest one.
  pub find-IsLongest :
      (es : List MemmapEntry) (n : ℕ)
      → AtMost usable kernel_start n es ⊎ ((e : MemmapEntry) × IsLongest es e × (n < e.length))
  find-IsLongest [] n = inl tt
  find-IsLongest (d ∷ es) n = elim (ℕ_discrete d.type usable) [
    | no ne ↦ elim (find-IsLongest es n) [
      | inl h ↦ inl (λ same. absurd (ne same), h)
      | inr (e, h, lt) ↦ inr (e, later d e es (λ same. absurd (ne same)) h, lt)
    ]
    | yes same ↦ elim (le-or-lt d.length n) [
      | inl le ↦ elim (find-IsLongest es n) [
        | inl h ↦ inl (λ u. le, h)
        | inr (e, h, lt) ↦ inr (e, later d e es (λ u. omega arith) h, lt)
      ]
      | inr gt ↦ elim (find-IsLongest es d.length) [
        | inl h ↦ inr (d, first d es same (omega arith) h, gt)
        | inr (e, h, lt) ↦ inr (e, later d e es (λ u. lt) h, omega arith)
      ]
    ]
  ]
    where
      le-or-lt : (m n : ℕ) → (m ≤ n) ⊎ (n < m)
      le-or-lt m n = omega arith

  consider-other :
      (e : MemmapEntry) (c : Choice)
      → ¬ IsKernel e
      → (consider usable kernel_start e c).kernel_size ≡ c.kernel_size
  unfolding consider
  consider-other e c no_kernel = elim (ℕ_discrete e.type usable) [
    | yes same ↦ ground arith
    | no ne ↦ let away : e.base ≢ kernel_start = λ at. no_kernel (ne, at) in ground arith
  ]

  consider-kernel :
      (e : MemmapEntry) (c : Choice)
      → IsKernel e
      → (consider usable kernel_start e c).kernel_size ≡ e.length
  unfolding consider
  consider-kernel e c k = ground (arith, k.0, k.1)

  choose-NoKernel :
      (es : List MemmapEntry) (c : Choice)
      → NoKernel es
      → (choose usable kernel_start es c).kernel_size ≡ c.kernel_size
  unfolding choose
  choose-NoKernel [] c h = refl
  choose-NoKernel (e ∷ es) c (here, h) =
      choose-NoKernel es (consider usable kernel_start e c) h ∙ consider-other e c here

  NoKernel-dec : (es : List MemmapEntry) → Dec (NoKernel es)
  NoKernel-dec [] = yes tt
  NoKernel-dec (e ∷ es) = elim (ℕ_discrete e.type usable) [
    | yes same ↦ elim (NoKernel-dec es) [
      | yes h ↦ yes (λ k. k.0 same, h)
      | no h ↦ no (λ all. h all.1)
    ]
    | no ne ↦ elim (ℕ_discrete e.base kernel_start) [
      | yes at ↦ no (λ all. all.0 (ne, at))
      | no away ↦ elim (NoKernel-dec es) [
        | yes h ↦ yes (λ k. away k.1, h)
        | no h ↦ no (λ all. h all.1)
      ]
    ]
  ]

  IsKernel-dec : (e : MemmapEntry) → Dec (IsKernel e)
  IsKernel-dec e = elim (ℕ_discrete e.type usable) [
    | yes same ↦ no (λ k. k.0 same)
    | no ne ↦ elim (ℕ_discrete e.base kernel_start) [
      | yes at ↦ yes (ne, at)
      | no away ↦ no (λ k. away k.1)
    ]
  ]

  choose-last :
      (es : List MemmapEntry) (c d : Choice)
      → ¬ NoKernel es
      → (choose usable kernel_start es c).kernel_size
        ≡ (choose usable kernel_start es d).kernel_size
  unfolding choose
  choose-last [] c d h = absurd (h tt)
  choose-last (e ∷ es) c d h = elim (NoKernel-dec es) [
    | no more ↦
        choose-last es (consider usable kernel_start e c) (consider usable kernel_start e d) more
    | yes none_left ↦ elim (IsKernel-dec e) [
      | no out ↦ absurd (h (out, none_left))
      | yes k ↦
          choose-NoKernel es (consider usable kernel_start e c) none_left
          ∙ consider-kernel e c k
          ∙ sym (
              choose-NoKernel es (consider usable kernel_start e d) none_left
              ∙ consider-kernel e d k)
    ]
  ]

  pub choose-IsKernelSize :
      (es : List MemmapEntry) → IsKernelSize es (choose usable kernel_start es initial).kernel_size
  unfolding choose
  choose-IsKernelSize [] = nowhere [] tt
  choose-IsKernelSize (e ∷ es) = elim (NoKernel-dec es) [
    | no more ↦
        subst (IsKernelSize (e ∷ es))
          (choose-last es initial (consider usable kernel_start e initial) more)
          (before e es _ more (choose-IsKernelSize es))
    | yes none_left ↦
        let stays = choose-NoKernel es (consider usable kernel_start e initial) none_left in
        elim (IsKernel-dec e) [
          | yes k ↦
              subst (IsKernelSize (e ∷ es)) (sym (stays ∙ consider-kernel e initial k))
                (last e es k none_left)
          | no out ↦
              subst (IsKernelSize (e ∷ es)) (sym (stays ∙ consider-other e initial out))
                (nowhere (e ∷ es) (out, none_left))
        ]
  ]

  pub choose-kernel_size :
      {es : List MemmapEntry} {n : ℕ}
      → IsKernelSize es n
      → (choose usable kernel_start es initial).kernel_size ≡ n
  unfolding choose
  choose-kernel_size (nowhere es h) = choose-NoKernel es initial h
  choose-kernel_size (last e es k h) =
      choose-NoKernel es (consider usable kernel_start e initial) h ∙ consider-kernel e initial k
  choose-kernel_size (before d es n more h) =
      choose-last es (consider usable kernel_start d initial) initial more ∙ choose-kernel_size h
