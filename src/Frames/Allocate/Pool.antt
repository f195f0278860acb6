-- ===== src/Frames/Allocate/Pool.antt =====
-- What `allocateFrame` of kernel/paging/pageFrameAllocator.cpp promises while the list holds one block: a
-- pool of bytes that gives out whole pages from its start, and the proof that the code implements it.
use optimist_os.Common.{
  ℕ, ◌+◌, ◌-◌, ◌*◌, ◌/◌, ◌^◌, ◌≤◌, ◌<◌, ◌≡◌, refl, arith, Option, none, some, List, [], ◌∷◌, ltb,
  if◌then◌else◌, Bool-cases, Option-cases, inl, inr, lt→ltb, le→ltb, ap, sym, subst, ◌∙◌,
}
use optimist_os.Kernel.{Kernel}
use optimist_os.Kernel.Run.{ok, halted}
use optimist_os.Frames.Round.{page_size, round_up_to_page_boundary}
use optimist_os.Frames.Round.Laws.{round_up_to_page_boundary_lem}
use optimist_os.Frames.Allocate.{allocate_frame}
use optimist_os.Frames.Allocate.Bump.{IsBump}
use optimist_os.Frames.Allocate.Gives.{allocate_frame_lem, allocate_frame_too_large}
use optimist_os.Frames.Allocate.Sequence.{allocate_all, AreRequests}

-- The first free physical address, and the free bytes from there on.
pub record Pool : Type 0 where
  pub first : ℕ
  pub free : ℕ

abbrev pub pages : ℕ → ℕ
pages request = (request + page_size - 1) / page_size * page_size

-- The answers to a sequence of requests, or nothing if one of them is more than is left.
unfoldable pub serve : List ℕ → Pool → Option (List ℕ × Pool)
serve [] p = some ([], p)
serve (r ∷ rs) p =
    let rest = serve rs (record { first = p.first + pages r; free = p.free - pages r }) in
    if ltb p.free (pages r)
    then none
    else elim rest [ none ↦ none | some (frames, q) ↦ some (p.first ∷ frames, q) ]

-- The state of the allocator stands for the pool.
pub record IsPool (limit : ℕ) (s : Kernel) (p : Pool) : Type 0 where
  pub bump : IsBump limit s
  pub first : s.head - s.global_boot_info.memory.hhdm_offset ≡ p.first
  pub free : s.global_boot_info.memory.free_mem_size ≡ p.free

pages_lem : (r : ℕ) → r + page_size ≤ 2 ^ 64 → round_up_to_page_boundary r ≡ pages r
pages_lem r h = omega (arith, round_up_to_page_boundary_lem r h)

abbrev after : ℕ → Pool → Pool
after r p = record { first = p.first + pages r; free = p.free - pages r }

serve-short : (r : ℕ) (rs : List ℕ) (p : Pool) → p.free < pages r → serve (r ∷ rs) p ≡ none
unfolding serve
serve-short r rs p h = rw (lt→ltb p.free (pages r) h)

serve-fits :
    (r : ℕ) (rs : List ℕ) (p : Pool)
    → pages r ≤ p.free
    → serve (r ∷ rs) p
      ≡ elim (serve rs (after r p)) [ none ↦ none | some (frames, q) ↦ some (p.first ∷ frames, q) ]
unfolding serve
serve-fits r rs p h = rw (le→ltb p.free (pages r) h)

serve_cons :
    (r : ℕ) (rs : List ℕ) (p : Pool)
    → pages r ≤ p.free
    → {fs : List ℕ} {x : Pool} → serve rs (after r p) ≡ some (fs, x)
    → serve (r ∷ rs) p ≡ some (p.first ∷ fs, x)
serve_cons r rs p le h = serve-fits r rs p le ∙ rw h refl

IsPool-after :
    {limit : ℕ} (fuel r : ℕ) {s : Kernel} {p : Pool}
    → IsPool limit s p
    → 0 < r
    → r + page_size ≤ 2 ^ 64
    → pages r ≤ p.free
    → (t : Kernel) × (allocate_frame fuel r s ≡ ok p.first t) × IsPool limit t (after r p)
IsPool-after {limit} fuel r {s} {p} v pos small fits =
    let e : round_up_to_page_boundary r ≡ pages r = pages_lem r small in
    let (t, run, gives) = allocate_frame_lem fuel r v.bump pos small (omega (arith, v.free)) in
    (
      t,
      run ∙ ap (λ (a : ℕ). ok a t) v.first,
      record {
        bump = gives.bump;
        first = omega (arith, gives.head, gives.offset, v.first, v.bump.offset);
        free = omega (arith, gives.free, v.free);
      },
    )

-- The calls implement the pool: for requests that are not 0 and round up within 64 bits, `allocateFrame`
-- gives exactly the frames that the pool gives, and leaves a state that stands for the pool behind them;
-- and where the pool refuses a request, the kernel stops at `hlt`.
pub allocate_all-serve :
    {limit : ℕ} (fuel : ℕ) (requests : List ℕ) {s : Kernel} {p : Pool}
    → IsPool limit s p
    → AreRequests requests
    → ((frames : List ℕ) (q : Pool)
        → serve requests p ≡ some (frames, q)
        → (t : Kernel) × (allocate_all fuel requests s ≡ ok frames t) × IsPool limit t q)
      × (serve requests p ≡ none → (t : Kernel) × (allocate_all fuel requests s ≡ halted t))
unfolding allocate_all
allocate_all-serve {limit} fuel [] {s} {p} v are = (
  λ frames q e.
      unfold serve in
      let same : (frames ≡ []) × (q ≡ p) = (cc, cc) in
      (s, ap (λ (l : List ℕ). ok l s) (sym same.0), subst (IsPool limit s) (sym same.1) v),
  λ e. unfold serve in absurd (cc),
)
allocate_all-serve {limit} fuel (r ∷ rs) {s} {p} v are = elim (Bool-cases (ltb p.free (pages r))) [
  | inl short ↦
      let lt : p.free < pages r = ground arith in
      (
        λ frames q e. absurd (cc (serve-short r rs p lt)),
        λ e.
            let (t, run, m, hd) =
              allocate_frame_too_large fuel r s v.bump.head_ne
                (omega (arith, pages_lem r are.1, v.free)) in
            (t, rw run refl),
      )
  | inr fits ↦
      let le : pages r ≤ p.free = ground arith in
      let (t, run, w) = IsPool-after fuel r v are.0 are.1 le in
      let rest = allocate_all-serve fuel rs w are.2 in
      elim (Option-cases (serve rs (after r p))) [
        | inl refused ↦ (
          λ frames q e. absurd (cc (serve-fits r rs p le)),
          λ e. let (u, halt) = rest.1 refused in (u, rw (run, halt) refl),
        )
        | inr served ↦
            let (u, all, x) = rest.0 served.0.0 served.0.1 served.1 in
            (
              λ frames q e.
                  let same : (frames ≡ p.first ∷ served.0.0) × (q ≡ served.0.1) =
                    (cc (serve_cons r rs p le served.1), cc (serve_cons r rs p le served.1)) in
                  (
                    u,
                    rw (run, all) (ap (λ (l : List ℕ). ok l u) (sym same.0)),
                    subst (IsPool limit u) (sym same.1) x,
                  ),
              λ e. absurd (cc (serve-fits r rs p le)),
            )
      ]
]
