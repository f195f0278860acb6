-- ===== src/Paging/Space/Enter.antt =====
-- The two levels of the walk of `virtualAddrToPTE` of kernel/paging/paging.cpp for a page of 2 MB.
use optimist_os.Common.{
  ℕ, ◌+◌, ◌-◌, ◌/◌, ◌%◌, ◌^◌, ◌≤◌, ◌<◌, ◌≡◌, ◌≢◌, ◌∙◌, refl, sym, ap, arith, ℕ_discrete,
}
use optimist_os.Kernel.{Kernel}
use optimist_os.Kernel.Run.{ok}
use optimist_os.Paging.Map.{next_table}
use optimist_os.Paging.Map.Open.{IsReady, next_table-Opens}
use optimist_os.Paging.Map.Present.{next_table-slot}
use optimist_os.Paging.Map.Tables.{with_root, with_root-IsReady, with_root-Opens}
use optimist_os.Paging.Space.{Layout, HasLayout}
use optimist_os.Paging.Space.Grow.{put_self, put-ne}
use optimist_os.Paging.Space.Third.{with_third, HasLayout-third}
use optimist_os.Paging.Space.Second.{with_second, HasLayout-second}

-- A step of the walk, which may make one table.
pub record Enters (offset limit : ℕ) (l : Layout) (s : Kernel) (l' : Layout) (t : Kernel)
    : Type 0 where
  pub layout : HasLayout offset limit l' t
  pub leaf : l'.leaf ≡ l.leaf
  pub third : (i : ℕ) → l.third i ≢ 0 → l'.third i ≡ l.third i
  pub root : t.pml4 ≡ s.pml4
  pub high : t.hhdm_offset ≡ s.hhdm_offset
  pub free :
      s.global_boot_info.memory.free_mem_size ≤ t.global_boot_info.memory.free_mem_size + 0x1000

stays :
    {offset limit : ℕ} {l : Layout} {s : Kernel}
    → HasLayout offset limit l s
    → Enters offset limit l s l s
stays h = record {
  layout = h;
  leaf = refl;
  third = λ i ne. refl;
  root = refl;
  high = refl;
  free = omega arith;
}

-- The frame that is made has its address in the direct map at the start of the free block.
new_table_at :
    {offset limit : ℕ} {s : Kernel} → IsReady offset limit s → s.head ≡ s.head - offset + offset
new_table_at r = omega (arith, r.first)

module _ {offset limit : ℕ} {l : Layout} {s : Kernel} (h : HasLayout offset limit l s) (fuel : ℕ)
    (enough : 0x1000 ≤ s.global_boot_info.memory.free_mem_size) where
  low_root : s.pml4 + 2 ^ 12 ≤ 2 ^ 47
  low_root = omega (arith, h.root_at.below, h.ready.low, h.ready.bump.reach)

  -- From the root to a table of level 3.
  pub enter_third :
      (i : ℕ)
      → i < 512
      → (l' : Layout) × (a : Kernel) × (next_table fuel
            (s.pml4 + offset)
            i
            (with_root (s.pml4 + offset) s)
          ≡ ok (l'.third i + offset) a)
        × Enters offset limit l s l' (with_root s.pml4 a)
        × (l'.third i ≢ 0)
  unfolding with_root
  enter_third i hi = elim (ℕ_discrete (l.third i) 0) [
    | no there ↦
        let (table, frame) = (h.entry4 i hi).1 there in
        let r = with_root-IsReady (s.pml4 + offset) h.ready in
        (
          l,
          with_root (s.pml4 + offset) s,
          next_table-slot fuel s.pml4 i _ r.direct low_root hi (refl) table
              ∙ ap (λ (f : ℕ). ok (f + offset) (with_root (s.pml4 + offset) s)) frame,
          stays h,
          there,
        )
    | yes gone ↦
        let r = with_root-IsReady (s.pml4 + offset) h.ready in
        let (a, run, opened) =
          next_table-Opens fuel s.pml4 i r (enough) hi (h.root_at.below) (λ z. h.root (omega arith))
            ((h.entry4 i hi).0 gone) in
        let o = with_root-Opens (s.pml4 + offset) opened in
        let frame : ℕ = s.head - offset in
        let here = put_self i frame l.third i refl in
        (
          with_third l i frame,
          a,
          run
              ∙ ap (λ (p : ℕ). ok p a)
                  (new_table_at h.ready ∙ ap (λ (f : ℕ). f + offset) (sym here)),
          record {
            layout = HasLayout-third h hi gone o;
            leaf = refl;
            third = λ n ne. put-ne i frame l.third n (λ e. ne (ap l.third e ∙ gone));
            root = refl;
            high = o.high;
            free = omega (arith, o.free);
          },
          λ z. omega (arith, here, z, h.ready.first),
        )
  ]

  -- From a table of level 3 to one of level 2.
  pub enter_second :
      (j : ℕ)
      → j < 2 ^ 18
      → l.third (j / 512) ≢ 0
      → (l' : Layout) × (t : Kernel) × (next_table fuel (l.third (j / 512) + offset) (j % 512) s
          ≡ ok (l'.second j + offset) t)
        × Enters offset limit l s l' t
        × (l'.second j ≢ 0)
  enter_second j hj has =
      let parent = h.third_at (j / 512) (omega arith) has in
      let low : l.third (j / 512) + 2 ^ 12 ≤ 2 ^ 47 =
        omega (arith, parent.below, h.ready.low, h.ready.bump.reach) in
      elim (ℕ_discrete (l.second j) 0) [
        | no there ↦
            let (table, frame) = (h.entry3 j hj has).1 there in
            (
              l,
              s,
              next_table-slot fuel (l.third (j / 512)) (j % 512) _ h.ready.direct low (omega arith)
                    refl table
                  ∙ ap (λ (f : ℕ). ok (f + offset) s) frame,
              stays h,
              there,
            )
        | yes gone ↦
            let (t, run, o) =
              next_table-Opens fuel (l.third (j / 512)) (j % 512) h.ready enough (omega arith)
                parent.below (λ z. h.ready.direct.nonzero (omega arith))
                ((h.entry3 j hj has).0 gone) in
            let frame : ℕ = s.head - offset in
            let here = put_self j frame l.second j refl in
            (
              with_second l j frame,
              t,
              run
                  ∙ ap (λ (p : ℕ). ok p t)
                      (new_table_at h.ready ∙ ap (λ (f : ℕ). f + offset) (sym here)),
              record {
                layout = HasLayout-second h hj has gone o;
                leaf = refl;
                third = λ n ne. refl;
                root = o.root;
                high = o.high;
                free = omega (arith, o.free);
              },
              λ z. omega (arith, here, z, h.ready.first),
            )
      ]
