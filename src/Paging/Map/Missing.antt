-- ===== src/Paging/Map/Missing.antt =====
-- `virtualAddrToPTE` of kernel/paging/paging.cpp where no table is on the way.
use optimist_os.Common.{ℕ, ◌+◌, ◌-◌, ◌/◌, ◌%◌, ◌^◌, ◌≤◌, ◌<◌, ◌≡◌, ◌≢◌, ◌∙◌, ap, arith, bit_and}
use optimist_os.Kernel.{Kernel}
use optimist_os.Kernel.Run.{ok}
use optimist_os.Paging.Entry.{larger_pages}
use optimist_os.Paging.Index.{pml4_entry-eq, pml3_entry-eq, pml2_entry-eq, pml1_entry-eq}
use optimist_os.Paging.Map.{entry_of, next_table, virtual_addr_to_pte}
use optimist_os.Paging.Map.Level.{HasOffset, slot, to_virtual_addr-offset}
use optimist_os.Paging.Map.Open.{next_table-Opens}
use optimist_os.Paging.Map.Tables.{
  IsEmpty, Walked, open_next, with_root, with_root-IsReady, with_root-Opens, heads, three_tables,
}

-- The walk of `virtualAddrToPTE` over three steps.
walk-run :
    {offset : ℕ} (fuel v flags p3 p2 p1 : ℕ) (s a b c : Kernel)
    → HasOffset offset s
    → s.pml4 ≢ 0
    → s.pml4 < 2 ^ 47
    → bit_and flags larger_pages ≡ 0
    → next_table fuel (s.pml4 + offset) (v / 2 ^ 39 % 512) (with_root (s.pml4 + offset) s) ≡ ok p3 a
    → next_table fuel p3 (v / 2 ^ 30 % 512) (with_root s.pml4 a) ≡ ok p2 b
    → next_table fuel p2 (v / 2 ^ 21 % 512) b ≡ ok p1 c
    → virtual_addr_to_pte fuel v flags s ≡ ok (entry_of p1 (v / 2 ^ 12 % 512)) c
unfolding virtual_addr_to_pte with_root
walk-run fuel v flags p3 p2 p1 s a b c d ne lt small r4 r3 r2 = ground (
  arith,
  pml4_entry-eq v,
  pml3_entry-eq v,
  pml2_entry-eq v,
  pml1_entry-eq v,
  to_virtual_addr-offset s.pml4 d,
  r4,
  r3,
  r2,
)

last_slot :
    {offset first table index : ℕ}
    → offset < first
    → table ≡ first + 0x2000
    → first + 0x3000 ≤ offset + 2 ^ 47
    → offset + 2 ^ 47 ≤ 2 ^ 64
    → index < 512
    → entry_of table index ≡ slot offset (first - offset + 0x2000) index
last_slot pos at low room i = omega arith

-- The walk makes the three tables and ends at the slot of the last one.
pub virtual_addr_to_pte-Walked :
    {offset limit v : ℕ} {s : Kernel} (fuel flags : ℕ)
    → IsEmpty offset limit v s
    → bit_and flags larger_pages ≡ 0
    → (t : Kernel) × (virtual_addr_to_pte fuel v flags s
        ≡ ok (slot offset (s.head - offset + 0x2000) (v / 2 ^ 12 % 512)) t)
      × Walked offset limit v s t
virtual_addr_to_pte-Walked {offset} {limit} {v} {s} fuel flags e small =
    let held : Kernel = with_root (s.pml4 + offset) s in
    let r = with_root-IsReady (s.pml4 + offset) e.ready in
    let (a', run4, opened) =
      next_table-Opens {s = held} fuel s.pml4 (v / 2 ^ 39 % 512) r
        (unfold with_root in omega (arith, e.enough)) (omega arith) (unfold with_root in e.below)
        (λ z. e.root (omega (arith, e.ready.direct.nonzero))) (unfold with_root in e.empty) in
    let first = with_root-Opens (s.pml4 + offset) opened in
    let a : Kernel = with_root s.pml4 a' in
    let (b, run3, second) =
      open_next fuel (v / 2 ^ 30 % 512) e.ready first (omega arith)
        (omega (arith, first.free, e.enough)) in
    let (c, run2, third) =
      open_next fuel (v / 2 ^ 21 % 512) first.ready second (omega arith)
        (omega (arith, first.free, second.free, e.enough)) in
    let end = heads e first second third in
    let low : s.pml4 + 2 ^ 12 ≤ 2 ^ 47 = omega (arith, e.below, e.ready.low, e.ready.bump.reach) in
    (
      c,
      walk-run fuel v flags s.head a.head b.head s a' b c e.ready.direct e.root (omega arith) small
            (unfold with_root in run4) run3 run2
          ∙ ap (λ (p : ℕ). ok p c)
              (last_slot e.ready.first end.1
                (omega (arith, e.ready.low, e.ready.bump.reach, e.enough, e.ready.first))
                e.ready.direct.room (omega arith)),
      three_tables e first second third,
    )
