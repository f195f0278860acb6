-- ===== src/Paging/Space/Write.antt =====
-- The write of the entry of a page by `map` of kernel/paging/paging.cpp.
use optimist_os.Common.{
  ℕ, ◌/◌, ◌%◌, ◌^◌, ◌<◌, ◌≡◌, ◌≢◌, ◌∙◌, ◌⊎◌, inl, inr, sym, ap, arith, ℕ_discrete,
}
use optimist_os.Memory.{Memory, mmio_read64}
use optimist_os.Memory.Laws.{Outside, mmio_read64_ext}
use optimist_os.Kernel.{Kernel}
use optimist_os.Paging.Map.Level.{slot}
use optimist_os.Paging.Map.Fresh.{kept-IsReady}
use optimist_os.Paging.Space.{Layout, Holds, HasLayout, IsPage, third_tag, second_tag, Apart-slots}
use optimist_os.Paging.Space.Grow.{put, put_self, put-ne}

abbrev pub with_leaf : Layout → ℕ → ℕ → Layout
with_leaf l k e = record l { leaf = put k e l.leaf }

module _ {offset limit k e : ℕ} {l : Layout} {s : Kernel} (h : HasLayout offset limit l s)
    (m : Memory) (small : k < 2 ^ 27) (has : l.second (k / 512) ≢ 0)
    (keeps : (x : ℕ) → Outside (slot offset (l.second (k / 512)) (k % 512)) 8 x → m x ≡ s.mem x)
    (read : mmio_read64 m (slot offset (l.second (k / 512)) (k % 512)) ≡ e) (page : IsPage e) where
  parent : Holds offset l s (l.second (k / 512)) (second_tag (k / 512))
  parent = h.second_at (k / 512) (omega arith) has

  kept :
      {f tag : ℕ}
      → Holds offset l s f tag
      → Holds offset (with_leaf l k e) (record s { mem = m }) f tag
  kept holds = record { aligned = holds.aligned; below = holds.below; owned = holds.owned }

  other_slot :
      (f n tag : ℕ)
      → Holds offset l s f tag
      → n < 512
      → (second_tag (k / 512) ≢ tag) ⊎ (k % 512 ≢ n)
      → mmio_read64 m (slot offset f n) ≡ mmio_read64 s.mem (slot offset f n)
  other_slot f n tag holds hn apart =
      let different : (l.second (k / 512) ≢ f) ⊎ (k % 512 ≢ n) = elim apart [
        | inl ne ↦ inl (λ z. ne (sym parent.owned ∙ ap l.owner z ∙ holds.owned))
        | inr ne ↦ inr ne
      ] in
      let slots =
        Apart-slots offset (l.second (k / 512)) f (k % 512) n parent.aligned holds.aligned
          (omega arith) hn different in
      mmio_read64_ext s.mem m (slot offset f n) (λ x lo hi. keeps x (omega (arith, slots)))

  entry2' :
      (n : ℕ)
      → n < 2 ^ 27
      → l.second (n / 512) ≢ 0
      → mmio_read64 m (slot offset (l.second (n / 512)) (n % 512)) ≡ put k e l.leaf n
  entry2' n hn there = elim (ℕ_discrete n k) [
    | yes same ↦ rw (put_self k e l.leaf n same, same) read
    | no ne ↦
        let apart : (second_tag (k / 512) ≢ second_tag (n / 512)) ⊎ (k % 512 ≢ n % 512) =
          elim (ℕ_discrete (k % 512) (n % 512)) [
            | yes z ↦ inl (λ w. ne (omega arith))
            | no d ↦ inr d
          ] in
        rw (put-ne k e l.leaf n ne) (
          other_slot (l.second (n / 512)) (n % 512) (second_tag (n / 512))
            (h.second_at (n / 512) (omega arith) there) (omega arith) apart
          ∙ h.entry2 n hn there)
  ]

  pub HasLayout-leaf : HasLayout offset limit (with_leaf l k e) (record s { mem = m })
  HasLayout-leaf = record {
    ready =
        kept-IsReady (slot offset (l.second (k / 512)) (k % 512)) m h.ready
          (omega (arith, parent.below)) keeps;
    root = h.root;
    root_at = kept h.root_at;
    third_at = λ n hn there. kept (h.third_at n hn there);
    second_at = λ n hn there. kept (h.second_at n hn there);
    entry4 =
        λ n hn. rw (other_slot s.pml4 n 0 h.root_at hn (inl (λ z. omega arith))) (h.entry4 n hn);
    entry3 = λ n hn there.
        rw
          (other_slot (l.third (n / 512)) (n % 512) (third_tag (n / 512))
            (h.third_at (n / 512) (omega arith) there) (omega arith) (inl (λ z. omega arith)))
          (h.entry3 n hn there);
    entry2 = entry2';
    no_third = h.no_third;
    no_second = λ n hn none. elim (ℕ_discrete n k) [
      | yes same ↦ absurd (has (ap (λ (x : ℕ). l.second (x / 512)) (sym same) ∙ none))
      | no ne ↦ put-ne k e l.leaf n ne ∙ h.no_second n hn none
    ];
    pages = λ n hn. elim (ℕ_discrete n k) [
      | yes same ↦ rw (put_self k e l.leaf n same) (inr page)
      | no ne ↦ rw (put-ne k e l.leaf n ne) (h.pages n hn)
    ];
  }
