-- ===== src/Paging/Space/Second.antt =====
-- A new table of level 2 in a table of level 3, in kernel/paging/paging.cpp.
use optimist_os.Common.{
  ℕ, ◌-◌, ◌/◌, ◌%◌, ◌^◌, ◌<◌, ◌≡◌, ◌≢◌, ◌∙◌, inl, inr, refl, sym, ap, subst, arith, ℕ_discrete,
}
use optimist_os.Memory.{mmio_read64}
use optimist_os.Kernel.{Kernel}
use optimist_os.Paging.Map.Level.{slot}
use optimist_os.Paging.Map.Open.{Opens}
use optimist_os.Paging.Space.{Layout, Holds, HasLayout, IsEntry, third_tag, second_tag}
use optimist_os.Paging.Space.Grow.{
  put, put_self, put-ne, new_frame, new_frame_lem, new_entry, read_kept, apart_tags, new_zero,
  Holds-kept, Holds-new,
}

abbrev pub with_second : Layout → ℕ → ℕ → Layout
with_second l j frame = record l {
  second = put j frame l.second;
  owner = put frame (second_tag j) l.owner;
}

module _ {offset limit j : ℕ} {l : Layout} {s t : Kernel} (h : HasLayout offset limit l s)
    (small : j < 2 ^ 18) (has : l.third (j / 512) ≢ 0) (gone : l.second j ≡ 0)
    (o : Opens offset limit (slot offset (l.third (j / 512)) (j % 512)) s t) where
  parent : Holds offset l s (l.third (j / 512)) (third_tag (j / 512))
  parent = h.third_at (j / 512) (omega arith) has

  index_lt : j % 512 < 512
  index_lt = omega arith

  abbrev frame : ℕ
  frame = new_frame h parent index_lt o

  abbrev l' : Layout
  l' = with_second l j frame

  kept : (f tag : ℕ) → Holds offset l s f tag → Holds offset l' t f tag
  kept f tag = Holds-kept h parent index_lt o l' (second_tag j) f tag (λ x. refl)

  other_tag :
      (f n tag : ℕ)
      → Holds offset l s f tag
      → third_tag (j / 512) ≢ tag
      → n < 512
      → mmio_read64 t.mem (slot offset f n) ≡ mmio_read64 s.mem (slot offset f n)
  other_tag f n tag holds ne hn =
      read_kept h parent index_lt o f n holds hn
        (inl (apart_tags h parent index_lt o f tag holds ne))

  second_self : (n : ℕ) → n ≡ j → l'.second n ≡ frame
  second_self n e = put_self j frame l.second n e

  second-ne : (n : ℕ) → n ≢ j → l'.second n ≡ l.second n
  second-ne n ne = put-ne j frame l.second n ne

  frame-ne : frame ≢ 0
  frame-ne = (new_frame_lem h parent index_lt o).1

  second_at' :
      (n : ℕ) → n < 2 ^ 18 → l'.second n ≢ 0 → Holds offset l' t (l'.second n) (second_tag n)
  second_at' n hn there = elim (ℕ_discrete n j) [
    | yes e ↦ rw (second_self n e) (
        subst (λ m. Holds offset l' t frame (second_tag m)) (sym e)
          (Holds-new h parent index_lt o l' (second_tag j) (λ x. refl)))
    | no ne ↦
        rw (second-ne n ne)
          (kept (l.second n) (second_tag n) (h.second_at n hn (λ z. there (second-ne n ne ∙ z))))
  ]

  entry3-ne :
      (m : ℕ)
      → m < 2 ^ 18
      → m ≢ j
      → l.third (m / 512) ≢ 0
      → mmio_read64 t.mem (slot offset (l.third (m / 512)) (m % 512))
        ≡ mmio_read64 s.mem (slot offset (l.third (m / 512)) (m % 512))
  entry3-ne m hm ne there =
      let holds = h.third_at (m / 512) (omega arith) there in
      elim (ℕ_discrete (m / 512) (j / 512)) [
        | yes e ↦
            read_kept h parent index_lt o (l.third (m / 512)) (m % 512) holds (omega arith)
              (inr (λ z. ne (omega arith)))
        | no d ↦
            other_tag (l.third (m / 512)) (m % 512) (third_tag (m / 512)) holds
              (λ z. d (omega arith)) (omega arith)
      ]

  entry3' :
      (m : ℕ)
      → m < 2 ^ 18
      → l.third (m / 512) ≢ 0
      → IsEntry (l'.second m) (mmio_read64 t.mem (slot offset (l.third (m / 512)) (m % 512)))
  entry3' m hm there = elim (ℕ_discrete m j) [
    | yes e ↦
        rw (second_self m e, e, o.entry)
          (λ z. absurd (frame-ne z), λ z. unfold new_frame in new_entry h parent index_lt o)
    | no ne ↦ rw (second-ne m ne, entry3-ne m hm ne there) (h.entry3 m hm there)
  ]

  entry2' :
      (k : ℕ)
      → k < 2 ^ 27
      → l'.second (k / 512) ≢ 0
      → mmio_read64 t.mem (slot offset (l'.second (k / 512)) (k % 512)) ≡ l.leaf k
  entry2' k hk there = elim (ℕ_discrete (k / 512) j) [
    | yes e ↦
        let none : l.leaf k ≡ 0 = h.no_second k hk (ap l.second e ∙ gone) in
        rw (second_self (k / 512) e, none) (new_zero h parent index_lt o (k % 512) (omega arith))
    | no ne ↦
        let old : l.second (k / 512) ≢ 0 = λ z. there (second-ne (k / 512) ne ∙ z) in
        rw (second-ne (k / 512) ne) (
          other_tag (l.second (k / 512)) (k % 512) (second_tag (k / 512))
            (h.second_at (k / 512) (omega arith) old) (λ z. omega arith) (omega arith)
          ∙ h.entry2 k hk old)
  ]

  pub HasLayout-second : HasLayout offset limit (with_second l j (s.head - offset)) t
  unfolding new_frame
  HasLayout-second = record {
    ready = o.ready;
    root = λ z. h.root (sym o.root ∙ z);
    root_at = subst (λ p. Holds offset l' t p 0) (sym o.root) (kept s.pml4 0 h.root_at);
    third_at = λ n hn there. kept (l.third n) (third_tag n) (h.third_at n hn there);
    second_at = second_at';
    entry4 = λ n hn.
        subst (λ p. IsEntry (l.third n) (mmio_read64 t.mem (slot offset p n))) (sym o.root)
          (rw (other_tag s.pml4 n 0 h.root_at (λ z. omega arith) hn) (h.entry4 n hn));
    entry3 = entry3';
    entry2 = entry2';
    no_third = λ m hm none.
        let ne : m ≢ j = λ e. has (ap (λ (x : ℕ). l.third (x / 512)) (sym e) ∙ none) in
        second-ne m ne ∙ h.no_third m hm none;
    no_second = λ k hk none. elim (ℕ_discrete (k / 512) j) [
      | yes e ↦ absurd (frame-ne (sym (second_self (k / 512) e) ∙ none))
      | no ne ↦ h.no_second k hk (sym (second-ne (k / 512) ne) ∙ none)
    ];
    pages = h.pages;
  }
