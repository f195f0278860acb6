-- ===== src/Paging/Space/Third.antt =====
-- A new table of level 3 in the root of kernel/paging/paging.cpp.
use optimist_os.Common.{
  ℕ, ◌-◌, ◌/◌, ◌%◌, ◌^◌, ◌<◌, ◌≡◌, ◌≢◌, ◌∙◌, inl, inr, refl, sym, ap, subst, arith, ℕ_discrete,
}
use optimist_os.Memory.{mmio_read64}
use optimist_os.Kernel.{Kernel}
use optimist_os.Paging.Map.Level.{slot}
use optimist_os.Paging.Map.Open.{Opens}
use optimist_os.Paging.Space.{Layout, Holds, HasLayout, IsEntry, third_tag, second_tag}
use optimist_os.Paging.Space.Grow.{
  put, put_self, put-ne, new_frame, new_frame_lem, new_entry, read_kept, apart_tags, new_zero,
  Holds-kept, Holds-new,
}

abbrev pub with_third : Layout → ℕ → ℕ → Layout
with_third l i frame = record l {
  third = put i frame l.third;
  owner = put frame (third_tag i) l.owner;
}

module _ {offset limit i : ℕ} {l : Layout} {s t : Kernel} (h : HasLayout offset limit l s)
    (small : i < 512) (gone : l.third i ≡ 0)
    (o : Opens offset limit (slot offset s.pml4 i) s t) where
  abbrev frame : ℕ
  frame = new_frame h h.root_at small o

  abbrev l' : Layout
  l' = with_third l i frame

  kept : (f tag : ℕ) → Holds offset l s f tag → Holds offset l' t f tag
  kept f tag = Holds-kept h h.root_at small o l' (third_tag i) f tag (λ x. refl)

  below_root :
      (f n tag : ℕ)
      → Holds offset l s f tag
      → tag ≢ 0
      → n < 512
      → mmio_read64 t.mem (slot offset f n) ≡ mmio_read64 s.mem (slot offset f n)
  below_root f n tag holds ne hn =
      read_kept h h.root_at small o f n holds hn
        (inl (apart_tags h h.root_at small o f tag holds (λ e. ne (sym e))))

  third_self : (n : ℕ) → n ≡ i → l'.third n ≡ frame
  third_self n e = put_self i frame l.third n e

  third-ne : (n : ℕ) → n ≢ i → l'.third n ≡ l.third n
  third-ne n ne = put-ne i frame l.third n ne

  frame-ne : frame ≢ 0
  frame-ne = (new_frame_lem h h.root_at small o).1

  third_at' : (n : ℕ) → n < 512 → l'.third n ≢ 0 → Holds offset l' t (l'.third n) (third_tag n)
  third_at' n hn there = elim (ℕ_discrete n i) [
    | yes e ↦ rw (third_self n e) (
        subst (λ m. Holds offset l' t frame (third_tag m)) (sym e)
          (Holds-new h h.root_at small o l' (third_tag i) (λ x. refl)))
    | no ne ↦
        rw (third-ne n ne)
          (kept (l.third n) (third_tag n) (h.third_at n hn (λ z. there (third-ne n ne ∙ z))))
  ]

  entry4' : (n : ℕ) → n < 512 → IsEntry (l'.third n) (mmio_read64 t.mem (slot offset s.pml4 n))
  entry4' n hn = elim (ℕ_discrete n i) [
    | yes e ↦
        rw (third_self n e, e, o.entry)
          (λ z. absurd (frame-ne z), λ z. unfold new_frame in new_entry h h.root_at small o)
    | no ne ↦
        rw
          (
            third-ne n ne,
            read_kept h h.root_at small o s.pml4 n h.root_at hn (inr (λ e. ne (sym e))),
          )
          (h.entry4 n hn)
  ]

  entry3' :
      (j : ℕ)
      → j < 2 ^ 18
      → l'.third (j / 512) ≢ 0
      → IsEntry (l.second j) (mmio_read64 t.mem (slot offset (l'.third (j / 512)) (j % 512)))
  entry3' j hj there = elim (ℕ_discrete (j / 512) i) [
    | yes e ↦
        let none : l.second j ≡ 0 = h.no_third j hj (ap l.third e ∙ gone) in
        rw (third_self (j / 512) e, none, new_zero h h.root_at small o (j % 512) (omega arith))
          (λ z. refl, λ z. absurd (z refl))
    | no ne ↦
        let old : l.third (j / 512) ≢ 0 = λ z. there (third-ne (j / 512) ne ∙ z) in
        rw
          (
            third-ne (j / 512) ne,
            below_root (l.third (j / 512)) (j % 512) (third_tag (j / 512))
                (h.third_at (j / 512) (omega arith) old) (λ z. omega arith) (omega arith),
          )
          (h.entry3 j hj old)
  ]

  pub HasLayout-third : HasLayout offset limit (with_third l i (s.head - offset)) t
  unfolding new_frame
  HasLayout-third = record {
    ready = o.ready;
    root = λ z. h.root (sym o.root ∙ z);
    root_at = subst (λ p. Holds offset l' t p 0) (sym o.root) (kept s.pml4 0 h.root_at);
    third_at = third_at';
    second_at = λ j hj there. kept (l.second j) (second_tag j) (h.second_at j hj there);
    entry4 = λ n hn.
        subst (λ p. IsEntry (l'.third n) (mmio_read64 t.mem (slot offset p n))) (sym o.root)
          (entry4' n hn);
    entry3 = entry3';
    entry2 = λ k hk here.
        below_root (l.second (k / 512)) (k % 512) (second_tag (k / 512))
          (h.second_at (k / 512) (omega arith) here) (λ z. omega arith) (omega arith)
        ∙ h.entry2 k hk here;
    no_third = λ j hj none. elim (ℕ_discrete (j / 512) i) [
      | yes e ↦ absurd (frame-ne (sym (third_self (j / 512) e) ∙ none))
      | no ne ↦ h.no_third j hj (sym (third-ne (j / 512) ne) ∙ none)
    ];
    no_second = h.no_second;
    pages = h.pages;
  }
