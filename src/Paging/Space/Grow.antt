-- ===== src/Paging/Space/Grow.antt =====
-- A layout grows by the table that `getNextLevelPointer` of kernel/paging/paging.cpp makes.
use optimist_os.Common.{
  ℕ, ◌+◌, ◌-◌, ◌%◌, ◌^◌, ◌<◌, ◌≡◌, ◌≢◌, ◌∙◌, ◌⊎◌, refl, sym, ap, arith, ◌==◌, if◌then◌else◌, eq→==,
  ne→==,
}
use optimist_os.Memory.{mmio_read64}
use optimist_os.Memory.Laws.{mmio_read64-zeros}
use optimist_os.Kernel.{Kernel}
use optimist_os.Paging.Map.Level.{IsTable, slot}
use optimist_os.Paging.Map.Open.{Opens, IsTable-linked}
use optimist_os.Paging.Map.Tables.{Opens-read}
use optimist_os.Paging.Walk.{frame_of}
use optimist_os.Paging.Space.{Layout, Holds, HasLayout, Apart-slots}

-- A function with one value replaced.
abbrev pub put : ℕ → ℕ → (ℕ → ℕ) → ℕ → ℕ
put at value f x = if x == at then value else f x

pub put_self : (at value : ℕ) (f : ℕ → ℕ) (x : ℕ) → x ≡ at → put at value f x ≡ value
put_self at value f x e = rw (eq→== x at e) refl

pub put-ne : (at value : ℕ) (f : ℕ → ℕ) (x : ℕ) → x ≢ at → put at value f x ≡ f x
put-ne at value f x ne = rw (ne→== x at ne) refl

-- One step that links a new table in the slot `index` of the frame `table`.
module _ {offset limit table index tag : ℕ} {l : Layout} {s t : Kernel}
    (h : HasLayout offset limit l s) (from : Holds offset l s table tag) (small : index < 512)
    (o : Opens offset limit (slot offset table index) s t) where
  unfoldable pub new_frame : ℕ
  new_frame = s.head - offset

  pub new_frame_lem :
      (new_frame % 2 ^ 12 ≡ 0)
      × (new_frame ≢ 0)
      × (new_frame + offset ≡ s.head)
      × (new_frame + 2 ^ 12 + offset ≡ t.head)
  unfolding new_frame
  new_frame_lem = (
    h.ready.aligned,
    λ e. omega (arith, h.ready.first),
    omega (arith, h.ready.first),
    omega (arith, h.ready.first, o.head),
  )

  pub new_entry : IsTable (new_frame + 7) × (frame_of (new_frame + 7) ≡ new_frame)
  unfolding new_frame
  new_entry =
      IsTable-linked (s.head - offset) h.ready.aligned (λ e. omega (arith, h.ready.first))
        (omega (arith, o.ready.low, o.ready.bump.reach, o.head, h.ready.first))

  -- The tables there are keep their words, but for the one slot.
  pub read_kept :
      (frame i : ℕ) {tag' : ℕ}
      → Holds offset l s frame tag'
      → i < 512
      → (table ≢ frame) ⊎ (index ≢ i)
      → mmio_read64 t.mem (slot offset frame i) ≡ mmio_read64 s.mem (slot offset frame i)
  read_kept frame i {tag'} f hi apart =
      let slots = Apart-slots offset table frame index i from.aligned f.aligned small hi apart in
      Opens-read (slot offset frame i) o (λ x lo hx. (omega (arith, slots), omega (arith, f.below)))

  pub apart_tags : (frame tag' : ℕ) → Holds offset l s frame tag' → tag ≢ tag' → table ≢ frame
  apart_tags frame tag' f ne e = ne (sym from.owned ∙ ap l.owner e ∙ f.owned)

  pub new_zero : (i : ℕ) → i < 512 → mmio_read64 t.mem (slot offset new_frame i) ≡ 0
  new_zero i hi =
      mmio_read64-zeros t.mem (slot offset new_frame i)
        (λ x lo hx. o.zero x (omega (arith, new_frame_lem)) (omega (arith, new_frame_lem)))

  pub Holds-kept :
      (l' : Layout) (new_tag frame tag' : ℕ)
      → ((x : ℕ) → l'.owner x ≡ put new_frame new_tag l.owner x)
      → Holds offset l s frame tag'
      → Holds offset l' t frame tag'
  Holds-kept l' new_tag frame tag' own f = record {
    aligned = f.aligned;
    below = omega (arith, f.below, o.head);
    owned =
        own frame
        ∙ put-ne new_frame new_tag l.owner frame (λ e. omega (arith, f.below, new_frame_lem))
        ∙ f.owned;
  }

  pub Holds-new :
      (l' : Layout) (new_tag : ℕ)
      → ((x : ℕ) → l'.owner x ≡ put new_frame new_tag l.owner x)
      → Holds offset l' t new_frame new_tag
  Holds-new l' new_tag own = record {
    aligned = new_frame_lem.0;
    below = omega (arith, new_frame_lem);
    owned = own new_frame ∙ put_self new_frame new_tag l.owner new_frame refl;
  }
