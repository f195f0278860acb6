-- ===== src/Paging/Map/Link.antt =====
-- What `getNextLevelPointer` of kernel/paging/paging.cpp writes to an empty entry.
use optimist_os.Common.{
  ℕ, ◌+◌, ◌-◌, ◌*◌, ◌/◌, ◌%◌, ◌^◌, ◌<◌, ◌≡◌, ◌∙◌, ap, ap₂, arith, bit_or, bit_and, true,
}
use optimist_os.Common.Bits.{bit_or_split, bit_or-zero, zero-bit_or, zero-bit_and}
use optimist_os.Memory.{Memory, mmio_read64, mmio_write64}
use optimist_os.Memory.Laws.{Outside, mmio_write64-Outside, mmio_read64-mmio_write64}
use optimist_os.Paging.Entry.{
  present, read_write, user_or_superuser, address_mask, set_flag, set_address,
}
use optimist_os.Paging.Entry.Laws.{IsWord, set_flag-true, bit_and-address_mask}

-- A flag below the address is added to it.
flagged : (a b f : ℕ) → a % 2 ^ 12 ≡ 0 → b < 2 ^ 12 → f < 2 ^ 12 → bit_or (a + b) f ≡ a + bit_or b f
flagged a b f al hb hf =
    let left : a + b ≡ a / 2 ^ 12 * 2 ^ 12 + b = omega arith in
    let right : f ≡ 0 * 2 ^ 12 + f = omega arith in
    ap₂ bit_or left right
    ∙ bit_or_split 12 (a / 2 ^ 12) b 0 f hb hf
    ∙ rw (bit_or-zero (a / 2 ^ 12)) (omega arith)

-- What `getNextLevelPointer` makes of an empty entry, in its four steps.
pub link_entry :
    (frame : ℕ)
    → frame % 2 ^ 12 ≡ 0
    → frame < 2 ^ 52
    → (set_address 0 frame ≡ frame)
      × (set_flag frame read_write true ≡ frame + 2)
      × (set_flag (frame + 2) user_or_superuser true ≡ frame + 6)
      × (set_flag (frame + 6) present true ≡ frame + 7)
link_entry frame al lt = (
  unfold set_address in
      rw (zero-bit_and (2 ^ 64 - 1 - address_mask), zero-bit_or (bit_and frame address_mask))
        (omega (arith, bit_and-address_mask frame (omega arith))),
  set_flag-true frame read_write (omega arith) (omega arith)
      ∙ ap (λ (x : ℕ). bit_or x 2) (zero frame)
      ∙ flagged frame 0 2 al (omega arith) (omega arith),
  set_flag-true (frame + 2) user_or_superuser (omega arith) (omega arith)
      ∙ flagged frame 2 4 al (omega arith) (omega arith),
  set_flag-true (frame + 6) present (omega arith) (omega arith)
      ∙ flagged frame 6 1 al (omega arith) (omega arith),
)
  where
    zero : (x : ℕ) → x ≡ x + 0
    zero x = omega arith

-- A method that changes the entry at `at`.
unfoldable pub updated : Memory → ℕ → (ℕ → ℕ) → Memory
updated m at f = mmio_write64 m (at + 0) (f (mmio_read64 m (at + 0)))

updated-at :
    (m : Memory) (at : ℕ) (f : ℕ → ℕ) (old new : ℕ)
    → mmio_read64 m (at + 0) ≡ old
    → f old ≡ new
    → IsWord new
    → mmio_read64 (updated m at f) (at + 0) ≡ new
unfolding updated
updated-at m at f old new read made w =
    mmio_read64-mmio_write64 m (at + 0) (f (mmio_read64 m (at + 0))) ∙ rw (read, made) (omega arith)

updated-Outside :
    (m : Memory) (at : ℕ) (f : ℕ → ℕ) (x : ℕ) → Outside at 8 x → updated m at f x ≡ m x
unfolding updated
updated-Outside m at f x out =
    mmio_write64-Outside m (at + 0) (f (mmio_read64 m (at + 0))) x (omega arith)

-- The memory behind the four steps.
unfoldable pub linked : Memory → ℕ → ℕ → Memory
linked m at frame =
    let m1 = updated m at (λ v. set_address v frame) in
    let m2 = updated m1 at (λ v. set_flag v read_write true) in
    let m3 = updated m2 at (λ v. set_flag v user_or_superuser true) in
    updated m3 at (λ v. set_flag v present true)

pub linked-at :
    (m : Memory) (at frame : ℕ)
    → mmio_read64 m (at + 0) ≡ 0
    → frame % 2 ^ 12 ≡ 0
    → frame < 2 ^ 52
    → mmio_read64 (linked m at frame) (at + 0) ≡ frame + 7
unfolding linked
linked-at m at frame empty al lt =
    let (a, b, c, d) = link_entry frame al lt in
    let m1 = updated m at (λ v. set_address v frame) in
    let m2 = updated m1 at (λ v. set_flag v read_write true) in
    let m3 = updated m2 at (λ v. set_flag v user_or_superuser true) in
    let r1 = updated-at m at (λ v. set_address v frame) 0 frame empty a (omega arith) in
    let r2 =
      updated-at m1 at (λ v. set_flag v read_write true) frame (frame + 2) r1 b (omega arith) in
    let r3 =
      updated-at m2 at (λ v. set_flag v user_or_superuser true) (frame + 2) (frame + 6) r2 c
        (omega arith) in
    updated-at m3 at (λ v. set_flag v present true) (frame + 6) (frame + 7) r3 d (omega arith)

pub linked-Outside : (m : Memory) (at frame x : ℕ) → Outside at 8 x → linked m at frame x ≡ m x
unfolding linked
linked-Outside m at frame x out =
    let m1 = updated m at (λ v. set_address v frame) in
    let m2 = updated m1 at (λ v. set_flag v read_write true) in
    let m3 = updated m2 at (λ v. set_flag v user_or_superuser true) in
    updated-Outside m3 at (λ v. set_flag v present true) x out
    ∙ updated-Outside m2 at (λ v. set_flag v user_or_superuser true) x out
    ∙ updated-Outside m1 at (λ v. set_flag v read_write true) x out
    ∙ updated-Outside m at (λ v. set_address v frame) x out
