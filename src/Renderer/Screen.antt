-- ===== src/Renderer/Screen.antt =====
-- `Clear` of kernel/renderer/BasicRenderer.cpp.
use native.Mathlib.Nat.{mul-le-mul_right}
use optimist_os.Common.{
  ℕ, zero, suc, ◌+◌, ◌*◌, ◌%◌, ◌^◌, ◌≤◌, ◌<◌, ◌≡◌, ◌∙◌, refl, arith, inr, Bool, true, false,
  ℕ_discrete,
}
use optimist_os.Memory.{Memory, mmio_read32}
use optimist_os.Memory.Laws.{
  Apart, mmio_write32-Outside, mmio_read32-mmio_write32, mmio_read32-mmio_write32-Apart,
}
use optimist_os.Boot.Info.{Framebuffer}
use optimist_os.Renderer.{BasicRenderer, pixel_address, clear_row, clear_rows, clear}
use optimist_os.Renderer.Row.{IsBeside, IsLine, pixel_address-IsLine}

clear_row-IsBeside :
    (f : Framebuffer) (color y left x : ℕ) (m : Memory) (a : ℕ)
    → IsBeside f a y left x
    → clear_row f color y left x m a ≡ m a
unfolding clear_row
clear_row-IsBeside f color y zero x m a h = refl
clear_row-IsBeside f color y (suc left) x m a h =
    clear_row-IsBeside f color y left (x + 1) _ a (λ k lo hi. h k (omega arith) (omega arith))
    ∙ mmio_write32-Outside m (pixel_address f x y) color a (h x (omega arith) (omega arith))

clear_row-word :
    (f : Framebuffer) (color y left x : ℕ) (m : Memory) (p : ℕ)
    → ((k : ℕ) → x ≤ k → k < x + left → Apart (pixel_address f k y) 4 p 4)
    → mmio_read32 (clear_row f color y left x m) p ≡ mmio_read32 m p
unfolding clear_row
clear_row-word f color y zero x m p h = refl
clear_row-word f color y (suc left) x m p h =
    clear_row-word f color y left (x + 1) _ p (λ k lo hi. h k (omega arith) (omega arith))
    ∙ mmio_read32-mmio_write32-Apart m (pixel_address f x y) color p
        (h x (omega arith) (omega arith))

clear_row-pixel :
    (f : Framebuffer) (color y left x : ℕ) (m : Memory)
    → IsLine f y (x + left)
    → (k : ℕ) → x ≤ k
    → k < x + left
    → mmio_read32 (clear_row f color y left x m) (pixel_address f k y) ≡ color % 2 ^ 32
unfolding clear_row
clear_row-pixel f color y zero x m line k lo hi = absurd (omega arith)
clear_row-pixel f color y (suc left) x m line k lo hi = elim (ℕ_discrete k x) [
  | yes e ↦
      let at =
        λ (j : ℕ) (lt : j < x + suc left). pixel_address-IsLine f y (x + suc left) j line lt in
      rw e (
        clear_row-word f color y left (x + 1) _ (pixel_address f x y)
          (λ j l h. omega (arith, at j (omega arith), at x (omega arith)))
        ∙ mmio_read32-mmio_write32 m (pixel_address f x y) color)
  | no ne ↦ clear_row-pixel f color y left (x + 1) _ (omega arith) k (omega arith) (omega arith)
]

-- The pixels of the frame buffer lie one behind the other below the top of the address space.
pub record IsScreen (f : Framebuffer) : Type 0 where
  pub inside : f.width ≤ f.pixels_per_scan_line
  pub top : f.base_address + 4 * (f.height * f.pixels_per_scan_line) ≤ 2 ^ 64

module _ {f : Framebuffer} (v : IsScreen f) where
  IsScreen-IsLine : (j : ℕ) → j < f.height → IsLine f j (0 + f.width)
  IsScreen-IsLine j lt =
      let p : ℕ = f.pixels_per_scan_line in
      omega (arith, v.top, v.inside, mul-le-mul_right {m = j + 1} {n = f.height} p (omega arith))

  IsScreen-below :
      (j j' k k' : ℕ)
      → j < j'
      → j' < f.height
      → k < f.width
      → k' < f.width
      → pixel_address f k j + 4 ≤ pixel_address f k' j'
  IsScreen-below j j' k k' lt hi kh kh' =
      let p : ℕ = f.pixels_per_scan_line in
      omega (
        arith,
        v.inside,
        mul-le-mul_right {m = j + 1} {n = j'} p (omega arith),
        pixel_address-IsLine f j (0 + f.width) k (IsScreen-IsLine j (omega arith)) (omega arith),
        pixel_address-IsLine f j' (0 + f.width) k' (IsScreen-IsLine j' hi) (omega arith),
      )

clear_rows-IsBeside :
    (f : Framebuffer) (color left y : ℕ) (m : Memory) (a : ℕ)
    → ((j : ℕ) → y ≤ j → j < y + left → IsBeside f a j f.width 0)
    → clear_rows f color left y m a ≡ m a
unfolding clear_rows
clear_rows-IsBeside f color zero y m a h = refl
clear_rows-IsBeside f color (suc left) y m a h =
    clear_rows-IsBeside f color left (y + 1) _ a (λ j lo hi. h j (omega arith) (omega arith))
    ∙ clear_row-IsBeside f color y f.width 0 m a (h y (omega arith) (omega arith))

clear_rows-word :
    (f : Framebuffer) (color left y : ℕ) (m : Memory) (p : ℕ)
    → ((j k : ℕ) → y ≤ j → j < y + left → k < f.width → Apart (pixel_address f k j) 4 p 4)
    → mmio_read32 (clear_rows f color left y m) p ≡ mmio_read32 m p
unfolding clear_rows
clear_rows-word f color zero y m p h = refl
clear_rows-word f color (suc left) y m p h =
    clear_rows-word f color left (y + 1) _ p (λ j k lo hi kh. h j k (omega arith) (omega arith) kh)
    ∙ clear_row-word f color y f.width 0 m p
        (λ k lo hi. h y k (omega arith) (omega arith) (omega arith))

clear_rows-pixel :
    (f : Framebuffer) (color left y : ℕ) (m : Memory)
    → IsScreen f
    → y + left ≤ f.height
    → (j k : ℕ) → y ≤ j
    → j < y + left
    → k < f.width
    → mmio_read32 (clear_rows f color left y m) (pixel_address f k j) ≡ color % 2 ^ 32
unfolding clear_rows
clear_rows-pixel f color zero y m v le j k lo hi kh = absurd (omega arith)
clear_rows-pixel f color (suc left) y m v le j k lo hi kh = elim (ℕ_discrete j y) [
  | yes e ↦ rw e (
      clear_rows-word f color left (y + 1) _ (pixel_address f k y)
        (λ i c l h ch. inr (IsScreen-below v y i k c (omega arith) (omega arith) kh ch))
      ∙ clear_row-pixel f color y f.width 0 m (IsScreen-IsLine v y (omega arith)) k (omega arith)
          (omega arith))
  | no ne ↦
      clear_rows-pixel f color left (y + 1) _ v (omega arith) j k (omega arith) (omega arith) kh
]

clear_memory :
    (color : ℕ) (reset_cursor : Bool) (r : BasicRenderer) (m : Memory)
    → (clear color reset_cursor (r, m)).1 ≡ clear_rows r.framebuffer color r.framebuffer.height 0 m
unfolding clear
clear_memory color true r m = refl
clear_memory color false r m = refl

-- When the lines are at least as long as the screen is wide and all lie below the top of the address space,
-- `Clear` gives every visible pixel the color, changes no other byte of the memory, and moves the cursor to
-- the start only on request.
pub clear_lem :
    (color : ℕ) (reset_cursor : Bool) (r : BasicRenderer) (m : Memory)
    → IsScreen r.framebuffer
    → ((x y : ℕ)
        → x < r.framebuffer.width
        → y < r.framebuffer.height
        → mmio_read32 (clear color reset_cursor (r, m)).1 (pixel_address r.framebuffer x y)
          ≡ color % 2 ^ 32)
      × ((a : ℕ)
          → ((y : ℕ) → y < r.framebuffer.height → IsBeside r.framebuffer a y r.framebuffer.width 0)
          → (clear color reset_cursor (r, m)).1 a ≡ m a)
      × ((clear color true (r, m)).0.cursor_position ≡ record { x = 0; y = 0 })
      × ((clear color false (r, m)).0 ≡ r)
clear_lem color reset_cursor r m v = (
  λ x y xh yh. rw (clear_memory color reset_cursor r m) (
      clear_rows-pixel r.framebuffer color r.framebuffer.height 0 m v (omega arith) y x
        (omega arith) (omega arith) xh),
  λ a h. rw (clear_memory color reset_cursor r m) (
      clear_rows-IsBeside r.framebuffer color r.framebuffer.height 0 m a
        (λ j lo hi. h j (omega arith))),
  unfold clear in refl,
  unfold clear in refl,
)
