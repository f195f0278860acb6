-- ===== src/Renderer/Row.antt =====
-- One line of a glyph, the inner loop of `PutChar` of kernel/renderer/BasicRenderer.cpp.
use optimist_os.Common.{
  ℕ, zero, suc, ◌+◌, ◌-◌, ◌*◌, ◌%◌, ◌^◌, ◌≤◌, ◌<◌, ◌≡◌, ◌∙◌, refl, arith, Bool, if◌then◌else◌,
  mod-eq_of_lt, ℕ_discrete,
}
use optimist_os.Memory.{Memory, mmio_read32, mmio_write32}
use optimist_os.Memory.Laws.{
  Outside, Apart, mmio_write32-Outside, mmio_read32-mmio_write32, mmio_read32-mmio_write32-Apart,
  mmio_read32_frame,
}
use optimist_os.Boot.Info.{Framebuffer}
use optimist_os.Renderer.{BasicRenderer, pixel_address, is_lit, put_row}

-- The byte `a` belongs to no pixel of the columns from `x` to `x + n` of the line `y`.
abbrev pub IsBeside : Framebuffer → ℕ → ℕ → ℕ → ℕ → Type 0
IsBeside framebuffer a y n x =
    (k : ℕ) → x ≤ k → k < x + n → Outside (pixel_address framebuffer k y) 4 a

pub paint-Outside :
    (m : Memory) (b : Bool) (p v a : ℕ)
    → Outside p 4 a
    → (if b then mmio_write32 m p v else m) a ≡ m a
paint-Outside m b p v a h = ground (arith, mmio_write32-Outside m p v a h)

paint-pixel :
    (m : Memory) (b : Bool) (p v : ℕ)
    → mmio_read32 (if b then mmio_write32 m p v else m) p
      ≡ (if b then v % 2 ^ 32 else mmio_read32 m p)
paint-pixel m b p v = ground (arith, mmio_read32-mmio_write32 m p v)

paint-Apart :
    (m : Memory) (b : Bool) (p v q : ℕ)
    → Apart p 4 q 4
    → mmio_read32 (if b then mmio_write32 m p v else m) q ≡ mmio_read32 m q
paint-Apart m b p v q h = ground (arith, mmio_read32-mmio_write32-Apart m p v q h)

pub put_row-IsBeside :
    (r : BasicRenderer) (font_ptr x_off y left x : ℕ) (m : Memory) (a : ℕ)
    → IsBeside r.framebuffer a y left x
    → put_row r font_ptr x_off y left x m a ≡ m a
unfolding put_row
put_row-IsBeside r font_ptr x_off y zero x m a h = refl
put_row-IsBeside r font_ptr x_off y (suc left) x m a h =
    put_row-IsBeside r font_ptr x_off y left (x + 1) _ a
      (λ k lo hi. h k (omega arith) (omega arith))
    ∙ paint-Outside m (is_lit (m font_ptr) (x - x_off)) (pixel_address r.framebuffer x y) r.color a
        (h x (omega arith) (omega arith))

-- The line lies below the top of the address space.
abbrev pub IsLine : Framebuffer → ℕ → ℕ → Type 0
IsLine framebuffer y x =
    framebuffer.base_address + 4 * (x + y * framebuffer.pixels_per_scan_line) ≤ 2 ^ 64

pub pixel_address-IsLine :
    (f : Framebuffer) (y x k : ℕ)
    → IsLine f y x
    → k < x
    → pixel_address f k y ≡ f.base_address + 4 * (k + y * f.pixels_per_scan_line)
pixel_address-IsLine f y x k line lt = mod-eq_of_lt (omega arith)

pub put_row-IsBeside_word :
    (r : BasicRenderer) (font_ptr x_off y left x : ℕ) (m : Memory) (p : ℕ)
    → ((k : ℕ) → x ≤ k → k < x + left → Apart (pixel_address r.framebuffer k y) 4 p 4)
    → mmio_read32 (put_row r font_ptr x_off y left x m) p ≡ mmio_read32 m p
put_row-IsBeside_word r font_ptr x_off y left x m p h =
    mmio_read32_frame m _ p
      (put_row-IsBeside r font_ptr x_off y left x m p (λ k lo hi. omega (arith, h k lo hi)))
      (put_row-IsBeside r font_ptr x_off y left x m (p + 1) (λ k lo hi. omega (arith, h k lo hi)))
      (put_row-IsBeside r font_ptr x_off y left x m (p + 2) (λ k lo hi. omega (arith, h k lo hi)))
      (put_row-IsBeside r font_ptr x_off y left x m (p + 3) (λ k lo hi. omega (arith, h k lo hi)))

-- Each pixel of the line has the color where its bit of the glyph's byte is set, and is as it was elsewhere.
pub put_row-pixel :
    (r : BasicRenderer) (font_ptr x_off y left x : ℕ) (m : Memory)
    → IsLine r.framebuffer y (x + left)
    → IsBeside r.framebuffer font_ptr y left x
    → (k : ℕ) → x ≤ k
    → k < x + left
    → mmio_read32 (put_row r font_ptr x_off y left x m) (pixel_address r.framebuffer k y) ≡ (
        if is_lit (m font_ptr) (k - x_off)
        then r.color % 2 ^ 32
        else mmio_read32 m (pixel_address r.framebuffer k y))
unfolding put_row
put_row-pixel r font_ptr x_off y zero x m line free k lo hi = absurd (omega arith)
put_row-pixel r font_ptr x_off y (suc left) x m line free k lo hi =
    let at : (j : ℕ)
        → j < x + suc left
        → pixel_address r.framebuffer j y
          ≡ r.framebuffer.base_address + 4 * (j + y * r.framebuffer.pixels_per_scan_line) =
      λ j lt. pixel_address-IsLine r.framebuffer y (x + suc left) j line lt in
    let lit : Bool = is_lit (m font_ptr) (x - x_off) in
    let p : ℕ = pixel_address r.framebuffer x y in
    elim (ℕ_discrete k x) [
      | yes e ↦ rw e (
          put_row-IsBeside_word r font_ptr x_off y left (x + 1) _ p
            (λ j l h. omega (arith, at j (omega arith), at x (omega arith)))
          ∙ paint-pixel m lit p r.color)
      | no ne ↦
          put_row-pixel r font_ptr x_off y left (x + 1) _ (omega arith)
            (λ j l h. free j (omega arith) (omega arith)) k (omega arith) (omega arith)
          ∙ rw
              (
                paint-Outside m lit p r.color font_ptr (free x (omega arith) (omega arith)),
                paint-Apart m lit p r.color (pixel_address r.framebuffer k y)
                    (omega (arith, at k (omega arith), at x (omega arith))),
              )
              refl
    ]
