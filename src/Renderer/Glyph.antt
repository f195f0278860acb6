-- ===== src/Renderer/Glyph.antt =====
-- A whole glyph, `PutChar` of kernel/renderer/BasicRenderer.cpp.
use native.Mathlib.Nat.{mul-le-mul_right}
use optimist_os.Common.{
  ℕ, zero, suc, ◌+◌, ◌-◌, ◌*◌, ◌%◌, ◌^◌, ◌≤◌, ◌<◌, ◌≡◌, ◌∙◌, inl, refl, arith, if◌then◌else◌, u32,
  u64, mod-eq_of_lt, ℕ_discrete, ◌/◌, ◌==◌,
}
use optimist_os.Memory.{Memory, mmio_read32}
use optimist_os.Memory.Laws.{mmio_read32_frame}
use optimist_os.Boot.Info.{Framebuffer}
use optimist_os.Renderer.{
  BasicRenderer, pixel_address, is_lit, glyph_address, put_row, put_rows, put_char,
}
use optimist_os.Renderer.Lit.{is_lit_lem}
use optimist_os.Renderer.Row.{
  IsBeside, IsLine, pixel_address-IsLine, put_row-IsBeside, put_row-IsBeside_word, put_row-pixel,
}

-- The loop over the columns runs eight times, unless its bound wraps.
columns_le : (x_off : ℕ) → x_off < 2 ^ 32 → u32 (x_off + 8) - x_off ≤ 8
columns_le x_off h = omega arith

-- The byte `a` belongs to no pixel of the cell of `left` lines at `x_off`, `y`.
abbrev pub IsBesideCell : Framebuffer → ℕ → ℕ → ℕ → ℕ → Type 0
IsBesideCell framebuffer a x_off left y =
    (j : ℕ) → y ≤ j → j < y + left → IsBeside framebuffer a j 8 x_off

put_rows-IsBesideCell :
    (r : BasicRenderer) (x_off left y font_ptr : ℕ) (m : Memory) (a : ℕ)
    → x_off < 2 ^ 32
    → IsBesideCell r.framebuffer a x_off left y
    → put_rows r x_off left y font_ptr m a ≡ m a
unfolding put_rows
put_rows-IsBesideCell r x_off zero y font_ptr m a lt h = refl
put_rows-IsBesideCell r x_off (suc left) y font_ptr m a lt h =
    put_rows-IsBesideCell r x_off left (y + 1) (u64 (font_ptr + 1)) _ a lt
      (λ j lo hi. h j (omega arith) (omega arith))
    ∙ put_row-IsBeside r font_ptr x_off y (u32 (x_off + 8) - x_off) x_off m a
        (λ k lo hi. h y (omega arith) (omega arith) k lo (omega (arith, columns_le x_off lt)))

-- Whatever the place, `PutChar` changes no byte outside of the pixels of its cell.
pub put_char-IsBesideCell :
    (r : BasicRenderer) (chr x_off y_off : ℕ) (m : Memory) (a : ℕ)
    → x_off < 2 ^ 32
    → y_off < 2 ^ 32
    → IsBesideCell r.framebuffer a x_off 16 y_off
    → put_char r chr x_off y_off m a ≡ m a
unfolding put_char
put_char-IsBesideCell r chr x_off y_off m a ltx lty h =
    put_rows-IsBesideCell r x_off (u32 (y_off + 16) - y_off) y_off _ m a ltx
      (λ j lo hi. h j lo (omega arith))

-- The cell of `left` lines lies within the lines of the frame buffer and below the top of the address
-- space, and the font is not in it.
pub record IsCell (r : BasicRenderer) (x_off left y font_ptr : ℕ) : Type 0 where
  pub narrow : x_off + 8 < 2 ^ 32
  pub inside : x_off + 8 ≤ r.framebuffer.pixels_per_scan_line
  pub top :
      r.framebuffer.base_address + 4 * ((y + left) * r.framebuffer.pixels_per_scan_line) ≤ 2 ^ 64
  pub glyph : font_ptr + left ≤ 2 ^ 64
  pub apart : (i : ℕ) → i < left → IsBesideCell r.framebuffer (font_ptr + i) x_off left y

module _ {r : BasicRenderer} {x_off left y font_ptr : ℕ} (v : IsCell r x_off left y font_ptr) where
  IsCell-IsLine : (j : ℕ) → j < y + left → IsLine r.framebuffer j (x_off + 8)
  IsCell-IsLine j lt =
      let p : ℕ = r.framebuffer.pixels_per_scan_line in
      omega (arith, v.top, v.inside, mul-le-mul_right {m = j + 1} {n = y + left} p (omega arith))

  -- A pixel of the cell stands before those of the lines below.
  IsCell-below :
      (j j' k k' : ℕ)
      → j < j'
      → j' < y + left
      → k < x_off + 8
      → k' < x_off + 8
      → pixel_address r.framebuffer k j + 4 ≤ pixel_address r.framebuffer k' j'
  IsCell-below j j' k k' lt hi kh kh' =
      let p : ℕ = r.framebuffer.pixels_per_scan_line in
      omega (
        arith,
        v.inside,
        mul-le-mul_right {m = j + 1} {n = j'} p (omega arith),
        pixel_address-IsLine r.framebuffer j (x_off + 8) k (IsCell-IsLine j (omega arith)) kh,
        pixel_address-IsLine r.framebuffer j' (x_off + 8) k' (IsCell-IsLine j' hi) kh',
      )

IsCell-next :
    {r : BasicRenderer} {x_off left y font_ptr : ℕ}
    → IsCell r x_off (suc left) y font_ptr
    → 0 < left
    → (u64 (font_ptr + 1) ≡ font_ptr + 1) × IsCell r x_off left (y + 1) (font_ptr + 1)
IsCell-next {r} {x_off} {left} {y} {font_ptr} v pos = (
  mod-eq_of_lt (omega (arith, v.glyph)),
  record {
    narrow = v.narrow;
    inside = v.inside;
    top = omega (arith, v.top);
    glyph = omega (arith, v.glyph);
    apart = λ i lt j lo hi k kl kh.
        let e : font_ptr + 1 + i ≡ font_ptr + (i + 1) = omega arith in
        rw e (v.apart (i + 1) (omega arith) j (omega arith) (omega arith) k kl kh);
  },
)

put_rows-word :
    (r : BasicRenderer) (x_off left y font_ptr : ℕ) (m : Memory) (p : ℕ)
    → x_off < 2 ^ 32
    → ((j k : ℕ)
        → y ≤ j
        → j < y + left
        → x_off ≤ k
        → k < x_off + 8
        → p + 4 ≤ pixel_address r.framebuffer k j)
    → mmio_read32 (put_rows r x_off left y font_ptr m) p ≡ mmio_read32 m p
put_rows-word r x_off left y font_ptr m p lt h =
    mmio_read32_frame m _ p
      (put_rows-IsBesideCell r x_off left y font_ptr m p lt
        (λ j lo hi k kl kh. omega (arith, h j k lo hi kl kh)))
      (put_rows-IsBesideCell r x_off left y font_ptr m (p + 1) lt
        (λ j lo hi k kl kh. omega (arith, h j k lo hi kl kh)))
      (put_rows-IsBesideCell r x_off left y font_ptr m (p + 2) lt
        (λ j lo hi k kl kh. omega (arith, h j k lo hi kl kh)))
      (put_rows-IsBesideCell r x_off left y font_ptr m (p + 3) lt
        (λ j lo hi k kl kh. omega (arith, h j k lo hi kl kh)))

columns : (x_off : ℕ) → x_off + 8 < 2 ^ 32 → u32 (x_off + 8) - x_off ≡ 8
columns x_off h = omega arith

put_rows-pixel :
    (r : BasicRenderer) (x_off left y font_ptr : ℕ) (m : Memory)
    → IsCell r x_off left y font_ptr
    → (j k : ℕ) → y ≤ j
    → j < y + left
    → x_off ≤ k
    → k < x_off + 8
    → mmio_read32 (put_rows r x_off left y font_ptr m) (pixel_address r.framebuffer k j) ≡ (
        if is_lit (m (font_ptr + (j - y))) (k - x_off)
        then r.color % 2 ^ 32
        else mmio_read32 m (pixel_address r.framebuffer k j))
unfolding put_rows
put_rows-pixel r x_off zero y font_ptr m v j k lo hi kl kh = absurd (omega arith)
put_rows-pixel r x_off (suc left) y font_ptr m v j k lo hi kl kh =
    let p : ℕ = pixel_address r.framebuffer k j in
    let m' : Memory = put_row r font_ptr x_off y 8 x_off m in
    rw (columns x_off v.narrow) (elim (ℕ_discrete j y) [
      | yes e ↦
          let first : font_ptr + (j - y) ≡ font_ptr = omega arith in
          rw (first, e)
            (put_rows-word r x_off left (y + 1) (u64 (font_ptr + 1)) m'
                (pixel_address r.framebuffer k y) (omega (arith, v.narrow))
                (λ i l a b c d. IsCell-below v y i k l (omega arith) (omega arith) kh d)
              ∙ put_row-pixel r font_ptr x_off y 8 x_off m (IsCell-IsLine v y (omega arith))
                  (λ c l h.
                    omega (arith, v.apart 0 (omega arith) y (omega arith) (omega arith) c l h))
                  k kl kh)
      | no ne ↦
          let next = IsCell-next v (omega arith) in
          let row : font_ptr + 1 + (j - (y + 1)) ≡ font_ptr + (j - y) = omega arith in
          rw next.0 (
            put_rows-pixel r x_off left (y + 1) (font_ptr + 1) m' next.1 j k (omega arith)
              (omega arith) kl kh
            ∙ rw
                (
                  row,
                  put_row-IsBeside r font_ptr x_off y 8 x_off m (font_ptr + (j - y))
                      (v.apart (j - y) (omega arith) y (omega arith) (omega arith)),
                  put_row-IsBeside_word r font_ptr x_off y 8 x_off m p
                      (λ c l h. inl (IsCell-below v y j c k (omega arith) hi h kh)),
                )
                refl)
    ])

-- Within the lines of the frame buffer, `PutChar` gives each pixel of the eight columns and sixteen lines of
-- its cell the color where the glyph's bit is set, and leaves the others as they are. The lines must lie
-- below the top of the address space, and the glyph outside of the cell.
pub put_char-pixel :
    (r : BasicRenderer) (chr x_off y_off : ℕ) (m : Memory)
    → y_off + 16 < 2 ^ 32
    → IsCell r x_off 16 y_off (glyph_address r.psf1_font chr)
    → (row column : ℕ) → row < 16
    → column < 8
    → mmio_read32
        (put_char r chr x_off y_off m)
        (pixel_address r.framebuffer (x_off + column) (y_off + row))
      ≡ (if m (glyph_address r.psf1_font chr + row) / 2 ^ (7 - column) % 2 == 1
          then r.color % 2 ^ 32
          else mmio_read32 m (pixel_address r.framebuffer (x_off + column) (y_off + row)))
unfolding put_char
put_char-pixel r chr x_off y_off m low v row column rh ch =
    let rows : u32 (y_off + 16) - y_off ≡ 16 = omega arith in
    let at_row : y_off + row - y_off ≡ row = omega arith in
    let at_column : x_off + column - x_off ≡ column = omega arith in
    let bit =
      put_rows-pixel r x_off 16 y_off (glyph_address r.psf1_font chr) m v (y_off + row)
        (x_off + column) (omega arith) (omega arith) (omega arith) (omega arith) in
    rw rows (
      bit
      ∙ rw (at_row, at_column, is_lit_lem (m (glyph_address r.psf1_font chr + row)) column ch) refl)
