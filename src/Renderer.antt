-- ===== src/Renderer.antt =====
-- kernel/renderer/BasicRenderer.hpp and BasicRenderer.cpp: text on the frame buffer. The frame buffer and
-- the font are read through pointers that never change, so they stand as the structs they point to; the
-- glyphs and the pixels are in the memory.
pub mod Lit
pub mod Row
pub mod Glyph
pub mod Screen
pub mod Text
pub mod Number
use optimist_os.Common.{
  ℕ, zero, suc, ◌+◌, ◌-◌, ◌*◌, ◌/◌, ◌^◌, bit_and, Bool, true, false, Option, none, some, List, [],
  ◌∷◌, ltb, ◌==◌, if◌then◌else◌, u32, u64, sub32,
}
use optimist_os.Memory.{Memory, mmio_write32}
use optimist_os.Boot.Info.{Framebuffer}
use optimist_os.Print.{dec_digit, fill}

pub record Point : Type 0 where
  pub x : ℕ
  pub y : ℕ

-- `PSF1_FONT`, with the `charsize` of its header.
pub record Psf1Font : Type 0 where
  pub charsize : ℕ
  pub glyph_buffer : ℕ

pub record BasicRenderer : Type 0 where
  pub cursor_position : Point
  pub framebuffer : Framebuffer
  pub psf1_font : Psf1Font
  pub color : ℕ
  pub overwrite : Bool

-- The constructor.
abbrev pub basic_renderer : Framebuffer → Psf1Font → BasicRenderer
basic_renderer framebuffer psf1_font = record {
  cursor_position = record { x = 0; y = 0 };
  framebuffer = framebuffer;
  psf1_font = psf1_font;
  color = 0xffffffff;
  overwrite = false;
}

-- `pixPtr + x + (y * framebuffer->PixelsPerScanLine)`
abbrev pub pixel_address : Framebuffer → ℕ → ℕ → ℕ
pixel_address framebuffer x y =
    u64 (framebuffer.base_address + 4 * (x + y * framebuffer.pixels_per_scan_line))

-- `(*fontPtr & (0b10000000 >> column)) > 0`
unfoldable pub is_lit : ℕ → ℕ → Bool
is_lit row column = ltb 0 (bit_and row (0b10000000 / 2 ^ column))

-- The start of the glyph. A `char` is signed: from 128 on, the glyph is in front of the buffer.
unfoldable pub glyph_address : Psf1Font → ℕ → ℕ
glyph_address font chr =
    if ltb chr 128
    then u64 (font.glyph_buffer + chr * font.charsize)
    else u64 (font.glyph_buffer + 2 ^ 64 - (256 - chr) * font.charsize)

-- The inner loop of `PutChar` from column `x` on, with the rounds that are left.
unfoldable pub put_row : BasicRenderer → ℕ → ℕ → ℕ → ℕ → ℕ → Memory → Memory
put_row r font_ptr x_off y zero x m = m
put_row r font_ptr x_off y (suc left) x m = put_row r font_ptr x_off y left (x + 1) (
    if is_lit (m font_ptr) (x - x_off)
    then mmio_write32 m (pixel_address r.framebuffer x y) r.color
    else m)

-- The outer loop. The bound `xOff + 8` is an `unsigned int`, so it wraps.
unfoldable pub put_rows : BasicRenderer → ℕ → ℕ → ℕ → ℕ → Memory → Memory
put_rows r x_off zero y font_ptr m = m
put_rows r x_off (suc left) y font_ptr m =
    put_rows r x_off left (y + 1) (u64 (font_ptr + 1))
      (put_row r font_ptr x_off y (u32 (x_off + 8) - x_off) x_off m)

unfoldable pub put_char : BasicRenderer → ℕ → ℕ → ℕ → Memory → Memory
put_char r chr x_off y_off m =
    put_rows r x_off (u32 (y_off + 16) - y_off) y_off (glyph_address r.psf1_font chr) m

-- `CursorPosition.X += 8`
abbrev pub advance : BasicRenderer → BasicRenderer
advance r = record r {
  cursor_position = record { x = u32 (r.cursor_position.x + 8); y = r.cursor_position.y };
}

-- `CursorPosition.X = 0; CursorPosition.Y += 16`
abbrev pub new_line : BasicRenderer → BasicRenderer
new_line r = record r { cursor_position = record { x = 0; y = u32 (r.cursor_position.y + 16) } }

-- `PutChar` at the cursor, and the step behind it.
abbrev pub put_at_cursor : ℕ → BasicRenderer × Memory → BasicRenderer × Memory
put_at_cursor chr (r, m) = (advance r, put_char r chr r.cursor_position.x r.cursor_position.y m)

-- The `switch`.
unfoldable pub print_char : ℕ → BasicRenderer × Memory → BasicRenderer × Memory
print_char chr (r, m) =
    if chr == b'\n'
    then (new_line r, m)
    else if chr == b'\t'
    then (advance r, m)
    else put_at_cursor chr (r, m)

-- The test behind the `switch`.
unfoldable pub wrap_line : BasicRenderer → BasicRenderer
wrap_line r = if ltb r.framebuffer.width (u32 (r.cursor_position.x + 8)) then new_line r else r

-- A text stands without its final `\0`.
unfoldable pub print : List ℕ → BasicRenderer × Memory → BasicRenderer × Memory
print [] s = s
print (chr ∷ str) s = let (r, m) = print_char chr s in print str (wrap_line r, m)

-- `for (int i = bufferIndex - 1; i >= 0; --i)`: the buffer as the list from its last digit to its first.
unfoldable pub put_all : List ℕ → BasicRenderer × Memory → BasicRenderer × Memory
put_all [] s = s
put_all (chr ∷ buffer) s = put_all buffer (put_at_cursor chr s)

-- The test `num < 0` on the bits of an `int`.
abbrev pub is_negative : ℕ → Bool
is_negative num = if ltb num (2 ^ 31) then false else true

-- The digits of a number that is not 0; a negative one has none. `none` is a write behind the buffer.
unfoldable pub extract_digits : ℕ → Option (List ℕ)
extract_digits num = if is_negative num then some [] else fill dec_digit 10 21 num []

-- The initial value of the global `LONG_MIN`, an `unsigned long long int` that nothing writes.
abbrev pub long_min : ℕ
long_min = 2 ^ 63

-- A negative `int` in a comparison with an `unsigned long long int`.
abbrev pub sign_extend : ℕ → ℕ
sign_extend num = num + 2 ^ 64 - 2 ^ 32

-- `num < 0`: the sign, the test for `LONG_MIN`, and `num = -num`.
unfoldable pub put_sign : ℕ → BasicRenderer × Memory → ℕ × (BasicRenderer × Memory)
put_sign num s =
    let signed = put_at_cursor b'-' s in
    if sign_extend num == long_min
    then (sub32 0 ((2 ^ 32 - num) / 10), put_at_cursor b'8' signed)
    else (sub32 0 num, signed)

-- The loop that fills the buffer, and the one that prints it.
unfoldable pub put_digits : ℕ → BasicRenderer × Memory → Option (BasicRenderer × Memory)
put_digits num s = elim (extract_digits num) [ none ↦ none | some buffer ↦ some (put_all buffer s) ]

-- `PrintInt` on the 32 bits of `num`; negation wraps.
unfoldable pub print_int : ℕ → BasicRenderer × Memory → Option (BasicRenderer × Memory)
print_int num s =
    if num == 0
    then some (put_at_cursor b'0' s)
    else if is_negative num
    then (let (n, signed) = put_sign num s in put_digits n signed)
    else put_digits num s

-- The loops of `Clear`.
unfoldable pub clear_row : Framebuffer → ℕ → ℕ → ℕ → ℕ → Memory → Memory
clear_row framebuffer color y zero x m = m
clear_row framebuffer color y (suc left) x m =
    clear_row framebuffer color y left (x + 1)
      (mmio_write32 m (pixel_address framebuffer x y) color)

unfoldable pub clear_rows : Framebuffer → ℕ → ℕ → ℕ → Memory → Memory
clear_rows framebuffer color zero y m = m
clear_rows framebuffer color (suc left) y m =
    clear_rows framebuffer color left (y + 1) (clear_row framebuffer color y framebuffer.width 0 m)

unfoldable pub clear : ℕ → Bool → BasicRenderer × Memory → BasicRenderer × Memory
clear color reset_cursor (r, m) =
    let m' = clear_rows r.framebuffer color r.framebuffer.height 0 m in
    if reset_cursor then (record r { cursor_position = record { x = 0; y = 0 } }, m') else (r, m')
