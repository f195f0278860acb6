-- ===== src/Checks/Screens.antt =====
-- kernel/renderer/BasicRenderer.cpp on a screen of 640 times 480 pixels.
use optimist_os.Common.{
  ℕ, ◌+◌, ◌-◌, ◌*◌, ◌/◌, ◌==◌, ◌%◌, ◌^◌, ◌<◌, ◌≡◌, arith, true, false, replicate, if◌then◌else◌,
}
use optimist_os.Memory.{Memory, mmio_read32}
use optimist_os.Boot.Info.{Framebuffer}
use optimist_os.Print.{codes}
use optimist_os.Renderer.{
  BasicRenderer, basic_renderer, pixel_address, glyph_address, put_char, print, clear,
}
use optimist_os.Renderer.Row.{IsBeside}
use optimist_os.Renderer.Glyph.{put_char-pixel}
use optimist_os.Renderer.Screen.{clear_lem}
use optimist_os.Renderer.Text.{IsInside, IsOffScreen, print-IsInside, print_newlines}

abbrev screen : Framebuffer
screen = record {
  base_address = 0x1000000;
  buffer_size = 0x12c000;
  width = 640;
  height = 480;
  pixels_per_scan_line = 640;
}

abbrev renderer : BasicRenderer
renderer = basic_renderer screen (record { charsize = 16; glyph_buffer = 0x2000 })

abbrev stripes : Memory
stripes x = 0b10101010

put_char-pixel_example :
    mmio_read32 (put_char renderer b'A' 16 32 stripes) (pixel_address screen (16 + 3) (32 + 5)) ≡ (
      if stripes (glyph_address renderer.psf1_font b'A' + 5) / 2 ^ (7 - 3) % 2 == 1
      then 0xffffffff % 2 ^ 32
      else mmio_read32 stripes (pixel_address screen (16 + 3) (32 + 5)))
put_char-pixel_example =
    put_char-pixel renderer b'A' 16 32 stripes (omega arith)
      (record {
        narrow = omega arith;
        inside = omega arith;
        top = omega arith;
        glyph = unfold glyph_address in omega arith;
        apart = λ i lt j lo hi k kl kh. unfold glyph_address in omega arith;
      })
      5 3 (omega arith) (omega arith)

clear_lem_example :
    ((x y : ℕ)
      → x < 640
      → y < 480
      → mmio_read32 (clear 0xff000030 true (renderer, stripes)).1 (pixel_address screen x y)
        ≡ 0xff000030 % 2 ^ 32)
    × ((a : ℕ)
        → ((y : ℕ) → y < 480 → IsBeside screen a y 640 0)
        → (clear 0xff000030 true (renderer, stripes)).1 a ≡ stripes a)
    × ((clear 0xff000030 true (renderer, stripes)).0.cursor_position ≡ record { x = 0; y = 0 })
    × ((clear 0xff000030 false (renderer, stripes)).0 ≡ renderer)
clear_lem_example =
    clear_lem 0xff000030 true renderer stripes (record { inside = omega arith; top = omega arith })

renderer-IsInside : IsInside renderer
renderer-IsInside = record { cursor = omega arith; line = omega arith; width = omega arith }

print-IsInside_example :
    IsInside (print (codes "OptimistOS") (renderer, stripes)).0
    × ((print (codes "OptimistOS") (renderer, stripes)).0.framebuffer ≡ screen)
    × ((a : ℕ)
        → IsOffScreen screen a
        → (print (codes "OptimistOS") (renderer, stripes)).1 a ≡ stripes a)
print-IsInside_example = print-IsInside (codes "OptimistOS") renderer stripes renderer-IsInside

print_newlines_example :
    ((print (replicate 40 b'\n') (renderer, stripes)).0.cursor_position.y ≡ 0 + 16 * 40)
    × ((print (replicate 40 b'\n') (renderer, stripes)).1 ≡ stripes)
print_newlines_example = print_newlines 40 renderer stripes renderer-IsInside (omega arith)

abbrev minus_forty_two : ℕ
minus_forty_two = 2 ^ 32 - 42
