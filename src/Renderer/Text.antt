-- ===== src/Renderer/Text.antt =====
-- Where `Print` of kernel/renderer/BasicRenderer.cpp writes.
use optimist_os.Common.{
  ℕ, zero, suc, ◌+◌, ◌*◌, ◌^◌, ◌≤◌, ◌<◌, ◌≡◌, ◌∙◌, refl, arith, inl, inr, List, [], ◌∷◌, replicate,
  ap, subst, le→ltb, ltb, ◌==◌, u32, Bool-cases,
}
use optimist_os.Memory.{Memory}
use optimist_os.Memory.Laws.{Outside}
use optimist_os.Boot.Info.{Framebuffer}
use optimist_os.Renderer.{
  BasicRenderer, pixel_address, advance, new_line, put_at_cursor, print_char, wrap_line, print,
}
use optimist_os.Renderer.Glyph.{put_char-IsBesideCell}

-- A glyph fits between the cursor and the end of the line.
pub record IsInside (r : BasicRenderer) : Type 0 where
  pub cursor : r.cursor_position.x + 8 ≤ r.framebuffer.width
  pub line : r.cursor_position.y < 2 ^ 32
  pub width : r.framebuffer.width + 8 < 2 ^ 32

-- The byte `a` belongs to no pixel of the first `width` columns, on whatever line.
abbrev pub IsOffScreen : Framebuffer → ℕ → Type 0
IsOffScreen f a = (x y : ℕ) → x < f.width → Outside (pixel_address f x y) 4 a

-- The state between the `switch` and the test of the width.
record IsStepped (r : BasicRenderer) : Type 0 where
  column : r.cursor_position.x ≤ r.framebuffer.width
  line : r.cursor_position.y < 2 ^ 32
  width : r.framebuffer.width + 8 < 2 ^ 32
  glyph : 8 ≤ r.framebuffer.width

wrap_line-IsInside :
    {r : BasicRenderer}
    → IsStepped r
    → (IsInside (wrap_line r)) × ((wrap_line r).framebuffer ≡ r.framebuffer)
unfolding wrap_line
wrap_line-IsInside {r} v =
    elim (Bool-cases (ltb r.framebuffer.width (u32 (r.cursor_position.x + 8)))) [
      | inl wide ↦ rw wide (record { cursor = v.glyph; line = omega arith; width = v.width }, refl)
      | inr fits ↦ rw fits (
        record { cursor = ground (arith, v.column, v.width); line = v.line; width = v.width },
        refl,
      )
    ]

new_line-IsStepped : {r : BasicRenderer} → IsInside r → IsStepped (new_line r)
new_line-IsStepped v = record {
  column = omega arith;
  line = omega arith;
  width = v.width;
  glyph = omega (arith, v.cursor);
}

advance-IsStepped : {r : BasicRenderer} → IsInside r → IsStepped (advance r)
advance-IsStepped v = record {
  column = omega (arith, v.cursor, v.width);
  line = v.line;
  width = v.width;
  glyph = omega (arith, v.cursor);
}

put_at_cursor-off_screen :
    (chr : ℕ) (r : BasicRenderer) (m : Memory)
    → IsInside r
    → (a : ℕ) → IsOffScreen r.framebuffer a
    → (put_at_cursor chr (r, m)).1 a ≡ m a
put_at_cursor-off_screen chr r m v a h =
    put_char-IsBesideCell r chr r.cursor_position.x r.cursor_position.y m a
      (omega (arith, v.cursor, v.width)) v.line (λ j lo hi k kl kh. h k j (omega (arith, v.cursor)))

print_char-IsStepped :
    (chr : ℕ) (r : BasicRenderer) (m : Memory)
    → IsInside r
    → (t : BasicRenderer × Memory) × (print_char chr (r, m) ≡ t)
      × IsStepped t.0
      × (t.0.framebuffer ≡ r.framebuffer)
      × ((a : ℕ) → IsOffScreen r.framebuffer a → t.1 a ≡ m a)
unfolding print_char
print_char-IsStepped chr r m v = elim (Bool-cases (chr == b'\n')) [
  | inl line ↦ ((new_line r, m), rw line refl, new_line-IsStepped v, refl, λ a h. refl)
  | inr more ↦ elim (Bool-cases (chr == b'\t')) [
    | inl tab ↦ ((advance r, m), rw (more, tab) refl, advance-IsStepped v, refl, λ a h. refl)
    | inr other ↦ (
      put_at_cursor chr (r, m),
      rw (more, other) refl,
      advance-IsStepped v,
      refl,
      put_at_cursor-off_screen chr r m v,
    )
  ]
]

print_char-print :
    (chr : ℕ) (str : List ℕ) (s t : BasicRenderer × Memory)
    → print_char chr s ≡ t
    → print (chr ∷ str) s ≡ print str (wrap_line t.0, t.1)
unfolding print
print_char-print chr str s t run =
    ap (λ (u : BasicRenderer × Memory). print str (wrap_line u.0, u.1)) run

-- A cursor that leaves room for a glyph in its line does so after `Print` too, whatever the text, and
-- `Print` changes no byte outside of the pixels of the screen's columns: a text never runs over the right
-- border. Nothing keeps it above the lower border.
pub print-IsInside :
    (str : List ℕ) (r : BasicRenderer) (m : Memory)
    → IsInside r
    → IsInside (print str (r, m)).0
      × ((print str (r, m)).0.framebuffer ≡ r.framebuffer)
      × ((a : ℕ) → IsOffScreen r.framebuffer a → (print str (r, m)).1 a ≡ m a)
print-IsInside [] r m v = unfold print in (v, refl, λ a h. refl)
print-IsInside (chr ∷ str) r m v =
    let ((r', m'), run, stepped, same, kept) = print_char-IsStepped chr r m v in
    let wrapped = wrap_line-IsInside stepped in
    let rest = print-IsInside str (wrap_line r') m' wrapped.0 in
    rw (print_char-print chr str (r, m) (r', m') run)
      (rest.0, rest.1 ∙ wrapped.1 ∙ same, λ a h. rest.2 a (rw (wrapped.1 ∙ same) h) ∙ kept a h)

-- From a cursor that leaves room for a glyph in its line, a text of `n` line feeds moves it `16 * n` lines
-- down and writes nothing, as long as that is below 2 ^ 32: the height of the screen is not looked at.
pub print_newlines :
    (n : ℕ) (r : BasicRenderer) (m : Memory)
    → IsInside r
    → r.cursor_position.y + 16 * n < 2 ^ 32
    → ((print (replicate n b'\n') (r, m)).0.cursor_position.y ≡ r.cursor_position.y + 16 * n)
      × ((print (replicate n b'\n') (r, m)).1 ≡ m)
print_newlines zero r m v h = unfold print in (omega arith, refl)
print_newlines (suc n) r m v h =
    let wrapped = wrap_line-IsInside (new_line-IsStepped v) in
    let stays : wrap_line (new_line r) ≡ new_line r =
      unfold wrap_line in rw (le→ltb r.framebuffer.width 8 (omega (arith, v.cursor))) refl in
    let line : u32 (r.cursor_position.y + 16) ≡ r.cursor_position.y + 16 = omega arith in
    let rest = print_newlines n (new_line r) m (subst IsInside stays wrapped.0) (omega arith) in
    rw
      (
        print_char-print b'\n' (replicate n b'\n') (r, m) (new_line r, m)
            (unfold print_char in refl),
        stays,
      )
      (omega (arith, rest.0), rest.1)
