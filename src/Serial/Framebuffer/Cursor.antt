-- ===== src/Serial/Framebuffer/Cursor.antt =====
-- `fb_put_char` keeps its cursor in the framebuffer.
use fae.Prelude.{ℕ, ◌+◌, ◌/◌, ◌<◌, ◌≡◌, arith, ltb, leb, ◌==◌, if_cases}
use fae.Serial.Framebuffer.{Fb, fb_scroll, next_row, draw_here, next_cell, fb_put_char}

-- The cursor is at a character of the framebuffer, whose geometry is `width` by `height`.
abbrev pub IsInside : ℕ → ℕ → Fb → Type 0
IsInside width height f =
    (Fb.width f ≡ width) × (Fb.height f ≡ height) × (Fb.col f < width / 8) × (Fb.row f < height / 8)

module _ (width height : ℕ) where
  next_row-IsInside : (f : Fb) → IsInside width height f → IsInside width height (next_row f)
  unfolding fb_scroll
  next_row-IsInside f (w, h, c, r) =
      if_cases (IsInside width height) (leb (Fb.height f / 8) (Fb.row f + 1)) _ _
        (λ e. (w, h, omega (arith, c), omega (arith, h, r)))
        (λ e. (w, h, omega (arith, c), ground (arith, e, h)))

  next_cell-IsInside : (f : Fb) → IsInside width height f → IsInside width height (next_cell f)
  next_cell-IsInside f (w, h, c, r) =
      if_cases (IsInside width height) (leb (Fb.width f / 8) (Fb.col f + 1)) _ _
        (λ e. next_row-IsInside f (w, h, c, r)) (λ e. (w, h, ground (arith, e, w), r))

-- From a cursor inside the framebuffer, whatever byte is put and whatever the font, the cursor is
-- inside it again, and the geometry is the same.
pub fb_put_char-IsInside :
    (font : ℕ → ℕ → ℕ) (c width height : ℕ) (f : Fb)
    → IsInside width height f
    → IsInside width height (fb_put_char font c f)
unfolding fb_put_char draw_here
fb_put_char-IsInside font c width height f (w, h, x, y) =
    if_cases (IsInside width height) (c == 0x0A) _ _
      (λ e. next_row-IsInside width height f (w, h, x, y))
      (λ e.
        if_cases (IsInside width height) (c == 0x0D) _ _ (λ e. (w, h, omega (arith, x), y))
          (λ e.
            if_cases (IsInside width height) (c == 0x08) _ _
              (λ e.
                if_cases (IsInside width height) (ltb 0 (Fb.col f)) _ _
                  (λ e. (w, h, omega (arith, x), y)) (λ e. (w, h, x, y)))
              (λ e. next_cell-IsInside width height _ (w, h, x, y))))
