-- ===== src/Serial/Framebuffer.antt =====
-- serial.c, the console on a framebuffer of 32-bit pixels: `serial_init_framebuffer`, `fb_scroll`,
-- `fb_put_char`.
-- The framebuffer is a function from a double word's index to its value; the font is a parameter,
-- the eight rows of each of its 128 glyphs.
pub mod Cursor
pub mod Blank
use fae.Prelude.{
  ℕ, zero, suc, ◌+◌, ◌-◌, ◌*◌, ◌/◌, ◌%◌, ◌^◌, Bool, true, false, ◌&&◌, not, ltb, leb, ◌==◌,
  if◌then◌else◌, u32,
}

-- `fb_addr`, `fb_pitch`, `fb_width`, `fb_height`, `fb_char_col` and `fb_char_row`
pub record Fb : Type 0 where
  pub pixels : ℕ → ℕ
  pub pitch : ℕ
  pub width : ℕ
  pub height : ℕ
  pub col : ℕ
  pub row : ℕ

abbrev pub set_pixel : (ℕ → ℕ) → ℕ → ℕ → ℕ → ℕ
set_pixel pixels i v j = if j == i then v else pixels j

-- A loop that moves `n` quadwords from `src` to `dest`, by their double words.
pub move_qwords : ℕ → ℕ → ℕ → (ℕ → ℕ) → ℕ → ℕ
move_qwords dest src zero p = p
move_qwords dest src (suc n) p =
    let q = set_pixel p dest (p src) in
    move_qwords (dest + 2) (src + 2) n (set_pixel q (dest + 1) (q (src + 1)))

-- A loop that clears `n` double words from `i` on.
pub clear_from : ℕ → ℕ → (ℕ → ℕ) → ℕ → ℕ
clear_from i zero p = p
clear_from i (suc n) p = clear_from (i + 1) n (set_pixel p i 0)

-- `fb_addr[y * stride + x] = 0`, `n` times from `x` on; `first` is `y * stride`, and the index is
-- computed in 32 bits.
pub clear_row : ℕ → ℕ → ℕ → (ℕ → ℕ) → ℕ → ℕ
clear_row first x zero p = p
clear_row first x (suc n) p = clear_row first (x + 1) n (set_pixel p (u32 (first + x)) 0)

-- The loop that clears `n` rows of `width` pixels from row `y` on.
pub clear_rows : ℕ → ℕ → ℕ → ℕ → (ℕ → ℕ) → ℕ → ℕ
unfolding clear_row
clear_rows stride width y zero p = p
clear_rows stride width y (suc n) p =
    clear_rows stride width (y + 1) n (clear_row (y * stride) 0 width p)

-- `serial_init_framebuffer`, with the address that it leaves in `vga_buffer`; `pixels` is what the
-- framebuffer holds before.
pub serial_init_framebuffer : ℕ → ℕ → ℕ → ℕ → ℕ → (ℕ → ℕ) → ℕ → Fb × ℕ
unfolding clear_rows
serial_init_framebuffer addr pitch width height bpp pixels vga_buffer = (
  record {
    pixels =
        if not (addr == 0) && bpp == 32
        then clear_rows (pitch / 4) width 0 height pixels
        else pixels;
    pitch = pitch;
    width = width;
    height = height;
    col = 0;
    row = 0;
  },
  if addr == 0 then vga_buffer else addr,
)

-- `fb_scroll`, for a pitch that is a multiple of 4 bytes and a height of 8 or more.
pub fb_scroll : Fb → Fb
unfolding move_qwords clear_from
fb_scroll f = record f {
  pixels =
      clear_from ((Fb.height f - 8) * Fb.pitch f / 4) (2 * Fb.pitch f)
        (move_qwords 0 (2 * Fb.pitch f) ((Fb.height f - 8) * Fb.pitch f / 8) (Fb.pixels f));
  row = Fb.height f / 8 - 1;
}

abbrev pub next_row : Fb → Fb
next_row f =
    let down = record f { col = 0; row = Fb.row f + 1 } in
    if leb (Fb.height f / 8) (Fb.row f + 1) then fb_scroll down else down

-- The inner and the outer loop over a character's cell, with `n` columns or rows to go; `bits y` are
-- the bits of row `y`, all 0 for a blank. Indices are computed in 32 bits.
pub draw_row : ℕ → ℕ → ℕ → ℕ → (ℕ → ℕ) → ℕ → ℕ
draw_row start bits x zero p = p
draw_row start bits x (suc n) p =
    draw_row start bits (x + 1) n
      (set_pixel p (u32 (start + x)) (if bits / 2 ^ x % 2 == 1 then 0xFFFFFF else 0))

pub draw_cell : ℕ → ℕ → (ℕ → ℕ) → ℕ → ℕ → (ℕ → ℕ) → ℕ → ℕ
unfolding draw_row
draw_cell start stride bits y zero p = p
draw_cell start stride bits y (suc n) p =
    draw_cell start stride bits (y + 1) n (draw_row (start + y * stride) (bits y) 0 8 p)

-- The cell at the cursor.
pub draw_here : (ℕ → ℕ) → Fb → Fb
unfolding draw_cell
draw_here bits f = record f {
  pixels =
      draw_cell (Fb.row f * 8 * (Fb.pitch f / 4) + Fb.col f * 8) (Fb.pitch f / 4) bits 0 8
        (Fb.pixels f);
}

abbrev pub next_cell : Fb → Fb
next_cell f =
    if leb (Fb.width f / 8) (Fb.col f + 1) then next_row f else record f { col = Fb.col f + 1 }

abbrev pub rub_out : Fb → Fb
rub_out f = if ltb 0 (Fb.col f) then draw_here (λ y. 0) (record f { col = Fb.col f - 1 }) else f

-- `fb_put_char`
pub fb_put_char : (ℕ → ℕ → ℕ) → ℕ → Fb → Fb
fb_put_char font c f =
    if c == 0x0A
    then next_row f
    else if c == 0x0D
    then record f { col = 0 }
    else if c == 0x08
    then rub_out f
    else next_cell (draw_here (font (c % 128)) f)
