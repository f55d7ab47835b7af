-- ===== src/Serial/Vga.antt =====
-- serial.c, the VGA text console: `vga_scroll`, `vga_clear`, `vga_put_char`.
-- The text buffer is a function from a cell's index to its 16 bits.
pub mod Scroll
pub mod Cells
use fae.Prelude.{ℕ, zero, suc, ◌+◌, ◌-◌, ◌*◌, Bool, true, false, not, ltb, leb, ◌==◌, if◌then◌else◌}

-- `VGA_WIDTH` and `VGA_HEIGHT`
abbrev pub vga_width : ℕ
vga_width = 80

abbrev pub vga_height : ℕ
vga_height = 25

-- `vga_buffer`, `vga_col`, `vga_row`, `vga_color` and `vga_hidden`
pub record Vga : Type 0 where
  pub buffer : ℕ → ℕ
  pub col : ℕ
  pub row : ℕ
  pub color : ℕ
  pub is_hidden : Bool

-- A store to one cell.
abbrev pub set_cell : (ℕ → ℕ) → ℕ → ℕ → ℕ → ℕ
set_cell buffer i v j = if j == i then v else buffer j

-- `(uint16_t)vga_color << 8 | c`: a `char` from 0x80 on is negative, and its sign bits cover the
-- colour.
abbrev pub cell : ℕ → ℕ → ℕ
cell color c = if ltb c 0x80 then color * 256 + c else 0xFF00 + c

-- The first inner loop of `vga_scroll`, with `n` columns to go from `x` on.
pub copy_cols : ℕ → ℕ → ℕ → (ℕ → ℕ) → ℕ → ℕ
copy_cols y x zero b = b
copy_cols y x (suc n) b =
    copy_cols y (x + 1) n (set_cell b (y * vga_width + x) (b ((y + 1) * vga_width + x)))

-- The outer loop, with `n` rows to go from `y` on.
pub copy_rows : ℕ → ℕ → (ℕ → ℕ) → ℕ → ℕ
unfolding copy_cols
copy_rows y zero b = b
copy_rows y (suc n) b = copy_rows (y + 1) n (copy_cols y 0 vga_width b)

-- A loop that blanks `n` cells from `i` on: the last loop of `vga_scroll`, and the loops of
-- `vga_clear`, which go through the rows one after the other.
pub blank_cells : ℕ → ℕ → ℕ → (ℕ → ℕ) → ℕ → ℕ
blank_cells color i zero b = b
blank_cells color i (suc n) b = blank_cells color (i + 1) n (set_cell b i (cell color 0x20))

-- `vga_scroll`
pub vga_scroll : Vga → Vga
unfolding copy_rows blank_cells
vga_scroll v = record v {
  buffer =
      blank_cells (Vga.color v) ((vga_height - 1) * vga_width) vga_width
        (copy_rows 0 (vga_height - 1) (Vga.buffer v));
  row = vga_height - 1;
}

-- `vga_clear` without a framebuffer.
pub vga_clear : Vga → Vga
unfolding blank_cells
vga_clear v = record v {
  buffer = blank_cells (Vga.color v) 0 (vga_height * vga_width) (Vga.buffer v);
  col = 0;
  row = 0;
}

-- `serial_set_vga_visible`
abbrev pub serial_set_vga_visible : Bool → Vga → Vga
serial_set_vga_visible visible v = record v { is_hidden = not visible }

-- The end of a line: `vga_col = 0; vga_row++; if (vga_row >= VGA_HEIGHT) vga_scroll();`
abbrev pub new_line : Vga → Vga
new_line v =
    let down = record v { col = 0; row = Vga.row v + 1 } in
    if leb vga_height (Vga.row v + 1) then vga_scroll down else down

-- A store at the cursor.
abbrev pub write_here : ℕ → Vga → Vga
write_here c v = record v {
  buffer = set_cell (Vga.buffer v) (Vga.row v * vga_width + Vga.col v) (cell (Vga.color v) c);
}

-- The rest of a character that is printed: the cursor moves on.
abbrev pub advance : Vga → Vga
advance v = if leb vga_width (Vga.col v + 1) then new_line v else record v { col = Vga.col v + 1 }

-- The branches of `vga_put_char`.
abbrev pub back_space : Vga → Vga
back_space v = if ltb 0 (Vga.col v) then write_here 0x20 (record v { col = Vga.col v - 1 }) else v

-- `vga_put_char` without a framebuffer: the branches behind the first `return`, and the whole.
pub put_visible : ℕ → Vga → Vga
put_visible c v =
    if c == 0x0A
    then new_line v
    else if c == 0x0D
    then record v { col = 0 }
    else if c == 0x08
    then back_space v
    else advance (write_here c v)

pub vga_put_char : ℕ → Vga → Vga
unfolding put_visible
vga_put_char c v = if Vga.is_hidden v then v else put_visible c v
