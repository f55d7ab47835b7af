-- ===== src/Serial/Tests.antt =====
-- The console's theorems at concrete screens and texts.
use mathlib.Core.Option
use fae.Prelude.{
  ℕ, ◌+◌, ◌*◌, ◌<◌, ◌≤◌, ◌≡◌, ◌≢◌, ◌⊎◌, All, inr, refl, arith, false, List, [], ◌∷◌, ◌++◌, length,
  replicate, max, codes,
}
use fae.Serial.Vga.{Vga, cell, vga_scroll, vga_put_char}
use fae.Serial.Vga.Scroll.{vga_scroll_lem}
use fae.Serial.Vga.Cells.{vga_put_char_last}
use fae.Serial.Format.{word, print_uint, serial_write, serial_printf}
use fae.Serial.Format.Digits.{IsDigit, read_digits, print_uint-read}
use fae.Serial.Format.Plain.{serial_printf-append}
use fae.Serial.Framebuffer.{Fb, fb_put_char, serial_init_framebuffer}
use fae.Serial.Framebuffer.Blank.{serial_init_framebuffer-blank}
use fae.Serial.Framebuffer.Cursor.{IsInside, fb_put_char-IsInside}

-- A screen whose cells are numbered, with the cursor in its last cell.
abbrev at_end : Vga
at_end = record { buffer = λ i. i; col = 79; row = 24; color = 0x0F; is_hidden = false }

vga_scroll_lem_example :
    ((i : ℕ) → i < 1920 → Vga.buffer (vga_scroll at_end) i ≡ i + 80)
    × ((i : ℕ) → 1920 ≤ i → i < 2000 → Vga.buffer (vga_scroll at_end) i ≡ cell 0x0F 0x20)
    × ((i : ℕ) → 2000 ≤ i → Vga.buffer (vga_scroll at_end) i ≡ i)
    × (Vga.row (vga_scroll at_end) ≡ 24)
    × (Vga.col (vga_scroll at_end) ≡ 79)
vga_scroll_lem_example = vga_scroll_lem at_end

vga_put_char_last_example :
    (Vga.buffer (vga_put_char 65 at_end) 1919 ≡ cell 0x0F 65)
    × ((i : ℕ) → i < 1919 → Vga.buffer (vga_put_char 65 at_end) i ≡ i + 80)
    × (Vga.col (vga_put_char 65 at_end) ≡ 0)
    × (Vga.row (vga_put_char 65 at_end) ≡ 24)
vga_put_char_last_example =
    vga_put_char_last 65 at_end refl (omega arith, omega arith, omega arith) refl refl

abbrev sample : ℕ
sample = 0xBEEF

print_uint-read_example :
    (n c : ℕ) × (ds : List ℕ) × (print_uint sample 16 8 0x30 ≡ replicate n 0x30 ++ (c ∷ ds))
    × All (IsDigit 16) (c ∷ ds)
    × (read_digits 16 0 (c ∷ ds) ≡ sample)
    × ((c ≢ 0x30) ⊎ ((sample ≡ 0) × (ds ≡ [])))
    × (n + length (c ∷ ds) ≡ max 8 (length (c ∷ ds)))
print_uint-read_example = print_uint-read sample 16 8 0x30 (inr refl) (omega arith)

serial_printf-append_example :
    serial_printf (codes "n=" ++ codes "%u\n") (word 7 ∷ [])
    ≡ Option.map
        (λ out. serial_write (codes "n=") ++ out)
        (serial_printf (codes "%u\n") (word 7 ∷ []))
serial_printf-append_example =
    serial_printf-append (codes "n=") (codes "%u\n") (word 7 ∷ []) (omega arith, (omega arith, tt))

-- A framebuffer of 640 by 480, with the cursor in its last character.
abbrev last_character : Fb
last_character = record {
  pixels = λ i. 0;
  pitch = 2560;
  width = 640;
  height = 480;
  col = 79;
  row = 59;
}

fb_put_char-IsInside_example : IsInside 640 480 (fb_put_char (λ c y. 0x18) 65 last_character)
fb_put_char-IsInside_example =
    fb_put_char-IsInside (λ c y. 0x18) 65 640 480 last_character
      (refl, refl, omega arith, omega arith)

serial_init_framebuffer-blank_example :
    IsInside 640 480 (serial_init_framebuffer 0xFD000000 2560 640 480 32 (λ i. i) 0xB8000).0
    × ((x y : ℕ)
        → x < 640
        → y < 480
        → Fb.pixels
            (serial_init_framebuffer 0xFD000000 2560 640 480 32 (λ i. i) 0xB8000).0
            (y * 640 + x)
          ≡ 0)
    × ((j : ℕ)
        → 307200 ≤ j
        → Fb.pixels (serial_init_framebuffer 0xFD000000 2560 640 480 32 (λ i. i) 0xB8000).0 j ≡ j)
    × ((serial_init_framebuffer 0xFD000000 2560 640 480 32 (λ i. i) 0xB8000).1 ≡ 0xFD000000)
serial_init_framebuffer-blank_example =
    serial_init_framebuffer-blank 0xFD000000 2560 640 480 32 (λ i. i) 0xB8000 (omega arith)
      (omega arith) (omega arith) (omega arith) (omega arith) refl
