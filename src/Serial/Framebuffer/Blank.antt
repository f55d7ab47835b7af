-- ===== src/Serial/Framebuffer/Blank.antt =====
-- `serial_init_framebuffer` clears the screen.
use fae.Prelude.{
  ℕ, zero, suc, ◌+◌, ◌*◌, ◌/◌, ◌<◌, ◌≤◌, ◌≡◌, ◌≢◌, inl, inr, refl, arith, ◌∙◌, false, true, ◌==◌,
  ◌^◌, u32, Bool-cases,
}
use fae.Serial.Framebuffer.{Fb, set_pixel, clear_row, clear_rows, serial_init_framebuffer}
use fae.Serial.Framebuffer.Cursor.{IsInside}

set_pixel-other : (p : ℕ → ℕ) (i v j : ℕ) → j ≢ i → set_pixel p i v j ≡ p j
set_pixel-other p i v j ne = let e : (j == i) ≡ false = ground arith in rw e refl

-- Clearing keeps what is 0.
clear_row-zero : (first x n : ℕ) (p : ℕ → ℕ) (j : ℕ) → p j ≡ 0 → clear_row first x n p j ≡ 0
unfolding clear_row
clear_row-zero first x zero p j h = h
clear_row-zero first x (suc n) p j h =
    clear_row-zero first (x + 1) n (set_pixel p (u32 (first + x)) 0) j
      (elim (Bool-cases (j == u32 (first + x))) [ inl e ↦ rw e refl | inr e ↦ rw e h ])

clear_row-blank :
    (first x n : ℕ) (p : ℕ → ℕ) (j : ℕ)
    → first + x + n ≤ 2 ^ 32
    → first + x ≤ j
    → j < first + x + n
    → clear_row first x n p j ≡ 0
unfolding clear_row
clear_row-blank first x zero p j b h k = absurd (omega arith)
clear_row-blank first x (suc n) p j b h k =
    let whole : u32 (first + x) ≡ first + x = omega (arith, b) in
    elim (Bool-cases (j == first + x)) [
      | inl e ↦ clear_row-zero first (x + 1) n _ j (rw (whole, e) refl)
      | inr e ↦
          clear_row-blank first (x + 1) n _ j (omega (arith, b)) (ground (arith, e, h))
            (omega (arith, k))
    ]

clear_row-behind :
    (first x n : ℕ) (p : ℕ → ℕ) (j : ℕ)
    → first + x + n ≤ 2 ^ 32
    → first + x + n ≤ j
    → clear_row first x n p j ≡ p j
unfolding clear_row
clear_row-behind first x zero p j b h = refl
clear_row-behind first x (suc n) p j b h =
    clear_row-behind first (x + 1) n _ j (omega (arith, b)) (omega (arith, h))
    ∙ set_pixel-other p (u32 (first + x)) 0 j (omega (arith, b, h))

module _ (stride width : ℕ) where
  clear_rows-zero : (y n : ℕ) (p : ℕ → ℕ) (j : ℕ) → p j ≡ 0 → clear_rows stride width y n p j ≡ 0
  unfolding clear_rows
  clear_rows-zero y zero p j h = h
  clear_rows-zero y (suc n) p j h =
      clear_rows-zero (y + 1) n _ j (clear_row-zero (y * stride) 0 width p j h)

  clear_rows-blank :
      (y n : ℕ) (p : ℕ → ℕ) (r x : ℕ)
      → width ≤ stride
      → y * stride + n * stride ≤ 2 ^ 32
      → y ≤ r
      → r < y + n
      → x < width
      → clear_rows stride width y n p (r * stride + x) ≡ 0
  unfolding clear_rows
  clear_rows-blank y zero p r x w s a b c = absurd (omega arith)
  clear_rows-blank y (suc n) p r x w s a b c = elim (Bool-cases (r == y)) [
    | inl e ↦
        let at : r ≡ y = ground (arith, e) in
        clear_rows-zero (y + 1) n _ (r * stride + x) (
          rw at (
            clear_row-blank (y * stride) 0 width p (y * stride + x) (ground (arith, w, s))
              (omega arith) (omega arith)))
    | inr e ↦
        clear_rows-blank (y + 1) n _ r x w (ground (arith, s)) (ground (arith, e, a))
          (omega (arith, b)) c
  ]

  clear_rows-behind :
      (y n : ℕ) (p : ℕ → ℕ) (j : ℕ)
      → width ≤ stride
      → y * stride + n * stride ≤ 2 ^ 32
      → y * stride + n * stride ≤ j
      → clear_rows stride width y n p j ≡ p j
  unfolding clear_rows
  clear_rows-behind y zero p j w s h = refl
  clear_rows-behind y (suc n) p j w s h =
      clear_rows-behind (y + 1) n _ j w (ground (arith, s)) (ground (arith, h))
      ∙ clear_row-behind (y * stride) 0 width p j (ground (arith, s, w)) (ground (arith, h, w))

-- On a framebuffer at an address that is not NULL, with 32 bits a pixel, with rows as long as they
-- are wide or longer, with 2 ^ 32 pixels at most in all its rows, and with room for a character of
-- 8 by 8: the initialisation puts the cursor on the screen, blanks each pixel of the screen and
-- changes none behind the last row; the text console's buffer is put at its address.
pub serial_init_framebuffer-blank :
    (addr pitch width height bpp : ℕ) (pixels : ℕ → ℕ) (vga_buffer : ℕ)
    → width ≤ pitch / 4
    → height * (pitch / 4) ≤ 2 ^ 32
    → 8 ≤ width
    → 8 ≤ height
    → addr ≢ 0
    → bpp ≡ 32
    → IsInside width height
        (serial_init_framebuffer addr pitch width height bpp pixels vga_buffer).0
      × ((x y : ℕ)
          → x < width
          → y < height
          → Fb.pixels
              (serial_init_framebuffer addr pitch width height bpp pixels vga_buffer).0
              (y * (pitch / 4) + x)
            ≡ 0)
      × ((j : ℕ)
          → height * (pitch / 4) ≤ j
          → Fb.pixels (serial_init_framebuffer addr pitch width height bpp pixels vga_buffer).0 j
            ≡ pixels j)
      × ((serial_init_framebuffer addr pitch width height bpp pixels vga_buffer).1 ≡ addr)
unfolding serial_init_framebuffer
serial_init_framebuffer-blank addr pitch width height bpp pixels vga_buffer w s a b ne e =
    let set : (addr == 0) ≡ false = ground (arith, ne) in
    let deep : (bpp == 32) ≡ true = ground (arith, e) in
    (
      (refl, refl, omega (arith, a), omega (arith, b)),
      λ x y c d.
          rw (set, deep)
            (clear_rows-blank (pitch / 4) width 0 height pixels y x w (omega (arith, s))
              (omega arith) (omega (arith, d)) c),
      λ j h.
          rw (set, deep)
            (clear_rows-behind (pitch / 4) width 0 height pixels j w (omega (arith, s))
              (omega (arith, h))),
      rw set refl,
    )
