-- ===== src/Serial/Vga/Cells.antt =====
-- `vga_put_char` keeps the cursor on the screen and writes inside it only.
use fae.Prelude.{
  ℕ, ◌+◌, ◌*◌, ◌<◌, ◌≤◌, ◌≡◌, ◌≢◌, refl, ◌∙◌, arith, Bool, true, false, leb, ◌==◌, if◌then◌else◌,
}
use fae.Serial.Vga.{Vga, cell, vga_scroll, write_here, advance, put_visible, vga_put_char}
use fae.Serial.Vga.Scroll.{vga_scroll_lem}

-- The cursor is on the screen.
abbrev pub IsOnScreen : Vga → Type 0
IsOnScreen v = (Vga.col v < 80) × (Vga.row v < 25)

-- Two states whose memory behind the screen is the same.
abbrev pub AgreeOutside : Vga → Vga → Type 0
AgreeOutside v w = (i : ℕ) → 2000 ≤ i → Vga.buffer v i ≡ Vga.buffer w i

Keeps : Vga → Vga → Type 0
Keeps v w = IsOnScreen w × AgreeOutside w v

if_true {ℓ} : {A : Type ℓ} (b : Bool) (x y : A) → b ≡ true → (if b then x else y) ≡ x
if_true true x y e = refl
if_true false x y e = cc

if_false {ℓ} : {A : Type ℓ} (b : Bool) (x y : A) → b ≡ false → (if b then x else y) ≡ y
if_false true x y e = cc
if_false false x y e = refl

-- A character that is printed.
abbrev pub IsPrinted : ℕ → Type 0
IsPrinted c = (c ≢ 0x0A) × (c ≢ 0x0D) × (c ≢ 0x08)

printed :
    (c : ℕ) (v : Vga)
    → Vga.is_hidden v ≡ false
    → IsPrinted c
    → vga_put_char c v ≡ advance (write_here c v)
unfolding vga_put_char put_visible
printed c v h n =
    let (a, b, d) = n in
    if_false (Vga.is_hidden v) _ _ h
    ∙ if_false (c == 0x0A) _ _ (ground arith)
    ∙ if_false (c == 0x0D) _ _ (ground arith)
    ∙ if_false (c == 0x08) _ _ (ground arith)

-- A visible screen, and a character that is not a line end, a return or a backspace, put in the
-- last cell of the last row: the screen moves up, the character with it, and the cursor is at the
-- start of the last row.
pub vga_put_char_last :
    (c : ℕ) (v : Vga)
    → Vga.is_hidden v ≡ false
    → IsPrinted c
    → Vga.col v ≡ 79
    → Vga.row v ≡ 24
    → (Vga.buffer (vga_put_char c v) 1919 ≡ cell (Vga.color v) c)
      × ((i : ℕ) → i < 1919 → Vga.buffer (vga_put_char c v) i ≡ Vga.buffer v (i + 80))
      × (Vga.col (vga_put_char c v) ≡ 0)
      × (Vga.row (vga_put_char c v) ≡ 24)
vga_put_char_last c v h n x y =
    let moved : vga_put_char c v
        ≡ vga_scroll (record (write_here c v) { col = 0; row = Vga.row v + 1 }) =
      printed c v h n
      ∙ if_true (leb 80 (Vga.col v + 1)) _ _ (ground arith)
      ∙ if_true (leb 25 (Vga.row v + 1)) _ _ (ground arith) in
    let (up, last, out, row, col) =
      vga_scroll_lem (record (write_here c v) { col = 0; row = Vga.row v + 1 }) in
    let at : (1919 + 80 == Vga.row v * 80 + Vga.col v) ≡ true = ground arith in
    rw moved (
      up 1919 (omega arith) ∙ (rw at refl),
      λ i l.
          let other : (i + 80 == Vga.row v * 80 + Vga.col v) ≡ false = ground arith in
          up i (omega arith) ∙ (rw other refl),
      col,
      row,
    )
