-- ===== src/Serial/Vga/Scroll.antt =====
-- The loops of `vga_scroll` move every row up by one, in place.
use fae.Prelude.{
  ℕ, zero, suc, ◌+◌, ◌*◌, ◌<◌, ◌≤◌, ◌≡◌, refl, ◌∙◌, arith, true, false, ltb, ◌==◌, ◌⊎◌, inl, inr,
  Bool-cases,
}
use native.Mathlib.Decide.{ℕ_discrete}
use fae.Serial.Vga.{Vga, set_cell, cell, copy_cols, copy_rows, blank_cells, vga_scroll}

-- Before and behind the cells that a loop writes, nothing changes.
Outside : ℕ → ℕ → ℕ → Type 0
Outside start n i = (i < start) ⊎ (start + n ≤ i)

copy_cols_out :
    (y x n : ℕ) (b : ℕ → ℕ) (i : ℕ) → Outside (y * 80 + x) n i → copy_cols y x n b i ≡ b i
unfolding copy_cols Outside
copy_cols_out y x zero b i h = refl
copy_cols_out y x (suc n) b i h =
    let here : (i == y * 80 + x) ≡ false = ground arith in
    copy_cols_out y (x + 1) n _ i (ground arith) ∙ (rw here refl)

copy_cols_in :
    (y x n : ℕ) (b : ℕ → ℕ) (i : ℕ)
    → x + n ≤ 80
    → y * 80 + x ≤ i
    → i < y * 80 + x + n
    → copy_cols y x n b i ≡ b (i + 80)
unfolding copy_cols Outside
copy_cols_in y x zero b i w l h = absurd (omega arith)
copy_cols_in y x (suc n) b i w l h = elim (ℕ_discrete i (y * 80 + x)) [
  | yes e ↦
      let at : (i == y * 80 + x) ≡ true = ground arith in
      let src : (y + 1) * 80 + x ≡ i + 80 = omega arith in
      copy_cols_out y (x + 1) n _ i (inl (omega arith)) ∙ (rw (at, src) refl)
  | no ne ↦
      let later : (i + 80 == y * 80 + x) ≡ false = ground arith in
      copy_cols_in y (x + 1) n _ i (omega arith) (omega arith) (omega arith) ∙ (rw later refl)
]

copy_rows_out :
    (y n : ℕ) (b : ℕ → ℕ) (i : ℕ) → Outside (y * 80) (n * 80) i → copy_rows y n b i ≡ b i
unfolding copy_rows Outside
copy_rows_out y zero b i h = refl
copy_rows_out y (suc n) b i h =
    copy_rows_out (y + 1) n _ i (ground arith) ∙ copy_cols_out y 0 80 b i (ground arith)

copy_rows_in :
    (y n : ℕ) (b : ℕ → ℕ) (i : ℕ) → y * 80 ≤ i → i < (y + n) * 80 → copy_rows y n b i ≡ b (i + 80)
unfolding copy_rows Outside
copy_rows_in y zero b i l h = absurd (omega arith)
copy_rows_in y (suc n) b i l h = elim (Bool-cases (ltb i (y * 80 + 80))) [
  | inl e ↦
      copy_rows_out (y + 1) n _ i (inl (ground arith))
      ∙ copy_cols_in y 0 80 b i (omega arith) (omega arith) (ground arith)
  | inr e ↦
      copy_rows_in (y + 1) n _ i (ground arith) (omega arith)
      ∙ copy_cols_out y 0 80 b (i + 80) (inr (ground arith))
]

blank_cells_at :
    (color s n : ℕ) (b : ℕ → ℕ) (i : ℕ)
    → (Outside s n i → blank_cells color s n b i ≡ b i)
      × (s ≤ i → i < s + n → blank_cells color s n b i ≡ cell color 0x20)
unfolding blank_cells Outside
blank_cells_at color s zero b i = (λ h. refl, λ l h. absurd (omega arith))
blank_cells_at color s (suc n) b i =
    let (out, inside) = blank_cells_at color (s + 1) n (set_cell b s (cell color 0x20)) i in
    (
      λ h. let other : (i == s) ≡ false = ground arith in out (ground arith) ∙ (rw other refl),
      λ l h. elim (ℕ_discrete i s) [
        | yes e ↦
            let same : (i == s) ≡ true = ground arith in out (inl (omega arith)) ∙ (rw same refl)
        | no ne ↦ inside (omega arith) (omega arith)
      ],
    )

-- Scrolling shows, in every row but the last, what stood one row below; blanks the last row; leaves
-- memory behind the screen alone; and puts the cursor in the last row, its column kept.
pub vga_scroll_lem :
    (v : Vga)
    → ((i : ℕ) → i < 1920 → Vga.buffer (vga_scroll v) i ≡ Vga.buffer v (i + 80))
      × ((i : ℕ) → 1920 ≤ i → i < 2000 → Vga.buffer (vga_scroll v) i ≡ cell (Vga.color v) 0x20)
      × ((i : ℕ) → 2000 ≤ i → Vga.buffer (vga_scroll v) i ≡ Vga.buffer v i)
      × (Vga.row (vga_scroll v) ≡ 24)
      × (Vga.col (vga_scroll v) ≡ Vga.col v)
unfolding vga_scroll Outside
vga_scroll_lem v = (
  λ i h.
      (blank_cells_at (Vga.color v) 1920 80 (copy_rows 0 24 (Vga.buffer v)) i).0 (inl h)
      ∙ copy_rows_in 0 24 (Vga.buffer v) i (omega arith) (omega arith),
  λ i l h. (blank_cells_at (Vga.color v) 1920 80 (copy_rows 0 24 (Vga.buffer v)) i).1 l h,
  λ i h.
      (blank_cells_at (Vga.color v) 1920 80 (copy_rows 0 24 (Vga.buffer v)) i).0 (inr h)
      ∙ copy_rows_out 0 24 (Vga.buffer v) i (inr (omega arith)),
  refl,
  refl,
)
