-- ===== src/Shell/Editor/Text.antt =====
-- The line that is read is the text that was edited.
use fae.Prelude.{
  ℕ, ◌+◌, ◌≤◌, ◌≡◌, arith, true, false, ◌&&◌, List, [], ◌∷◌, ◌++◌, ltb, ◌==◌, if◌then◌else◌, length,
}
use fae.Shell.Editor.{Line, set_char, is_printable}

-- The reference: the text without its last character, a key typed behind a text of 255 characters
-- at most, and a text after a list of keys.
abbrev pub all_but_last : List ℕ → List ℕ
all_but_last [] = []
all_but_last (x ∷ []) = []
all_but_last (x ∷ y ∷ s) = x ∷ all_but_last (y ∷ s)

abbrev pub edit_key : ℕ → List ℕ → List ℕ
edit_key c s =
    if c == 0x08
    then all_but_last s
    else if ltb (length s) 255 && is_printable c
    then s ++ c ∷ []
    else s

abbrev pub edited : List ℕ → List ℕ → List ℕ
edited [] s = s
edited (c ∷ input) s = edited input (edit_key c s)

-- `line` from `i` on holds `s`, printable, and `idx` is behind it.
abbrev pub Holds : (ℕ → ℕ) → ℕ → List ℕ → Type 0
Holds line i [] = Unit
Holds line i (x ∷ s) = (line i ≡ x) × (is_printable x ≡ true) × Holds line (i + 1) s

abbrev pub Shows : Line → List ℕ → Type 0
Shows l s = (Line.idx l ≡ length s) × (length s ≤ 255) × Holds (Line.line l) 0 s

Holds-frame :
    (line : ℕ → ℕ) (i j c : ℕ) (s : List ℕ)
    → i + length s ≤ j
    → Holds line i s
    → Holds (set_char line j c) i s
Holds-frame line i j c [] b h = tt
Holds-frame line i j c (x ∷ s) b h =
    let other : (i == j) ≡ false = ground arith in
    (rw other h.0, h.1, Holds-frame line (i + 1) j c s (omega arith) h.2)
