-- ===== src/Shell/Editor.antt =====
-- shell.c, the loop of `shell_start` that reads a line into `char line[256]`.
-- The characters that `shell_get_char` returns are a list of bytes; what is echoed is left out.
pub mod Text
use fae.Prelude.{
  ℕ, zero, suc, ◌+◌, ◌-◌, Bool, true, false, ◌&&◌, Option, none, some, List, [], ◌∷◌, ltb, leb,
  ◌==◌, if◌then◌else◌,
}

-- `line` and `idx`
pub record Line : Type 0 where
  pub line : ℕ → ℕ
  pub idx : ℕ

-- `line[i] = c`
abbrev pub set_char : (ℕ → ℕ) → ℕ → ℕ → ℕ → ℕ
set_char line i c j = if j == i then c else line j

abbrev pub is_printable : ℕ → Bool
is_printable c = leb 32 c && leb c 126

-- A character that does not end the line. A byte from 128 on is a negative `char`, and is dropped.
abbrev pub type_char : ℕ → Line → Line
type_char c l =
    if c == 0x08
    then if ltb 0 (Line.idx l) then record l { idx = Line.idx l - 1 } else l
    else if ltb (Line.idx l) 255 && is_printable c
    then record { line = set_char (Line.line l) (Line.idx l) c; idx = Line.idx l + 1 }
    else l

-- The loop: `none` while no line end has come; else the line, and the characters that are left.
pub read_from : List ℕ → Line → Option (Line × List ℕ)
read_from [] l = none
read_from (c ∷ input) l =
    let rest = read_from input (type_char c l) in
    if c == 0x0A
    then some (record l { line = set_char (Line.line l) (Line.idx l) 0 }, input)
    else rest

-- A line is read from `idx = 0` on, over whatever the buffer holds.
pub read_line : List ℕ → (ℕ → ℕ) → Option (Line × List ℕ)
unfolding read_from
read_line input line = read_from input (record { line = line; idx = 0 })
