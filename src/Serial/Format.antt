-- ===== src/Serial/Format.antt =====
-- serial.c, the formatted output: `serial_write`, `print_uint`, `print_int`, `serial_printf`.
-- Output is the list of the bytes that are handed to `serial_write_char`.
pub mod Digits
pub mod Plain
use fae.Prelude.{
  ℕ, zero, suc, ◌+◌, ◌-◌, ◌*◌, ◌/◌, ◌%◌, ◌^◌, Bool, true, false, ◌&&◌, Option, none, some, List, [],
  ◌∷◌, ◌++◌, ltb, leb, ◌==◌, if◌then◌else◌, replicate, length, u32, codes,
}
use mathlib.Core.Option

-- `serial_write`: a return goes before each line end.
pub serial_write : List ℕ → List ℕ
serial_write [] = []
serial_write (c ∷ str) =
    let rest = serial_write str in if c == 0x0A then 0x0D ∷ c ∷ rest else c ∷ rest

-- `"0123456789abcdef"[d]`
abbrev pub digit_char : ℕ → ℕ
digit_char d = if ltb d 10 then 0x30 + d else 0x61 + (d - 10)

-- The `do` loop of `print_uint`. `buf` is kept with the digit stored last first, which is the order
-- they are printed in; 64 is fuel enough, as it is room enough, for 64-bit values.
pub digits_onto : ℕ → ℕ → ℕ → List ℕ → List ℕ
digits_onto zero val base buf = buf
digits_onto (suc fuel) val base buf =
    let more = digits_onto fuel (val / base) base (digit_char (val % base) ∷ buf) in
    if ltb 0 (val / base) then more else digit_char (val % base) ∷ buf

pub print_uint : ℕ → ℕ → ℕ → ℕ → List ℕ
unfolding digits_onto
print_uint val base width pad =
    let buf = digits_onto 64 val base [] in replicate (width - length buf) pad ++ buf

-- `print_int` of a `long long`, by its bits.
pub print_int : ℕ → ℕ → List ℕ
print_int val base =
    if leb (2 ^ 63) val
    then 0x2D ∷ print_uint ((2 ^ 64 - val) % 2 ^ 64) base 0 0x20
    else print_uint val base 0 0x20

-- An `int` widened to a `long long`.
abbrev pub sign_extend : ℕ → ℕ
sign_extend w = if leb (2 ^ 31) (u32 w) then u32 w + (2 ^ 64 - 2 ^ 32) else u32 w

-- What `va_arg` finds: a register of 64 bits, or a pointer to a text or NULL.
pub data Arg : Type 0 where
  word : ℕ → Arg
  text : Option (List ℕ) → Arg

-- Where in a conversion the loop of `serial_printf` stands: outside, behind the `%`, in the width
-- (with its value and the padding), or behind one `l` or two.
pub data Mode : Type 0 where
  literal : Mode
  percent : Mode
  in_width : ℕ → ℕ → Mode
  long : ℕ → ℕ → Mode
  long_long : ℕ → ℕ → Mode

-- What a conversion prints, with the arguments that are left.
pub data Converted : Type 0 where
  printed : List ℕ → List Arg → Converted
  bad_args : Converted

-- A conversion that takes a register, or one that takes a text.
abbrev pub with_word : (ℕ → List ℕ) → List Arg → Converted
with_word f (word w ∷ args) = printed (f w) args
with_word f _ = bad_args

abbrev pub with_text : List Arg → Converted
with_text (text (some s) ∷ args) = printed (serial_write s) args
with_text (text none ∷ args) = printed (codes "(null)") args
with_text _ = bad_args

-- The conversions without an `l`; an unknown one is printed as it stands.
abbrev pub convert : ℕ → ℕ → ℕ → List Arg → Converted
convert c width pad args =
    if c == 0x63
    then with_word (λ w. (w % 256) ∷ []) args
    else if c == 0x73
    then with_text args
    else if c == 0x64
    then with_word (λ w. print_int (sign_extend w) 10) args
    else if c == 0x75
    then with_word (λ w. print_uint (u32 w) 10 width pad) args
    else if c == 0x78
    then with_word (λ w. print_uint (u32 w) 16 width pad) args
    else if c == 0x70
    then with_word (λ w. 0x30 ∷ 0x78 ∷ print_uint w 16 width pad) args
    else printed (0x25 ∷ c ∷ []) args

-- The conversions behind `l` or `ll`; any other character there prints nothing.
abbrev pub convert_long : ℕ → ℕ → ℕ → List Arg → Converted
convert_long c width pad args =
    if c == 0x64
    then with_word (λ w. print_int w 10) args
    else if c == 0x75
    then with_word (λ w. print_uint w 10 width pad) args
    else if c == 0x78
    then with_word (λ w. print_uint w 16 width pad) args
    else printed [] args

abbrev pub is_digit : ℕ → Bool
is_digit c = leb 0x30 c && leb c 0x39

-- What a conversion printed, and the rest with the arguments that are left.
abbrev pub after_conversion : Converted → (List Arg → Option (List ℕ)) → Option (List ℕ)
after_conversion (printed out args) rest = Option.map (λ more. out ++ more) (rest args)
after_conversion bad_args rest = none

-- `serial_printf`, a character of the format at a time. `none`: the arguments do not fit, or the
-- format ends inside a conversion, where the code reads on behind its terminator.
pub printf_from : Mode → List ℕ → List Arg → Option (List ℕ)
printf_from literal [] args = some []
printf_from literal (c ∷ f) args =
    let after = printf_from percent f args in
    let rest = printf_from literal f args in
    if c == 0x25 then after else Option.map (λ out. serial_write (c ∷ []) ++ out) rest
printf_from percent [] args = none
printf_from percent (c ∷ f) args =
    let zeros = printf_from (in_width 0 0x30) f args in
    let digit = printf_from (in_width (c - 0x30) 0x20) f args in
    let ell = printf_from (long 0 0x20) f args in
    if c == 0x30
    then zeros
    else if is_digit c
    then digit
    else if c == 0x6C
    then ell
    else after_conversion (convert c 0 0x20 args) (λ a. printf_from literal f a)
printf_from (in_width w p) [] args = none
printf_from (in_width w p) (c ∷ f) args =
    let digit = printf_from (in_width (w * 10 + (c - 0x30)) p) f args in
    let ell = printf_from (long w p) f args in
    if is_digit c
    then digit
    else if c == 0x6C
    then ell
    else after_conversion (convert c w p args) (λ a. printf_from literal f a)
printf_from (long w p) [] args = none
printf_from (long w p) (c ∷ f) args =
    let ell = printf_from (long_long w p) f args in
    if c == 0x6C
    then ell
    else after_conversion (convert_long c w p args) (λ a. printf_from literal f a)
printf_from (long_long w p) [] args = none
printf_from (long_long w p) (c ∷ f) args =
    after_conversion (convert_long c w p args) (λ a. printf_from literal f a)

pub serial_printf : List ℕ → List Arg → Option (List ℕ)
unfolding printf_from
serial_printf format args = printf_from literal format args
