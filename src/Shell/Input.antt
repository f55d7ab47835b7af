-- ===== src/Shell/Input.antt =====
-- shell.c and serial.c, one character of input or output: a round of `shell_get_char`, and
-- `serial_write_char`, whose UART is a parameter.
pub mod Echo
use fae.Prelude.{
  ℕ, zero, suc, ◌+◌, ◌-◌, ◌/◌, ◌%◌, Bool, true, false, ◌||◌, Option, none, some, List, [], ◌∷◌,
  ◌==◌, if◌then◌else◌,
}

-- What `shell_get_char` makes of a byte from the serial port: `none` is the `continue`.
pub serial_key : ℕ → Option ℕ
serial_key c =
    if c == 0xFF
    then none
    else if c == 127 || c == 0x08
    then some 0x08
    else if c == 0x0D
    then some 0x0A
    else some c

-- The loop of `shell_get_char` over what its rounds find: a key from the keyboard, which comes
-- first, or a byte from the serial port.
pub data Input : Type 0 where
  from_keyboard : ℕ → Input
  from_serial : ℕ → Input
  nothing : Input

abbrev pub or_next : Option ℕ → List Input → Option (ℕ × List Input) → Option (ℕ × List Input)
or_next none input rest = rest
or_next (some c) input rest = some (c, input)

pub shell_get_char : List Input → Option (ℕ × List Input)
unfolding serial_key
shell_get_char [] = none
shell_get_char (from_keyboard c ∷ input) = some (c, input)
shell_get_char (from_serial c ∷ input) = or_next (serial_key c) input (shell_get_char input)
shell_get_char (nothing ∷ input) = shell_get_char input

-- `serial_write_char`, over whether the transmitter is empty at each poll: the byte sent, if any.
-- `timeout` counts down from 50000 before each pause.
pub send_from : (ℕ → Bool) → ℕ → ℕ → ℕ → Option ℕ
send_from is_empty a n zero = none
send_from is_empty a n (suc timeout) =
    let rest = send_from is_empty a (n + 1) timeout in if is_empty n then some a else rest

pub serial_write_char : {S : Type 0} → (ℕ → S → S) → (ℕ → Bool) → ℕ → S → Option ℕ × S
unfolding send_from
serial_write_char vga_put_char is_empty a screen =
    (send_from is_empty a 0 50000, vga_put_char a screen)
