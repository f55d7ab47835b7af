-- ===== src/Shell/Input/Echo.antt =====
-- `serial_write_char` returns, and shows the character whatever the UART does.
use fae.Prelude.{ℕ, zero, suc, ◌+◌, ◌<◌, ◌≤◌, ◌≡◌, refl, ap, arith, Bool, true, some, if_cases}
use native.Mathlib.Decide.{ℕ_discrete}
use fae.Shell.Input.{send_from, serial_write_char}

send_from-some :
    (is_empty : ℕ → Bool) (a n k : ℕ) (timeout : ℕ)
    → n ≤ k
    → k < n + timeout
    → is_empty k ≡ true
    → send_from is_empty a n timeout ≡ some a
unfolding send_from
send_from-some is_empty a n k zero l h e = absurd (omega arith)
send_from-some is_empty a n k (suc timeout) l h e =
    if_cases (λ r. r ≡ some a) (is_empty n) _ _ (λ t. refl)
      (λ f. elim (ℕ_discrete n k) [
        | yes s ↦ absurd (cc (ap is_empty s, f, e))
        | no ne ↦ send_from-some is_empty a (n + 1) k timeout (omega arith) (omega arith) e
      ])

-- A transmitter that is empty at one of the first 50000 polls: the byte is sent, and the character
-- is put on the screen.
pub serial_write_char-sends :
    {S : Type 0} (vga_put_char : ℕ → S → S) (is_empty : ℕ → Bool) (a k : ℕ) (screen : S)
    → k < 50000
    → is_empty k ≡ true
    → serial_write_char vga_put_char is_empty a screen ≡ (some a, vga_put_char a screen)
unfolding serial_write_char
serial_write_char-sends vga_put_char is_empty a k screen h e =
    ap (λ sent. (sent, vga_put_char a screen))
      (send_from-some is_empty a 0 k 50000 (omega arith) (omega arith) e)
