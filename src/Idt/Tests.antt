-- ===== src/Idt/Tests.antt =====
-- The theorem on the interrupt table at concrete routines.
use fae.Prelude.{ℕ, ◌<◌, ◌≡◌, ◌≢◌, arith, true, false}
use fae.Idt.{Entry, gate, idt_init}
use fae.Idt.Gates.{handler_of, is_present, idt_init_lem}

abbrev idt_of_boot : ℕ → Entry
idt_of_boot = idt_init 0x101000 0x101020 0x101040 (λ i. gate 0 0 0)

idt_init_lem_example :
    (handler_of (idt_of_boot 13) ≡ 0x101000)
    × (handler_of (idt_of_boot 14) ≡ 0x101020)
    × (handler_of (idt_of_boot 33) ≡ 0x101040)
    × (is_present (idt_of_boot 13) ≡ true)
    × (is_present (idt_of_boot 14) ≡ true)
    × (is_present (idt_of_boot 33) ≡ true)
    × ((i : ℕ) → i < 256 → i ≢ 13 → i ≢ 14 → i ≢ 33 → is_present (idt_of_boot i) ≡ false)
idt_init_lem_example =
    idt_init_lem 0x101000 0x101020 0x101040 (λ i. gate 0 0 0) (omega arith) (omega arith)
      (omega arith)
