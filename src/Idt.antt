-- ===== src/Idt.antt =====
-- idt.c, the interrupt descriptor table: `idt_set_gate` and the table that `idt_init` makes.
pub mod Gates
pub mod Tests
use fae.Prelude.{ℕ, zero, suc, ◌+◌, ◌-◌, ◌*◌, ◌/◌, ◌%◌, ◌^◌, Bool, true, false, ◌==◌, if◌then◌else◌}

-- `struct idt_entry`
pub record Entry : Type 0 where
  pub offset_low : ℕ
  pub selector : ℕ
  pub ist : ℕ
  pub type_attr : ℕ
  pub offset_mid : ℕ
  pub offset_high : ℕ
  pub zeros : ℕ

-- The entry that `idt_set_gate` stores.
abbrev pub gate : ℕ → ℕ → ℕ → Entry
gate base sel flags = record {
  offset_low = base % 2 ^ 16;
  selector = sel;
  ist = 0;
  type_attr = flags;
  offset_mid = base / 2 ^ 16 % 2 ^ 16;
  offset_high = base / 2 ^ 32 % 2 ^ 32;
  zeros = 0;
}

-- `idt_set_gate`
abbrev pub idt_set_gate : ℕ → ℕ → ℕ → ℕ → (ℕ → Entry) → ℕ → Entry
idt_set_gate num base sel flags idt i = if i == num then gate base sel flags else idt i

-- The clearing loop of `idt_init`, with `n` gates to go from `i` on.
pub clear_gates : ℕ → ℕ → (ℕ → Entry) → ℕ → Entry
clear_gates i zero idt = idt
clear_gates i (suc n) idt = clear_gates (i + 1) n (idt_set_gate i 0 0 0 idt)

-- What `idt_init` leaves in the table, by the addresses of the three service routines.
pub idt_init : ℕ → ℕ → ℕ → (ℕ → Entry) → ℕ → Entry
unfolding clear_gates
idt_init isr13 isr14 isr33 idt =
    idt_set_gate 33 isr33 0x08 0x8E
      (idt_set_gate 14 isr14 0x08 0x8E (idt_set_gate 13 isr13 0x08 0x8E (clear_gates 0 256 idt)))
