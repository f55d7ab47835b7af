-- ===== src/Idt/Gates.antt =====
-- The table that `idt_init` leaves, read the way the processor reads it.
use fae.Prelude.{
  ℕ, zero, suc, ◌+◌, ◌*◌, ◌/◌, ◌%◌, ◌^◌, ◌<◌, ◌≤◌, ◌≡◌, ◌≢◌, refl, ap, ◌∙◌, arith, Bool, true,
  false, ◌==◌,
}
use native.Mathlib.Decide.{ℕ_discrete}
use fae.Idt.{Entry, gate, idt_set_gate, clear_gates, idt_init}

-- The handler's address in an entry, and whether the entry is present.
abbrev pub handler_of : Entry → ℕ
handler_of e = Entry.offset_low e + Entry.offset_mid e * 2 ^ 16 + Entry.offset_high e * 2 ^ 32

abbrev pub is_present : Entry → Bool
is_present e = Entry.type_attr e / 2 ^ 7 % 2 == 1

gate-handler : (base sel flags : ℕ) → base < 2 ^ 64 → handler_of (gate base sel flags) ≡ base
gate-handler base sel flags h = omega arith

set_here :
    (num i base sel flags : ℕ) (idt : ℕ → Entry)
    → i ≡ num
    → idt_set_gate num base sel flags idt i ≡ gate base sel flags
set_here num i base sel flags idt e = let t : (i == num) ≡ true = ground arith in rw t refl

set_other :
    (num i base sel flags : ℕ) (idt : ℕ → Entry)
    → i ≢ num
    → idt_set_gate num base sel flags idt i ≡ idt i
set_other num i base sel flags idt e = let t : (i == num) ≡ false = ground arith in rw t refl

clear_gates-out : (s n i : ℕ) (idt : ℕ → Entry) → i < s → clear_gates s n idt i ≡ idt i
unfolding clear_gates
clear_gates-out s zero i idt h = refl
clear_gates-out s (suc n) i idt h =
    clear_gates-out (s + 1) n i _ (omega arith) ∙ set_other s i 0 0 0 idt (omega arith)

clear_gates-in :
    (s n i : ℕ) (idt : ℕ → Entry) → s ≤ i → i < s + n → clear_gates s n idt i ≡ gate 0 0 0
unfolding clear_gates
clear_gates-in s zero i idt l h = absurd (omega arith)
clear_gates-in s (suc n) i idt l h = elim (ℕ_discrete i s) [
  | yes e ↦ clear_gates-out (s + 1) n i _ (omega arith) ∙ set_here s i 0 0 0 idt e
  | no ne ↦ clear_gates-in (s + 1) n i _ (omega arith) (omega arith)
]

-- In the table that `idt_init` leaves, whatever it held: the entries 13, 14 and 33 are present and
-- hold the 64-bit addresses of the routines given for them, and every other of the 256 entries is
-- not present.
pub idt_init_lem :
    (isr13 isr14 isr33 : ℕ) (idt : ℕ → Entry)
    → isr13 < 2 ^ 64
    → isr14 < 2 ^ 64
    → isr33 < 2 ^ 64
    → (handler_of (idt_init isr13 isr14 isr33 idt 13) ≡ isr13)
      × (handler_of (idt_init isr13 isr14 isr33 idt 14) ≡ isr14)
      × (handler_of (idt_init isr13 isr14 isr33 idt 33) ≡ isr33)
      × (is_present (idt_init isr13 isr14 isr33 idt 13) ≡ true)
      × (is_present (idt_init isr13 isr14 isr33 idt 14) ≡ true)
      × (is_present (idt_init isr13 isr14 isr33 idt 33) ≡ true)
      × ((i : ℕ)
          → i < 256
          → i ≢ 13
          → i ≢ 14
          → i ≢ 33
          → is_present (idt_init isr13 isr14 isr33 idt i) ≡ false)
unfolding idt_init
idt_init_lem isr13 isr14 isr33 idt a b c =
    let clear : ℕ → Entry = clear_gates 0 256 idt in
    let one : ℕ → Entry = idt_set_gate 13 isr13 0x08 0x8E clear in
    let two : ℕ → Entry = idt_set_gate 14 isr14 0x08 0x8E one in
    (
      gate-handler isr13 0x08 0x8E a,
      gate-handler isr14 0x08 0x8E b,
      gate-handler isr33 0x08 0x8E c,
      refl,
      refl,
      refl,
      λ i l x y z. ap is_present (
          set_other 33 i isr33 0x08 0x8E two z
          ∙ set_other 14 i isr14 0x08 0x8E one y
          ∙ set_other 13 i isr13 0x08 0x8E clear x
          ∙ clear_gates-in 0 256 i idt (omega arith) l),
    )
