-- ===== src/Igpu/Scan.antt =====
-- igpu.c, the scan of `igpu_init` for an AMD display controller.
-- `read bus slot func offset` is what `pci_read_word` gives.
pub mod Found
use fae.Prelude.{
  ℕ, zero, suc, ◌+◌, ◌-◌, ◌*◌, ◌/◌, ◌%◌, Bool, true, false, not, ◌&&◌, Option, none, some, ◌==◌,
  if◌then◌else◌,
}

-- `gpu_bus`, `gpu_slot` and `gpu_func`.
pub record Place : Type 0 where
  pub bus : ℕ
  pub slot : ℕ
  pub func : ℕ

-- The next place to look at when there is none yet.
abbrev pub or_else : Option Place → Option Place → Option Place
or_else none rest = rest
or_else (some p) rest = some p

module _ (read : ℕ → ℕ → ℕ → ℕ → ℕ) where
  abbrev pub is_amd_display : ℕ → ℕ → ℕ → Bool
  is_amd_display bus slot func =
      read bus slot func 0 == 0x1002 && read bus slot func 0x0A / 256 % 256 == 0x03

  abbrev pub is_single : ℕ → ℕ → Bool
  is_single bus slot = read bus slot 0 0x0E / 128 % 2 == 0

  -- The loop over the functions of a device, with `n` to go from `func` on.
  pub scan_funcs : ℕ → ℕ → ℕ → ℕ → Option Place
  scan_funcs bus slot func zero = none
  scan_funcs bus slot func (suc n) =
      let rest = scan_funcs bus slot (func + 1) n in
      if read bus slot func 0 == 0xFFFF
      then if func == 0 then none else rest
      else if is_amd_display bus slot func
      then some (record { bus = bus; slot = slot; func = func })
      else if func == 0 && is_single bus slot
      then none
      else rest

  pub scan_slots : ℕ → ℕ → ℕ → Option Place
  unfolding scan_funcs
  scan_slots bus slot zero = none
  scan_slots bus slot (suc n) = or_else (scan_funcs bus slot 0 8) (scan_slots bus (slot + 1) n)

  pub scan_buses : ℕ → ℕ → Option Place
  unfolding scan_slots
  scan_buses bus zero = none
  scan_buses bus (suc n) = or_else (scan_slots bus 0 32) (scan_buses (bus + 1) n)

  -- The loops of `igpu_init`.
  pub scan : Option Place
  unfolding scan_buses
  scan = scan_buses 0 256
