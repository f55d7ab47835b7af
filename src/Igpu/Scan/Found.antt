-- ===== src/Igpu/Scan/Found.antt =====
-- What the scan finds is an AMD display controller.
use fae.Prelude.{
  ℕ, zero, suc, ◌+◌, ◌<◌, ◌≤◌, ◌≡◌, arith, true, ◌&&◌, Option, none, some, ◌==◌, if_cases,
}
use fae.Igpu.Scan.{
  Place, or_else, is_amd_display, is_single, scan_funcs, scan_slots, scan_buses, scan,
}

module _ (read : ℕ → ℕ → ℕ → ℕ → ℕ) where
  -- The device there is an AMD display controller, at an address of the configuration space.
  abbrev pub IsDisplay : Place → Type 0
  IsDisplay p =
      (Place.bus p < 256)
      × (Place.slot p < 32)
      × (Place.func p < 8)
      × (is_amd_display read (Place.bus p) (Place.slot p) (Place.func p) ≡ true)

  abbrev pub FindsDisplay : Option Place → Type 0
  FindsDisplay none = Unit
  FindsDisplay (some p) = IsDisplay p

  or_else-FindsDisplay :
      (a b : Option Place) → FindsDisplay a → FindsDisplay b → FindsDisplay (or_else a b)
  or_else-FindsDisplay none b h k = k
  or_else-FindsDisplay (some p) b h k = h

  scan_funcs-FindsDisplay :
      (bus slot func n : ℕ)
      → bus < 256
      → slot < 32
      → func + n ≤ 8
      → FindsDisplay (scan_funcs read bus slot func n)
  unfolding scan_funcs
  scan_funcs-FindsDisplay bus slot func zero b s f = tt
  scan_funcs-FindsDisplay bus slot func (suc n) b s f =
      let rest = scan_funcs-FindsDisplay bus slot (func + 1) n b s (omega (arith, f)) in
      if_cases FindsDisplay (read bus slot func 0 == 0xFFFF) _ _
        (λ e. if_cases FindsDisplay (func == 0) _ _ (λ e. tt) (λ e. rest))
        (λ e.
          if_cases FindsDisplay (is_amd_display read bus slot func) _ _
            (λ e. (b, s, omega (arith, f), e))
            (λ e.
              if_cases FindsDisplay (func == 0 && is_single read bus slot) _ _ (λ e. tt)
                (λ e. rest)))

  scan_slots-FindsDisplay :
      (bus slot n : ℕ) → bus < 256 → slot + n ≤ 32 → FindsDisplay (scan_slots read bus slot n)
  unfolding scan_slots
  scan_slots-FindsDisplay bus slot zero b s = tt
  scan_slots-FindsDisplay bus slot (suc n) b s =
      or_else-FindsDisplay (scan_funcs read bus slot 0 8) (scan_slots read bus (slot + 1) n)
        (scan_funcs-FindsDisplay bus slot 0 8 b (omega (arith, s)) (omega arith))
        (scan_slots-FindsDisplay bus (slot + 1) n b (omega (arith, s)))

  scan_buses-FindsDisplay : (bus n : ℕ) → bus + n ≤ 256 → FindsDisplay (scan_buses read bus n)
  unfolding scan_buses
  scan_buses-FindsDisplay bus zero b = tt
  scan_buses-FindsDisplay bus (suc n) b =
      or_else-FindsDisplay (scan_slots read bus 0 32) (scan_buses read (bus + 1) n)
        (scan_slots-FindsDisplay bus 0 32 (omega (arith, b)) (omega arith))
        (scan_buses-FindsDisplay (bus + 1) n (omega (arith, b)))

-- Whatever the configuration space holds: a place that the scan settles on is one of its addresses,
-- with AMD's vendor number and the class of display controllers.
pub scan-FindsDisplay : (read : ℕ → ℕ → ℕ → ℕ → ℕ) → FindsDisplay read (scan read)
unfolding scan
scan-FindsDisplay read = scan_buses-FindsDisplay read 0 256 (omega arith)
