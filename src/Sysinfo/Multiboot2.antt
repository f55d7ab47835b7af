-- ===== src/Sysinfo/Multiboot2.antt =====
-- sysinfo.c, `sysinfo_find_multiboot2_tag`: the walk along the boot loader's tags.
pub mod Laws
use mathlib.Core.Bool.{Bool}
use fae.Prelude.{ℕ, zero, suc, ◌+◌, ◌&&◌, ltb, ◌==◌, if◌then◌else◌, Memory, load32, u32, align_down}

-- How a search ends: with an address, with NULL, or not within the fuel.
pub data Search : Type 0 where
  found : ℕ → Search
  missing : Search
  out_of_fuel : Search

module _ (m : Memory) where
  -- The tag that ends the list: type 0 and size 8.
  abbrev pub is_end_tag : ℕ → Bool
  is_end_tag ptr = load32 m ptr == 0 && load32 m (ptr + 4) == 8

  -- `ptr += (tag->size + 7) & ~7`, which is computed in 32 bits.
  abbrev pub next_tag : ℕ → ℕ
  next_tag ptr = ptr + align_down 8 (u32 (load32 m (ptr + 4) + 7))

  -- The `while` loop. A tag of size 0 would keep it on the same address.
  pub find_tag_from : ℕ → ℕ → ℕ → ℕ → Search
  find_tag_from type end zero ptr = out_of_fuel
  find_tag_from type end (suc fuel) ptr =
      let rest = find_tag_from type end fuel (next_tag ptr) in
      if ltb ptr end
      then if is_end_tag ptr then missing else if load32 m ptr == type then found ptr else rest
      else missing

  -- `sysinfo_find_multiboot2_tag`: every round of a list without empty tags moves on by 8 bytes
  -- at least, so the list's size is fuel enough.
  pub find_tag : ℕ → ℕ → Search
  unfolding find_tag_from
  find_tag addr type =
      if addr == 0
      then missing
      else find_tag_from type (addr + load32 m addr) (load32 m addr + 1) (addr + 8)
