-- ===== src/Pmm/Boot.antt =====
-- malloc.c, `pmm_init`: the three boot protocols' memory maps, read from memory.
-- `none` is a loop that does not come to its end.
use fae.Prelude.{
  ℕ, zero, suc, ◌+◌, ◌-◌, ◌/◌, ◌%◌, Bool, ◌&&◌, Option, none, some, List, [], ◌∷◌, ◌++◌, max, ltb,
  ◌==◌, if◌then◌else◌, u32, u64, align_down, Memory, load32, load64, not,
}
use fae.Pmm.{Pmm, page_size}
use fae.Pmm.Init.{Range, add_entry}
use fae.Sysinfo.Multiboot2.{found, missing, out_of_fuel, find_tag}

-- The magic numbers of the boot loaders.
abbrev pub uefi_magic : ℕ
uefi_magic = 0xAE105E1F

abbrev pub multiboot2_magic : ℕ
multiboot2_magic = 0x36d76289

abbrev pub has_bit : ℕ → ℕ → Bool
has_bit k flags = flags / k % 2 == 1

abbrev pub no_range : Range
no_range = record { first = 0; past = 0 }

-- Without a map: 64 blocks above the kernel and the module, and 128 MB claimed.
fallback_blocks : ℕ → ℕ → List ℕ
fallback_blocks zero block = []
fallback_blocks (suc left) block = block ∷ fallback_blocks left (u64 (block + page_size))

pub fallback : ℕ → Range → Pmm → Pmm
unfolding fallback_blocks
fallback kernel_end mod_range p =
    let start = align_down page_size (u64 (max kernel_end mod_range.past + (page_size - 1))) in
    record { blocks = p.blocks ++ fallback_blocks 64 start; total_ram_bytes = 134217728 }

module _ (m : Memory) (kernel_end : ℕ) where
  -- `struct aios_boot_info`: entries of 24 bytes from offset 64 on.
  unfoldable pub uefi_entries : List Range → ℕ → ℕ → Pmm → Pmm
  uefi_entries taken zero entry p = p
  uefi_entries taken (suc left) entry p =
      uefi_entries taken left (entry + 24) (
        add_entry kernel_end taken (load64 m entry) (load64 m (entry + 8)) (load32 m (entry + 16))
          p)

  abbrev pub uefi_taken : ℕ → List Range
  uefi_taken info =
      let model = load64 m (info + 24) in
      let instruct = load64 m (info + 40) in
      record { first = model; past = u64 (model + load64 m (info + 32)) }
      ∷ record { first = instruct; past = u64 (instruct + load64 m (info + 48)) }
      ∷ []

  unfoldable pub init_uefi : ℕ → Pmm → Pmm
  unfolding uefi_entries
  init_uefi info p =
      if info == 0 then p else uefi_entries (uefi_taken info) (load32 m (info + 56)) (info + 64) p

  -- The Multiboot2 entries are `entry_size` bytes apart, whatever the loader says that is.
  pub multiboot2_entries : Range → ℕ → ℕ → ℕ → ℕ → Pmm → Option Pmm
  multiboot2_entries mod_range entry_size end zero ptr p = none
  multiboot2_entries mod_range entry_size end (suc fuel) ptr p =
      let p' =
        add_entry kernel_end (mod_range ∷ []) (load64 m ptr) (load64 m (ptr + 8))
          (load32 m (ptr + 16)) p in
      let rest = multiboot2_entries mod_range entry_size end fuel (ptr + entry_size) p' in
      if ltb ptr end then rest else some p

  multiboot2_map : ℕ → Range → Pmm → Option Pmm
  unfolding multiboot2_entries
  multiboot2_map addr mod_range p = elim (find_tag m addr 6) [
    | out_of_fuel ↦ none
    | missing ↦ some (fallback kernel_end mod_range p)
    | found tag ↦
        multiboot2_entries mod_range (load32 m (tag + 8)) (tag + load32 m (tag + 4))
          (load32 m (tag + 4) + 1) (tag + 16) p
  ]

  pub init_multiboot2 : ℕ → Pmm → Option Pmm
  unfolding multiboot2_map
  init_multiboot2 addr p = elim (find_tag m addr 3) [
    | out_of_fuel ↦ none
    | missing ↦ multiboot2_map addr no_range p
    | found tag ↦
        multiboot2_map addr (record { first = load32 m (tag + 8); past = load32 m (tag + 12) }) p
  ]

  -- The Multiboot1 entries state their own size, which does not count its own 4 bytes.
  pub multiboot1_entries : Range → ℕ → ℕ → ℕ → Pmm → Option Pmm
  multiboot1_entries mod_range end zero ptr p = none
  multiboot1_entries mod_range end (suc fuel) ptr p =
      let p' =
        add_entry kernel_end (mod_range ∷ []) (load64 m (ptr + 4)) (load64 m (ptr + 12))
          (load32 m (ptr + 20)) p in
      let rest = multiboot1_entries mod_range end fuel (u64 (ptr + load32 m ptr + 4)) p' in
      if ltb ptr end then rest else some p

  multiboot1_module : ℕ → Range
  multiboot1_module mbi =
      if not (mbi == 0) && (has_bit 8 (load32 m mbi) && ltb 0 (load32 m (mbi + 20)))
      then record {
        first = load32 m (load32 m (mbi + 24));
        past = load32 m (load32 m (mbi + 24) + 4);
      }
      else no_range

  pub init_multiboot1 : ℕ → Pmm → Option Pmm
  unfolding multiboot1_module multiboot1_entries
  init_multiboot1 mbi p =
      if not (mbi == 0) && has_bit 64 (load32 m mbi)
      then multiboot1_entries (multiboot1_module mbi)
          (u32 (load32 m (mbi + 48) + load32 m (mbi + 44))) (load32 m (mbi + 44) + 1)
          (load32 m (mbi + 48)) p
      else some (fallback kernel_end (multiboot1_module mbi) p)

  -- `pmm_init`
  pub init : ℕ → ℕ → Pmm → Option Pmm
  unfolding init_uefi init_multiboot2 init_multiboot1
  init magic addr p =
      if magic == uefi_magic
      then some (init_uefi addr p)
      else if magic == multiboot2_magic
      then init_multiboot2 addr p
      else init_multiboot1 addr p
