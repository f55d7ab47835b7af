-- ===== src/Boot/MemoryMap.antt =====
-- bootloader.c, the conversion of the firmware's memory map into `boot_info.mmap_entries`, and the loop
-- around `ExitBootServices`. A descriptor is what the firmware's map holds of it.

pub mod Handover
use fae.Prelude.{
  ℕ, zero, suc, ◌+◌, ◌-◌, ◌*◌, ◌/◌, Bool, true, false, ◌||◌, Option, List, [], ◌∷◌, ◌==◌, ltb,
  if◌then◌else◌, length, u32, u64,
}

-- `EFI_MEMORY_DESCRIPTOR`
pub record Descriptor : Type 0 where
  pub type : ℕ
  pub physical_start : ℕ
  pub number_of_pages : ℕ

-- `struct aios_mmap_entry`
pub record Entry : Type 0 where
  pub phys_addr : ℕ
  pub num_bytes : ℕ
  pub type : ℕ

-- EfiLoaderCode, EfiLoaderData, EfiBootServicesCode, EfiBootServicesData and EfiConventionalMemory.
unfoldable pub is_usable : ℕ → Bool
is_usable type = (type == 7) || (type == 1) || (type == 2) || (type == 3) || (type == 4)

-- What an entry says of a descriptor.
abbrev pub convert : Descriptor → Entry
convert d = record {
  phys_addr = Descriptor.physical_start d;
  num_bytes = u64 (Descriptor.number_of_pages d * 4096);
  type = if is_usable (Descriptor.type d) then 1 else 0;
}

-- The loop, with the entries it has left of its 128.
unfoldable pub convert_map : ℕ → List Descriptor → List Entry
unfolding is_usable
convert_map zero ds = []
convert_map (suc left) [] = []
convert_map (suc left) (d ∷ ds) = convert d ∷ convert_map left ds

-- The loop around `ExitBootServices`: whether one of the calls that are left succeeds. `succeeds` is the
-- firmware's answer to the call of that number. The entries stay those of the first map.
pub exit_boot_services : (ℕ → Bool) → ℕ → ℕ → Bool
exit_boot_services succeeds call zero = false
exit_boot_services succeeds call (suc retries) =
    if succeeds call then true else exit_boot_services succeeds (call + 1) retries
