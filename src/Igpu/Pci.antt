-- ===== src/Igpu/Pci.antt =====
-- igpu.c, the PCI configuration space and the command ring: `pci_get_bar_info`,
-- `pm4_packet3_header`, `amd_gpu_ring_write`.
-- A device's configuration space is a parameter: its states, and what a read or a write of a
-- double word at an offset does.
pub mod Bar
use fae.Prelude.{
  ℕ, zero, suc, ◌+◌, ◌-◌, ◌*◌, ◌/◌, ◌%◌, ◌^◌, Bool, true, false, ◌==◌, if◌then◌else◌, align_down,
  u8, u32, u64,
}

-- The address that is put in 0xCF8. The fields do not overlap, so that `|` is a sum.
abbrev pub config_address : ℕ → ℕ → ℕ → ℕ → ℕ
config_address bus slot func offset =
    2 ^ 31 + bus * 2 ^ 16 + slot * 2 ^ 11 + func * 2 ^ 8 + offset / 4 % 64 * 4

-- `pci_read_word`, of the double word that is read.
abbrev pub read_word : ℕ → ℕ → ℕ
read_word dword offset = dword / 2 ^ (offset / 2 % 2 * 16) % 2 ^ 16

-- `(orig_low & 0x6) == 0x4`
abbrev pub is_64_bit : ℕ → Bool
is_64_bit orig_low = orig_low / 2 % 4 == 2

-- The end of `pci_get_bar_info`: the address and the size, from the mask and the original address.
pub bar_of_mask : ℕ → ℕ → ℕ × ℕ
bar_of_mask mask addr =
    if align_down 16 mask == 0 then (0, 0) else (addr, u64 (2 ^ 64 - 1 - align_down 16 mask + 1))

module _ {C : Type 0} (read : C → ℕ → ℕ) (write : C → ℕ → ℕ → C) where
  -- The probe of a 32-bit BAR, and of a 64-bit one, with the configuration space left behind.
  abbrev pub probe_32 : ℕ → ℕ → C → (ℕ × ℕ) × C
  probe_32 offset orig_low c =
      let c1 = write c offset 0xFFFFFFFF in
      let mask_low = read c1 offset in
      let c2 = write c1 offset orig_low in
      (bar_of_mask (0xFFFFFFFF * 2 ^ 32 + mask_low) (align_down 16 orig_low), c2)

  abbrev pub probe_64 : ℕ → ℕ → ℕ → C → (ℕ × ℕ) × C
  probe_64 offset orig_low orig_high c =
      let c1 = write c offset 0xFFFFFFFF in
      let mask_low = read c1 offset in
      let c2 = write c1 (offset + 4) 0xFFFFFFFF in
      let mask_high = read c2 (offset + 4) in
      let c3 = write c2 (offset + 4) orig_high in
      let c4 = write c3 offset orig_low in
      (
        bar_of_mask (mask_high * 2 ^ 32 + mask_low) (orig_high * 2 ^ 32 + align_down 16 orig_low),
        c4,
      )

  -- `pci_get_bar_info`
  pub pci_get_bar_info : ℕ → C → (ℕ × ℕ) × C
  pci_get_bar_info bar_idx c =
      let offset = u8 (0x10 + bar_idx * 4) in
      if is_64_bit (read c offset)
      then probe_64 offset (read c offset) (read c (offset + 4)) c
      else probe_32 offset (read c offset) c

-- `pm4_packet3_header`
abbrev pub pm4_packet3_header : ℕ → ℕ → ℕ
pm4_packet3_header opcode count =
    3 * 2 ^ 30 + u32 (count + (2 ^ 32 - 1)) % 2 ^ 14 * 2 ^ 16 + opcode % 2 ^ 8 * 2 ^ 8

-- `ring_buffer` (by its double words) and `ring_wptr`; `amd_gpu_ring_write`.
pub record Ring : Type 0 where
  pub buffer : ℕ → ℕ
  pub wptr : ℕ

abbrev pub ring_size_dwords : ℕ
ring_size_dwords = 0x8000

abbrev pub amd_gpu_ring_write : ℕ → Ring → Ring
amd_gpu_ring_write val r = record {
  buffer = λ i. if i == Ring.wptr r then val else Ring.buffer r i;
  wptr = (Ring.wptr r + 1) % ring_size_dwords;
}
