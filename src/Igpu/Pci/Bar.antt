-- ===== src/Igpu/Pci/Bar.antt =====
-- `pci_get_bar_info` finds the base and the size of a BAR and puts its register back.
use fae.Prelude.{
  ℕ, ◌+◌, ◌-◌, ◌*◌, ◌/◌, ◌%◌, ◌^◌, ◌<◌, ◌≡◌, ◌≢◌, refl, arith, true, false, ◌==◌, align_down, u8,
  u64,
}
use fae.Igpu.Pci.{is_64_bit, bar_of_mask, pci_get_bar_info}

bar_of_mask_lem :
    (mask addr size t : ℕ)
    → 0 < size
    → size < 2 ^ 64
    → size % 16 ≡ 0
    → t < 16
    → mask ≡ 2 ^ 64 - size + t
    → bar_of_mask mask addr ≡ (addr, size)
unfolding bar_of_mask
bar_of_mask_lem mask addr size t p q r h e =
    let cut : align_down 16 mask ≡ 2 ^ 64 - size = omega (arith, p, q, r, h, e) in
    let some_bits : (2 ^ 64 - size == 0) ≡ false = ground arith in
    let back : u64 (2 ^ 64 - 1 - (2 ^ 64 - size) + 1) ≡ size = omega (arith, p, q) in
    rw (cut, some_bits, back) refl

-- A device of which bar `bar_idx` holds a base with the type bits `t` of a 32-bit memory BAR, and
-- answers a write of all ones with the mask of its size, a multiple of 16 below 2 ^ 32: the base
-- and the size are found, and the space left behind is that of two writes to the register, of all
-- ones and of its first contents.
pub pci_get_bar_info_32 :
    {C : Type 0} (read : C → ℕ → ℕ) (write : C → ℕ → ℕ → C) (bar_idx base size t : ℕ) (c : C)
    → bar_idx < 6
    → 0 < size
    → size < 2 ^ 32
    → size % 16 ≡ 0
    → base % 16 ≡ 0
    → t < 16
    → t / 2 % 4 ≢ 2
    → read c (0x10 + bar_idx * 4) ≡ base + t
    → read (write c (0x10 + bar_idx * 4) 0xFFFFFFFF) (0x10 + bar_idx * 4) ≡ 2 ^ 32 - size + t
    → pci_get_bar_info read write bar_idx c ≡ (
      (base, size),
      write (write c (0x10 + bar_idx * 4) 0xFFFFFFFF) (0x10 + bar_idx * 4) (base + t),
    )
unfolding pci_get_bar_info
pci_get_bar_info_32 read write bar_idx base size t c i p q r b h n first probed =
    let offset : u8 (0x10 + bar_idx * 4) ≡ 0x10 + bar_idx * 4 = omega (arith, i) in
    let narrow : is_64_bit (base + t) ≡ false = ground (arith, b, h, n) in
    let cut : align_down 16 (base + t) ≡ base = omega (arith, b, h) in
    let bar =
      bar_of_mask_lem (0xFFFFFFFF * 2 ^ 32 + (2 ^ 32 - size + t)) base size t p (omega (arith, q)) r
        h (omega (arith, q)) in
    rw (offset, first, narrow, probed, cut, bar) refl

-- A device of which bar `bar_idx` is a 64-bit memory BAR, its base and its mask in two registers,
-- and of which the two answers to writes of all ones make the mask of its size, a multiple of 16
-- below 2 ^ 64: the base and the size are found, and both registers are written back.
pub pci_get_bar_info_64 :
    {C : Type 0} (read : C → ℕ → ℕ) (write : C → ℕ → ℕ → C)
    (bar_idx low high size t mask_low mask_high : ℕ) (c c1 c2 : C)
    → bar_idx < 6
    → 0 < size
    → size < 2 ^ 64
    → size % 16 ≡ 0
    → low % 16 ≡ 0
    → t < 16
    → t / 2 % 4 ≡ 2
    → read c (0x10 + bar_idx * 4) ≡ low + t
    → read c (0x10 + bar_idx * 4 + 4) ≡ high
    → write c (0x10 + bar_idx * 4) 0xFFFFFFFF ≡ c1
    → read c1 (0x10 + bar_idx * 4) ≡ mask_low
    → write c1 (0x10 + bar_idx * 4 + 4) 0xFFFFFFFF ≡ c2
    → read c2 (0x10 + bar_idx * 4 + 4) ≡ mask_high
    → mask_high * 2 ^ 32 + mask_low ≡ 2 ^ 64 - size + t
    → pci_get_bar_info read write bar_idx c ≡ (
      (high * 2 ^ 32 + low, size),
      write (write c2 (0x10 + bar_idx * 4 + 4) high) (0x10 + bar_idx * 4) (low + t),
    )
unfolding pci_get_bar_info
pci_get_bar_info_64 read write bar_idx low high size t ml mh c c1 c2 i p q r b h n first second w1
      r1 w2 r2 e =
    let offset : u8 (0x10 + bar_idx * 4) ≡ 0x10 + bar_idx * 4 = omega (arith, i) in
    let wide : is_64_bit (low + t) ≡ true = ground (arith, b, h, n) in
    let cut : align_down 16 (low + t) ≡ low = omega (arith, b, h) in
    let bar = bar_of_mask_lem (mh * 2 ^ 32 + ml) (high * 2 ^ 32 + low) size t p q r h e in
    rw (offset, first, wide, second, w1, r1, w2, r2, cut, bar) refl
