-- ===== src/Boot/Elf.antt =====
-- bootloader.c, the loading of the kernel's segments. `file` holds the bytes of kernel.bin. What the
-- firmware's `Read` answers is a parameter: an error, or the number of bytes that it has copied, which
-- may be fewer than it is asked for.
pub mod Copies
pub mod Segments
use fae.Prelude.{
  ℕ, zero, suc, ◌+◌, ◌-◌, ◌^◌, ◌<◌, ◌≤◌, ◌≡◌, ◌≢◌, ◌⊎◌, inl, inr, refl, ap, sym, ◌∙◌, arith, Bool,
  true, false, ◌&&◌, Bool-cases, if_cases, Option, none, some, List, [], ◌∷◌, ltb, leb, ◌==◌,
  if◌then◌else◌, ◌>>=◌, All, Memory, u32,
}
use fae.CString.{store8}

-- `Elf32_Phdr`, what is used of it.
pub record Phdr : Type 0 where
  pub p_type : ℕ
  pub p_offset : ℕ
  pub p_paddr : ℕ
  pub p_filesz : ℕ
  pub p_memsz : ℕ

-- The magic bytes.
pub is_elf : ℕ → ℕ → ℕ → ℕ → Bool
is_elf a b c d = a == 0x7F && b == 0x45 && c == 0x4C && d == 0x46

-- `bss_ptr[j] = 0`, from an address on.
pub zero_bss : ℕ → ℕ → Memory → Memory
zero_bss p zero m = m
zero_bss p (suc n) m = zero_bss (p + 1) n (store8 m p 0)

-- A read of some bytes of the file from a position to an address.
pub read_file : (ℕ → ℕ) → ℕ → ℕ → ℕ → Memory → Memory
read_file file offset p zero m = m
read_file file offset p (suc n) m = read_file file (offset + 1) (p + 1) n (store8 m p (file offset))

module _ (file : ℕ → ℕ) (read : Phdr → Option ℕ) where
  -- One round of the loop over the program headers: `none` is the return with the error. How many
  -- bytes have been read is not looked at.
  pub load_segment : Phdr → Memory → Option Memory
  unfolding zero_bss read_file
  load_segment h m =
      if Phdr.p_type h == 1
      then elim (read h) [
        | none ↦ none
        | some size ↦
            let loaded = read_file file (Phdr.p_offset h) (Phdr.p_paddr h) size m in
            some (
              if ltb (Phdr.p_filesz h) (Phdr.p_memsz h)
              then zero_bss (u32 (Phdr.p_paddr h + Phdr.p_filesz h))
                  (Phdr.p_memsz h - Phdr.p_filesz h) loaded
              else loaded)
      ]
      else some m

  pub load_segments : List Phdr → Memory → Option Memory
  unfolding load_segment
  load_segments [] m = some m
  load_segments (h ∷ hs) m = load_segment h m >>= load_segments hs
