-- ===== src/Pmm/Init.antt =====
-- malloc.c, `pmm_init`: the free list from the boot loader's memory map.
pub mod Bounds
pub mod Complete
use fae.Prelude.{
  ℕ, zero, suc, ◌+◌, ◌-◌, ◌*◌, ◌/◌, ◌%◌, Bool, true, false, ◌&&◌, ◌||◌, Option, none, some, List,
  [], ◌∷◌, ◌++◌, ltb, leb, ◌==◌, if◌then◌else◌, length, u32, u64, align_down, Memory, load32,
  load64,
}
use fae.Pmm.{Pmm, page_size, max_free_blocks}
use fae.Sysinfo.Multiboot2.{Search, found, missing, out_of_fuel, find_tag}

-- An address range from its first byte up to the byte after its last.
pub record Range : Type 0 where
  pub first : ℕ
  pub past : ℕ

abbrev pub contains : Range → ℕ → Bool
contains r a = leb r.first a && ltb a r.past

-- The `continue` tests of the loop over blocks: below 1 MB, below the kernel's end, or starting in
-- a range that a module takes.
pub is_skipped : ℕ → List Range → ℕ → Bool
is_skipped kernel_end [] block = ltb block 0x100000 || ltb block kernel_end
is_skipped kernel_end (r ∷ rs) block = contains r block || is_skipped kernel_end rs block

module _ (kernel_end : ℕ) (taken : List Range) where
  -- The loop over the blocks of one entry, with `left` rounds to go. Both ends are multiples of the
  -- page size, so it has as many rounds as there are pages between them.
  pub add_blocks : ℕ → ℕ → List ℕ → List ℕ
  add_blocks zero block bs = bs
  add_blocks (suc left) block bs =
      let skip = add_blocks left (block + page_size) bs in
      let more = add_blocks left (block + page_size) (bs ++ (block ∷ [])) in
      if is_skipped kernel_end taken block
      then skip
      else if ltb (length bs) max_free_blocks
      then more
      else bs

  -- One entry of a memory map. Type 1 is usable RAM.
  unfoldable pub add_entry : ℕ → ℕ → ℕ → Pmm → Pmm
  unfolding add_blocks
  add_entry addr len type p =
      let start = align_down page_size (u64 (addr + (page_size - 1))) in
      let end = align_down page_size (u64 (addr + len)) in
      if type == 1
      then record {
        blocks = add_blocks ((end - start) / page_size) start p.blocks;
        total_ram_bytes = u64 (p.total_ram_bytes + len);
      }
      else p
