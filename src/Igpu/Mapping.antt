-- ===== src/Igpu/Mapping.antt =====
-- igpu.c, `map_page_2mb` and `map_range_2mb`: new entries in the kernel's page tables.
-- When no page is left for a table the function returns early, with what it stored before.
use fae.Prelude.{
  ℕ, zero, suc, ◌+◌, ◌-◌, ◌*◌, ◌/◌, ◌%◌, ◌^◌, Bool, true, false, ◌&&◌, Option, none, some, leb, ltb,
  ◌==◌, if◌then◌else◌,
}
use fae.Pmm.{Pmm, alloc_page}
use fae.Igpu.Paging.{Entries, page_size_2mb, is_present, set_entry, table_of, slot}

-- `memset(page, 0, 4096)`, by entries.
abbrev pub zero_table : Entries → ℕ → Entries
zero_table m page a = if leb page a && ltb a (page + 4096) then 0 else m a

-- A page fetched for a table when the entry that points at it is not present.
abbrev pub new_table : ℕ → Entries → Option ℕ × Pmm → Bool × Entries × Pmm
new_table entry m (none, p) = (false, m, p)
new_table entry m (some page, p) = (true, set_entry (zero_table m page) entry (page + 3), p)

abbrev pub ensure_table : ℕ → Entries → Pmm → Bool × Entries × Pmm
ensure_table entry m p =
    if is_present (m entry) then (true, m, p) else new_table entry m (alloc_page p)

module _ (pml4 : ℕ) where
  abbrev pub pml4_slot : ℕ → ℕ
  pml4_slot virt = slot pml4 (virt / 2 ^ 39 % 512)

  abbrev pub second_slot : Entries → ℕ → ℕ
  second_slot m virt = slot (table_of (m (pml4_slot virt))) (virt / 2 ^ 30 % 512)

  abbrev pub third_slot : Entries → ℕ → ℕ
  third_slot m virt = slot (table_of (m (second_slot m virt))) (virt / 2 ^ 21 % 512)

  -- The last store, when the tables are there. `phys` is a multiple of 2 MB and the flags are below
  -- 0x80, so that `|` is a sum.
  abbrev pub set_leaf : ℕ → ℕ → ℕ → Bool × Entries × Pmm → Entries × Pmm
  set_leaf phys virt flags (false, m, p) = (m, p)
  set_leaf phys virt flags (true, m, p) = (set_entry m (third_slot m virt) (phys + flags + 0x80), p)

  abbrev pub with_third : ℕ → ℕ → ℕ → Bool × Entries × Pmm → Entries × Pmm
  with_third phys virt flags (false, m, p) = (m, p)
  with_third phys virt flags (true, m, p) =
      set_leaf phys virt flags (ensure_table (second_slot m virt) m p)

  -- `map_page_2mb`
  pub map_page_2mb : ℕ → ℕ → ℕ → Entries × Pmm → Entries × Pmm
  map_page_2mb phys virt flags (m, p) =
      with_third phys virt flags (ensure_table (pml4_slot virt) m p)

  -- The loop of `map_range_2mb`, with `n` pages to go from `page` on.
  pub map_pages : ℕ → ℕ → ℕ → Entries × Pmm → Entries × Pmm
  unfolding map_page_2mb
  map_pages flags page zero s = s
  map_pages flags page (suc n) s =
      map_pages flags (page + 1) n
        (map_page_2mb (page * page_size_2mb) (page * page_size_2mb) flags s)

  -- `map_range_2mb`, for a range that does not wrap; device registers are mapped uncached.
  pub map_range_2mb : ℕ → ℕ → Bool → Entries × Pmm → Entries × Pmm
  unfolding map_pages
  map_range_2mb start_addr size is_mmio s =
      if size == 0
      then s
      else map_pages (if is_mmio then 0x1B else 3) (start_addr / page_size_2mb)
          ((start_addr + size - 1) / page_size_2mb + 1 - start_addr / page_size_2mb) s
