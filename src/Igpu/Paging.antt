-- ===== src/Igpu/Paging.antt =====
-- igpu.c, `map_page_2mb` and `set_memory_cpu_access`, and the page walk of `pf_handler` in idt.c.
-- Memory is read and written by whole page table entries: a function from an entry's address to its
-- 64 bits.
pub mod Lock
use fae.Prelude.{
  ℕ, zero, suc, ◌+◌, ◌-◌, ◌*◌, ◌/◌, ◌%◌, Bool, true, false, not, ◌==◌, if◌then◌else◌, align_down,
}

abbrev pub Entries : Type 0
Entries = ℕ → ℕ

-- `PAGE_SIZE_2MB`
abbrev pub page_size_2mb : ℕ
page_size_2mb = 2097152

abbrev pub is_present : ℕ → Bool
is_present entry = entry % 2 == 1

abbrev pub set_entry : Entries → ℕ → ℕ → Entries
set_entry m a v x = if x == a then v else m x

-- `entry & ~0xFFF`: the table that an entry points at; and the address of a table's entry.
abbrev pub table_of : ℕ → ℕ
table_of entry = align_down 4096 entry

abbrev pub slot : ℕ → ℕ → ℕ
slot table i = table + 8 * i

-- The addresses of the second and third level entries of a page below 512 GB.
abbrev pub pdpt_slot : Entries → ℕ → ℕ → ℕ
pdpt_slot m pml4 page = slot (table_of (m pml4)) (page / 512)

abbrev pub pdt_slot : Entries → ℕ → ℕ → ℕ
pdt_slot m pml4 page = slot (table_of (m (pdpt_slot m pml4 page))) (page % 512)

-- `pdt[entry_idx] |= 1` and `pdt[entry_idx] &= ~1`
abbrev pub with_present : Bool → ℕ → ℕ
with_present true entry = entry - entry % 2 + 1
with_present false entry = entry - entry % 2

module _ (pml4 : ℕ) where
  -- One round of the loop of `set_memory_cpu_access`.
  pub set_page_access : Bool → ℕ → Entries → Entries
  set_page_access allowed page m =
      if page == 0
      then m
      else if not (is_present (m pml4))
      then m
      else if not (is_present (m (pdpt_slot m pml4 page)))
      then m
      else set_entry m (pdt_slot m pml4 page) (with_present allowed (m (pdt_slot m pml4 page)))

  -- The loop, with `n` pages to go from `page` on.
  pub set_pages_access : Bool → ℕ → ℕ → Entries → Entries
  unfolding set_page_access
  set_pages_access allowed page zero m = m
  set_pages_access allowed page (suc n) m =
      set_pages_access allowed (page + 1) n (set_page_access allowed page m)

  -- `set_memory_cpu_access`, for a range that does not wrap.
  pub set_memory_cpu_access : ℕ → ℕ → Bool → Entries → Entries
  unfolding set_pages_access
  set_memory_cpu_access addr size allowed m =
      set_pages_access allowed (addr / page_size_2mb)
        ((addr + size - 1) / page_size_2mb + 1 - addr / page_size_2mb) m

  -- `is_locked` of `pf_handler`, for the address that faulted.
  abbrev pub is_locked : Entries → ℕ → Bool
  is_locked m cr2 = not (is_present (m (pdt_slot m pml4 (cr2 / page_size_2mb))))
