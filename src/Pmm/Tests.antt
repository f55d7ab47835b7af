-- ===== src/Pmm/Tests.antt =====
-- The page manager's theorems at concrete lists of pages.
use fae.Prelude.{ℕ, ◌+◌, ◌<◌, ◌≤◌, ◌≡◌, refl, arith, some, [], ◌∷◌, Member}
use fae.Pmm.{Pmm, page_size, alloc_contiguous, find_run, run_from, free_page}
use fae.Pmm.Contiguous.{Takes, alloc_contiguous-Takes}
use fae.Pmm.Ownership.{World, take_pages, give_back, Reach, start, then_, Accounts, Reach-Accounts}
use fae.Pmm.Init.{Range, add_entry}
use fae.Pmm.Init.Complete.{Adds, add_entry-Adds, add_entry_overlaps_module}

abbrev three_pages : Pmm
three_pages = record { blocks = 0xA00000 ∷ 0x200000 ∷ 0x400000 ∷ []; total_ram_bytes = 0x600000 }

abbrev one_page : Pmm
one_page = record { blocks = 0xA00000 ∷ []; total_ram_bytes = 0x600000 }

two_in_a_row : alloc_contiguous three_pages 2 ≡ (some 0x200000, one_page)
unfolding alloc_contiguous find_run run_from
two_in_a_row = refl

alloc_contiguous-Takes_example : Takes three_pages 2 0x200000 one_page
alloc_contiguous-Takes_example =
    alloc_contiguous-Takes three_pages 2 0x200000 (omega arith) two_in_a_row

abbrev at_first : World
at_first = record { pmm = three_pages; held = [] }

abbrev given_back : World
given_back = record { pmm = free_page one_page 0x200000; held = 0x400000 ∷ [] }

-- Two pages are taken, and the first of them is given back.
two_steps : Reach at_first given_back
two_steps =
    then_ (then_ start (take_pages 2 0x200000 (omega arith) two_in_a_row))
      (give_back 0x200000 [] (0x400000 ∷ []))

at_first-Accounts : Accounts three_pages.blocks at_first
at_first-Accounts = record {
  each = λ x. omega arith;
  size = refl;
  free_aligned = (refl, (refl, (refl, tt)));
  held_aligned = tt;
}

Reach-Accounts_example : Accounts three_pages.blocks given_back
Reach-Accounts_example = Reach-Accounts (omega arith) at_first-Accounts two_steps

-- 8 MB of RAM from 1 MB on, with a kernel that ends at 3 MB and a module from 6 MB to 7 MB.
abbrev module_range : Range
module_range = record { first = 0x600000; past = 0x700000 }

add_entry-Adds_example :
    Adds 0x300000
      (module_range ∷ [])
      0x100000
      0x800000
      one_page
      (add_entry 0x300000 (module_range ∷ []) 0x100000 0x800000 1 one_page)
add_entry-Adds_example =
    add_entry-Adds 0x300000 (module_range ∷ []) 0x100000 0x800000 one_page (omega arith)
      (omega arith)

-- The same with a module from 5 MB to 7 MB: the block at 4 MB is listed, and the module's first
-- megabyte is in it.
abbrev unaligned_range : Range
unaligned_range = record { first = 0x500000; past = 0x700000 }

add_entry_overlaps_module_example :
    (b : ℕ) × Member b
      (add_entry 0x300000 (unaligned_range ∷ []) 0x100000 0x800000 1 one_page).blocks
    × (b ≤ 0x500000)
    × (0x500000 < b + page_size)
add_entry_overlaps_module_example =
    add_entry_overlaps_module 0x300000 0x100000 0x800000 unaligned_range one_page (omega arith)
      (omega arith) (omega arith) (omega arith) (omega arith) (omega arith) (omega arith)
