-- ===== src/Heap/Tests.antt =====
-- The heap's theorems at concrete chains.
use fae.Prelude.{refl, arith, true, false, some, [], ◌∷◌}
use fae.Pmm.{Pmm}
use fae.Heap.{Block, Heap, free}
use fae.Heap.Release.{Freeing, free-Freeing}

abbrev no_pages : Pmm
no_pages = record { blocks = []; total_ram_bytes = 0 }

abbrev first_block : Block
first_block = record { addr = 0x200000; size = 40; is_free = false }

abbrev second_block : Block
second_block = record { addr = 0x200040; size = 1000; is_free = true }

abbrev small_heap : Heap
small_heap = record { pmm = no_pages; blocks = first_block ∷ second_block ∷ []; memory = λ a. 0 }

-- The first block is given back, and merged with the second.
free-Freeing_example :
    Freeing 0x200000 0x200440 0x200018 small_heap.blocks (free small_heap (some 0x200018)).blocks
free-Freeing_example =
    free-Freeing small_heap 0x200000 0x200440 0x200018 (omega arith) (refl, (refl, refl))

abbrev after_malloc : Heap
after_malloc = record {
  pmm = no_pages;
  blocks =
      first_block
      ∷ record { addr = 0x200040; size = 112; is_free = false }
      ∷ record { addr = 0x2000C8; size = 864; is_free = true }
      ∷ [];
  memory = λ a. 0;
}

-- Two blocks of which the second is a page further on.
abbrev far_block : Block
far_block = record { addr = 0x600000; size = 1000; is_free = true }

abbrev apart_heap : Heap
apart_heap = record { pmm = no_pages; blocks = first_block ∷ far_block ∷ []; memory = λ a. 0 }
