-- ===== src/Pmm.antt =====
-- malloc.c, the physical page manager: a stack of free 2 MB blocks.
-- `free_blocks[0 .. free_blocks_count)` is the list `blocks`, its last entry the top of the stack.
pub mod Contiguous
pub mod Ownership
pub mod Init
pub mod Boot
pub mod Tests
use fae.Prelude.{
  ℕ, zero, suc, ◌+◌, ◌-◌, ◌%◌, ◌^◌, Bool, true, false, ◌&&◌, u32, Option, none, some, List, [], ◌∷◌,
  ◌++◌, ltb, leb, ◌==◌, if◌then◌else◌, length, get_elem?, get_or, take, drop, u64,
}

-- PAGE_SIZE_2MB
abbrev pub page_size : ℕ
page_size = 2097152

-- MAX_FREE_BLOCKS
abbrev pub max_free_blocks : ℕ
max_free_blocks = 65536

pub record Pmm : Type 0 where
  pub blocks : List ℕ
  pub total_ram_bytes : ℕ

-- The list without its last entry.
pub pop_last : List ℕ → List ℕ
pop_last [] = []
pop_last (x ∷ []) = []
pop_last (x ∷ y ∷ xs) = x ∷ pop_last (y ∷ xs)

-- `pmm_alloc_page`; `none` is NULL.
pub alloc_page : Pmm → Option ℕ × Pmm
unfolding pop_last
alloc_page p =
    if leb (length p.blocks) 0
    then (none, p)
    else (get_elem? p.blocks (length p.blocks - 1), record p { blocks = pop_last p.blocks })

-- `free_blocks[i + 1] == free_blocks[i] + PAGE_SIZE_2MB`. Behind the free list, where the loops come
-- only when `(int)count` is not the count, memory is taken for no page of a run.
abbrev pub is_next : List ℕ → ℕ → Bool
is_next bs i = ltb (i + 1) (length bs) && get_or bs (i + 1) 0 == u64 (get_or bs i 0 + page_size)

-- The loop over `j`: `left` entries from index `i` on each have the next one a page above.
pub run_from : List ℕ → ℕ → ℕ → Bool
run_from bs i zero = true
run_from bs i (suc left) =
    let rest = run_from bs (i + 1) left in if is_next bs i then rest else false

-- The loop over `i`, with `left` starts to try; `none` is its normal end.
pub find_run : List ℕ → ℕ → ℕ → ℕ → Option ℕ
find_run bs count i zero = none
find_run bs count i (suc left) =
    let rest = find_run bs count (i + 1) left in if run_from bs i (count - 1) then some i else rest

-- How often `i <= free_blocks_count - (int)count` holds, from 0 on: the cast takes the low 32 bits,
-- as a signed number. With more blocks wanted than there are, below 2 ^ 31, the loop has no round.
abbrev pub run_starts : ℕ → ℕ → ℕ
run_starts free_blocks_count count =
    if ltb (u32 count) (2 ^ 31)
    then free_blocks_count + 1 - u32 count
    else free_blocks_count + 1 + (2 ^ 32 - u32 count)

-- `pmm_alloc_contiguous`
-- The shift to the left closes the gap of `count` entries at `i`.
pub alloc_contiguous : Pmm → ℕ → Option ℕ × Pmm
unfolding run_from find_run alloc_page
alloc_contiguous p count =
    if count == 0
    then (none, p)
    else if count == 1
    then alloc_page p
    else elim (find_run p.blocks count 0 (run_starts (length p.blocks) count)) [
      | none ↦ (none, p)
      | some i ↦ (
        some (get_or p.blocks i 0),
        record p { blocks = take i p.blocks ++ drop (i + count) p.blocks },
      )
    ]

-- `pmm_free_page`.
pub free_page : Pmm → ℕ → Pmm
free_page p addr =
    if addr % page_size == 0
    then if ltb (length p.blocks) max_free_blocks
      then record p { blocks = p.blocks ++ (addr ∷ []) }
      else p
    else p
