-- ===== src/Heap.antt =====
-- malloc.c, the heap: `malloc`, `free`, `calloc`, `realloc`.
-- The chain of `struct malloc_header` from `heap_start` on is a list of blocks in the order of the
-- `next` links, each with the address of its header; NULL is the empty list, and as a pointer
-- `none`. The bytes of the blocks stand in `memory`.
pub mod Chain
pub mod Fit
pub mod Release
pub mod Malloc
pub mod Tests
use fae.Prelude.{
  ℕ, zero, suc, ◌+◌, ◌-◌, ◌*◌, ◌/◌, Bool, true, false, ◌&&◌, Option, none, some, List, [], ◌∷◌,
  ◌++◌, leb, ltb, ◌==◌, if◌then◌else◌, u64, align_down, Memory,
}
use fae.CString.{memset, memcpy}
use fae.Pmm.{Pmm, page_size, alloc_contiguous}

-- sizeof(struct malloc_header)
abbrev pub header_size : ℕ
header_size = 24

-- `struct malloc_header`, with its own address.
pub record Block : Type 0 where
  pub addr : ℕ
  pub size : ℕ
  pub is_free : Bool

-- The pointer that a caller has for a block, and the byte after the block's last.
abbrev pub payload : Block → ℕ
payload b = b.addr + header_size

abbrev pub block_end : Block → ℕ
block_end b = b.addr + header_size + b.size

pub record Heap : Type 0 where
  pub pmm : Pmm
  pub blocks : List Block
  pub memory : Memory

-- `request_space`
pub request_space : Pmm → ℕ → Option Block × Pmm
request_space p size =
    let pages_needed = u64 (u64 (size + header_size) + (page_size - 1)) / page_size in
    let (page, p') = alloc_contiguous p pages_needed in
    elim page [
      | none ↦ (none, p')
      | some a ↦ (
        some (record {
          addr = a;
          size = u64 (pages_needed * page_size) - header_size;
          is_free = false;
        }),
        p',
      )
    ]

-- What the search does with the block that it settles on: a rest of more than a header and 16 bytes
-- is split off as a free block.
pub carve : ℕ → Block → List Block
carve size b =
    if leb (size + header_size + 16) b.size
    then record b { size = size; is_free = false }
      ∷ record {
        addr = b.addr + header_size + size;
        size = b.size - size - header_size;
        is_free = true;
      }
      ∷ []
    else record b { is_free = false } ∷ []

-- The `while (curr)` loop: the first free block that is large enough; `none` is its normal end.
pub first_fit : ℕ → List Block → Option (ℕ × List Block)
first_fit size [] = none
first_fit size (b ∷ bs) =
    if b.is_free && leb size b.size
    then some (payload b, carve size b ++ bs)
    else elim (first_fit size bs) [ none ↦ none | some (ptr, bs') ↦ some (ptr, b ∷ bs') ]

-- "Align size to 16 bytes"
abbrev pub round16 : ℕ → ℕ
round16 size = align_down 16 (u64 (size + 15))

-- A new block goes to the end of the chain.
pub attach : Heap → Option Block × Pmm → Option ℕ × Heap
attach h (none, p) = (none, record h { pmm = p })
attach h (some b, p) = (some (payload b), record h { pmm = p; blocks = h.blocks ++ (b ∷ []) })

pub extend : Heap → ℕ → Option ℕ × Heap
unfolding request_space attach
extend h size = attach h (request_space h.pmm size)

-- `malloc`. The search of an empty chain finds nothing, as the early branch of the code.
pub malloc : Heap → ℕ → Option ℕ × Heap
unfolding first_fit carve extend
malloc h size = if size == 0 then (none, h) else elim (first_fit (round16 size) h.blocks) [
  | some (ptr, bs) ↦ (some ptr, record h { blocks = bs })
  | none ↦ extend h (round16 size)
]

-- `block->is_free = 1`, at the block that the pointer belongs to.
pub release : ℕ → List Block → List Block
release ptr [] = []
release ptr (b ∷ bs) =
    if payload b == ptr then record b { is_free = true } ∷ bs else b ∷ release ptr bs

-- The loop that merges free blocks, at `curr` with the blocks behind it.
pub coalesce_from : Block → List Block → List Block
coalesce_from curr [] = curr ∷ []
coalesce_from curr (b ∷ bs) =
    let merged =
      coalesce_from (record curr { size = u64 (curr.size + (header_size + b.size)) }) bs in
    let step = curr ∷ coalesce_from b bs in if curr.is_free && b.is_free then merged else step

pub coalesce : List Block → List Block
unfolding coalesce_from
coalesce [] = []
coalesce (b ∷ bs) = coalesce_from b bs

-- `free`
pub free : Heap → Option ℕ → Heap
unfolding release coalesce
free h none = h
free h (some ptr) = record h { blocks = coalesce (release ptr h.blocks) }

-- `calloc`: the product wraps.
pub calloc : Heap → ℕ → ℕ → Option ℕ × Heap
unfolding malloc
calloc h num size =
    let total = u64 (num * size) in
    let (ptr, h') = malloc h total in
    elim ptr [
      | none ↦ (none, h')
      | some a ↦ (some a, record h' { memory = memset h'.memory a 0 total })
    ]

-- `block->size` of the block that a pointer belongs to.
pub size_at : ℕ → List Block → ℕ
size_at ptr [] = 0
size_at ptr (b ∷ bs) = if payload b == ptr then b.size else size_at ptr bs

-- `realloc`
pub realloc : Heap → Option ℕ → ℕ → Option ℕ × Heap
unfolding malloc free size_at
realloc h none size = malloc h size
realloc h (some ptr) size =
    if size == 0
    then (none, free h (some ptr))
    else if leb size (size_at ptr h.blocks)
    then (some ptr, h)
    else let (new_ptr, h') = malloc h size in
      elim new_ptr [
        | none ↦ (none, h')
        | some a ↦ (
          some a,
          free (record h' { memory = memcpy h'.memory a ptr (size_at ptr h'.blocks) }) (some ptr),
        )
      ]
