-- ===== src/Heap/Malloc.antt =====
-- `malloc` as a whole: from the chain, or from fresh pages.
use fae.Prelude.{ℕ, ◌+◌, ◌-◌, ◌*◌, ◌/◌, ◌≤◌, ◌≡◌, false, some, [], ◌∷◌, ◌++◌, All, u64}
use fae.Pmm.{Pmm, page_size, alloc_contiguous}
use fae.Heap.{Block, Heap, header_size, payload}
use fae.Heap.Fit.{fits}

-- The new block is what the page manager gave, its header included, and the chain's last.
pub record Extends (size : ℕ) (h : Heap) (ptr : ℕ) (h' : Heap) : Type 0 where
  pub none_fit : All (λ b. fits size b ≡ false) h.blocks
  pub block : Block
  pub pages : ℕ
  pub last : h'.blocks ≡ h.blocks ++ (block ∷ [])
  pub pointer : payload block ≡ ptr
  pub in_use : block.is_free ≡ false
  pub large : size ≤ block.size
  pub whole : header_size + block.size ≡ pages * page_size
  pub fresh : alloc_contiguous h.pmm pages ≡ (some block.addr, h'.pmm)

abbrev pages_for : ℕ → ℕ
pages_for size = u64 (u64 (size + header_size) + (page_size - 1)) / page_size
