-- ===== src/Heap/Chain.antt =====
-- The chain of blocks as a tiling of one stretch of memory.
use fae.Prelude.{ℕ, ◌≤◌, ◌≡◌, arith, List, [], ◌∷◌, All}
use fae.Heap.{Block, block_end}

-- The blocks lie side by side in the order of the chain, from `a` up to `e`.
abbrev pub Tiles : ℕ → List Block → ℕ → Type 0
Tiles a [] e = a ≡ e
Tiles a (b ∷ bs) e = (b.addr ≡ a) × Tiles (block_end b) bs e

pub Tiles-le : (a : ℕ) (bs : List Block) (e : ℕ) → Tiles a bs e → a ≤ e
Tiles-le a [] e t = omega arith
Tiles-le a (b ∷ bs) e t = omega (arith, Tiles-le (block_end b) bs e t.1)

-- Each block ends before the ones behind it begin.
abbrev pub IsOrdered : List Block → Type 0
IsOrdered [] = Unit
IsOrdered (b ∷ bs) = All (λ c. block_end b ≤ c.addr) bs × IsOrdered bs

Tiles-All : (x a : ℕ) (bs : List Block) (e : ℕ) → Tiles a bs e → x ≤ a → All (λ c. x ≤ c.addr) bs
Tiles-All x a [] e t h = tt
Tiles-All x a (b ∷ bs) e t h = (omega arith, Tiles-All x (block_end b) bs e t.1 (omega arith))

pub Tiles-IsOrdered : (a : ℕ) (bs : List Block) (e : ℕ) → Tiles a bs e → IsOrdered bs
Tiles-IsOrdered a [] e t = tt
Tiles-IsOrdered a (b ∷ bs) e t = (
  Tiles-All (block_end b) (block_end b) bs e t.1 (omega arith),
  Tiles-IsOrdered (block_end b) bs e t.1,
)
