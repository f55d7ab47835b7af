-- ===== src/Heap/Release.antt =====
-- `free`: the block is given back, and the free blocks of the chain are merged.
use fae.Prelude.{
  ℕ, ◌+◌, ◌≤◌, ◌<◌, ◌^◌, ◌≡◌, ◌≢◌, refl, subst, inl, inr, arith, false, ◌&&◌, some, List, [], ◌∷◌,
  ◌==◌, All-Member, Member, Bool-cases, u64,
}
use fae.Heap.{Block, Heap, header_size, payload, block_end, release, coalesce_from, coalesce, free}
use fae.Heap.Chain.{Tiles, Tiles-le, Tiles-IsOrdered, IsOrdered}

-- No two neighbours in the chain are both free.
abbrev pub IsMerged : List Block → Type 0
IsMerged [] = Unit
IsMerged (b ∷ []) = Unit
IsMerged (b ∷ c ∷ bs) = ((b.is_free && c.is_free) ≡ false) × IsMerged (c ∷ bs)

release-Tiles : (ptr a : ℕ) (bs : List Block) (e : ℕ) → Tiles a bs e → Tiles a (release ptr bs) e
unfolding release
release-Tiles ptr a [] e t = t
release-Tiles ptr a (b ∷ bs) e t = elim (Bool-cases (payload b == ptr)) [
  | inl hit ↦ rw hit (t.0, t.1)
  | inr miss ↦ rw miss (t.0, release-Tiles ptr (block_end b) bs e t.1)
]

coalesce_from-Tiles :
    (a : ℕ) (c : Block) (bs : List Block) (e : ℕ)
    → e < 2 ^ 64
    → Tiles a (c ∷ bs) e
    → Tiles a (coalesce_from c bs) e
unfolding coalesce_from
coalesce_from-Tiles a c [] e h t = t
coalesce_from-Tiles a c (b ∷ bs) e h t = elim (Bool-cases (c.is_free && b.is_free)) [
  | inl both ↦
      let bound : block_end b ≤ e = Tiles-le (block_end b) bs e t.1.1 in
      let joined : block_end b ≡ c.addr + header_size + u64 (c.size + (header_size + b.size)) =
        omega (arith, t.1.0) in
      rw both (
        coalesce_from-Tiles a (record c { size = u64 (c.size + (header_size + b.size)) }) bs e h
          (t.0, subst (λ z. Tiles z bs e) joined t.1.1))
  | inr other ↦ rw other (t.0, coalesce_from-Tiles (block_end c) b bs e h t.1)
]

coalesce_from-IsMerged :
    (x c : Block) (bs : List Block)
    → (x.is_free && c.is_free) ≡ false
    → IsMerged (x ∷ coalesce_from c bs)
unfolding coalesce_from
coalesce_from-IsMerged x c [] h = (h, tt)
coalesce_from-IsMerged x c (b ∷ bs) h = elim (Bool-cases (c.is_free && b.is_free)) [
  | inl both ↦
      rw both
        (coalesce_from-IsMerged x (record c { size = u64 (c.size + (header_size + b.size)) }) bs h)
  | inr other ↦ rw other (h, coalesce_from-IsMerged c b bs other)
]

-- Blocks in use are neither moved nor changed by the merge, and none appears.
coalesce_from-keeps :
    (u c : Block) (bs : List Block)
    → u.is_free ≡ false
    → Member u (c ∷ bs)
    → Member u (coalesce_from c bs)
unfolding coalesce_from
coalesce_from-keeps u c [] used m = m
coalesce_from-keeps u c (b ∷ bs) used m = elim (Bool-cases (c.is_free && b.is_free)) [
  | inr other ↦
      rw other (elim m [ inl q ↦ inl q | inr r ↦ inr (coalesce_from-keeps u b bs used r) ])
  | inl both ↦ rw both (
      coalesce_from-keeps u (record c { size = u64 (c.size + (header_size + b.size)) }) bs used
        (elim m [
          | inl q ↦ absurd (ground (arith, q, used, both))
          | inr (inl q) ↦ absurd (ground (arith, q, used, both))
          | inr (inr r) ↦ inr r
        ]))
]

coalesce_from-only :
    (u c : Block) (bs : List Block)
    → u.is_free ≡ false
    → Member u (coalesce_from c bs)
    → Member u (c ∷ bs)
unfolding coalesce_from
coalesce_from-only u c [] used m = m
coalesce_from-only u c (b ∷ bs) used m = elim (Bool-cases (c.is_free && b.is_free)) [
  | inr other ↦ elim (rw other at m) [
    | inl q ↦ inl q
    | inr r ↦ inr (coalesce_from-only u b bs used r)
  ]
  | inl both ↦
      elim (coalesce_from-only u (record c { size = u64 (c.size + (header_size + b.size)) }) bs used
        (rw both at m)) [ inl q ↦ absurd (ground (arith, q, used, both)) | inr r ↦ inr (inr r) ]
]

release-keeps :
    (ptr : ℕ) (u : Block) (bs : List Block)
    → payload u ≢ ptr
    → Member u bs
    → Member u (release ptr bs)
unfolding release
release-keeps ptr u [] ne m = absurd m
release-keeps ptr u (b ∷ bs) ne m = elim (Bool-cases (payload b == ptr)) [
  | inr miss ↦ rw miss (elim m [ inl q ↦ inl q | inr r ↦ inr (release-keeps ptr u bs ne r) ])
  | inl hit ↦ rw hit (elim m [ inl q ↦ absurd (ground (arith, q, hit, ne)) | inr r ↦ inr r ])
]

release-only :
    (ptr : ℕ) (u : Block) (bs : List Block)
    → IsOrdered bs
    → u.is_free ≡ false
    → Member u (release ptr bs)
    → Member u bs × (payload u ≢ ptr)
unfolding release
release-only ptr u [] o used m = absurd m
release-only ptr u (b ∷ bs) o used m = elim (Bool-cases (payload b == ptr)) [
  | inr miss ↦ elim (rw miss at m) [
    | inl q ↦ (inl q, ground (arith, q, miss))
    | inr r ↦ let (k, ne) = release-only ptr u bs o.1 used r in (inr k, ne)
  ]
  | inl hit ↦ elim (rw hit at m) [
    | inl q ↦ absurd (ground (arith, q, used))
    | inr r ↦ (
      inr r,
      λ same. ground (arith, All-Member (λ c. block_end b ≤ c.addr) u bs o.0 r, hit, same),
    )
  ]
]

coalesce-cases :
    (P : List Block → List Block → Type 0)
    → P [] []
    → ((c : Block) (bs : List Block) → P (c ∷ bs) (coalesce_from c bs))
    → (bs : List Block) → P bs (coalesce bs)
unfolding coalesce
coalesce-cases P n f [] = n
coalesce-cases P n f (c ∷ bs) = f c bs

IsMerged-tail : (x : Block) (bs : List Block) → IsMerged (x ∷ bs) → IsMerged bs
IsMerged-tail x [] h = tt
IsMerged-tail x (b ∷ bs) h = h.1

dummy : Block
dummy = record { addr = 0; size = 0; is_free = false }

-- What `free` leaves of a chain that tiles its memory: the chain tiles the same memory, no two free
-- neighbours are left, and the blocks in use are those that were, but for the one of the pointer.
pub record Freeing (a e ptr : ℕ) (bs bs' : List Block) : Type 0 where
  pub tiles : Tiles a bs' e
  pub merged : IsMerged bs'
  pub keeps : (u : Block) → Member u bs → u.is_free ≡ false → payload u ≢ ptr → Member u bs'
  pub only : (u : Block) → Member u bs' → u.is_free ≡ false → Member u bs × (payload u ≢ ptr)

-- `free` of a pointer, on a chain that tiles the memory from `a` to `e`: the chain tiles the same
-- memory, no two neighbours in it are both free, and its blocks in use are those that were, but
-- for the pointer's.
pub free-Freeing :
    (h : Heap) (a e ptr : ℕ)
    → e < 2 ^ 64
    → Tiles a h.blocks e
    → Freeing a e ptr h.blocks (free h (some ptr)).blocks
unfolding free
free-Freeing h a e ptr small t = record {
  tiles =
      coalesce-cases (λ bs bs'. Tiles a bs e → Tiles a bs' e) (λ z. z)
        (λ c bs z. coalesce_from-Tiles a c bs e small z) (release ptr h.blocks) released;
  merged =
      coalesce-cases (λ _ bs'. IsMerged bs') tt
        (λ c bs.
          IsMerged-tail dummy (coalesce_from c bs)
            (coalesce_from-IsMerged dummy c bs (unfold dummy in refl)))
        (release ptr h.blocks);
  keeps = λ u m used ne.
      coalesce-cases (λ bs bs'. Member u bs → Member u bs') (λ z. z)
        (λ c bs z. coalesce_from-keeps u c bs used z) (release ptr h.blocks)
        (release-keeps ptr u h.blocks ne m);
  only = λ u m used. release-only ptr u h.blocks (Tiles-IsOrdered a h.blocks e t) used (
      coalesce-cases (λ bs bs'. Member u bs' → Member u bs) (λ z. z)
        (λ c bs z. coalesce_from-only u c bs used z) (release ptr h.blocks) m);
}
  where
    released : Tiles a (release ptr h.blocks) e
    released = release-Tiles ptr a h.blocks e t
