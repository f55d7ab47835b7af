-- ===== src/Heap/Fit.antt =====
-- `malloc` from the chain: which block it takes, and what becomes of the others.
use fae.Prelude.{
  ℕ, ◌+◌, ◌-◌, ◌≤◌, ◌≡◌, ◌∙◌, refl, sym, subst, ap, ◌⊎◌, inl, inr, arith, Bool, true, false, ◌&&◌,
  none, some, List, [], ◌∷◌, ◌++◌, leb, All, Member, Member-append_left, Member-append_right,
  Bool-cases,
}
use fae.Heap.{Block, header_size, payload, block_end, carve, first_fit}
use fae.Heap.Chain.{Tiles}

-- The block is free and has room.
abbrev pub fits : ℕ → Block → Bool
fits size b = b.is_free && leb size b.size

-- The search gave `ptr` and the chain `bs'`: it took the first block that fits.
pub record TakesFirst (size : ℕ) (bs : List Block) (ptr : ℕ) (bs' : List Block) : Type 0 where
  pub before : List Block
  pub taken : Block
  pub after : List Block
  pub was : bs ≡ before ++ (taken ∷ after)
  pub none_fit : All (λ b. fits size b ≡ false) before
  pub taken_fits : fits size taken ≡ true
  pub pointer : ptr ≡ payload taken
  pub becomes : bs' ≡ before ++ (carve size taken ++ after)

step_fit :
    (size : ℕ) (b : Block) (bs : List Block) {ptr : ℕ} {bs' : List Block}
    → fits size b ≡ false
    → TakesFirst size bs ptr bs'
    → TakesFirst size (b ∷ bs) ptr (b ∷ bs')
step_fit size b bs misfit t = record {
  before = b ∷ t.before;
  taken = t.taken;
  after = t.after;
  was = ap (λ l. b ∷ l) t.was;
  none_fit = (misfit, t.none_fit);
  taken_fits = t.taken_fits;
  pointer = t.pointer;
  becomes = ap (λ l. b ∷ l) t.becomes;
}

first_fit-later :
    (size : ℕ) (b : Block) (bs : List Block) {ptr : ℕ} {bs' : List Block}
    → fits size b ≡ false
    → first_fit size (b ∷ bs) ≡ some (ptr, bs')
    → (r : List Block) × (first_fit size bs ≡ some (ptr, r)) × (bs' ≡ b ∷ r)
unfolding first_fit
first_fit-later size b bs misfit e = ground arith

-- What the search finds is the first free block that has room, and only that block changes.
pub first_fit-TakesFirst :
    (size : ℕ) (bs : List Block) (ptr : ℕ) (bs' : List Block)
    → first_fit size bs ≡ some (ptr, bs')
    → TakesFirst size bs ptr bs'
unfolding first_fit
first_fit-TakesFirst size [] ptr bs' e = cc
first_fit-TakesFirst size (b ∷ bs) ptr bs' e = elim (Bool-cases (fits size b)) [
  | inl fit ↦ record {
    before = [];
    taken = b;
    after = bs;
    was = refl;
    none_fit = tt;
    taken_fits = fit;
    pointer = ground arith;
    becomes = ground arith;
  }
  | inr misfit ↦
      let (r, f, q) = first_fit-later size b bs misfit e in
      subst (TakesFirst size (b ∷ bs) ptr) (sym q)
        (step_fit size b bs misfit (first_fit-TakesFirst size bs ptr r f))
]

-- Nothing is found only where no block fits.
pub first_fit-none :
    (size : ℕ) (bs : List Block) → first_fit size bs ≡ none → All (λ b. fits size b ≡ false) bs
unfolding first_fit
first_fit-none size [] e = tt
first_fit-none size (b ∷ bs) e = elim (Bool-cases (fits size b)) [
  | inl fit ↦ cc (rw fit at e)
  | inr misfit ↦ (misfit, first_fit-none size bs (ground arith))
]

-- `carve` leaves the taken block at its place, large enough and in use, and tiles what it had.
carve-Tiles :
    (size a : ℕ) (b : Block) (bs : List Block) (e : ℕ)
    → size ≤ b.size
    → Tiles a (b ∷ bs) e
    → Tiles a (carve size b ++ bs) e
unfolding carve
carve-Tiles size a b bs e fit t = elim (Bool-cases (leb (size + header_size + 16) b.size)) [
  | inl split ↦
      let joined : block_end b
          ≡ b.addr + header_size + size + header_size + (b.size - size - header_size) =
        ground arith in
      rw split (t.0, (refl, subst (λ z. Tiles z bs e) joined t.1))
  | inr whole ↦ rw whole (t.0, t.1)
]

Tiles-replace :
    (a : ℕ) (before : List Block) (c : Block) (with_ after : List Block) (e : ℕ)
    → ((x : ℕ) → Tiles x (c ∷ after) e → Tiles x (with_ ++ after) e)
    → Tiles a (before ++ (c ∷ after)) e
    → Tiles a (before ++ (with_ ++ after)) e
Tiles-replace a [] c with_ after e f t = f a t
Tiles-replace a (b ∷ before) c with_ after e f t =
    (t.0, Tiles-replace (block_end b) before c with_ after e f t.1)

-- The block that a search hands out.
abbrev pub Serves : ℕ → ℕ → List Block → Type 0
Serves size ptr bs =
    (b : Block) × Member b bs × (payload b ≡ ptr) × (b.is_free ≡ false) × (size ≤ b.size)

Member-insert :
    (b : Block) (before mid after : List Block) → Member b mid → Member b (before ++ (mid ++ after))
Member-insert b before mid after m =
    Member-append_right b before (mid ++ after) (Member-append_left b mid after m)

Member-split :
    (b : Block) (before : List Block) (c : Block) (after : List Block)
    → Member b (before ++ (c ∷ after))
    → Member b before ⊎ ((b ≡ c) ⊎ Member b after)
Member-split b [] c after m = inr m
Member-split b (x ∷ before) c after (inl e) = inl (inl e)
Member-split b (x ∷ before) c after (inr m) = elim (Member-split b before c after m) [
  | inl l ↦ inl (inr l)
  | inr r ↦ inr r
]

carve-Serves :
    (size : ℕ) (b : Block)
    → size ≤ b.size
    → (c : Block) × Member c (carve size b)
      × (payload c ≡ payload b)
      × (c.is_free ≡ false)
      × (size ≤ c.size)
unfolding carve
carve-Serves size b fit = elim (Bool-cases (leb (size + header_size + 16) b.size)) [
  | inl split ↦
      (record b { size = size; is_free = false }, rw split (inl refl), refl, refl, omega arith)
  | inr whole ↦ (record b { is_free = false }, rw whole (inl refl), refl, refl, fit)
]

-- What a search that found a block means for a chain that tiles its memory: it still does, the
-- pointer is that of an in-use block of the size asked for, and every block that was in use still
-- is, at its place and of its size.
pub record Serving (size a e : ℕ) (bs : List Block) (ptr : ℕ) (bs' : List Block) : Type 0 where
  pub tiles : Tiles a bs' e
  pub serves : Serves size ptr bs'
  pub keeps : (b : Block) → Member b bs → b.is_free ≡ false → Member b bs'

pub TakesFirst-Serving :
    (size a e : ℕ) (bs : List Block) (ptr : ℕ) (bs' : List Block)
    → Tiles a bs e
    → TakesFirst size bs ptr bs'
    → Serving size a e bs ptr bs'
TakesFirst-Serving size a e bs ptr bs' tiles t = record {
  tiles =
      subst (λ l. Tiles a l e) (sym t.becomes)
        (Tiles-replace a t.before t.taken (carve size t.taken) t.after e
          (λ x w. carve-Tiles size x t.taken t.after e large w)
          (subst (λ l. Tiles a l e) t.was tiles));
  serves = (
    served.0,
    subst (Member served.0) (sym t.becomes)
        (Member-insert served.0 t.before (carve size t.taken) t.after served.1),
    served.2 ∙ sym t.pointer,
    served.3,
    served.4,
  );
  keeps = λ b m used.
      subst (Member b) (sym t.becomes)
        (elim (Member-split b t.before t.taken t.after (subst (Member b) t.was m)) [
          | inl l ↦ Member-append_left b t.before (carve size t.taken ++ t.after) l
          | inr (inl q) ↦ absurd (ground (arith, t.taken_fits, q, used))
          | inr (inr r) ↦
              Member-append_right b t.before (carve size t.taken ++ t.after)
                (Member-append_right b (carve size t.taken) t.after r)
        ]);
}
  where
    large : size ≤ t.taken.size
    large = ground (arith, t.taken_fits)

    served :
        (c : Block) × Member c (carve size t.taken)
        × (payload c ≡ payload t.taken)
        × (c.is_free ≡ false)
        × (size ≤ c.size)
    served = carve-Serves size t.taken large
