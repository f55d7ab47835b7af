-- ===== src/Igpu/Paging/Lock.antt =====
-- `set_memory_cpu_access` locks and unlocks what it is asked to, as the page fault handler sees it.
use fae.Prelude.{
  ℕ, zero, suc, ◌+◌, ◌-◌, ◌/◌, ◌<◌, ◌≤◌, ◌≡◌, ◌≢◌, refl, sym, ap, subst, ◌∙◌, arith, Bool, true,
  false, not, ◌==◌, inl, ◌⊎◌,
}
use native.Mathlib.Decide.{ℕ_discrete}
use fae.Igpu.Paging.{
  Entries, page_size_2mb, is_present, set_entry, pdpt_slot, pdt_slot, with_present, set_page_access,
  set_pages_access, set_memory_cpu_access, is_locked,
}

set_entry_same : (m : Entries) (a v x : ℕ) → x ≡ a → set_entry m a v x ≡ v
set_entry_same m a v x e = let same : (x == a) ≡ true = ground arith in rw same refl

set_entry_other : (m : Entries) (a v x : ℕ) → x ≢ a → set_entry m a v x ≡ m x
set_entry_other m a v x e = let other : (x == a) ≡ false = ground arith in rw other refl

between : (p q : ℕ) → q ≤ p → p < q + 1 → p ≡ q
between p q a b = omega arith

apart : (p q : ℕ) → 0 < q → (p < q) ⊎ (q + 1 ≤ p) ⊎ (p ≡ 0) → p ≢ q
apart p q g o e = omega (arith, g, o, e)

module _ (pml4 limit : ℕ) where
  -- The tables are there for every page below `limit`, a page's entry is no other page's, and is
  -- no entry that a walk goes through.
  abbrev pub IsMapped : Entries → Type 0
  IsMapped m =
      (is_present (m pml4) ≡ true)
      × ((p : ℕ) → p < limit → is_present (m (pdpt_slot m pml4 p)) ≡ true)
      × ((p : ℕ) → p < limit → pdt_slot m pml4 p ≢ pml4)
      × ((p q : ℕ) → p < limit → q < limit → pdt_slot m pml4 p ≢ pdpt_slot m pml4 q)
      × ((p q : ℕ) → p < limit → q < limit → pdt_slot m pml4 p ≡ pdt_slot m pml4 q → p ≡ q)

  -- The same walk for every page below `limit`.
  abbrev pub SameWalk : Entries → Entries → Type 0
  SameWalk m k =
      (m pml4 ≡ k pml4) × ((p : ℕ) → p < limit → m (pdpt_slot m pml4 p) ≡ k (pdpt_slot k pml4 p))

  SameWalk-slot :
      (m k : Entries) (p : ℕ)
      → p < limit
      → SameWalk m k
      → (pdpt_slot m pml4 p ≡ pdpt_slot k pml4 p) × (pdt_slot m pml4 p ≡ pdt_slot k pml4 p)
  SameWalk-slot m k p h (e, f) = (rw e refl, rw (f p h) refl)

  SameWalk-IsMapped : (m k : Entries) → SameWalk m k → IsMapped m → IsMapped k
  SameWalk-IsMapped m k s (a, b, c, d, e) = (
    subst (λ x. is_present x ≡ true) s.0 a,
    λ p h. subst (λ x. is_present x ≡ true) (s.1 p h) (b p h),
    λ p h z. c p h ((SameWalk-slot m k p h s).1 ∙ z),
    λ p q h i z. d p q h i ((SameWalk-slot m k p h s).1 ∙ z ∙ sym (SameWalk-slot m k q i s).0),
    λ p q h i z. e p q h i ((SameWalk-slot m k p h s).1 ∙ z ∙ sym (SameWalk-slot m k q i s).1),
  )

  stored :
      (allowed : Bool) (page : ℕ) (m : Entries)
      → 0 < page
      → page < limit
      → IsMapped m
      → set_page_access pml4 allowed page m
        ≡ set_entry m (pdt_slot m pml4 page) (with_present allowed (m (pdt_slot m pml4 page)))
  unfolding set_page_access
  stored allowed page m g h (a, b, c, d, e) =
      let on : (page == 0) ≡ false = ground arith in let p = b page h in rw (on, a, p) refl

  set_entry-SameWalk :
      (page v : ℕ) (m : Entries)
      → page < limit
      → IsMapped m
      → SameWalk m (set_entry m (pdt_slot m pml4 page) v)
  set_entry-SameWalk page v m h (a, b, c, d, e) =
      let top : (pml4 == pdt_slot m pml4 page) ≡ false = ground (arith, c page h) in
      (
        rw top refl,
        λ p l.
            let other : (pdpt_slot m pml4 p == pdt_slot m pml4 page) ≡ false =
              ground (arith, d page p h l) in
            rw (top, other) refl,
      )

  -- What became of the pages `from ≤ p < from + n`: the walks are the same, these pages' present
  -- bits are `allowed`, and every other page's entry is as before; page 0 is never touched.
  Sets : Bool → ℕ → ℕ → Entries → Entries → Type 0
  Sets allowed from n m k =
      SameWalk m k
      × ((p : ℕ)
          → 0 < p
          → p < limit
          → from ≤ p
          → p < from + n
          → is_present (k (pdt_slot k pml4 p)) ≡ allowed)
      × ((p : ℕ)
          → p < limit
          → (p < from) ⊎ (from + n ≤ p) ⊎ (p ≡ 0)
          → k (pdt_slot k pml4 p) ≡ m (pdt_slot m pml4 p))

  with_present-is_present :
      (allowed : Bool) (entry : ℕ) → is_present (with_present allowed entry) ≡ allowed
  with_present-is_present true entry = ground arith
  with_present-is_present false entry = ground arith

  set_entry-Sets :
      (allowed : Bool) (page : ℕ) (m : Entries)
      → 0 < page
      → page < limit
      → IsMapped m
      → Sets allowed page 1 m
          (set_entry m (pdt_slot m pml4 page) (with_present allowed (m (pdt_slot m pml4 page))))
  unfolding Sets
  set_entry-Sets allowed page m g h i =
      let a : ℕ = pdt_slot m pml4 page in
      let v : ℕ = with_present allowed (m a) in
      let same = set_entry-SameWalk page v m h i in
      let at : (p : ℕ) → p < limit → pdt_slot m pml4 p ≡ pdt_slot (set_entry m a v) pml4 p =
        λ p l. (SameWalk-slot m (set_entry m a v) p l same).1 in
      (
        same,
        λ p g l b c.
            ap is_present
              (set_entry_same m a v _ (sym (at p l) ∙ ap (pdt_slot m pml4) (between p page b c)))
            ∙ with_present-is_present allowed (m a),
        λ p l o.
            set_entry_other m a v _ (λ z. apart p page g o (i.4 p page l h (at p l ∙ z)))
            ∙ ap m (sym (at p l)),
      )

  one_page :
      (allowed : Bool) (page : ℕ) (m : Entries)
      → page < limit
      → IsMapped m
      → Sets allowed page 1 m (set_page_access pml4 allowed page m)
  unfolding Sets set_page_access
  one_page allowed zero m h i =
      ((refl, λ p l. refl), λ p g l b c. absurd (omega (arith, g, c)), λ p l o. refl)
  one_page allowed (suc page) m h i =
      subst (Sets allowed (suc page) 1 m) (sym (stored allowed (suc page) m (omega arith) h i))
        (set_entry-Sets allowed (suc page) m (omega arith) h i)

  set_pages_access-Sets :
      (allowed : Bool) (page n : ℕ) (m : Entries)
      → page + n ≤ limit
      → IsMapped m
      → Sets allowed page n m (set_pages_access pml4 allowed page n m)
  unfolding set_pages_access Sets
  set_pages_access-Sets allowed page zero m h i =
      ((refl, λ p l. refl), λ p g l b c. absurd (omega (arith, b, c)), λ p l o. refl)
  set_pages_access-Sets allowed page (suc n) m h i =
      let (w, here, out) = one_page allowed page m (omega arith) i in
      let mapped = SameWalk-IsMapped m (set_page_access pml4 allowed page m) w i in
      let (w', rest, out') =
        set_pages_access-Sets allowed (page + 1) n (set_page_access pml4 allowed page m)
          (omega (arith, h)) mapped in
      (
        (w.0 ∙ w'.0, λ p l. w.1 p l ∙ w'.1 p l),
        λ p g l b c. elim (ℕ_discrete p page) [
          | yes e ↦ ap is_present (out' p l (inl (omega arith))) ∙ here p g l b (omega arith)
          | no ne ↦ rest p g l (omega arith) (omega arith)
        ],
        λ p l o. out' p l (ground (arith, o)) ∙ out p l (ground (arith, o)),
      )

-- A range of memory whose pages' tables are there and apart from each other: behind a call of
-- `set_memory_cpu_access`, an access to an address of the range would find the page locked just
-- when the call disallowed access, unless it is in the first 2 MB; and the entry of every page that
-- the range does not meet is as before, as is page 0's.
pub set_memory_cpu_access_lem :
    (pml4 limit addr size : ℕ) (allowed : Bool) (m : Entries)
    → 0 < size
    → (addr + size - 1) / page_size_2mb < limit
    → IsMapped pml4 limit m
    → ((a : ℕ)
        → addr ≤ a
        → a < addr + size
        → page_size_2mb ≤ a
        → is_locked pml4 (set_memory_cpu_access pml4 addr size allowed m) a ≡ not allowed)
      × ((p : ℕ)
          → p < limit
          → (p < addr / page_size_2mb) ⊎ ((addr + size - 1) / page_size_2mb < p) ⊎ (p ≡ 0)
          → set_memory_cpu_access pml4 addr size allowed m
              (pdt_slot (set_memory_cpu_access pml4 addr size allowed m) pml4 p)
            ≡ m (pdt_slot m pml4 p))
unfolding set_memory_cpu_access Sets
set_memory_cpu_access_lem pml4 limit addr size allowed m g h i =
    let first : ℕ = addr / page_size_2mb in
    let last : ℕ = (addr + size - 1) / page_size_2mb in
    let (w, here, out) =
      set_pages_access-Sets pml4 limit allowed first (last + 1 - first) m (omega (arith, g, h)) i in
    (
      λ a l u p. ap not (
          here (a / page_size_2mb) (omega (arith, p)) (omega (arith, l, u, h)) (omega (arith, l, u))
            (omega (arith, l, u))),
      λ p l o. out p l (omega (arith, o, g)),
    )
