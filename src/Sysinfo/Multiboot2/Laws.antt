-- ===== src/Sysinfo/Multiboot2/Laws.antt =====
-- `sysinfo_find_multiboot2_tag` finds the first tag of a type on the walk, and ends.
use fae.Prelude.{
  ℕ, zero, suc, ◌+◌, ◌<◌, ◌≤◌, ◌≡◌, refl, ◌≢◌, ◌⊎◌, inl, inr, arith, true, false, ltb, ◌==◌, Memory,
  load32, Bool-cases,
}
use fae.Sysinfo.Multiboot2.{
  Search, found, missing, out_of_fuel, is_end_tag, next_tag, find_tag_from, find_tag,
}

module _ (m : Memory) (end : ℕ) where
  -- `Walk p q`: the loop that starts at `p` comes to the tag at `q`, and no tag that it passes has
  -- the type that is looked for.
  pub data Walk (type : ℕ) : ℕ → ℕ → Type 0 where
    here : {p : ℕ} → Walk type p p
    next :
        {p q : ℕ}
        → p < end
        → is_end_tag m p ≡ false
        → load32 m p ≢ type
        → Walk type (next_tag m p) q
        → Walk type p q

  -- What each answer of a search from `p` means; running out of fuel is no answer.
  abbrev pub Answers : ℕ → ℕ → Search → Type 0
  Answers type p (found a) =
      Walk type p a × (a < end) × (is_end_tag m a ≡ false) × (load32 m a ≡ type)
  Answers type p missing = (q : ℕ) × Walk type p q × ((end ≤ q) ⊎ (is_end_tag m q ≡ true))
  Answers type p out_of_fuel = ⊥

  Answers-next :
      (type p : ℕ) (s : Search)
      → p < end
      → is_end_tag m p ≡ false
      → load32 m p ≢ type
      → Answers type (next_tag m p) s
      → Answers type p s
  Answers-next type p (found a) h e n (w, lt, o, t) = (next h e n w, lt, o, t)
  Answers-next type p missing h e n (q, w, r) = (q, next h e n w, r)
  Answers-next type p out_of_fuel h e n r = r

  -- Every tag that the search comes to states a size that the round up does not wrap to 0.
  abbrev pub HasSizes : ℕ → ℕ → Type 0
  HasSizes type p =
      (q : ℕ) → Walk type p q → q < end → (0 < load32 m (q + 4)) × (load32 m (q + 4) < 0xfffffff9)

  find_tag_from-Answers :
      (type fuel p : ℕ)
      → end < p + fuel
      → 0 < fuel
      → HasSizes type p
      → Answers type p (find_tag_from m type end fuel p)
  unfolding find_tag_from
  find_tag_from-Answers type zero p f pos h = absurd (omega arith)
  find_tag_from-Answers type (suc fuel) p f pos h = elim (Bool-cases (ltb p end)) [
    | inr out ↦ rw out (p, here, inl (ground arith))
    | inl more ↦ elim (Bool-cases (is_end_tag m p)) [
      | inl last ↦ rw (more, last) (p, here, inr last)
      | inr open_ ↦ elim (Bool-cases (load32 m p == type)) [
        | inl hit ↦ rw (more, open_, hit) (here, ground arith, open_, ground arith)
        | inr miss ↦
            let p_lt : p < end = ground arith in
            let ne : load32 m p ≢ type = ground arith in
            rw (more, open_, miss)
              (Answers-next type p _ p_lt open_ ne (
                find_tag_from-Answers type fuel (next_tag m p) (omega (arith, h p here p_lt))
                  (omega arith) (λ q w. h q (next p_lt open_ ne w))))
      ]
    ]
  ]

-- `sysinfo_find_multiboot2_tag` at an address that is not NULL, over tags whose sizes are not 0 and
-- do not wrap: it returns, and either with the first tag of the type on the walk from the list's
-- start, inside the list and before its end tag, or with NULL after a walk that met no tag of the
-- type and came to the end tag or to the end of the list.
pub find_tag-Answers :
    (m : Memory) (addr type : ℕ)
    → addr ≢ 0
    → HasSizes m (addr + load32 m addr) type (addr + 8)
    → Answers m (addr + load32 m addr) type (addr + 8) (find_tag m addr type)
unfolding find_tag
find_tag-Answers m addr type ne h = rw enters (
    find_tag_from-Answers m (addr + load32 m addr) type (load32 m addr + 1) (addr + 8) (omega arith)
      (omega arith) h)
  where
    enters :
        find_tag m addr type
        ≡ find_tag_from m type (addr + load32 m addr) (load32 m addr + 1) (addr + 8)
    enters = ground arith

-- An empty tag before the end stops the walk for good: whatever the fuel, the search does not
-- return.
pub find_tag_from_stuck :
    (m : Memory) (type end fuel p : ℕ)
    → p < end
    → is_end_tag m p ≡ false
    → load32 m p ≢ type
    → load32 m (p + 4) ≡ 0
    → find_tag_from m type end fuel p ≡ out_of_fuel
unfolding find_tag_from
find_tag_from_stuck m type end zero p h e n z = refl
find_tag_from_stuck m type end (suc fuel) p h e n z =
    let back : next_tag m p ≡ p = omega arith in
    let inside : ltb p end ≡ true = ground arith in
    let other : (load32 m p == type) ≡ false = ground arith in
    rw (inside, e, other, back) (find_tag_from_stuck m type end fuel p h e n z)
