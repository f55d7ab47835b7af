-- ===== src/CString/Copies.antt =====
-- `memset` and `memcpy` change exactly their range.
use fae.Prelude.{ℕ, zero, suc, ◌+◌, ◌-◌, ◌<◌, ◌≤◌, ◌≡◌, refl, ◌⊎◌, inl, arith, Memory, u8}
use fae.CString.{store8, memset, memcpy}

-- Outside the `n` bytes from `a` on.
abbrev pub Outside : ℕ → ℕ → ℕ → Type 0
Outside a n x = (x < a) ⊎ (a + n ≤ x)

memset-Outside : (m : Memory) (s c n x : ℕ) → Outside s n x → memset m s c n x ≡ m x
unfolding memset
memset-Outside m s c zero x h = refl
memset-Outside m s c (suc n) x h = ground (arith, memset-Outside (store8 m s (u8 c)) (s + 1) c n x)

memset_inside : (m : Memory) (s c n i : ℕ) → i < n → memset m s c n (s + i) ≡ u8 c
unfolding memset
memset_inside m s c zero i h = absurd (omega arith)
memset_inside m s c (suc n) zero h =
    let here : s + 0 ≡ s = omega arith in
    rw (here, memset-Outside (store8 m s (u8 c)) (s + 1) c n s (inl (omega arith))) (ground arith)
memset_inside m s c (suc n) (suc i) h =
    let there : s + suc i ≡ s + 1 + i = omega arith in
    rw there (memset_inside (store8 m s (u8 c)) (s + 1) c n i (omega arith))

-- `memset` writes the byte to every address of the range, and nothing else.
pub memset_lem :
    (m : Memory) (s c n x : ℕ)
    → ((Outside s n x → memset m s c n x ≡ m x) × (s ≤ x → x < s + n → memset m s c n x ≡ u8 c))
memset_lem m s c n x = (
  memset-Outside m s c n x,
  λ lo hi.
      let there : s + (x - s) ≡ x = omega arith in
      rw there at (memset_inside m s c n (x - s) (omega arith)),
)

memcpy-Outside : (m : Memory) (dest src n x : ℕ) → Outside dest n x → memcpy m dest src n x ≡ m x
unfolding memcpy
memcpy-Outside m dest src zero x h = refl
memcpy-Outside m dest src (suc n) x h =
    ground (arith, memcpy-Outside (store8 m dest (m src)) (dest + 1) (src + 1) n x)

pub memcpy_inside :
    (m : Memory) (dest src n i : ℕ)
    → (dest ≤ src) ⊎ (src + n ≤ dest)
    → i < n
    → memcpy m dest src n (dest + i) ≡ m (src + i)
unfolding memcpy
memcpy_inside m dest src zero i o h = absurd (omega arith)
memcpy_inside m dest src (suc n) zero o h =
    let here : dest + 0 ≡ dest = omega arith in
    let from : src + 0 ≡ src = omega arith in
    rw
      (
        here,
        from,
        memcpy-Outside (store8 m dest (m src)) (dest + 1) (src + 1) n dest (inl (omega arith)),
      )
      (ground arith)
memcpy_inside m dest src (suc n) (suc i) o h =
    let there : dest + suc i ≡ dest + 1 + i = omega arith in
    let from : src + suc i ≡ src + 1 + i = omega arith in
    rw
      (
        there,
        from,
        memcpy_inside (store8 m dest (m src)) (dest + 1) (src + 1) n i (omega arith) (omega arith),
      )
      (ground arith)

-- `memcpy` copies every byte of the source as it was and touches nothing else, also where the
-- ranges overlap, as long as the destination does not start inside the source.
pub memcpy_lem :
    (m : Memory) (dest src n x : ℕ)
    → (dest ≤ src) ⊎ (src + n ≤ dest)
    → (Outside dest n x → memcpy m dest src n x ≡ m x)
      × (dest ≤ x → x < dest + n → memcpy m dest src n x ≡ m (src + (x - dest)))
memcpy_lem m dest src n x o = (
  memcpy-Outside m dest src n x,
  λ lo hi.
      let there : dest + (x - dest) ≡ x = omega arith in
      rw there at (memcpy_inside m dest src n (x - dest) o (omega arith)),
)
