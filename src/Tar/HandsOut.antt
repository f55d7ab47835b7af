-- ===== src/Tar/HandsOut.antt =====
-- What `tar_find_by_suffix` hands out of the name that it finds.
use fae.Prelude.{
  ℕ, zero, suc, ◌+◌, ◌-◌, ◌<◌, ◌≤◌, ◌≡◌, ◌≢◌, ◌⊎◌, inl, inr, refl, sym, subst, ◌∙◌, arith, [], ◌∷◌,
  true, false, ◌==◌, min, List, Memory, length, take,
}
use fae.CString.Copies.{memcpy_inside}
use fae.CString.Strings.{IsText, strlen_lem}
use fae.Tar.{
  Tar, Found, found, missing, out_of_fuel, Companion, hand_out, copy_name, search_suffix,
  tar_find_by_suffix,
}
use fae.Tar.Suffix.{EndsWith, search_suffix-Answers}
use fae.Tar.Walk.{Walk, Answers}

-- The first `n` bytes of a text, copied and terminated, are a text.
cut-IsText :
    (m m' : Memory) (a s n : ℕ) (xs : List ℕ)
    → IsText m s xs
    → ((i : ℕ) → i < min (length xs) n → m' (a + i) ≡ m (s + i))
    → m' (a + min (length xs) n) ≡ 0
    → IsText m' a (take n xs)
cut-IsText m m' a s zero xs t c z = subst (λ p. m' p ≡ 0) (omega arith) z
cut-IsText m m' a s (suc n) [] t c z = subst (λ p. m' p ≡ 0) (omega arith) z
cut-IsText m m' a s (suc n) (x ∷ xs) t c z = (
  subst (λ p. m' p ≡ x) (omega arith) (c 0 (omega arith) ∙ subst (λ p. m p ≡ x) (omega arith) t.0),
  t.1,
  cut-IsText m m' (a + 1) (s + 1) n xs t.2
      (λ i h.
        subst (λ p. m' p ≡ m (s + 1 + i)) (omega arith)
          (subst (λ p. m' (a + suc i) ≡ m p) (omega arith) (c (suc i) (omega (arith, h)))))
      (subst (λ p. m' p ≡ 0) (omega arith) z),
)

-- The copy that is handed out of a name is its first 99 bytes.
copy_name-IsText :
    (m : Memory) (out q : ℕ) (xs : List ℕ)
    → IsText m q xs
    → (out ≤ q) ⊎ (q + 99 ≤ out)
    → IsText (copy_name m out q (length xs)) out (take 99 xs)
copy_name-IsText m out q xs t apart =
    let near : (out ≤ q) ⊎ (q + min (length xs) 99 ≤ out) = elim apart [
      | inl h ↦ inl h
      | inr h ↦ inr (omega (arith, h))
    ] in
    cut-IsText m (copy_name m out q (length xs)) out q 99 xs t
      (λ i h.
        let other : (out + i == out + min (length xs) 99) ≡ false = ground (arith, h) in
        rw other (memcpy_inside m out q (min (length xs) 99) i near h))
      (let same : (out + min (length xs) 99 == out + min (length xs) 99) ≡ true = ground arith in
        rw same refl)

module _ (m : Memory) (n out : ℕ) where
  -- What is in memory after each answer: at `out_name`, the first 99 bytes of the name of the file
  -- that is found.
  abbrev pub HandsOut : Found × Memory → Type 0
  HandsOut (found a size, m') = (xs : List ℕ) × IsText m (a - 512) xs × IsText m' out (take 99 xs)
  HandsOut (missing, m') = m' ≡ m
  HandsOut (out_of_fuel, m') = ⊥

  -- A header's name is a text that the fuel is enough for, and the copy does not start inside it.
  abbrev pub IsNamed : ℕ → Type 0
  IsNamed q = (xs : List ℕ) × IsText m q xs × (length xs < n) × ((out ≤ q) ⊎ (q + 99 ≤ out))

  hand_out-HandsOut :
      (Hits : ℕ → Type 0) (end p : ℕ) (s : Found)
      → out ≢ 0
      → Answers m Hits end p s
      → ((q : ℕ) → Walk m Hits end p q → m q ≢ 0 → IsNamed q)
      → Answers m Hits end p (hand_out m n out s).0 × HandsOut (hand_out m n out s)
  hand_out-HandsOut Hits end p missing z r names = (r, refl)
  hand_out-HandsOut Hits end p out_of_fuel z r names = absurd r
  hand_out-HandsOut Hits end p (found a size) z (q, w, lt, ne, hit, at, of) names =
      let back : q ≡ a - 512 = omega (arith, at) in
      let (xs, t, f, apart) = subst IsNamed back (names q w ne) in
      let set : (out == 0) ≡ false = ground (arith, z) in
      let e = strlen_lem m (a - 512) n xs t f in
      let returned : hand_out m n out (found a size)
          ≡ (found a size, copy_name m out (a - 512) (length xs)) =
        rw (hand_out, e, set) refl in
      subst (λ r. Answers m Hits end p r.0 × HandsOut r) (sym returned)
        ((q, w, lt, ne, hit, at, of), (xs, t, copy_name-IsText m out (a - 512) xs t apart))

-- `tar_find_by_suffix` with a place for the name, over a mounted archive whose headers' names, as
-- far as the walk goes, are texts shorter than the fuel, which is more than the suffix's length too,
-- and do not have that place in their first 99 bytes behind the first: it returns. What it returns
-- is either the bytes and the size of the first file whose name ends with the suffix, with the
-- first 99 bytes of that name stored as a text at `out_name`; or it is NULL, with memory as it was,
-- after a walk along files with other names only, to an empty name or to the end of the archive.
pub tar_find_by_suffix-HandsOut :
    (m : Memory) (c : Companion) (t : Tar) (n suffix out : ℕ) (ys : List ℕ)
    → Tar.start t ≢ 0
    → out ≢ 0
    → IsText m suffix ys
    → length ys < n
    → ((q : ℕ)
        → Walk m (EndsWith m ys) (Tar.start t + Tar.len t) (Tar.start t) q
        → m q ≢ 0
        → IsNamed m n out q)
    → Answers m
        (EndsWith m ys)
        (Tar.start t + Tar.len t)
        (Tar.start t)
        (tar_find_by_suffix m c t n suffix out).0
      × HandsOut m n out (tar_find_by_suffix m c t n suffix out)
unfolding tar_find_by_suffix
tar_find_by_suffix-HandsOut m c t n suffix out ys ne z u g names =
    let mounted : (Tar.start t == 0) ≡ false = ground (arith, ne) in
    rw mounted (
      hand_out-HandsOut m n out (EndsWith m ys) (Tar.start t + Tar.len t) (Tar.start t)
        (search_suffix m t n suffix) z
        (search_suffix-Answers m t n suffix ys u g
          (λ q w o. let (xs, x, f, apart) = names q w o in (xs, x, f)))
        names)
