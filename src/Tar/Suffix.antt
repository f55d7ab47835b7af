-- ===== src/Tar/Suffix.antt =====
-- `tar_find_by_suffix` finds the first file whose name ends as asked for.
use fae.Prelude.{
  ℕ, zero, suc, ◌+◌, ◌-◌, ◌<◌, ◌≤◌, ◌≡◌, ◌≢◌, ◌↔◌, inl, inr, refl, sym, ap, subst, arith, [], ◌∷◌,
  ◌++◌, Bool, true, false, some, List, Memory, leb, length, drop, take, take-append-drop,
  length-append, length-drop, Bool-cases,
}
use fae.CString.{strlen, strcmp}
use fae.CString.Strings.{IsText, strlen_lem}
use fae.Tar.{Tar, is_same, has_suffix, search_suffix}
use fae.Tar.Walk.{Walk, Answers, search_from-Answers, text_unique, name_decides}

-- The text at an address ends with the given bytes.
abbrev pub EndsWith : Memory → List ℕ → ℕ → Type 0
EndsWith m ys a = (pre : List ℕ) × IsText m a (pre ++ ys)

IsText-drop :
    (m : Memory) (a k : ℕ) (xs : List ℕ)
    → IsText m a xs
    → k ≤ length xs
    → IsText m (a + k) (drop k xs)
IsText-drop m a zero xs t h = subst (λ p. IsText m p xs) (omega arith) t
IsText-drop m a (suc k) [] t h = absurd (omega arith)
IsText-drop m a (suc k) (x ∷ xs) t h =
    subst (λ p. IsText m p (drop k xs)) (omega arith)
      (IsText-drop m (a + 1) k xs t.2 (omega (arith, h)))

IsText-append :
    (m : Memory) (a : ℕ) (pre ys : List ℕ) → IsText m a (pre ++ ys) → IsText m (a + length pre) ys
IsText-append m a [] ys t = subst (λ p. IsText m p ys) (omega arith) t
IsText-append m a (x ∷ pre) ys t =
    subst (λ p. IsText m p ys) (omega arith) (IsText-append m (a + 1) pre ys t.2)

-- The texts that end at the same terminator: the tail of the length of `ys` is `ys` just when the
-- text ends with it.
tail_iff :
    (m : Memory) (q k : ℕ) (xs ys : List ℕ)
    → IsText m q xs
    → length xs ≡ k + length ys
    → IsText m (q + k) ys ↔ EndsWith m ys q
tail_iff m q k xs ys t e = (
  λ u.
      let same : drop k xs ≡ ys =
        text_unique m (q + k) (drop k xs) ys (IsText-drop m q k xs t (omega (arith, e))) u in
      (
        take k xs,
        subst (λ zs. IsText m q (take k xs ++ zs)) same
            (subst (IsText m q) (sym (take-append-drop k xs)) t),
      ),
  λ (pre, u).
      let all : xs ≡ pre ++ ys = text_unique m q xs (pre ++ ys) t u in
      let at : length pre ≡ k = omega (arith, e, ap length all, length-append pre ys) in
      subst (λ i. IsText m (q + i) ys) at (IsText-append m q pre ys u),
)

too_short :
    (m : Memory) (q : ℕ) (xs ys : List ℕ)
    → IsText m q xs
    → length xs < length ys
    → ¬ (EndsWith m ys q)
too_short m q xs ys t h (pre, u) =
    let all = text_unique m q xs (pre ++ ys) t u in
    omega (arith, h, ap length all, length-append pre ys)

-- The test of a header decides whether its name ends as asked for.
suffix_decides :
    (m : Memory) (n q suffix : ℕ) (xs ys : List ℕ)
    → IsText m q xs
    → length xs < n
    → IsText m suffix ys
    → length ys < n
    → (b : Bool) × (has_suffix m n suffix q (strlen m n q) ≡ some b)
      × ((b ≡ true) ↔ EndsWith m ys q)
suffix_decides m n q suffix xs ys t f u g =
    let e = strlen_lem m q n xs t f in
    let d = strlen_lem m suffix n ys u g in
    elim (Bool-cases (leb (length ys) (length xs))) [
      | inr less ↦ (
        false,
        rw (e, has_suffix, d, less) refl,
        (λ h. ground (arith, h), λ w. absurd (too_short m q xs ys t (ground (arith, less)) w)),
      )
      | inl more ↦
          let le : length ys ≤ length xs = ground (arith, more) in
          let k : ℕ = length xs - length ys in
          let at : q + length xs - length ys ≡ q + k = omega (arith, le) in
          let (b, c, i) =
            name_decides m n (q + k) suffix (drop k xs) ys (IsText-drop m q k xs t (omega arith))
              (omega (arith, f, length-drop k xs)) u in
          let j = tail_iff m q k xs ys t (omega (arith, le)) in
          (
            b,
            rw (e, has_suffix, d, more)
                (subst (λ p. is_same (strcmp m n p suffix) ≡ some b) (sym at) c),
            (λ h. j.0 (i.0 h), λ w. i.1 (j.1 w)),
          )
    ]

-- The walk of `tar_find_by_suffix` over a mounted archive whose headers' names, as far as the walk goes, are
-- texts shorter than the fuel, which is more than the suffix's length too: it returns, either with
-- the bytes and the size of the first file whose name ends with the suffix, or with NULL after a
-- walk along files with other names only, to an empty name or to the end of the archive.
pub search_suffix-Answers :
    (m : Memory) (t : Tar) (n suffix : ℕ) (ys : List ℕ)
    → IsText m suffix ys
    → length ys < n
    → ((q : ℕ)
        → Walk m (EndsWith m ys) (Tar.start t + Tar.len t) (Tar.start t) q
        → m q ≢ 0
        → (xs : List ℕ) × IsText m q xs × (length xs < n))
    → Answers m (EndsWith m ys) (Tar.start t + Tar.len t) (Tar.start t) (search_suffix m t n suffix)
unfolding search_suffix
search_suffix-Answers m t n suffix ys u g names =
    search_from-Answers m (EndsWith m ys) (Tar.start t + Tar.len t)
      (λ ptr. has_suffix m n suffix ptr (strlen m n ptr)) (Tar.len t + 1) (Tar.start t)
      (omega arith) (omega arith)
      (λ q w o. let (xs, x, f) = names q w o in suffix_decides m n q suffix xs ys x f u g)
