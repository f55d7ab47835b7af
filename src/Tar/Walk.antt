-- ===== src/Tar/Walk.antt =====
-- `tar_find_file` finds the first file of a name.
use fae.Prelude.{
  ℕ, zero, suc, ◌+◌, ◌<◌, ◌≤◌, ◌≡◌, ◌≢◌, ◌⊎◌, ◌↔◌, inl, inr, refl, sym, ap, ap₂, subst, ◌∙◌, arith,
  [], ◌∷◌, Bool, true, false, Option, some, List, Memory, ltb, ◌==◌, length, Bool-cases,
}
use fae.Prelude.Int.{ℤ, pos, negsuc}
use fae.CString.{strcmp}
use fae.CString.Strings.{IsText, strcmp_lem}
use fae.Tar.{
  Tar, Found, found, missing, out_of_fuel, next_header, file_size, is_zero, is_same, search_from,
  tar_find_file,
}

module _ (m : Memory) (Hits : ℕ → Type 0) (end : ℕ) where
  -- `Walk p q`: the loop that starts at `p` comes to the header at `q`, and no file that it passes
  -- is one that is looked for.
  pub data Walk : ℕ → ℕ → Type 0 where
    here : {p : ℕ} → Walk p p
    next : {p q : ℕ} → p < end → m p ≢ 0 → ¬ (Hits p) → Walk (next_header m p) q → Walk p q

  -- What each answer of a search from `p` means; running out of fuel is no answer.
  abbrev pub Answers : ℕ → Found → Type 0
  Answers p (found a size) =
      (q : ℕ) × Walk p q × (q < end) × (m q ≢ 0) × Hits q × (a ≡ q + 512) × (size ≡ file_size m q)
  Answers p missing = (q : ℕ) × Walk p q × ((end ≤ q) ⊎ (m q ≡ 0))
  Answers p out_of_fuel = ⊥

  Answers-next :
      (p : ℕ) (s : Found)
      → p < end
      → m p ≢ 0
      → ¬ (Hits p)
      → Answers (next_header m p) s
      → Answers p s
  Answers-next p (found a size) h e n r = (r.0, next h e n r.1, r.2, r.3, r.4, r.5, r.6)
  Answers-next p missing h e n (q, w, r) = (q, next h e n w, r)
  Answers-next p out_of_fuel h e n r = r

  -- The test answers, and answers with what is looked for, at each header of the walk.
  abbrev pub Decides : (ℕ → Option Bool) → ℕ → Type 0
  Decides test p =
      (q : ℕ) → Walk p q → m q ≢ 0 → (b : Bool) × (test q ≡ some b) × ((b ≡ true) ↔ Hits q)

  pub search_from-Answers :
      (test : ℕ → Option Bool) (fuel p : ℕ)
      → end < p + fuel
      → 0 < fuel
      → Decides test p
      → Answers p (search_from m test end fuel p)
  unfolding search_from
  search_from-Answers test zero p f some_fuel h = absurd (omega arith)
  search_from-Answers test (suc fuel) p f some_fuel h = elim (Bool-cases (ltb p end)) [
    | inr out ↦ rw out (p, here, inl (ground arith))
    | inl more ↦ elim (Bool-cases (m p == 0)) [
      | inl last ↦ rw (more, last) (p, here, inr (ground arith))
      | inr open_ ↦
          let p_lt : p < end = ground arith in
          let ne : m p ≢ 0 = ground arith in
          let (b, e, i) = h p here ne in
          elim (Bool-cases b) [
            | inl t ↦ rw (more, open_, e, t) (p, here, p_lt, ne, i.0 t, refl, refl)
            | inr t ↦
                let miss : ¬ (Hits p) = λ z. ground (arith, i.1 z) in
                rw (more, open_, e, t)
                  (Answers-next p _ p_lt ne miss (
                    search_from-Answers test fuel (next_header m p) (omega arith) (omega arith)
                      (λ q w. h q (next p_lt ne miss w))))
          ]
    ]
  ]

pub text_unique : (m : Memory) (s : ℕ) (xs ys : List ℕ) → IsText m s xs → IsText m s ys → xs ≡ ys
text_unique m s [] [] a b = refl
text_unique m s [] (y ∷ ys) a b = absurd (b.1 (sym b.0 ∙ a))
text_unique m s (x ∷ xs) [] a b = absurd (a.1 (sym a.0 ∙ b))
text_unique m s (x ∷ xs) (y ∷ ys) a b =
    ap₂ ◌∷◌ (sym a.0 ∙ b.0) (text_unique m (s + 1) xs ys a.2 b.2)

is_zero_iff : (d : ℤ) → (is_zero d ≡ true) ↔ (d ≡ pos 0)
is_zero_iff (pos n) = (λ e. ground arith, λ e. ap is_zero e)
is_zero_iff (negsuc n) = (ground arith, λ e. ap is_zero e)

-- Comparing with a header's name decides whether it is the text looked for.
pub name_decides :
    (m : Memory) (n q filename : ℕ) (xs ys : List ℕ)
    → IsText m q xs
    → length xs < n
    → IsText m filename ys
    → (b : Bool) × (is_same (strcmp m n q filename) ≡ some b) × ((b ≡ true) ↔ IsText m q ys)
name_decides m n q filename xs ys t f u =
    let (d, e, i) = strcmp_lem m n q filename xs ys t u f in
    let z = is_zero_iff d in
    (
      is_zero d,
      rw e refl,
      (λ h. subst (IsText m q) (i.0 (z.0 h)) t, λ h. z.1 (i.1 (text_unique m q xs ys t h))),
    )

-- `tar_find_file` over an archive whose headers' names, as far as the walk goes, are texts shorter
-- than the fuel for comparing: it returns, either with the bytes and the size of the first file
-- whose name is the one given, or with NULL after a walk along files of other names only, to an
-- empty name or to the end of the archive.
pub tar_find_file-Answers :
    (m : Memory) (t : Tar) (n filename : ℕ) (ys : List ℕ)
    → Tar.start t ≢ 0
    → IsText m filename ys
    → ((q : ℕ)
        → Walk m (λ a. IsText m a ys) (Tar.start t + Tar.len t) (Tar.start t) q
        → m q ≢ 0
        → (xs : List ℕ) × IsText m q xs × (length xs < n))
    → Answers m
        (λ a. IsText m a ys)
        (Tar.start t + Tar.len t)
        (Tar.start t)
        (tar_find_file m t n filename)
unfolding tar_find_file
tar_find_file-Answers m t n filename ys ne u names =
    let mounted : (Tar.start t == 0) ≡ false = ground arith in
    rw mounted (
      search_from-Answers m (λ a. IsText m a ys) (Tar.start t + Tar.len t)
        (λ ptr. is_same (strcmp m n ptr filename)) (Tar.len t + 1) (Tar.start t) (omega arith)
        (omega arith)
        (λ q w o. let (xs, x, f) = names q w o in name_decides m n q filename xs ys x f u))
