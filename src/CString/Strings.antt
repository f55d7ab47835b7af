-- ===== src/CString/Strings.antt =====
-- The string functions read a text as the list of its bytes.
use fae.Prelude.{
  ℕ, zero, suc, ◌+◌, ◌<◌, ◌≡◌, refl, ◌≢◌, ◌↔◌, arith, List, [], ◌∷◌, some, Memory, length, take,
  ap₂,
}
use fae.Prelude.Int.{ℤ, pos, sub_ℕ}
use native.Mathlib.Decide.{ℕ_discrete}
use fae.CString.{strlen_from, strlen, strcmp, strncmp}

-- The bytes of `xs`, none of them 0, stand at `s`, and a 0 behind them.
abbrev pub IsText : Memory → ℕ → List ℕ → Type 0
IsText m s [] = m s ≡ 0
IsText m s (x ∷ xs) = (m s ≡ x) × (x ≢ 0) × IsText m (s + 1) xs

strlen_from_lem :
    (m : Memory) (s fuel len p : ℕ) (xs : List ℕ)
    → p ≡ s + len
    → IsText m p xs
    → length xs < fuel
    → strlen_from m s fuel len ≡ some (len + length xs)
unfolding strlen_from
strlen_from_lem m s zero len p xs e t h = absurd (omega arith)
strlen_from_lem m s (suc fuel) len p [] e t h = ground arith
strlen_from_lem m s (suc fuel) len p (x ∷ xs) e t h =
    ground (arith, strlen_from_lem m s fuel (len + 1) (p + 1) xs (omega arith) t.2 (omega arith))

-- `strlen` counts the bytes before the terminator.
pub strlen_lem :
    (m : Memory) (s fuel : ℕ) (xs : List ℕ)
    → IsText m s xs
    → length xs < fuel
    → strlen m fuel s ≡ some (length xs)
unfolding strlen
strlen_lem m s fuel xs t h = ground (arith, strlen_from_lem m s fuel 0 s xs (omega arith) t h)

-- `strcmp` of two texts, with fuel for more than the first one's length, answers, and answers 0
-- exactly when they are the same.
pub strcmp_lem :
    (m : Memory) (fuel a b : ℕ) (xs ys : List ℕ)
    → IsText m a xs
    → IsText m b ys
    → length xs < fuel
    → (d : ℤ) × (strcmp m fuel a b ≡ some d) × ((d ≡ pos 0) ↔ (xs ≡ ys))
unfolding strcmp
strcmp_lem m zero a b xs ys s t h = absurd (omega arith)
strcmp_lem m (suc fuel) a b [] [] s t h = (pos 0, ground arith, ground arith)
strcmp_lem m (suc fuel) a b [] (y ∷ ys) s t h =
    (sub_ℕ (m a) (m b), ground arith, (ground arith, ground arith))
strcmp_lem m (suc fuel) a b (x ∷ xs) [] s t h =
    (sub_ℕ (m a) (m b), ground arith, (ground arith, ground arith))
strcmp_lem m (suc fuel) a b (x ∷ xs) (y ∷ ys) s t h = elim (ℕ_discrete x y) [
  | no ne ↦ (sub_ℕ (m a) (m b), ground arith, (ground arith, ground arith))
  | yes e ↦
      let (d, r, i) = strcmp_lem m fuel (a + 1) (b + 1) xs ys s.2 t.2 (omega arith) in
      (d, ground arith, (λ z. ap₂ ◌∷◌ e (i.0 z), λ z. i.1 (ground arith)))
]

-- `strncmp` answers 0 exactly when the texts agree up to `n` bytes.
pub strncmp_lem :
    (m : Memory) (a b n : ℕ) (xs ys : List ℕ)
    → IsText m a xs
    → IsText m b ys
    → (strncmp m a b n ≡ pos 0) ↔ (take n xs ≡ take n ys)
unfolding strncmp
strncmp_lem m a b zero xs ys s t = (λ z. refl, λ z. refl)
strncmp_lem m a b (suc n) [] [] s t = (ground arith, ground arith)
strncmp_lem m a b (suc n) [] (y ∷ ys) s t = (ground arith, ground arith)
strncmp_lem m a b (suc n) (x ∷ xs) [] s t = (ground arith, ground arith)
strncmp_lem m a b (suc n) (x ∷ xs) (y ∷ ys) s t = elim (ℕ_discrete x y) [
  | no ne ↦ (ground arith, ground arith)
  | yes e ↦
      let i = strncmp_lem m (a + 1) (b + 1) n xs ys s.2 t.2 in
      (λ z. ap₂ ◌∷◌ e (i.0 (ground arith)), λ z. ground (arith, i.1 (ground arith)))
]
