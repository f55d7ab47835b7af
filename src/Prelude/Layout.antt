-- ===== src/Prelude/Layout.antt =====
-- What lies in memory: the bytes from an address on, little-endian words among them.
use Prim.Native.Nat.{ℕ, zero, suc, ◌+◌, ◌-◌, ◌/◌, ◌%◌, ◌^◌, ◌<◌}
use mathlib.Core.Path.{◌≡◌, refl, subst, ap, ap₂, ◌∙◌}
use mathlib.Core.Bool.{Bool, true, ◌&&◌}
use mathlib.Core.List.{List, [], ◌∷◌, ◌++◌, append_assoc}
use native.Mathlib.Omega.{arith}
use fae.Prelude.Tests.{ltb}
use fae.Prelude.Lists.{length, get_or, length-append}
use fae.Prelude.Word.{Memory, load8, load16, load32, load64}

-- The bytes of a number, the low one first.
abbrev pub little : ℕ → ℕ → List ℕ
little zero n = []
little (suc size) n = n % 256 ∷ little size (n / 256)

module _ (m : Memory) where
  -- The memory from an address on holds the bytes.
  abbrev pub Holds : ℕ → List ℕ → Type 0
  Holds p [] = Unit
  Holds p (b ∷ bs) = (load8 m p ≡ b) × Holds (p + 1) bs

  pub Holds-at : {p q : ℕ} (xs : List ℕ) → p ≡ q → Holds p xs → Holds q xs
  Holds-at xs e h = subst (λ a. Holds a xs) e h

  pub Holds-append :
      (p : ℕ) (xs ys : List ℕ) → Holds p (xs ++ ys) → Holds p xs × Holds (p + length xs) ys
  Holds-append p [] ys h = (tt, Holds-at ys (omega arith) h)
  Holds-append p (x ∷ xs) ys (b, h) =
      let (first, second) = Holds-append (p + 1) xs ys h in
      ((b, first), Holds-at ys (omega arith) second)

  load16-little : (p n : ℕ) → Holds p (little 2 n) → load16 m p ≡ n % 65536
  load16-little p n (b0, (b1, t)) = omega (arith, b0, b1)

  Holds-little_split :
      (k p n : ℕ)
      → Holds p (little (suc (suc k)) n)
      → Holds p (little 2 n) × Holds (p + 2) (little k (n / 65536))
  Holds-little_split k p n (b0, (b1, h)) =
      let quotient : n / 256 / 256 ≡ n / 65536 = omega arith in
      (
        (b0, (b1, tt)),
        subst (λ q. Holds (p + 2) (little k q)) quotient (Holds-at _ (omega arith) h),
      )

  load32-low :
      (k p n : ℕ)
      → Holds p (little (suc (suc (suc (suc k)))) n)
      → (load32 m p ≡ n % 2 ^ 32) × Holds (p + 4) (little k (n / 2 ^ 32))
  load32-low k p n h =
      let (low, rest) = Holds-little_split (suc (suc k)) p n h in
      let (high, more) = Holds-little_split k (p + 2) (n / 65536) rest in
      let first = load16-little p n low in
      let second = load16-little (p + 2) (n / 65536) high in
      let quotient : n / 65536 / 65536 ≡ n / 2 ^ 32 = omega arith in
      (
        omega (arith, first, second),
        subst (λ q. Holds (p + 4) (little k q)) quotient (Holds-at _ (omega arith) more),
      )

  pub load32-little : (p n : ℕ) → n < 2 ^ 32 → Holds p (little 4 n) → load32 m p ≡ n
  load32-little p n b h = let (e, t) = load32-low 0 p n h in omega (arith, e, b)

  pub load64-little : (p n : ℕ) → n < 2 ^ 64 → Holds p (little 8 n) → load64 m p ≡ n
  load64-little p n b h =
      let (low, rest) = load32-low 4 p n h in
      let (high, t) = load32-low 0 (p + 4) (n / 2 ^ 32) rest in omega (arith, low, high, b)

pub length-little : (size n : ℕ) → length (little size n) ≡ size
length-little zero n = refl
length-little (suc size) n = omega (arith, length-little size (n / 256))

module _ (m : Memory) where
  -- The bytes of a text in memory.
  abbrev pub bytes_at : ℕ → ℕ → List ℕ
  bytes_at a zero = []
  bytes_at a (suc n) = load8 m a ∷ bytes_at (a + 1) n

module _ (m : Memory) where
  pub bytes_at-Holds : (p : ℕ) (xs : List ℕ) → Holds m p xs → bytes_at m p (length xs) ≡ xs
  bytes_at-Holds p [] h = refl
  bytes_at-Holds p (x ∷ xs) (b, h) = ap₂ ◌∷◌ b (bytes_at-Holds (p + 1) xs h)

-- Memory with some bytes from an address on.
abbrev pub image : ℕ → List ℕ → Memory
image base bytes a = get_or bytes (a - base) 0

abbrev pub are_bytes : List ℕ → Bool
are_bytes [] = true
are_bytes (b ∷ bs) = ltb b 256 && are_bytes bs

get_or-middle : (pre bs : List ℕ) (b : ℕ) → get_or (pre ++ b ∷ bs) (length pre) 0 ≡ b
get_or-middle [] bs b = refl
get_or-middle (x ∷ pre) bs b = get_or-middle pre bs b

pub Holds-image :
    (base : ℕ) (pre bs : List ℕ)
    → are_bytes bs ≡ true
    → Holds (image base (pre ++ bs)) (base + length pre) bs
Holds-image base pre [] e = tt
Holds-image base pre (b ∷ bs) e =
    let at : base + length pre - base ≡ length pre = omega arith in
    let byte : b < 256 = ground (arith, e) in
    let rest : are_bytes bs ≡ true = ground (arith, e) in
    let stored : image base (pre ++ b ∷ bs) (base + length pre) ≡ b =
      ap (λ i. get_or (pre ++ b ∷ bs) i 0) at ∙ get_or-middle pre bs b in
    let next : base + length (pre ++ b ∷ []) ≡ base + length pre + 1 =
      ap (λ l. base + l) (length-append pre (b ∷ [])) ∙ omega arith in
    (
      ap (λ v. v % 256) stored ∙ omega (arith, byte),
      Holds-at (image base (pre ++ b ∷ bs)) bs next (
          subst (λ all. Holds (image base all) (base + length (pre ++ b ∷ [])) bs)
            (append_assoc pre (b ∷ []) bs) (Holds-image base (pre ++ b ∷ []) bs rest)),
    )
