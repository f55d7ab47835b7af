-- ===== src/Serial/Format/Digits.antt =====
-- The digits of `print_uint` are those of the number.
use fae.Prelude.{
  ℕ, zero, suc, ◌+◌, ◌-◌, ◌*◌, ◌/◌, ◌%◌, ◌^◌, ◌<◌, ◌≤◌, ◌≡◌, ◌≢◌, ◌⊎◌, inl, inr, refl, sym, subst,
  ap, ◌∙◌, ◌==◌, All, arith, true, false, List, [], ◌∷◌, ◌++◌, ltb, if◌then◌else◌, length,
  replicate, Bool-cases, max,
}
use native.Mathlib.Nat.{pow-succ'}
use fae.Serial.Format.{digit_char, digits_onto, print_uint}

-- The bases that the code prints in.
abbrev pub IsBase : ℕ → Type 0
IsBase base = (base ≡ 10) ⊎ (base ≡ 16)

-- What a digit stands for, and what a list of them does, read on from `val`.
abbrev pub digit_value : ℕ → ℕ
digit_value c = if ltb c 0x61 then c - 0x30 else c - 0x61 + 10

abbrev pub read_digits : ℕ → ℕ → List ℕ → ℕ
read_digits base val [] = val
read_digits base val (c ∷ s) = read_digits base (val * base + digit_value c) s

digit_value-digit_char : (d : ℕ) → d < 16 → digit_value (digit_char d) ≡ d
digit_value-digit_char d h = elim (Bool-cases (ltb d 10)) [
  | inl e ↦ let low : ltb (0x30 + d) 0x61 ≡ true = ground arith in rw (e, low) (omega arith)
  | inr e ↦
      let high : ltb (0x61 + (d - 10)) 0x61 ≡ false = ground arith in
      let up : 10 ≤ d = ground arith in rw (e, high) (omega arith)
]

-- A step down: the quotient is smaller and the last digit makes the number again.
step_down :
    (val base bound : ℕ)
    → IsBase base
    → val < 2 * bound
    → (val / base < bound) × (val % base < 16) × (val / base * base + val % base ≡ val)
step_down val base bound (inl e) h = rw e ((omega (arith, h)), (omega arith), omega arith)
step_down val base bound (inr e) h = rw e ((omega (arith, h)), (omega arith), omega arith)

fuel_left : (fuel x : ℕ) → x < 2 ^ fuel → 0 < x → 0 < fuel
fuel_left zero x h p = absurd (omega (arith, h, p))
fuel_left (suc fuel) x h p = omega arith

drop_zero : (a b c : ℕ) → 0 * b + a ≡ c → a ≡ c
drop_zero a b c e = omega arith

digits_onto-read :
    (fuel val base : ℕ) (buf : List ℕ)
    → IsBase base
    → val < 2 ^ fuel
    → 0 < fuel
    → read_digits base 0 (digits_onto fuel val base buf) ≡ read_digits base val buf
unfolding digits_onto
digits_onto-read zero val base buf b h p = absurd (omega arith)
digits_onto-read (suc fuel) val base buf b h p =
    let (less, small, whole) =
      step_down val base (2 ^ fuel) b (subst (λ n. val < n) (pow-succ' 2 fuel) h) in
    let last = digit_value-digit_char (val % base) small in
    elim (Bool-cases (ltb 0 (val / base))) [
      | inl e ↦
          let left : 0 < fuel = fuel_left fuel (val / base) less (ground arith) in
          rw e (digits_onto-read fuel (val / base) base _ b less left ∙ (rw (last, whole) refl))
      | inr e ↦
          let none_left : val / base ≡ 0 = ground arith in
          let all : digit_value (digit_char (val % base)) ≡ val =
            last ∙ drop_zero (val % base) base val (rw none_left at whole) in
          rw e (ap (λ v. read_digits base v buf) (omega (arith, all)))
    ]

-- The digits of a base.
abbrev pub IsDigit : ℕ → ℕ → Type 0
IsDigit base c = (d : ℕ) × (d < base) × (c ≡ digit_char d)

below_base : (val base : ℕ) → IsBase base → val % base < base
below_base val base (inl e) = rw e (omega arith)
below_base val base (inr e) = rw e (omega arith)

digits_onto-IsDigit :
    (fuel val base : ℕ) (buf : List ℕ)
    → IsBase base
    → All (IsDigit base) buf
    → All (IsDigit base) (digits_onto fuel val base buf)
unfolding digits_onto
digits_onto-IsDigit zero val base buf b h = h
digits_onto-IsDigit (suc fuel) val base buf b h =
    let all : All (IsDigit base) (digit_char (val % base) ∷ buf) =
      ((val % base, below_base val base b, refl), h) in
    elim (Bool-cases (ltb 0 (val / base))) [
      | inl e ↦ rw e (digits_onto-IsDigit fuel (val / base) base _ b all)
      | inr e ↦ rw e all
    ]

digit_char_zero : (d : ℕ) → digit_char d ≡ 0x30 → d ≡ 0
digit_char_zero d e = ground (arith, e)

-- The first digit, and that it is 0 only for the number 0.
digits_onto-cons :
    (fuel val base : ℕ) (buf : List ℕ)
    → IsBase base
    → val < 2 ^ fuel
    → 0 < fuel
    → (c : ℕ) × (ds : List ℕ) × (digits_onto fuel val base buf ≡ c ∷ ds)
      × ((c ≢ 0x30) ⊎ ((val ≡ 0) × (ds ≡ buf)))
unfolding digits_onto
digits_onto-cons zero val base buf b h p = absurd (omega arith)
digits_onto-cons (suc fuel) val base buf b h p =
    let (less, small, whole) =
      step_down val base (2 ^ fuel) b (subst (λ n. val < n) (pow-succ' 2 fuel) h) in
    elim (Bool-cases (ltb 0 (val / base))) [
      | inl e ↦
          let more : 0 < val / base = ground (arith, e) in
          let (c, ds, is, first) =
            digits_onto-cons fuel (val / base) base (digit_char (val % base) ∷ buf) b less
              (fuel_left fuel (val / base) less more) in
          rw e (
            c,
            ds,
            is,
            elim first [ inl ne ↦ inl ne | inr (z, _) ↦ absurd (omega (arith, z, more)) ],
          )
      | inr e ↦
          let none_left : val / base ≡ 0 = ground (arith, e) in
          let is : val % base ≡ val = drop_zero (val % base) base val (rw none_left at whole) in
          rw e (
            digit_char (val % base),
            buf,
            refl,
            elim (Bool-cases (digit_char (val % base) == 0x30)) [
              | inl z ↦
                  let zero_ : val % base ≡ 0 = digit_char_zero (val % base) (ground (arith, z)) in
                  inr (omega (arith, is, zero_), refl)
              | inr z ↦ inl (ground (arith, z))
            ],
          )
    ]

-- What is printed for a number below 2 ^ 64, in base 10 or 16: padding, and then digits of the base,
-- one at least, that read back as the number. The first of them is no 0, but for the number 0, which
-- has one digit. There is as much of it as the width asks for, or as there are digits when these
-- are more.
pub print_uint-read :
    (val base width pad : ℕ)
    → IsBase base
    → val < 2 ^ 64
    → (n c : ℕ) × (ds : List ℕ) × (print_uint val base width pad ≡ replicate n pad ++ (c ∷ ds))
      × All (IsDigit base) (c ∷ ds)
      × (read_digits base 0 (c ∷ ds) ≡ val)
      × ((c ≢ 0x30) ⊎ ((val ≡ 0) × (ds ≡ [])))
      × (n + length (c ∷ ds) ≡ max width (length (c ∷ ds)))
unfolding print_uint
print_uint-read val base width pad b h =
    let (c, ds, is, first) = digits_onto-cons 64 val base [] b h (omega arith) in
    (
      width - length (c ∷ ds),
      c,
      ds,
      ap (λ buf. replicate (width - length buf) pad ++ buf) is,
      subst (All (IsDigit base)) is (digits_onto-IsDigit 64 val base [] b tt),
      ap (read_digits base 0) (sym is) ∙ digits_onto-read 64 val base [] b h (omega arith),
      first,
      omega arith,
    )
