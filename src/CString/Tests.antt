-- ===== src/CString/Tests.antt =====
-- The theorems on the string functions at concrete texts.
use fae.Prelude.{ℕ, ◌≡◌, ◌↔◌, refl, arith, some, List, [], ◌∷◌, Memory, take, ◌==◌, if◌then◌else◌}
use fae.Prelude.Int.{ℤ, pos}
use fae.CString.{strcmp, strncmp}
use fae.CString.Strings.{IsText, strcmp_lem, strncmp_lem}

-- "ab" at 16 and "ac" at 32.
abbrev texts : Memory
texts a =
    if a == 16
    then 97
    else if a == 17
    then 98
    else if a == 32
    then 97
    else if a == 33
    then 99
    else 0

abbrev ab : List ℕ
ab = 97 ∷ 98 ∷ []

abbrev ac : List ℕ
ac = 97 ∷ 99 ∷ []

ab-IsText : IsText texts 16 ab
ab-IsText = (refl, omega arith, (refl, omega arith, refl))

ac-IsText : IsText texts 32 ac
ac-IsText = (refl, omega arith, (refl, omega arith, refl))

strcmp_lem_example : (d : ℤ) × (strcmp texts 3 16 32 ≡ some d) × ((d ≡ pos 0) ↔ (ab ≡ ac))
strcmp_lem_example = strcmp_lem texts 3 16 32 ab ac ab-IsText ac-IsText (omega arith)

strncmp_lem_example : (strncmp texts 16 32 1 ≡ pos 0) ↔ (take 1 ab ≡ take 1 ac)
strncmp_lem_example = strncmp_lem texts 16 32 1 ab ac ab-IsText ac-IsText
