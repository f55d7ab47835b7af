-- ===== src/Tar/Tests.antt =====
-- The archive reader's theorems at a concrete archive.
use fae.Prelude.{
  ℕ, ◌<◌, ◌≡◌, ◌≢◌, inl, inr, refl, sym, subst, arith, List, [], ◌∷◌, Memory, length, ◌==◌,
  if◌then◌else◌, u64,
}
use fae.CString.Strings.{IsText}
use fae.Tar.{Tar, Companion, parse_octal, tar_find_file, tar_find_by_suffix}
use fae.Tar.Octal.{parse_octal_lem}
use fae.Tar.HandsOut.{HandsOut, IsNamed, tar_find_by_suffix-HandsOut}
use fae.Tar.Suffix.{EndsWith}
use fae.Tar.Walk.{Walk, here, next, Answers, tar_find_file-Answers}

-- One header at 0x1000, with the name "a" and the size "17" in octal; the name sought, "a", at 16.
abbrev archive : Memory
archive a =
    if a == 0x1000
    then 97
    else if a == 0x107C
    then 0x31
    else if a == 0x107D
    then 0x37
    else if a == 16
    then 97
    else 0

abbrev mounted : Tar
mounted = record { start = 0x1000; len = 512 }

parse_octal_lem_example : parse_octal archive 0x107C 12 ≡ u64 15
parse_octal_lem_example =
    parse_octal_lem archive 0x107C 10 (1 ∷ 7 ∷ []) (refl, omega arith, (refl, omega arith, tt))
      (inl refl)

-- The walk stops at the header, whose name is the one sought.
one_header :
    (p q : ℕ) → p ≡ 0x1000 → Walk archive (λ a. IsText archive a (97 ∷ [])) 0x1200 p q → q ≡ 0x1000
one_header p _ e here = e
one_header p q e (next lt open_ other w) =
    absurd (other (subst (λ a. IsText archive a (97 ∷ [])) (sym e) (refl, omega arith, refl)))

names :
    (q : ℕ)
    → Walk archive (λ a. IsText archive a (97 ∷ [])) 0x1200 0x1000 q
    → archive q ≢ 0
    → (xs : List ℕ) × IsText archive q xs × (length xs < 2)
names q w o =
    let at : 0x1000 ≡ q = sym (one_header 0x1000 q refl w) in
    (97 ∷ [], subst (λ a. IsText archive a (97 ∷ [])) at (refl, omega arith, refl), omega arith)

tar_find_file-Answers_example :
    Answers archive
      (λ a. IsText archive a (97 ∷ []))
      0x1200
      0x1000
      (tar_find_file archive mounted 2 16)
tar_find_file-Answers_example =
    tar_find_file-Answers archive mounted 2 16 (97 ∷ []) (omega arith) (refl, omega arith, refl)
      names

abbrev no_companion : Companion
no_companion = record { addr = 0; size = 0 }

one_end : (p q : ℕ) → p ≡ 0x1000 → Walk archive (EndsWith archive (97 ∷ [])) 0x1200 p q → q ≡ 0x1000
one_end p _ e here = e
one_end p q e (next lt open_ other w) =
    absurd (other ([], subst (λ a. IsText archive a (97 ∷ [])) (sym e) (refl, omega arith, refl)))

endings :
    (q : ℕ)
    → Walk archive (EndsWith archive (97 ∷ [])) 0x1200 0x1000 q
    → archive q ≢ 0
    → IsNamed archive 2 0x2000 q
endings q w o =
    subst (IsNamed archive 2 0x2000) (sym (one_end 0x1000 q refl w))
      (97 ∷ [], (refl, omega arith, refl), omega arith, inr (omega arith))

tar_find_by_suffix-HandsOut_example :
    Answers archive
      (EndsWith archive (97 ∷ []))
      0x1200
      0x1000
      (tar_find_by_suffix archive no_companion mounted 2 16 0x2000).0
    × HandsOut archive 2 0x2000 (tar_find_by_suffix archive no_companion mounted 2 16 0x2000)
tar_find_by_suffix-HandsOut_example =
    tar_find_by_suffix-HandsOut archive no_companion mounted 2 16 0x2000 (97 ∷ []) (omega arith)
      (omega arith) (refl, omega arith, refl) (omega arith) endings
