-- ===== src/Tar/Octal.antt =====
-- `parse_octal` reads what an archiver writes.
use fae.Prelude.{
  ℕ, zero, suc, ◌+◌, ◌*◌, ◌<◌, ◌≡◌, ◌⊎◌, refl, arith, false, List, [], ◌∷◌, Memory, ◌==◌, length,
  u64,
}
use fae.Tar.{octal_step, parse_octal_from, parse_octal}

-- The digits `ds`, below 8, stand at `s` as characters.
abbrev pub IsOctal : Memory → ℕ → List ℕ → Type 0
IsOctal m s [] = Unit
IsOctal m s (d ∷ ds) = (m s ≡ 0x30 + d) × (d < 8) × IsOctal m (s + 1) ds

-- The number that digits stand for, read on from `val`.
abbrev pub octal_value : ℕ → List ℕ → ℕ
octal_value val [] = val
octal_value val (d ∷ ds) = octal_value (val * 8 + d) ds

-- What ends the digits: the field's end, a terminator or a space.
abbrev pub IsEnd : Memory → ℕ → ℕ → Type 0
IsEnd m s zero = Unit
IsEnd m s (suc n) = (m s ≡ 0) ⊎ (m s ≡ 0x20)

step_lem :
    (val acc c d : ℕ) → val ≡ u64 acc → c ≡ 0x30 + d → d < 8 → octal_step val c ≡ u64 (acc * 8 + d)
step_lem val acc c d e f b = ground arith

parse_octal_from_lem :
    (m : Memory) (s n val acc : ℕ) (ds : List ℕ)
    → val ≡ u64 acc
    → IsOctal m s ds
    → IsEnd m (s + length ds) n
    → parse_octal_from m s (length ds + n) val ≡ u64 (octal_value acc ds)
unfolding parse_octal_from
parse_octal_from_lem m s zero val acc [] e o l = ground arith
parse_octal_from_lem m s (suc n) val acc [] e o l = ground arith
parse_octal_from_lem m s n val acc (d ∷ ds) e o l =
    let at : s + 1 + length ds ≡ s + suc (length ds) = omega arith in
    let rest =
      parse_octal_from_lem m (s + 1) n (octal_step val (m s)) (acc * 8 + d) ds
        (step_lem val acc (m s) d e o.0 o.1) o.2 (rw at l) in
    let more : suc (length ds) + n ≡ suc (length ds + n) = omega arith in
    let a : (m s == 0) ≡ false = ground arith in
    let b : (m s == 0x20) ≡ false = ground arith in rw (more, a, b) rest

-- A field that holds digits, ended by its length, by a terminator or by a space, is read as their
-- value in base 8, modulo 2 ^ 64; what stands behind the end does not count.
pub parse_octal_lem :
    (m : Memory) (s n : ℕ) (ds : List ℕ)
    → IsOctal m s ds
    → IsEnd m (s + length ds) n
    → parse_octal m s (length ds + n) ≡ u64 (octal_value 0 ds)
unfolding parse_octal
parse_octal_lem m s n ds o l = parse_octal_from_lem m s n 0 0 ds refl o l
