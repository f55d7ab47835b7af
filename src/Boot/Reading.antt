-- ===== src/Boot/Reading.antt =====
-- bootloader.c, the loop that reads the model in pieces of 32 MB. `respond` is the firmware: for a round
-- and a size it answers with the number of bytes read, or with an error.
use fae.Prelude.{
  ℕ, zero, suc, ◌+◌, ◌-◌, ◌<◌, ◌≤◌, ◌≡◌, inl, inr, refl, arith, Option, none, some, List, [], ◌∷◌,
  ltb, ◌==◌, if◌then◌else◌, Bool-cases, Option-cases,
}

-- How the loop ends: with the places and sizes that it read into, with an error, or not within the fuel.
pub data Outcome : Type 0 where
  done : List (ℕ × ℕ) → Outcome
  read_error : Outcome
  out_of_fuel : Outcome

abbrev pub chunk : ℕ
chunk = 33554432

abbrev and_piece : ℕ × ℕ → Outcome → Outcome
and_piece p (done ps) = done (p ∷ ps)
and_piece p read_error = read_error
and_piece p out_of_fuel = out_of_fuel

module _ (respond : ℕ → ℕ → Option ℕ) where
  -- `bytes_left`, `write_ptr` and the round.
  pub read_chunks : ℕ → ℕ → ℕ → ℕ → Outcome
  read_chunks zero round bytes_left write_ptr = out_of_fuel
  read_chunks (suc fuel) round bytes_left write_ptr =
      if bytes_left == 0
      then done []
      else elim (respond round (if ltb chunk bytes_left then chunk else bytes_left)) [
        | none ↦ read_error
        | some size ↦
            if size == 0
            then read_error
            else and_piece (write_ptr, size)
                (read_chunks fuel (round + 1) (bytes_left - size) (write_ptr + size))
      ]

-- Pieces that lie side by side from an address on, of a size together, none of them empty or above 32 MB.
abbrev pub Tiles : ℕ → ℕ → List (ℕ × ℕ) → Type 0
Tiles start size [] = size ≡ 0
Tiles start size ((p, n) ∷ ps) =
    (p ≡ start) × (0 < n) × (n ≤ chunk) × (n ≤ size) × Tiles (start + n) (size - n) ps

abbrev pub Ends : ℕ → ℕ → Outcome → Type 0
Ends start size (done ps) = Tiles start size ps
Ends start size read_error = Unit
Ends start size out_of_fuel = ⊥

-- The firmware reads no more than it is asked for.
abbrev pub IsBounded : (ℕ → ℕ → Option ℕ) → Type 0
IsBounded respond = (round request size : ℕ) → respond round request ≡ some size → size ≤ request

Ends-piece :
    (start size n : ℕ) (o : Outcome)
    → 0 < n
    → n ≤ chunk
    → n ≤ size
    → Ends (start + n) (size - n) o
    → Ends start size (and_piece (start, n) o)
Ends-piece start size n (done ps) some_ small fits t = (refl, some_, small, fits, t)
Ends-piece start size n read_error some_ small fits t = tt
Ends-piece start size n out_of_fuel some_ small fits t = t

-- With a firmware that reads no more than it is asked for, whatever else it answers, the loop ends
-- within as many rounds as there are bytes left and one more: with an error, or with the whole of
-- the file read in pieces side by side of at most 32 MB each.
pub read_chunks-Ends :
    (respond : ℕ → ℕ → Option ℕ) (fuel round bytes_left write_ptr : ℕ)
    → IsBounded respond
    → bytes_left < fuel
    → Ends write_ptr bytes_left (read_chunks respond fuel round bytes_left write_ptr)
unfolding read_chunks
read_chunks-Ends respond zero round left ptr b f = absurd (omega (arith, f))
read_chunks-Ends respond (suc fuel) round left ptr b f =
    let request : ℕ = if ltb chunk left then chunk else left in
    elim (Bool-cases (left == 0)) [
      | inl e ↦ let none_left : left ≡ 0 = ground (arith, e) in rw e none_left
      | inr e ↦ elim (Option-cases (respond round request)) [
        | inl no_answer ↦ rw (e, no_answer) tt
        | inr (n, answer) ↦ elim (Bool-cases (n == 0)) [
          | inl z ↦ rw (e, answer, z) tt
          | inr nz ↦
              let positive : 0 < n = ground (arith, nz) in
              let asked : n ≤ request = b round request n answer in
              let within : request ≤ left = ground arith in
              let small : request ≤ chunk = ground arith in
              rw (e, answer, nz)
                (Ends-piece ptr left n (read_chunks respond fuel (round + 1) (left - n) (ptr + n))
                  positive (omega (arith, asked, small)) (omega (arith, asked, within))
                  (read_chunks-Ends respond fuel (round + 1) (left - n) (ptr + n) b
                    (omega (arith, f, positive))))
        ]
      ]
    ]
