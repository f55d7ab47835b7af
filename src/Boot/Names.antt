-- ===== src/Boot/Names.antt =====
-- Names of models: what `ends_with_gguf` accepts, the files that the menu shows, and the companion's name.
use fae.Prelude.{
  ℕ, suc, ◌+◌, ◌-◌, ◌<◌, ◌≤◌, ◌≡◌, ◌↔◌, inl, inr, refl, ap, ap₂, sym, ◌∙◌, arith, Bool, true, false,
  ◌&&◌, Bool-cases, if_cases, none, some, List, [], ◌∷◌, ◌++◌, append_assoc, ◌==◌, ltb, lt→ltb, leb,
  if◌then◌else◌, length, length-append, length-drop, take, drop, take-append-drop, get_or, codes,
}
use fae.Boot.{is_letter, ends_with_gguf, FileInfo, is_model, scan_directory, select, instruct_name}

-- The five characters of the ending, in any case.
abbrev pub IsEnding : List ℕ → Type 0
IsEnding e =
    (g g' u f : ℕ) × (e ≡ 0x2E ∷ g ∷ g' ∷ u ∷ f ∷ [])
    × (is_letter 0x67 0x47 g ≡ true)
    × (is_letter 0x67 0x47 g' ≡ true)
    × (is_letter 0x75 0x55 u ≡ true)
    × (is_letter 0x66 0x46 f ≡ true)

get_or-append_right :
    (pre rest : List ℕ) (i : ℕ) → get_or (pre ++ rest) (length pre + i) 0 ≡ get_or rest i 0
get_or-append_right [] rest i = let e : 0 + i ≡ i = omega arith in ap (λ j. get_or rest j 0) e
get_or-append_right (x ∷ pre) rest i =
    let e : suc (length pre) + i ≡ suc (length pre + i) = omega arith in
    ap (λ j. get_or (x ∷ (pre ++ rest)) j 0) e ∙ get_or-append_right pre rest i

-- What is behind a text, by its place from the end.
get_or_from_end :
    (base rest : List ℕ) (k i : ℕ)
    → k + i ≡ length rest
    → get_or (base ++ rest) (length (base ++ rest) - k) 0 ≡ get_or rest i 0
get_or_from_end base rest k i e =
    let at : length (base ++ rest) - k ≡ length base + i =
      omega (arith, length-append base rest, e) in
    ap (λ j. get_or (base ++ rest) j 0) at ∙ get_or-append_right base rest i

-- The tests of the five characters.
abbrev checks : ℕ → ℕ → ℕ → ℕ → ℕ → Bool
checks a b c d e =
    a == 0x2E
    && is_letter 0x67 0x47 b
    && is_letter 0x67 0x47 c
    && is_letter 0x75 0x55 d
    && is_letter 0x66 0x46 e

abbrev at : List ℕ → ℕ → ℕ
at name k = get_or name (length name - k) 0

ends_with_gguf-append :
    (base rest : List ℕ)
    → length rest ≡ 5
    → ends_with_gguf (base ++ rest)
      ≡ checks
          (get_or rest 0 0)
          (get_or rest 1 0)
          (get_or rest 2 0)
          (get_or rest 3 0)
          (get_or rest 4 0)
unfolding ends_with_gguf
ends_with_gguf-append base rest e =
    let name : List ℕ = base ++ rest in
    let long : ltb (length name) 5 ≡ false = ground (arith, length-append base rest, e) in
    let c5 : at name 5 ≡ get_or rest 0 0 = get_or_from_end base rest 5 0 (omega (arith, e)) in
    let c4 : at name 4 ≡ get_or rest 1 0 = get_or_from_end base rest 4 1 (omega (arith, e)) in
    let c3 : at name 3 ≡ get_or rest 2 0 = get_or_from_end base rest 3 2 (omega (arith, e)) in
    let c2 : at name 2 ≡ get_or rest 3 0 = get_or_from_end base rest 2 3 (omega (arith, e)) in
    let c1 : at name 1 ≡ get_or rest 4 0 = get_or_from_end base rest 1 4 (omega (arith, e)) in
    ap
      (λ b. if b then false else checks (at name 5) (at name 4) (at name 3) (at name 2) (at name 1))
      long
    ∙ ap₂ (λ a b. checks a b (at name 3) (at name 2) (at name 1)) c5 c4
    ∙ ap₂ (λ c d. checks (get_or rest 0 0) (get_or rest 1 0) c d (at name 1)) c3 c2
    ∙ ap (checks (get_or rest 0 0) (get_or rest 1 0) (get_or rest 2 0) (get_or rest 3 0)) c1

five :
    (rest : List ℕ)
    → length rest ≡ 5
    → rest
      ≡ get_or rest 0 0 ∷ get_or rest 1 0 ∷ get_or rest 2 0 ∷ get_or rest 3 0 ∷ get_or rest 4 0 ∷ []
five [] e = absurd (omega (arith, e))
five (a ∷ []) e = absurd (omega (arith, e))
five (a ∷ b ∷ []) e = absurd (omega (arith, e))
five (a ∷ b ∷ c ∷ []) e = absurd (omega (arith, e))
five (a ∷ b ∷ c ∷ d ∷ []) e = absurd (omega (arith, e))
five (a ∷ b ∷ c ∷ d ∷ x ∷ []) e = refl
five (a ∷ b ∷ c ∷ d ∷ x ∷ y ∷ r) e = absurd (omega (arith, e))

-- `ends_with_gguf` accepts the names that end with `.gguf`, in any case of its letters, and no others.
pub ends_with_gguf_lem :
    (name : List ℕ)
    → (ends_with_gguf name ≡ true)
      ↔ ((base ending : List ℕ) × (name ≡ base ++ ending) × IsEnding ending)
unfolding ends_with_gguf
ends_with_gguf_lem name = (
  λ e.
      let long : 5 ≤ length name = ground (arith, e) in
      let base : List ℕ = take (length name - 5) name in
      let rest : List ℕ = drop (length name - 5) name in
      let five_left : length rest ≡ 5 = length-drop (length name - 5) name ∙ omega (arith, long) in
      let split : name ≡ base ++ rest = sym (take-append-drop (length name - 5) name) in
      let all =
        sym (ends_with_gguf-append base rest five_left) ∙ ap ends_with_gguf (sym split) ∙ e in
      let is : rest
          ≡ 0x2E ∷ get_or rest 1 0 ∷ get_or rest 2 0 ∷ get_or rest 3 0 ∷ get_or rest 4 0 ∷ [] =
        five rest five_left
        ∙ ap (λ a. a ∷ get_or rest 1 0 ∷ get_or rest 2 0 ∷ get_or rest 3 0 ∷ get_or rest 4 0 ∷ [])
            (ground (arith, all)) in
      (
        base,
        rest,
        split,
        (
          get_or rest 1 0,
          get_or rest 2 0,
          get_or rest 3 0,
          get_or rest 4 0,
          is,
          ground (arith, all),
          ground (arith, all),
          ground (arith, all),
          ground (arith, all),
        ),
      ),
  λ h.
      let (base, ending, split, (g, g', u, f, is, eg, eg', eu, ef)) = h in
      ap ends_with_gguf (split ∙ ap (λ r. base ++ r) is)
      ∙ ends_with_gguf-append base (0x2E ∷ g ∷ g' ∷ u ∷ f ∷ []) (omega arith)
      ∙ rw (eg, eg', eu, ef) refl,
)

-- The menu never holds more than 10 files.
abbrev pub HasRoom : List (List ℕ × ℕ) → Type 0
HasRoom files = length files ≤ 10

pub scan_directory-HasRoom :
    (volume : ℕ) (fs : List FileInfo) (files : List (List ℕ × ℕ))
    → HasRoom files
    → HasRoom (scan_directory volume fs files)
unfolding scan_directory
scan_directory-HasRoom volume [] files h = h
scan_directory-HasRoom volume (f ∷ fs) files h =
    if_cases HasRoom (ltb (length files) 10) _ files
      (λ e.
        let room : length files < 10 = ground (arith, e) in
        scan_directory-HasRoom volume fs _ (
          if_cases HasRoom (is_model f) _ files
            (λ m.
              omega (arith, room, length-append files ((take 255 (FileInfo.name f), volume) ∷ [])))
            (λ m. h)))
      (λ e. h)

-- A selection is the number of a file.
pub select-lt : (count : ℕ) (keys : List ℕ) (i : ℕ) → select count keys ≡ some i → i < count
unfolding select
select-lt count [] i e = cc
select-lt count (c ∷ cs) i e = elim (Bool-cases (leb 0x31 c && ltb c (0x31 + count))) [
  | inl t ↦
      let is : some (c - 0x31) ≡ some i = rw t at e in
      let same : c - 0x31 ≡ i = ap (λ o. elim o [ none ↦ 0 | some v ↦ v ]) is in
      ground (arith, t, same)
  | inr f ↦ select-lt count cs i (rw f at e)
]

take-append : (pre rest : List ℕ) (k : ℕ) → take (length pre + k) (pre ++ rest) ≡ pre ++ take k rest
take-append [] rest k = let e : 0 + k ≡ k = omega arith in ap (λ j. take j rest) e
take-append (x ∷ pre) rest k =
    let e : suc (length pre) + k ≡ suc (length pre + k) = omega arith in
    ap (λ j. take j (x ∷ (pre ++ rest))) e ∙ ap (λ l. x ∷ l) (take-append pre rest k)

-- The companion of a model with a name before the ending has that name and the ending `.instruct`.
pub instruct_name-ending :
    (base ending : List ℕ)
    → 0 < length base
    → IsEnding ending
    → instruct_name (base ++ ending) ≡ base ++ codes ".instruct"
unfolding instruct_name
instruct_name-ending base ending h (g, g', u, f, is, _, _, _, _) =
    let name : List ℕ = base ++ 0x2E ∷ g ∷ g' ∷ u ∷ f ∷ [] in
    let size : length name ≡ length base + 5 = length-append base (0x2E ∷ g ∷ g' ∷ u ∷ f ∷ []) in
    let long : ltb 5 (length name) ≡ true = lt→ltb 5 (length name) (omega (arith, size, h)) in
    let kept : length name - 4 ≡ length base + 1 = omega (arith, size) in
    ap (λ r. instruct_name (base ++ r)) is
    ∙ ap (λ b. if b then take (length name - 4) name ++ codes "instruct" else name) long
    ∙ ap (λ n. take n name ++ codes "instruct") kept
    ∙ ap (λ r. r ++ codes "instruct") (take-append base (0x2E ∷ g ∷ g' ∷ u ∷ f ∷ []) 1)
    ∙ append_assoc base (0x2E ∷ []) (codes "instruct")
