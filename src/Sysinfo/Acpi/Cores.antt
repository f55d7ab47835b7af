-- ===== src/Sysinfo/Acpi/Cores.antt =====
-- The processors that the MADT lists, and that there are never more than the array holds.
use fae.Prelude.{
  ℕ, zero, suc, ◌+◌, ◌-◌, ◌^◌, ◌<◌, ◌≤◌, ◌≡◌, ◌≢◌, refl, codes, ◌&&◌, ap, ap₂, sym, ◌∙◌, arith,
  true, false, inl, inr, Bool-cases, Option, none, some, List, [], ◌∷◌, ◌++◌, append_assoc,
  append-nil, ◌==◌, ltb, lt→ltb, if◌then◌else◌, if_cases, length, length-append, take, Memory,
  load8, load32, All,
}
use fae.Prelude.Layout.{little, Holds, Holds-at, Holds-append, load32-little}
use fae.Sysinfo.Multiboot2.{Search, found, missing, out_of_fuel}
use fae.Sysinfo.Acpi.{
  is_usable, add_core, add_record, parse_records, detect, find_table, table_rounds,
}

-- A record of the table: a processor, or something else of a type that is not 0.
pub data Record : Type 0 where
  processor : ℕ → ℕ → ℕ → Record
  other : ℕ → List ℕ → Record

abbrev pub encode_record : Record → List ℕ
encode_record (processor number id flags) = 0 ∷ 8 ∷ number ∷ id ∷ little 4 flags
encode_record (other type rest) = type ∷ suc (suc (length rest)) ∷ rest

abbrev pub encode_records : List Record → List ℕ
encode_records [] = []
encode_records (r ∷ rs) = encode_record r ++ encode_records rs

abbrev pub IsRecord : Record → Type 0
IsRecord (processor number id flags) = flags < 2 ^ 32
IsRecord (other type rest) = (type ≢ 0) × (length rest < 254)

-- The ids of the processors that are enabled or can be.
abbrev pub usable : List Record → List ℕ
usable [] = []
usable (processor number id flags ∷ rs) = if is_usable flags then id ∷ usable rs else usable rs
usable (other type rest ∷ rs) = usable rs

take-nil : (n : ℕ) → take {A = ℕ} n [] ≡ []
take-nil zero = refl
take-nil (suc n) = refl

-- Ids join a list that holds 32 of them at most.
abbrev pub join : List ℕ → List ℕ → List ℕ
join ids new = ids ++ take (32 - length ids) new

-- The ids after a record.
abbrev added : Record → List ℕ → List ℕ
added (processor number id flags) ids = if is_usable flags then add_core ids id else ids
added (other type rest) ids = ids

join-add_core :
    (ids new : List ℕ) (id : ℕ) → length ids ≤ 32 → join (add_core ids id) new ≡ join ids (id ∷ new)
join-add_core ids new id h = elim (Bool-cases (ltb (length ids) 32)) [
  | inl e ↦
      let small : length ids < 32 = ground (arith, e) in
      let room : 32 - length ids ≡ suc (31 - length ids) = omega (arith, small) in
      let less : 32 - length (ids ++ id ∷ []) ≡ 31 - length ids =
        omega (arith, length-append ids (id ∷ [])) in
      rw (e, room) (rw less (append_assoc ids (id ∷ []) (take (31 - length ids) new)))
  | inr e ↦ let full : 32 - length ids ≡ 0 = ground (arith, e) in rw (e, full) refl
]

join-added :
    (r : Record) (rs : List Record) (ids : List ℕ)
    → length ids ≤ 32
    → join (added r ids) (usable rs) ≡ join ids (usable (r ∷ rs))
join-added (processor number id flags) rs ids h = elim (Bool-cases (is_usable flags)) [
  | inl e ↦ rw e (join-add_core ids (usable rs) id h)
  | inr e ↦ rw e refl
]
join-added (other type rest) rs ids h = refl

positive_test : (n : ℕ) → 1 < n → (n == 0) ≡ false
positive_test n h = ground (arith, h)

nothing_joins : (ids : List ℕ) → join ids [] ≡ ids
nothing_joins ids = ap (λ l. ids ++ l) (take-nil (32 - length ids)) ∙ append-nil ids

encode_record-lt : (r : Record) → 1 < length (encode_record r)
encode_record-lt (processor number id flags) = omega arith
encode_record-lt (other type rest) = omega arith

add_core-le : (ids : List ℕ) (id : ℕ) → length ids ≤ 32 → length (add_core ids id) ≤ 32
add_core-le ids id h =
    if_cases (λ l. length l ≤ 32) (ltb (length ids) 32) _ _
      (λ e.
        let small : length ids < 32 = ground (arith, e) in
        omega (arith, small, length-append ids (id ∷ [])))
      (λ e. h)

added-le : (r : Record) (ids : List ℕ) → length ids ≤ 32 → length (added r ids) ≤ 32
added-le (processor number id flags) ids h =
    if_cases (λ (l : List ℕ). length l ≤ 32) (is_usable flags) (add_core ids id) ids
      (λ e. add_core-le ids id h) (λ e. h)
added-le (other type rest) ids h = h

module _ (m : Memory) where
  add_record-le : (ptr : ℕ) (ids : List ℕ) → length ids ≤ 32 → length (add_record m ptr ids) ≤ 32
  unfolding add_record
  add_record-le ptr ids h =
      if_cases (λ (l : List ℕ). length l ≤ 32) (load8 m ptr == 0 && is_usable (load32 m (ptr + 4)))
        (add_core ids (load8 m (ptr + 3))) ids (λ e. add_core-le ids (load8 m (ptr + 3)) h) (λ e. h)

  -- Whatever the table holds, the loop ends, with 32 processors at most.
  pub parse_records-le :
      (fuel end ptr : ℕ) (ids : List ℕ)
      → end < fuel + ptr
      → 0 < fuel
      → length ids ≤ 32
      → (all : List ℕ) × (parse_records m fuel end ptr ids ≡ some all) × (length all ≤ 32)
  unfolding parse_records
  parse_records-le zero end ptr ids f positive h = absurd (omega (arith, positive))
  parse_records-le (suc fuel) end ptr ids f positive h = elim (Bool-cases (ltb ptr end)) [
    | inr e ↦ rw e (ids, refl, h)
    | inl e ↦ elim (Bool-cases (load8 m (ptr + 1) == 0)) [
      | inl z ↦ rw (e, z) (ids, refl, h)
      | inr nz ↦
          let more : ptr < end = ground (arith, e) in
          let moves : 0 < load8 m (ptr + 1) = ground (arith, nz) in
          rw (e, nz)
            (parse_records-le fuel end (ptr + load8 m (ptr + 1)) (add_record m ptr ids)
              (omega (arith, f, moves)) (omega (arith, f, more)) (add_record-le ptr ids h))
    ]
  ]

  from_table :
      (table : Option ℕ)
      → (ids : List ℕ) × ((elim table [
        | none ↦ some (0 ∷ [])
        | some madt ↦
            parse_records m (load32 m (madt + 4) + 1) (madt + load32 m (madt + 4)) (madt + 44) []
      ])
          ≡ some ids)
        × (length ids ≤ 32)
  from_table none = (0 ∷ [], refl, omega arith)
  from_table (some madt) =
      parse_records-le _ _ (madt + 44) [] (omega arith) (omega arith) (omega arith)

  -- Whatever the tables hold, when the search for their root has answered, with an address or with
  -- NULL, the detection answers too, with at most 32 processors.
  pub detect-le :
      (s : Search) → s ≢ out_of_fuel → (ids : List ℕ) × (detect m s ≡ some ids) × (length ids ≤ 32)
  unfolding detect
  detect-le missing h = (0 ∷ [], refl, omega arith)
  detect-le out_of_fuel h = absurd (h refl)
  detect-le (found rsdp) h =
      if_cases (λ r. (ids : List ℕ) × (r ≡ some ids) × (length ids ≤ 32)) _ _ _
        (λ e. from_table (
          find_table m (codes "APIC") (table_rounds m (load32 m (rsdp + 16)))
            (load32 m (rsdp + 16) + 36)))
        (λ e. (0 ∷ [], refl, omega arith))

  -- A record begins with its length, and adds its processor when that is usable.
  add_record-Holds :
      (r : Record) (ptr : ℕ) (ids : List ℕ)
      → IsRecord r
      → Holds m ptr (encode_record r)
      → (load8 m (ptr + 1) ≡ length (encode_record r)) × (add_record m ptr ids ≡ added r ids)
  unfolding add_record
  add_record-Holds (processor number id flags) ptr ids b (type, (size, (_, (at, word)))) =
      let loaded : load8 m (ptr + 3) ≡ id = ap (load8 m) (omega arith) ∙ at in
      let bits : load32 m (ptr + 4) ≡ flags =
        load32-little m (ptr + 4) flags b
          (Holds-at m {p = ptr + 1 + 1 + 1 + 1} (little 4 flags) (omega arith) word) in
      (
        size,
        ap₂ (λ t f. if t == 0 && is_usable f then add_core ids (load8 m (ptr + 3)) else ids) type
              bits
            ∙ ap (λ i. if is_usable flags then add_core ids i else ids) loaded,
      )
  add_record-Holds (other type rest) ptr ids (ne, b) (kind, (size, _)) =
      let differs : (type == 0) ≡ false = ground (arith, ne) in
      (
        size,
        ap
            (λ t.
              if t && is_usable (load32 m (ptr + 4)) then add_core ids (load8 m (ptr + 3)) else ids)
            (ap (λ t. t == 0) kind ∙ differs),
      )

  -- Over a table of well-formed records in memory, up to its end, and with at most 32 processors
  -- found before: the walk returns, and the processors are those from before and then the usable
  -- ones of the table in their order, cut off at 32.
  pub parse_records-usable :
      (rs : List Record) (fuel ptr : ℕ) (ids : List ℕ)
      → All IsRecord rs
      → Holds m ptr (encode_records rs)
      → length (encode_records rs) < fuel
      → length ids ≤ 32
      → parse_records m fuel (ptr + length (encode_records rs)) ptr ids
        ≡ some (join ids (usable rs))
  unfolding parse_records
  parse_records-usable rs zero ptr ids b h f small = absurd (omega (arith, f))
  parse_records-usable [] (suc fuel) ptr ids b h f small =
      let over : ltb ptr (ptr + 0) ≡ false = ground arith in
      rw over (ap some (sym (nothing_joins ids)))
  parse_records-usable (r ∷ rs) (suc fuel) ptr ids (b, bs) h f small =
      let (record_, rest) = Holds-append m ptr (encode_record r) (encode_records rs) h in
      let (size, adds) = add_record-Holds r ptr ids b record_ in
      let n : ℕ = length (encode_record r) in
      let all : length (encode_record r ++ encode_records rs) ≡ n + length (encode_records rs) =
        length-append (encode_record r) (encode_records rs) in
      let moves : 1 < n = encode_record-lt r in
      let more : ltb ptr (ptr + length (encode_record r ++ encode_records rs)) ≡ true =
        lt→ltb _ _ (omega (arith, all, moves)) in
      let whole : (load8 m (ptr + 1) == 0) ≡ false =
        ap (λ l. l == 0) size ∙ positive_test n moves in
      let end : ptr + length (encode_record r ++ encode_records rs)
          ≡ ptr + n + length (encode_records rs) =
        omega (arith, all) in
      let at : ℕ → List ℕ → Option (List ℕ) = λ l new.
        parse_records m fuel (ptr + length (encode_record r ++ encode_records rs)) (ptr + l) new in
      rw (more, whole)
        (ap₂ at size adds
          ∙ ap (λ e. parse_records m fuel e (ptr + n) (added r ids)) end
          ∙ parse_records-usable rs fuel (ptr + n) (added r ids) bs rest
              (omega (arith, f, all, moves)) (added-le r ids small)
          ∙ ap some (join-added r rs ids small))
