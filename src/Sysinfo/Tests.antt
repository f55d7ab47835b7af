-- ===== src/Sysinfo/Tests.antt =====
-- The tag walk's theorems at concrete lists of tags.
use fae.Prelude.{
  ℕ, ◌≡◌, refl, sym, ap, ◌∙◌, ◌⊎◌, arith, Bool, true, false, Memory, ◌==◌, ◌+◌, ◌≤◌, ◌≢◌, ◌++◌, [],
  ◌∷◌, List, All, some, codes, length, if◌then◌else◌, inl, inr,
}
use fae.Prelude.Layout.{image, Holds, Holds-image}
use fae.Sysinfo.Acpi.{detect, parse_records, scan_cmdline}
use fae.Sysinfo.Acpi.Cores.{
  Record, processor, other, encode_records, IsRecord, parse_records-usable, detect-le,
}
use fae.Sysinfo.Multiboot2.{
  Search, found, out_of_fuel, is_end_tag, next_tag, find_tag_from, find_tag,
}
use fae.Sysinfo.Multiboot2.Laws.{
  Walk, here, next, Answers, HasSizes, find_tag-Answers, find_tag_from_stuck,
}

-- 24 bytes of tags at 0x100: one of type 6 and size 8, and the end tag.
abbrev tags : Memory
tags a =
    if a == 0x100
    then 24
    else if a == 0x108
    then 6
    else if a == 0x10C
    then 8
    else if a == 0x114
    then 8
    else 0

two_tags :
    (p q : ℕ) → (p ≡ 0x108) ⊎ (p ≡ 0x110) → Walk tags 0x118 15 p q → (q ≡ 0x108) ⊎ (q ≡ 0x110)
two_tags p _ h here = h
two_tags p q (inl e) (next lt open_ different w) = two_tags _ q (inr (ap (next_tag tags) e)) w
two_tags p q (inr e) (next lt open_ different w) =
    let stop : is_end_tag tags p ≡ true = ap (is_end_tag tags) e in absurd (cc (sym stop ∙ open_))

tags-HasSizes : HasSizes tags 0x118 15 0x108
tags-HasSizes q w lt = elim (two_tags 0x108 q (inl refl) w) [
  | inl e ↦ rw e (omega arith, omega arith)
  | inr e ↦ rw e (omega arith, omega arith)
]

find_tag-Answers_example : Answers tags 0x118 15 0x108 (find_tag tags 0x100 15)
find_tag-Answers_example = find_tag-Answers tags 0x100 15 (omega arith) tags-HasSizes

-- A tag of type 6 and size 0.
abbrev empty_tag : Memory
empty_tag a = if a == 0x108 then 6 else 0

find_tag_from_stuck_example : find_tag_from empty_tag 15 0x118 1000 0x108 ≡ out_of_fuel
find_tag_from_stuck_example =
    find_tag_from_stuck empty_tag 15 0x118 1000 0x108 (omega arith) refl (omega arith) refl

-- Three records: a processor that is on, something else, a processor that can be turned on.
abbrev records : List Record
records = processor 0 4 1 ∷ other 1 (7 ∷ 7 ∷ []) ∷ processor 1 6 2 ∷ processor 2 8 0 ∷ []

abbrev madt : Memory
madt = image 0x2000 (encode_records records)

madt-Holds : Holds madt 0x2000 (encode_records records)
madt-Holds = Holds-image 0x2000 [] (encode_records records) refl

records-IsRecord : All IsRecord records
records-IsRecord = (omega arith, ((omega arith, omega arith), (omega arith, (omega arith, tt))))

parse_records-usable_example :
    parse_records madt 100 (0x2000 + length (encode_records records)) 0x2000 [] ≡ some (4 ∷ 6 ∷ [])
parse_records-usable_example =
    parse_records-usable madt records 100 0x2000 [] records-IsRecord madt-Holds (omega arith)
      (omega arith)

abbrev is_found : Search → Bool
is_found (found a) = true
is_found s = false

found_not_out_of_fuel : (a : ℕ) → found a ≢ out_of_fuel
found_not_out_of_fuel a e = let no_ : true ≡ false = ap is_found e in cc

detect-le_example : (ids : List ℕ) × (detect madt (found 0x2000) ≡ some ids) × (length ids ≤ 32)
detect-le_example = detect-le madt (found 0x2000) (found_not_out_of_fuel 0x2000)

-- A command line whose address is 0 is read on behind its terminator.
abbrev cmdline : Memory
cmdline = image 0x100 (codes "acpi=0x0" ++ 0 ∷ codes "acpi=0xE0" ++ 0 ∷ [])

cmdline_read_on : scan_cmdline cmdline 40 0x100 ≡ found 0xE0
unfolding scan_cmdline
cmdline_read_on = refl
