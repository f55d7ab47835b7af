-- ===== src/Tar.antt =====
-- tar.c: the reader of the initrd, a tar archive in memory.
-- Addresses are natural numbers. A header's fields are at fixed offsets: the name at 0, the size, 12
-- octal digits, at 124. What `tar_list` prints is given as its lines' values.
pub mod Octal
pub mod Walk
pub mod Listing
pub mod Suffix
pub mod HandsOut
pub mod Tests
use mathlib.Core.Option
use fae.Prelude.{
  ℕ, zero, suc, ◌+◌, ◌-◌, ◌*◌, Bool, true, false, ◌&&◌, ◌||◌, Option, none, some, ltb, leb, ◌==◌,
  if◌then◌else◌, List, [], ◌∷◌, Memory, align_down, u64, min, codes,
}
use fae.Prelude.Int.{ℤ, pos, negsuc}
use fae.CString.{strlen, strcmp, memcpy, store8}

-- One character of `parse_octal`: a digit counts, any other is passed over.
abbrev pub octal_step : ℕ → ℕ → ℕ
octal_step val c = if leb 0x30 c && leb c 0x37 then u64 (val * 8 + (c - 0x30)) else val

-- `parse_octal`, the loop with `max_len` characters to go.
pub parse_octal_from : Memory → ℕ → ℕ → ℕ → ℕ
parse_octal_from m str zero val = val
parse_octal_from m str (suc n) val =
    let rest = parse_octal_from m (str + 1) n (octal_step val (m str)) in
    if m str == 0 || m str == 0x20 then val else rest

pub parse_octal : Memory → ℕ → ℕ → ℕ
unfolding parse_octal_from
parse_octal m str max_len = parse_octal_from m str max_len 0

-- `tar_start` and `tar_len`.
pub record Tar : Type 0 where
  pub start : ℕ
  pub len : ℕ

-- `tar_init`
abbrev pub tar_init : ℕ → ℕ → Tar
tar_init tar_address tar_size = record { start = tar_address; len = tar_size }

-- How a search ends: with the address and the size of a file's bytes, with NULL, or not within the
-- fuel for the walk and for the texts.
pub data Found : Type 0 where
  found : ℕ → ℕ → Found
  missing : Found
  out_of_fuel : Found

-- `strcmp(...) == 0`
abbrev pub is_zero : ℤ → Bool
is_zero (pos n) = n == 0
is_zero (negsuc n) = false

abbrev pub is_same : Option ℤ → Option Bool
is_same none = none
is_same (some d) = some (is_zero d)

module _ (m : Memory) where
  -- `parse_octal(header->size, 12)`
  abbrev pub file_size : ℕ → ℕ
  file_size ptr = parse_octal m (ptr + 124) 12

  -- `ptr += 512 + ((size + 511) & ~511)`
  abbrev pub next_header : ℕ → ℕ
  next_header ptr = ptr + (512 + align_down 512 (file_size ptr + 511))

  -- What a test of a header, which may not answer, makes of the walk.
  abbrev pub answer : Option Bool → ℕ → Found → Found
  answer none ptr rest = out_of_fuel
  answer (some true) ptr rest = found (ptr + 512) (file_size ptr)
  answer (some false) ptr rest = rest

  -- The `while` loop of the searches, over what a search tests a header for.
  pub search_from : (ℕ → Option Bool) → ℕ → ℕ → ℕ → Found
  search_from test end zero ptr = out_of_fuel
  search_from test end (suc fuel) ptr =
      let rest = search_from test end fuel (next_header ptr) in
      if ltb ptr end then if m ptr == 0 then missing else answer (test ptr) ptr rest else missing

  -- `tar_find_file`: `n` is the fuel for comparing names; a header is 512 bytes, so that the
  -- archive's length is fuel enough for the walk.
  pub tar_find_file : Tar → ℕ → ℕ → Found
  unfolding search_from
  tar_find_file t n filename =
      if Tar.start t == 0
      then missing
      else search_from (λ ptr. is_same (strcmp m n ptr filename)) (Tar.start t + Tar.len t)
          (Tar.len t + 1) (Tar.start t)

  -- The test of `tar_find_by_suffix`, by the lengths of the name and of the suffix.
  abbrev pub has_suffix : ℕ → ℕ → ℕ → Option ℕ → Option Bool
  has_suffix n suffix ptr none = none
  has_suffix n suffix ptr (some name_len) = elim (strlen m n suffix) [
    | none ↦ none
    | some suff_len ↦
        if leb suff_len name_len
        then is_same (strcmp m n (ptr + name_len - suff_len) suffix)
        else some false
  ]

  -- The walk of `tar_find_by_suffix` over a mounted archive.
  pub search_suffix : Tar → ℕ → ℕ → Found
  unfolding search_from
  search_suffix t n suffix =
      search_from (λ ptr. has_suffix n suffix ptr (strlen m n ptr)) (Tar.start t + Tar.len t)
        (Tar.len t + 1) (Tar.start t)

  -- The walk of `tar_list`: each line's name, size and type flag. None is out of fuel.
  pub list_from : ℕ → ℕ → ℕ → Option (List (ℕ × ℕ × ℕ))
  list_from end zero ptr = none
  list_from end (suc fuel) ptr =
      let rest = list_from end fuel (next_header ptr) in
      if ltb ptr end
      then if m ptr == 0
        then some []
        else Option.map (λ es. (ptr, file_size ptr, m (ptr + 156)) ∷ es) rest
      else some []

  -- `tar_list`
  pub tar_list : Tar → Option (List (ℕ × ℕ × ℕ))
  unfolding list_from
  tar_list t =
      if Tar.start t == 0
      then some []
      else list_from (Tar.start t + Tar.len t) (Tar.len t + 1) (Tar.start t)

  -- The comparison with a constant string.
  pub is_text : ℕ → List ℕ → Bool
  is_text s [] = m s == 0
  is_text s (c ∷ cs) = m s == c && is_text (s + 1) cs

-- `uefi_instruct_addr` and `uefi_instruct_size`.
pub record Companion : Type 0 where
  pub addr : ℕ
  pub size : ℕ

-- `tar_set_uefi_instruct`
abbrev pub tar_set_uefi_instruct : ℕ → ℕ → Companion
tar_set_uefi_instruct addr size = record { addr = addr; size = size }

-- The copy of the constant name, with `n` bytes of room before the terminator.
pub copy_text : ℕ → ℕ → List ℕ → Memory → Memory
copy_text out zero cs m = store8 m out 0
copy_text out (suc n) [] m = store8 m out 0
copy_text out (suc n) (c ∷ cs) m = copy_text (out + 1) n cs (store8 m out c)

-- The copy of a name that `tar_find_by_suffix` hands out: 99 bytes of it at most, and a terminator.
abbrev pub copy_name : Memory → ℕ → ℕ → ℕ → Memory
copy_name m out ptr name_len = store8 (memcpy m out ptr (min name_len 99)) (out + min name_len 99) 0

-- What is stored at `out_name`, when it is not NULL, for a file whose bytes are found at `a`.
abbrev pub hand_out : Memory → ℕ → ℕ → Found → Found × Memory
hand_out m n out (found a size) = elim (strlen m n (a - 512)) [
  | none ↦ (out_of_fuel, m)
  | some name_len ↦ (found a size, if out == 0 then m else copy_name m out (a - 512) name_len)
]
hand_out m n out missing = (missing, m)
hand_out m n out out_of_fuel = (out_of_fuel, m)

-- `tar_find_by_suffix`: what it returns, with `*out_size`, and the memory after it.
pub tar_find_by_suffix : Memory → Companion → Tar → ℕ → ℕ → ℕ → Found × Memory
unfolding search_suffix is_text copy_text
tar_find_by_suffix m c t n suffix out =
    if Tar.start t == 0
    then if Companion.addr c == 0
      then (missing, m)
      else if is_text m suffix (codes ".instruct")
      then (
        found (Companion.addr c) (Companion.size c),
        if out == 0 then m else copy_text out 99 (codes "uefi_companion.instruct") m,
      )
      else (missing, m)
    else hand_out m n out (search_suffix m t n suffix)
