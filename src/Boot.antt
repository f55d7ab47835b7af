-- ===== src/Boot.antt =====
-- bootloader.c, the choice of a model: `ends_with_gguf`, the directory scan, the menu and the name of the
-- companion file. A name is the list of its characters, none of them 0. What the firmware answers,
-- directory entries and keys, are lists.
pub mod Reading
pub mod Tests
pub mod Elf
pub mod Names
pub mod MemoryMap
use fae.Prelude.{
  ℕ, zero, suc, ◌+◌, ◌-◌, ◌/◌, ◌%◌, Bool, true, false, not, ◌&&◌, ◌||◌, Option, none, some, List,
  [], ◌∷◌, ◌++◌, ◌==◌, ltb, leb, if◌then◌else◌, length, take, get_or, codes,
}

abbrev pub is_letter : ℕ → ℕ → ℕ → Bool
is_letter lower upper c = (c == lower) || (c == upper)

-- `ends_with_gguf`
pub ends_with_gguf : List ℕ → Bool
ends_with_gguf name =
    let len = length name in
    if ltb len 5
    then false
    else get_or name (len - 5) 0 == 0x2E
      && is_letter 0x67 0x47 (get_or name (len - 4) 0)
      && is_letter 0x67 0x47 (get_or name (len - 3) 0)
      && is_letter 0x75 0x55 (get_or name (len - 2) 0)
      && is_letter 0x66 0x46 (get_or name (len - 1) 0)

-- `EFI_FILE_INFO`: the attributes and the name.
pub record FileInfo : Type 0 where
  pub attribute : ℕ
  pub name : List ℕ

-- A file, not a directory and not a label, of the right name.
pub is_model : FileInfo → Bool
unfolding ends_with_gguf
is_model f =
    not (FileInfo.attribute f / 0x10 % 2 == 1)
    && not (FileInfo.attribute f / 0x08 % 2 == 1)
    && ends_with_gguf (FileInfo.name f)

-- The loop over a directory: a name is saved up to 255 characters, with its volume, until there are 10.
pub scan_directory : ℕ → List FileInfo → List (List ℕ × ℕ) → List (List ℕ × ℕ)
unfolding is_model
scan_directory volume [] files = files
scan_directory volume (f ∷ fs) files =
    if ltb (length files) 10
    then scan_directory volume fs
        (if is_model f then files ++ (take 255 (FileInfo.name f), volume) ∷ [] else files)
    else files

-- The loop over the volumes; one that cannot be opened is passed over.
pub scan_volumes : ℕ → List (Option (List FileInfo)) → List (List ℕ × ℕ) → List (List ℕ × ℕ)
unfolding scan_directory
scan_volumes volume [] files = files
scan_volumes volume (none ∷ vs) files = scan_volumes (volume + 1) vs files
scan_volumes volume (some fs ∷ vs) files =
    if ltb (length files) 10
    then scan_volumes (volume + 1) vs (scan_directory volume fs files)
    else files

-- The menu's loop over the keys: the first that stands for a file.
pub select : ℕ → List ℕ → Option ℕ
select count [] = none
select count (c ∷ cs) =
    if leb 0x31 c && ltb c (0x31 + count) then some (c - 0x31) else select count cs

-- The name of the companion: the last four characters of a name make room for `instruct`. The array has
-- 256 places, which is not checked.
pub instruct_name : List ℕ → List ℕ
instruct_name name =
    if ltb 5 (length name) then take (length name - 4) name ++ codes "instruct" else name
