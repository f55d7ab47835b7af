-- ===== src/Boot/Tests.antt =====
-- The boot loader's theorems at concrete names, files and maps.
use fae.Prelude.{
  ℕ, ◌<◌, ◌≤◌, ◌≡◌, ◌↔◌, inl, inr, refl, arith, true, Option, some, List, [], ◌∷◌, ◌++◌, codes, ltb,
  if◌then◌else◌, ◌==◌, Memory, load32, length, take,
}
use fae.Prelude.Layout.{image, Holds, Holds-image}
use fae.Boot.{ends_with_gguf, instruct_name, select}
use fae.Boot.Names.{IsEnding, ends_with_gguf_lem, select-lt, instruct_name-ending}
use fae.Boot.Reading.{read_chunks, Ends, read_chunks-Ends}
use fae.Boot.Elf.{Phdr, load_segments}
use fae.Boot.Elf.Segments.{segment_byte, load_segments-Member}
use fae.Boot.MemoryMap.{Descriptor, convert_map}
use fae.Boot.MemoryMap.Handover.{encode_map, add_descriptors, init_uefi-convert_map}
use fae.Pmm.{Pmm}
use fae.Pmm.Boot.{init_uefi, uefi_taken}

ends_with_gguf_lem_example :
    (ends_with_gguf (codes "qwen.GGUF") ≡ true)
    ↔ ((base ending : List ℕ) × (codes "qwen.GGUF" ≡ base ++ ending) × IsEnding ending)
ends_with_gguf_lem_example = ends_with_gguf_lem (codes "qwen.GGUF")

second_of_two : select 2 (codes "x32") ≡ some 1
unfolding select
second_of_two = refl

select-lt_example : 1 < 2
select-lt_example = select-lt 2 (codes "x32") 1 second_of_two

gguf-IsEnding : IsEnding (codes ".gguf")
gguf-IsEnding = (0x67, 0x67, 0x75, 0x66, refl, refl, refl, refl, refl)

instruct_name-ending_example :
    instruct_name (codes "qwen" ++ codes ".gguf") ≡ codes "qwen" ++ codes ".instruct"
instruct_name-ending_example =
    instruct_name-ending (codes "qwen") (codes ".gguf") (omega arith) gguf-IsEnding

-- A firmware that reads at most 16 MB at a time.
abbrev respond : ℕ → ℕ → Option ℕ
respond round request = some (if ltb 16777216 request then 16777216 else request)

respond-IsBounded : (round request size : ℕ) → respond round request ≡ some size → size ≤ request
respond-IsBounded round request size e = ground (arith, e)

read_chunks-Ends_example :
    Ends 0x1000000 40000000 (read_chunks respond 40000001 0 40000000 0x1000000)
read_chunks-Ends_example =
    read_chunks-Ends respond 40000001 0 40000000 0x1000000 respond-IsBounded (omega arith)

abbrev code : Phdr
code = record {
  p_type = 1;
  p_offset = 0x1000;
  p_paddr = 0x100000;
  p_filesz = 0x500;
  p_memsz = 0x500;
}

abbrev variables : Phdr
variables = record {
  p_type = 1;
  p_offset = 0x2000;
  p_paddr = 0x101000;
  p_filesz = 4;
  p_memsz = 0x800;
}

abbrev file : ℕ → ℕ
file offset = if offset == 0x2003 then 7 else 9

abbrev before : Memory
before a = 0xFF

-- A header that is no segment's.
abbrev note : Phdr
note = record { p_type = 4; p_offset = 0x3000; p_paddr = 0x101000; p_filesz = 16; p_memsz = 16 }

abbrev whole_read : Phdr → Option ℕ
whole_read h = some (Phdr.p_filesz h)

load_segments-Member_example :
    (m : Memory) × (load_segments file whole_read (code ∷ note ∷ variables ∷ []) before ≡ some m)
    × (m 0x101003 ≡ segment_byte file variables 0x101003)
load_segments-Member_example =
    load_segments-Member file whole_read (code ∷ note ∷ variables ∷ []) before variables 0x101003
      (
        inl (refl, omega arith, omega arith, refl),
        (inr (omega arith), (inl (refl, omega arith, omega arith, refl), tt)),
      )
      (
        (inl (inr (omega arith)), (inr (inl (omega arith)), tt)),
        ((inl (inl (omega arith)), tt), (tt, tt)),
      )
      (inr (inr (inl refl))) refl (omega arith) (omega arith)

-- 8 MB of RAM, and a page of the firmware.
abbrev firmware_map : List Descriptor
firmware_map =
    record { type = 7; physical_start = 0x1000000; number_of_pages = 2048 }
    ∷ record { type = 5; physical_start = 0x9000; number_of_pages = 1 }
    ∷ []

abbrev count : List ℕ
count = 2 ∷ 0 ∷ 0 ∷ 0 ∷ 0 ∷ 0 ∷ 0 ∷ 0 ∷ []

abbrev boot_info : Memory
boot_info = image 0x538 (count ++ encode_map (convert_map 128 firmware_map))

boot_info-count : load32 boot_info 0x538 ≡ length (convert_map 128 firmware_map)
unfolding convert_map
boot_info-count = refl

boot_info-Holds : Holds boot_info 0x540 (encode_map (convert_map 128 firmware_map))
unfolding convert_map
boot_info-Holds = Holds-image 0x538 count (encode_map (convert_map 128 firmware_map)) refl

abbrev no_pages : Pmm
no_pages = record { blocks = []; total_ram_bytes = 0 }

init_uefi-convert_map_example :
    init_uefi boot_info 0x200000 0x500 no_pages
    ≡ add_descriptors 0x200000
        (uefi_taken boot_info 0x200000 0x500)
        (take 128 firmware_map)
        no_pages
init_uefi-convert_map_example =
    init_uefi-convert_map boot_info 0x200000 0x500 firmware_map no_pages (omega arith)
      (omega arith, (omega arith, tt)) boot_info-count boot_info-Holds
