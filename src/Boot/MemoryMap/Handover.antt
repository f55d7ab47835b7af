-- ===== src/Boot/MemoryMap/Handover.antt =====
-- The page manager builds its free list from the firmware's map as the boot loader has handed it over.
use fae.Prelude.{
  ℕ, zero, suc, ◌+◌, ◌*◌, ◌^◌, ◌<◌, ◌≡◌, ◌≢◌, refl, ap, ap₂, ◌∙◌, arith, Bool, true, false, List,
  [], ◌∷◌, ◌++◌, length, take, Memory, load32, All, ◌==◌, if◌then◌else◌, u64,
}
use fae.Prelude.Layout.{little, Holds, Holds-at, Holds-append, load32-little, load64-little}
use fae.Pmm.{Pmm}
use fae.Pmm.Init.{Range, add_entry}
use fae.Pmm.Boot.{init_uefi, uefi_taken, uefi_entries}
use fae.Boot.MemoryMap.{Descriptor, Entry, convert, convert_map, is_usable}

-- An entry of 24 bytes, of which the last four are padding.
abbrev pub encode_entry : Entry → List ℕ
encode_entry e =
    little 8 (Entry.phys_addr e)
    ++ (little 8 (Entry.num_bytes e) ++ (little 4 (Entry.type e) ++ little 4 0))

abbrev pub encode_map : List Entry → List ℕ
encode_map [] = []
encode_map (e ∷ es) = encode_entry e ++ encode_map es

-- What the page manager does with a list of descriptors: it takes the pages of the usable ones.
abbrev pub add_descriptors : ℕ → List Range → List Descriptor → Pmm → Pmm
add_descriptors kernel_end taken [] p = p
add_descriptors kernel_end taken (d ∷ ds) p = add_descriptors kernel_end taken ds (
    if is_usable (Descriptor.type d)
    then add_entry kernel_end taken (Descriptor.physical_start d)
        (u64 (Descriptor.number_of_pages d * 4096)) 1 p
    else p)

type-lt : (b : Bool) → (if b then 1 else 0) < 2 ^ 32
type-lt true = omega arith
type-lt false = omega arith

add_entry-usable :
    (kernel_end : ℕ) (taken : List Range) (addr len : ℕ) (b : Bool) (p : Pmm)
    → add_entry kernel_end taken addr len (if b then 1 else 0) p
      ≡ (if b then add_entry kernel_end taken addr len 1 p else p)
unfolding add_entry
add_entry-usable kernel_end taken addr len true p = refl
add_entry-usable kernel_end taken addr len false p = refl

module _ (m : Memory) (kernel_end : ℕ) where
  uefi_entries-Holds :
      (ds : List Descriptor) (left entry : ℕ) (taken : List Range) (p : Pmm)
      → All (λ d. Descriptor.physical_start d < 2 ^ 64) ds
      → Holds m entry (encode_map (convert_map left ds))
      → uefi_entries m kernel_end taken (length (convert_map left ds)) entry p
        ≡ add_descriptors kernel_end taken (take left ds) p
  unfolding convert_map uefi_entries
  uefi_entries-Holds [] zero entry taken p b h = refl
  uefi_entries-Holds (d ∷ ds) zero entry taken p b h = refl
  uefi_entries-Holds [] (suc left) entry taken p b h = refl
  uefi_entries-Holds (d ∷ ds) (suc left) entry taken p (b, bs) h =
      let e : Entry = convert d in
      let tail : List ℕ = little 4 (Entry.type e) ++ little 4 0 in
      let (first, rest) =
        Holds-append m entry (encode_entry e) (encode_map (convert_map left ds)) h in
      let (addr, more) =
        Holds-append m entry (little 8 (Entry.phys_addr e)) (little 8 (Entry.num_bytes e) ++ tail)
          first in
      let (size, last) = Holds-append m (entry + 8) (little 8 (Entry.num_bytes e)) tail more in
      let (type, _) = Holds-append m (entry + 8 + 8) (little 4 (Entry.type e)) (little 4 0) last in
      let kind : load32 m (entry + 16) ≡ Entry.type e =
        load32-little m (entry + 16) (Entry.type e) (type-lt (is_usable (Descriptor.type d)))
          (Holds-at m {p = entry + 8 + 8} (little 4 (Entry.type e)) (omega arith) type) in
      let taking : ℕ → ℕ → ℕ → Pmm = λ a n t.
        uefi_entries m kernel_end taken (length (convert_map left ds)) (entry + 24)
          (add_entry kernel_end taken a n t p) in
      ap₂ (λ a n. taking a n (load32 m (entry + 16)))
        (load64-little m entry (Entry.phys_addr e) b addr)
        (load64-little m (entry + 8) (Entry.num_bytes e) (omega arith) size)
      ∙ ap (taking (Entry.phys_addr e) (Entry.num_bytes e)) kind
      ∙ uefi_entries-Holds ds left (entry + 24) taken
          (add_entry kernel_end taken (Entry.phys_addr e) (Entry.num_bytes e) (Entry.type e) p) bs
          rest
      ∙ ap (add_descriptors kernel_end taken (take left ds)) (
          add_entry-usable kernel_end taken (Entry.phys_addr e) (Entry.num_bytes e)
            (is_usable (Descriptor.type d)) p)

  -- With boot information that is not NULL, holds the firmware's map as the boot loader converts
  -- it, the first 128 descriptors at most, and its length, and with starts of 64 bits: `pmm_init`
  -- takes in the pages of the usable ones among the first 128 descriptors, one after the other, and
  -- of no others.
  pub init_uefi-convert_map :
      (info : ℕ) (ds : List Descriptor) (p : Pmm)
      → info ≢ 0
      → All (λ d. Descriptor.physical_start d < 2 ^ 64) ds
      → load32 m (info + 56) ≡ length (convert_map 128 ds)
      → Holds m (info + 64) (encode_map (convert_map 128 ds))
      → init_uefi m kernel_end info p
        ≡ add_descriptors kernel_end (uefi_taken m kernel_end info) (take 128 ds) p
  unfolding init_uefi
  init_uefi-convert_map info ds p ne b n h =
      let some_info : (info == 0) ≡ false = ground (arith, ne) in
      rw (some_info, n) (uefi_entries-Holds ds 128 (info + 64) (uefi_taken m kernel_end info) p b h)
