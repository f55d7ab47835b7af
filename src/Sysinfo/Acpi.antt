-- ===== src/Sysinfo/Acpi.antt =====
-- sysinfo.c, the ACPI tables: `find_rsdp` and its searches, `sysinfo_detect`, `sysinfo_get_core_count`,
-- `sysinfo_get_lapic_id`, and the tables that `sysinfo_poweroff` looks for. `lapic_ids` is the list of its
-- first `core_count` entries.
pub mod Cores
use fae.Prelude.{
  ℕ, zero, suc, ◌+◌, ◌-◌, ◌*◌, ◌/◌, ◌%◌, ◌^◌, Bool, ◌&&◌, ◌||◌, Option, none, some, List, [], ◌∷◌,
  ◌++◌, ◌==◌, ltb, leb, if◌then◌else◌, length, get_or, codes, eq_bytes, Memory, load8, load16,
  load32, u32, u64, not,
}
use fae.Prelude.Layout.{bytes_at}
use fae.Sysinfo.Multiboot2.{Search, found, missing, out_of_fuel, find_tag}

-- `sysinfo_get_core_count`
unfoldable pub get_core_count : List ℕ → ℕ
get_core_count ids = length ids

-- `sysinfo_get_lapic_id`, for an index that is not negative.
unfoldable pub get_lapic_id : List ℕ → ℕ → ℕ
get_lapic_id ids index = if ltb index (length ids) then get_or ids index 0xFF else 0xFF

-- The value of a digit.
abbrev pub hex_digit : ℕ → Option ℕ
hex_digit c =
    if leb 0x30 c && leb c 0x39
    then some (c - 0x30)
    else if leb 0x61 c && leb c 0x66
    then some (c - 0x61 + 10)
    else if leb 0x41 c && leb c 0x46
    then some (c - 0x41 + 10)
    else none

-- `enabled || online_capable`
abbrev pub is_usable : ℕ → Bool
is_usable flags = (flags % 2 == 1) || (flags / 2 % 2 == 1)

-- `if (core_count < 32) lapic_ids[core_count++] = lapic->lapic_id;`
abbrev pub add_core : List ℕ → ℕ → List ℕ
add_core ids id = if ltb (length ids) 32 then ids ++ id ∷ [] else ids

module _ (m : Memory) where
  -- `strncmp(p, text, n) == 0`, for a text without a 0 byte.
  abbrev pub is_text : ℕ → List ℕ → Bool
  is_text p text = eq_bytes (bytes_at m p (length text)) text

  -- The digits from `p` on: their value, and the address behind them.
  pub parse_hex : ℕ → ℕ → ℕ → Option (ℕ × ℕ)
  parse_hex zero p val = none
  parse_hex (suc fuel) p val = elim (hex_digit (load8 m p)) [
    | none ↦ some (val, p)
    | some d ↦ parse_hex fuel (p + 1) (u64 (u64 (val * 16) + d))
  ]

  -- The loop over a command line: the first address behind `acpi=0x` that is not 0. After a value 0 the
  -- byte behind the digits is stepped over, even when it is the terminator.
  unfoldable pub scan_cmdline : ℕ → ℕ → Search
  unfolding parse_hex
  scan_cmdline zero p = out_of_fuel
  scan_cmdline (suc fuel) p =
      let rest = scan_cmdline fuel (p + 1) in
      if load8 m p == 0
      then missing
      else if is_text p (codes "acpi=0x") || is_text p (codes "acpi=0X")
      then elim (parse_hex fuel (p + 7) 0) [
        | none ↦ out_of_fuel
        | some r ↦ if r.0 == 0 then scan_cmdline fuel (r.1 + 1) else found r.0
      ]
      else rest

  -- The search for the signature every 16 bytes, a number of times.
  pub scan_signature : ℕ → ℕ → Option ℕ
  scan_signature zero addr = none
  scan_signature (suc n) addr =
      let rest = scan_signature n (addr + 16) in
      if is_text addr (codes "RSD PTR ") then some addr else rest

  -- Steps 4 and 5: the extended BIOS data area, where the BIOS says it is, and the BIOS.
  pub scan_bios : Option ℕ
  unfolding scan_signature
  scan_bios =
      let ebda = load16 m 0x40E * 16 in
      elim (if leb 0x80000 ebda && ltb ebda 0xA0000 then scan_signature 64 ebda else none) [
        | some addr ↦ some addr
        | none ↦ scan_signature 8192 0xE0000
      ]

  -- The address of what a tag holds.
  abbrev pub behind_tag : Search → Search
  behind_tag (found tag) = found (tag + 8)
  behind_tag s = s

  abbrev pub or_search : Search → Search → Search
  or_search missing s = s
  or_search s t = s

  -- The command line of the boot loader.
  pub cmdline_rsdp : ℕ → Search → Search
  unfolding scan_cmdline
  cmdline_rsdp fuel (found p) = scan_cmdline fuel p
  cmdline_rsdp fuel s = s

  -- `find_rsdp`
  pub find_rsdp : ℕ → ℕ → ℕ → Search
  unfolding scan_bios cmdline_rsdp
  find_rsdp fuel magic addr =
      let bios : Search = elim scan_bios [ none ↦ missing | some a ↦ found a ] in
      if magic == 0x36D76289
      then or_search (behind_tag (find_tag m addr 15)) (
          or_search (behind_tag (find_tag m addr 14))
            (or_search (cmdline_rsdp fuel (behind_tag (find_tag m addr 1))) bios))
      else or_search
          (cmdline_rsdp fuel (
            if not (addr == 0) && (load32 m addr / 4 % 2 == 1) && not (load32 m (addr + 16) == 0)
            then found (load32 m (addr + 16))
            else missing))
          bios

  -- `(rsdt->length - sizeof(struct acpi_header)) / 4`, as the rounds of a loop up to an `int`.
  abbrev pub table_rounds : ℕ → ℕ
  table_rounds rsdt =
      let entries = u32 (u64 (load32 m (rsdt + 4) + (2 ^ 64 - 36)) / 4) in
      if ltb entries (2 ^ 31) then entries else 0

  -- The first table of a signature among the pointers.
  pub find_table : List ℕ → ℕ → ℕ → Option ℕ
  find_table signature zero ptr = none
  find_table signature (suc n) ptr =
      let rest = find_table signature n (ptr + 4) in
      if is_text (load32 m ptr) signature then some (load32 m ptr) else rest

  -- What a record adds.
  pub add_record : ℕ → List ℕ → List ℕ
  add_record ptr ids =
      if load8 m ptr == 0 && is_usable (load32 m (ptr + 4))
      then add_core ids (load8 m (ptr + 3))
      else ids

  -- The loop over the records of the MADT: each moves on by a byte at least, or ends it.
  unfoldable pub parse_records : ℕ → ℕ → ℕ → List ℕ → Option (List ℕ)
  unfolding add_record
  parse_records zero end ptr ids = none
  parse_records (suc fuel) end ptr ids =
      let rest = parse_records fuel end (ptr + load8 m (ptr + 1)) (add_record ptr ids) in
      if ltb ptr end then if load8 m (ptr + 1) == 0 then some ids else rest else some ids

  -- `sysinfo_detect`, behind the search for the root; `none` is no answer.
  pub detect : Search → Option (List ℕ)
  unfolding find_table parse_records
  detect missing = some (0 ∷ [])
  detect out_of_fuel = none
  detect (found rsdp) =
      let rsdt = load32 m (rsdp + 16) in
      if is_text rsdt (codes "RSDT")
      then elim (find_table (codes "APIC") (table_rounds rsdt) (rsdt + 36)) [
        | none ↦ some (0 ∷ [])
        | some madt ↦
            parse_records (load32 m (madt + 4) + 1) (madt + load32 m (madt + 4)) (madt + 44) []
      ]
      else some (0 ∷ [])

  -- `sysinfo_detect`
  unfoldable pub sysinfo_detect : ℕ → ℕ → ℕ → Option (List ℕ)
  unfolding detect find_rsdp
  sysinfo_detect fuel magic addr = detect (find_rsdp fuel magic addr)

-- The writes of `sysinfo_poweroff` to the ports of the tables, for one value.
abbrev pub power_writes : ℕ → ℕ → ℕ → List (ℕ × ℕ)
power_writes pm1a pm1b val =
    (pm1a % 2 ^ 16, val) ∷ (if pm1b == 0 then [] else (pm1b % 2 ^ 16, val) ∷ [])

-- The loop over the sleep types, from one on.
pub power_loop : ℕ → ℕ → ℕ → ℕ → List (ℕ × ℕ)
power_loop zero pm1a pm1b type = []
power_loop (suc n) pm1a pm1b type =
    power_writes pm1a pm1b (0x2000 + type * 1024) ++ power_loop n pm1a pm1b (type + 1)

-- The ports of the emulators.
abbrev pub fallback_writes : List (ℕ × ℕ)
fallback_writes =
    (0x604, 0x2000)
    ∷ (0x604, 0x3400)
    ∷ (0xB004, 0x2000)
    ∷ (0xB004, 0x3400)
    ∷ (0x4004, 0x3400)
    ∷ (0x501, 0x31)
    ∷ []

-- The two control registers, 0 where there is no table.
pub power_registers : Memory → Option ℕ → ℕ × ℕ
unfolding find_table
power_registers m none = (0, 0)
power_registers m (some rsdp) =
    let rsdt = load32 m (rsdp + 16) in
    if not (rsdt == 0) && is_text m rsdt (codes "RSDT")
    then elim (find_table m (codes "FACP") (table_rounds m rsdt) (rsdt + 36)) [
      | none ↦ (0, 0)
      | some table ↦ (load32 m (table + 64), load32 m (table + 68))
    ]
    else (0, 0)

-- `sysinfo_poweroff`, as the words that it writes to ports.
unfoldable pub sysinfo_poweroff : Memory → Option ℕ → List (ℕ × ℕ)
unfolding power_registers power_loop
sysinfo_poweroff m rsdp =
    let (pm1a, pm1b) = power_registers m rsdp in
    (if pm1a == 0 then [] else power_loop 8 pm1a pm1b 0) ++ fallback_writes
