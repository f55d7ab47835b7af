-- ===== src/Igpu/Tests.antt =====
-- The theorems on the gate, the page tables and the PCI probe at concrete inputs.
use fae.Prelude.{
  ℕ, ◌+◌, ◌-◌, ◌*◌, ◌/◌, ◌%◌, ◌<◌, ◌≤◌, ◌≡◌, ◌⊎◌, refl, arith, true, false, ◌==◌, if◌then◌else◌,
}
use fae.Igpu.Gate.{
  activating, returned, polling, waiting, State, cpu_step, gpu_step, Reach, start, on_cpu, on_gpu,
  gpu_run,
}
use fae.Igpu.Gate.Handshake.{Finished, Reach-Finished}
use fae.Igpu.Gate.Progress.{gpu_run-Finished}
use fae.Igpu.Paging.{Entries, page_size_2mb, pdpt_slot, pdt_slot, is_locked, set_memory_cpu_access}
use fae.Igpu.Paging.Lock.{IsMapped, set_memory_cpu_access_lem}
use fae.Igpu.Pci.{pci_get_bar_info}
use fae.Igpu.Pci.Bar.{pci_get_bar_info_32, pci_get_bar_info_64}
use fae.Igpu.Scan.{scan}
use fae.Igpu.Scan.Found.{FindsDisplay, scan-FindsDisplay}

-- One row, whose product is 528.
abbrev product : ℕ → ℕ
product r = 528

abbrev before_submit : State ℕ
before_submit = record {
  owner = 0;
  status = 0;
  is_active = false;
  output = λ i. 0;
  cpu = activating;
  gpu = polling;
}

abbrev cpu_next_state : State ℕ → State ℕ
cpu_next_state s = cpu_step 1 product s

abbrev gpu_next_state : State ℕ → State ℕ
gpu_next_state s = gpu_step 1 product s

-- The submission, five steps of the emulator's core, and the end of the wait.
abbrev at_return : State ℕ
at_return = cpu_next_state (
    gpu_next_state (
      gpu_next_state (
        gpu_next_state (
          gpu_next_state
            (gpu_next_state (cpu_next_state (cpu_next_state (cpu_next_state before_submit))))))))

to_return : Reach 1 product before_submit at_return
to_return = on_cpu (on_gpu (on_gpu (on_gpu (on_gpu (on_gpu (on_cpu (on_cpu (on_cpu start))))))))

at_return-returned : State.cpu at_return ≡ returned
unfolding cpu_step gpu_step
at_return-returned = refl

Reach-Finished_example : Finished 1 product at_return
Reach-Finished_example =
    Reach-Finished 1 product before_submit at_return refl refl refl to_return at_return-returned

abbrev handed_over : State ℕ
handed_over = record {
  owner = 1;
  status = 1;
  is_active = true;
  output = λ i. 0;
  cpu = waiting;
  gpu = polling;
}

gpu_run-Finished_example : Finished 1 product (gpu_run 1 product 5 handed_over)
gpu_run-Finished_example = gpu_run-Finished 1 product handed_over refl refl refl

-- The first level at 0x1000, the second at 0x2000, and 64 third level tables from 0x10000 on.
abbrev tables : Entries
tables a = if a == 0x1000 then 0x2003 else 0x10003 + (a - 0x2000) / 8 * 0x1000

second_level :
    (p : ℕ)
    → (pdpt_slot tables 0x1000 p ≡ 0x2000 + 8 * (p / 512))
      × (tables (pdpt_slot tables 0x1000 p) ≡ 0x10003 + p / 512 * 0x1000)
second_level p =
    let other : (0x2000 + 8 * (p / 512) == 0x1000) ≡ false = ground arith in
    (refl, rw other (omega arith))

third_level : (p : ℕ) → pdt_slot tables 0x1000 p ≡ 0x10000 + p / 512 * 0x1000 + 8 * (p % 512)
third_level p = rw ((second_level p).1) (omega arith)

tables-IsMapped : IsMapped 0x1000 32768 tables
tables-IsMapped = (
  refl,
  λ p h. rw ((second_level p).1) (ground arith),
  λ p h e. omega (arith, third_level p, e),
  λ p q h i e. omega (arith, h, i, third_level p, (second_level q).0, e),
  λ p q h i e. omega (arith, third_level p, third_level q, e),
)

set_memory_cpu_access_lem_example :
    ((a : ℕ)
      → 0x400000 ≤ a
      → a < 0x400000 + 4096
      → page_size_2mb ≤ a
      → is_locked 0x1000 (set_memory_cpu_access 0x1000 0x400000 4096 false tables) a ≡ true)
    × ((p : ℕ)
        → p < 32768
        → (p < 2) ⊎ (2 < p) ⊎ (p ≡ 0)
        → set_memory_cpu_access 0x1000 0x400000 4096 false tables
            (pdt_slot (set_memory_cpu_access 0x1000 0x400000 4096 false tables) 0x1000 p)
          ≡ tables (pdt_slot tables 0x1000 p))
set_memory_cpu_access_lem_example =
    set_memory_cpu_access_lem 0x1000 32768 0x400000 4096 false tables (omega arith) (omega arith)
      tables-IsMapped

-- A device by the contents of its double words: the register at 0x10 is a 32-bit BAR of 4 KB, those
-- at 0x18 and 0x1C a 64-bit BAR of 256 MB; a write of any other value is stored as it is.
abbrev read_back : (ℕ → ℕ) → ℕ → ℕ
read_back c offset = c offset

abbrev masked : ℕ → ℕ → ℕ
masked offset val =
    if val == 0xFFFFFFFF
    then if offset == 0x10 then 0xFFFFF000 else if offset == 0x18 then 0xF0000004 else val
    else val

abbrev write_dword : (ℕ → ℕ) → ℕ → ℕ → ℕ → ℕ
write_dword c offset val i = if i == offset then masked offset val else c i

abbrev device : ℕ → ℕ
device i =
    if i == 0x10 then 0xFEB00000 else if i == 0x18 then 0xE0000004 else if i == 0x1C then 0x7 else 0

pci_get_bar_info_32_example :
    pci_get_bar_info read_back write_dword 0 device
    ≡ ((0xFEB00000, 0x1000), write_dword (write_dword device 0x10 0xFFFFFFFF) 0x10 0xFEB00000)
pci_get_bar_info_32_example =
    pci_get_bar_info_32 read_back write_dword 0 0xFEB00000 0x1000 0 device (omega arith)
      (omega arith) (omega arith) (omega arith) (omega arith) (omega arith) (omega arith) refl refl

abbrev probed_low : ℕ → ℕ
probed_low = write_dword device 0x18 0xFFFFFFFF

abbrev probed_both : ℕ → ℕ
probed_both = write_dword probed_low 0x1C 0xFFFFFFFF

pci_get_bar_info_64_example :
    pci_get_bar_info read_back write_dword 2 device
    ≡ ((0x7E0000000, 0x10000000), write_dword (write_dword probed_both 0x1C 7) 0x18 0xE0000004)
pci_get_bar_info_64_example =
    pci_get_bar_info_64 read_back write_dword 2 0xE0000000 7 0x10000000 4 0xF0000004 0xFFFFFFFF
      device probed_low probed_both (omega arith) (omega arith) (omega arith) (omega arith)
      (omega arith) (omega arith) (omega arith) refl refl refl refl refl refl (omega arith)

-- A bus with an AMD display controller as the second function of the device in slot 3.
abbrev one_display : ℕ → ℕ → ℕ → ℕ → ℕ
one_display bus slot func offset =
    if slot == 3
    then if offset == 0
      then if func == 1 then 0x1002 else 0x8086
      else if offset == 0x0A
      then 0x0300
      else 0x80
    else 0xFFFF

scan-FindsDisplay_example : FindsDisplay one_display (scan one_display)
scan-FindsDisplay_example = scan-FindsDisplay one_display
