-- ===== src/Kernel.antt =====
-- kernel.c, what `kmain` takes from the boot loader and how it wakes the other cores. `polls` is the value
-- of `cores_ready` at each of the reads, which the other cores write.
pub mod Wake
pub mod Tests
use fae.Prelude.{
  ℕ, zero, suc, ◌+◌, ◌-◌, ◌*◌, ◌/◌, ◌%◌, ◌^◌, Bool, not, ◌&&◌, Option, none, some, List, [], ◌∷◌,
  ◌++◌, ◌==◌, ltb, if◌then◌else◌, Memory, load8, load32, load64, u8, u32, u64, length,
}
use fae.Sysinfo.Multiboot2.{Search, found, missing, out_of_fuel, find_tag}
use fae.Sysinfo.Acpi.{get_lapic_id, get_core_count}
use fae.Tar.{Tar, tar_init}

-- The stores of `wakeup_ap` into the registers of the local APIC, as offsets and values: the error status is
-- cleared, then INIT and twice the start at page 8.
abbrev pub wakeup_ap : ℕ → List (ℕ × ℕ)
wakeup_ap apic_id =
    (0x280, 0)
    ∷ (0x310, u32 (apic_id * 2 ^ 24))
    ∷ (0x300, 0x4500)
    ∷ (0x310, u32 (apic_id * 2 ^ 24))
    ∷ (0x300, 0x4608)
    ∷ (0x310, u32 (apic_id * 2 ^ 24))
    ∷ (0x300, 0x4608)
    ∷ []

-- `while (cores_ready == prev_cores && timeout > 0)`: the number of the read behind the loop.
pub wait_from : (ℕ → ℕ) → ℕ → ℕ → ℕ → ℕ
wait_from polls prev zero t = t + 1
wait_from polls prev (suc timeout) t =
    let rest = wait_from polls prev timeout (t + 1) in if polls t == prev then rest else t + 1

-- `total_cores`, the stores, and the number of the next read.
pub record Woken : Type 0 where
  pub total_cores : ℕ
  pub stores : List (ℕ × ℕ)
  pub reads : ℕ

-- One round of the loop: the count before the start is compared with the count behind the wait.
pub wake : (ℕ → ℕ) → ℕ → ℕ → Woken → Woken
unfolding wait_from
wake polls timeout apic_id w =
    let prev = polls (Woken.reads w) in
    let t = wait_from polls prev timeout (Woken.reads w + 1) in
    record {
      total_cores = if ltb prev (polls t) then Woken.total_cores w + 1 else Woken.total_cores w;
      stores = Woken.stores w ++ wakeup_ap apic_id;
      reads = t + 1;
    }

-- The loop over the cores from one on, with the rounds left.
pub wake_from : (ℕ → ℕ) → ℕ → List ℕ → ℕ → ℕ → Woken → Woken
unfolding wake
wake_from polls timeout ids zero i w = w
wake_from polls timeout ids (suc n) i w =
    wake_from polls timeout ids n (i + 1) (wake polls timeout (get_lapic_id ids i) w)

-- Step 5 of `kmain`.
pub wake_all : (ℕ → ℕ) → List ℕ → Woken
unfolding wake_from
wake_all polls ids =
    wake_from polls 10000000 ids (get_core_count ids - 1) 1
      (record { total_cores = 1; stores = []; reads = 0 })

-- The arguments of `serial_init_framebuffer`.
pub record Framebuffer : Type 0 where
  pub addr : ℕ
  pub pitch : ℕ
  pub width : ℕ
  pub height : ℕ
  pub bpp : ℕ

module _ (m : Memory) where
  -- The fields from an address on, which stand in the same order in all three structures.
  abbrev read_framebuffer : ℕ → Framebuffer
  read_framebuffer p = record {
    addr = load64 m p;
    pitch = load32 m (p + 8);
    width = load32 m (p + 12);
    height = load32 m (p + 16);
    bpp = load8 m (p + 20);
  }

  abbrev of_tag : {A : Type 0} → (ℕ → A) → Search → Option A
  of_tag read (found tag) = some (read tag)
  of_tag read s = none

  -- Step 1: the framebuffer of the boot loader, if it has one.
  pub boot_framebuffer : ℕ → ℕ → Option Framebuffer
  boot_framebuffer magic addr =
      if magic == 0xAE105E1F
      then if addr == 0 then none else some (read_framebuffer addr)
      else if magic == 0x36D76289
      then of_tag (λ tag. read_framebuffer (tag + 8)) (find_tag m addr 8)
      else if not (addr == 0) && load32 m addr / 2 ^ 11 % 2 == 1
      then some (read_framebuffer (addr + 88))
      else none

  -- `mod->mod_end - mod->mod_start` is taken in 32 bits.
  abbrev module_at : ℕ → Tar
  module_at p = tar_init (load32 m p) (u32 (load32 m (p + 4) + (2 ^ 32 - load32 m p)))

  -- Step 6: the archive of the boot loader, if there is one.
  pub mount_initrd : ℕ → ℕ → Option Tar
  mount_initrd magic addr =
      if magic == 0xAE105E1F
      then none
      else if magic == 0x36D76289
      then of_tag (λ tag. module_at (tag + 8)) (find_tag m addr 3)
      else if not (addr == 0) && load32 m addr / 2 ^ 3 % 2 == 1 && not (load32 m (addr + 20) == 0)
      then some (module_at (load32 m (addr + 24)))
      else none

  -- Steps 6 and 7 under UEFI: an address and a size, where both are there.
  pub uefi_file : ℕ → ℕ → ℕ → Option (ℕ × ℕ)
  uefi_file info addr_at size_at =
      if not (info == 0)
        && not (load64 m (info + addr_at) == 0)
        && ltb 0 (load64 m (info + size_at))
      then some (load64 m (info + addr_at), load64 m (info + size_at))
      else none
