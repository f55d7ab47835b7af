-- ===== src/Sysinfo.antt =====
-- sysinfo.c: what the kernel learns from the boot loader's and the firmware's tables.
pub mod Multiboot2
pub mod Acpi
pub mod Tests
