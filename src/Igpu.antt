-- ===== src/Igpu.antt =====
-- igpu.c and the page fault handler of idt.c: the work gate between the shell's core and the core
-- that stands in for the GPU, the page tables, and the PCI configuration space.
pub mod Gate
pub mod Paging
pub mod Mapping
pub mod Scan
pub mod Pci
pub mod Tests
