-- ===== src/Lib.antt =====
-- Fae is a kernel, "aiOS", that boots on a PC and runs a language model: boot.asm, efi_stub.asm and
-- bootloader.c hand over to kernel.c, which sets up memory, devices and cores and starts the shell.
-- This library models the parts of it that are more than device output, each from the C source, and
-- proves what makes them correct.
--
-- The parts and their files. Prelude and its children hold what the others share: Boolean tests on
-- the native numbers (Tests), lists (Lists), words of 8 to 64 bits and alignment (Word), byte memory
-- and loads from it, well-founded recursion (Order), integers (Int), texts (Bytes), and what it means
-- that memory holds a list of bytes (Layout).
--
-- Pmm (malloc.c, `pmm_*`): the stack of free 2 MB pages is a list, its last entry the top. Contiguous
-- is about `pmm_alloc_contiguous`, Ownership about sequences of calls as a step relation, Init and
-- Boot about `pmm_init` over the memory maps of the three boot protocols.
-- Heap (malloc.c, `malloc`, `free`, `calloc`, `realloc`): the chain of headers is the list of blocks
-- with their addresses; it takes its pages from Pmm. Chain, Fit, Release and Malloc hold the proofs.
-- CString (malloc.c): `memset`, `memcpy`, `strlen`, `strcmp`, `strncmp` over byte memory.
-- Sysinfo (sysinfo.c): Multiboot2 is `sysinfo_find_multiboot2_tag`, which Pmm.Boot and Kernel call; Acpi
-- is the search for the ACPI tables, the detection of the cores in them and the power off.
-- Boot (bootloader.c): the choice of a model, its reading in pieces (Reading), the segments of the
-- kernel (Elf, with what its loops leave in memory in Copies) and the memory map (MemoryMap), which Pmm.Boot reads. The answers of the firmware are
-- lists and functions.
-- Kernel (kernel.c): what `kmain` takes from the boot loaders, and the waking of the cores that
-- Sysinfo.Acpi finds.
-- Keyboard (keyboard.c): the interrupt handler and the blocking read over one ring buffer. The read
-- takes the interrupts to come as a list of scancodes.
-- Tar (tar.c): the initrd as an archive in memory, read with CString: the searches by name (Walk), by
-- suffix (Suffix, HandsOut) and the listing (Listing).
-- Gguf (gguf.c): Vocab is the token table and its hash, Tokenize the greedy tokenizer, Text what goes
-- into it and what is printed of its tokens, Half the conversion of half precision numbers by their
-- bits (also in igpu.c), Names the names of tensors and keys. Loader is `parse_string`, `parse_value`
-- and the metadata, Tensors the tensor infos, Weights the links to them, Context the limit of the
-- context, and Model puts them together to `gguf_init`. Loader.Encoding is the format from a writer's
-- side, and Loader.View what a file means. Generate is the control of `gguf_generate` and the choice
-- of a token.
-- Serial (serial.c): Vga and Framebuffer are the two consoles, Format the formatted output as the
-- bytes it hands on.
-- Igpu (igpu.c): Gate is the hand-over of work between the shell's core and the core that stands in
-- for a GPU, as two programs whose steps interleave; Paging and Mapping are the page tables as
-- functions from an entry's address to its 64 bits, with the page walk of `pf_handler` in idt.c; Pci
-- and Scan are the configuration space, whose reads and writes are parameters.
-- Idt (idt.c): `idt_set_gate` and the table that `idt_init` leaves.
-- Shell (shell.c): Editor is the line editor, Input a character of input or output, Prompt the chat
-- prompt.
--
-- Numbers are natural numbers; where the C code computes in 8, 16, 32 or 64 bits and the result can
-- wrap, the reduction is written out (`u8` to `u64`). Loops whose end is not structural run on fuel:
-- the tag and archive walks move on by 8 and by 512 bytes at least, so that the length of the area is
-- fuel enough, the records of the MADT by a byte, and the tokenizer takes a byte a round, so that the
-- text's length is; these are part of the theorems. The reading of the model has a byte a round at
-- least, `double_up` doubles a number up to its fuel. The string functions take fuel for the text's
-- length. `digits_onto` has 64 rounds, which is enough for 64-bit numbers in base 10 or 16.
--
-- Not modelled: assembly and device output (the interrupt controllers, the UART's set up), printing of
-- messages, floating point and with it the forward pass (a generation's tokens and the sums of a choice
-- are parameters), the sorting of the logits, the jobs of the worker cores, the calls of the firmware,
-- and the dispatch of the shell's commands. The arrays for the tensors and dimensions of a model are
-- lists, which agree with the code as long as the code stays inside its arrays.
-- Where the code stores behind the end of an array, the model says so and goes no further into it: the
-- note `is_overrun` for the vocabulary, and the result `fault` for the 65th layer.
-- Each Tests module runs the definitions and applies theorems at concrete inputs.
pub mod Prelude
pub mod Sysinfo
pub mod Boot
pub mod Kernel
pub mod CString
pub mod Keyboard
pub mod Gguf
pub mod Pmm
pub mod Heap
pub mod Tar
pub mod Serial
pub mod Igpu
pub mod Idt
pub mod Shell
