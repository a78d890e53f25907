-- ===== src/Lib.antt =====
-- A model of the FacelessOS kernel's C code and assembly, and the properties that make it correct.
--
-- The parts, in the order in which the kernel brings them up, and the files that model them:
-- - Gdt: the global descriptor table, kernel/src/asm/arch/memory/GDT.asm (`gdt_load`).
-- - Idt: the interrupt descriptor table, kernel/src/arch/interrupts/IDT.c (`idt_install`).
-- - Exceptions: the handlers, kernel/src/asm/arch/interrupts/exceptions.asm, and the way of the
--   processor from a vector through Idt and Gdt to a handler.
-- - Pmm: the physical frame allocator, kernel/src/arch/memory/pmm.c (`pmm_init`, `pmm_alloc`,
--   `pmm_allocz`). Its state is the memory map of the boot loader, from which it cuts frames.
-- - Vmm: page tables, kernel/src/arch/memory/vmm.c (`map_page`, `unmap_page`, `vmm_init`,
--   `load_pml4`). It takes its tables from Pmm and keeps them in the byte memory. It is held
--   against the walk of the processor over four levels of tables, in Vmm/Tree.
-- - Timer: kernel/src/arch/timer/pit.c and kernel/src/arch/interrupts/irq.c (`pit_init`,
--   `pit_sleep`, `irq0`). `pit_sleep` runs over a schedule of interrupts; Timer/Interleave has the
--   interleavings of its steps with the interrupt as a relation.
-- - Acpi: kernel/src/power/acpi/acpi.c (`rsdt_is_valid`, `get_madt`, `parse_madt`,
--   `acpi_remap_irq`), and `cpu_detect_cores` of kernel/src/arch/cpu/smp.c, which walks over the
--   same table.
-- - Lapic and Ioapic: kernel/src/arch/pic/lapic.c and kernel/src/arch/pic/ioapic.c.
-- - Kheap: the heap, kernel/src/arch/memory/kheap.c (`kheap_init`, `kmalloc`, `kfree`). It maps
--   its pages by an operation that is a parameter, which `map_page` of Vmm fills; Kheap/Mapper is
--   the interface between the two.
-- - Boot: `get_tag`, `init` and `_start` of kernel/src/kernel.c (Boot/Tags, Boot/Init), its static
--   header for the boot loader (Boot/Header), `acpi_init` and `setup_general_interrupts`
--   (Boot/Power), and `cpu_wakeup_cores` of kernel/src/arch/cpu/smp.c (Boot/Wakeup).
--   What the boot loader and the machine have to supply for the kernel to come up is in
--   Boot/Init/Loaded; Boot/Init/Gates and Boot/Init/Line follow exceptions and the timer's line
--   through the kernel that has come up.
-- - Log: kernel/src/debug/log.c. `mkpml4` of vmm.c, which calls the heap, is in Kheap/Pml4.
-- - Pci: kernel/src/arch/pci/pci.c. Text: kernel/src/libkern/string.c. Panic:
--   kernel/src/libkern/panic.c.
-- - Machine: the byte memory with little-endian words (Machine/Memory), masks and fields of words
--   as arithmetic (Machine/Bits), and the ports of kernel/src/arch/io/io.c (Machine/Io).
-- - Base: shared names, tests on numbers, and lists. The Tests modules run the parts on small
--   inputs.
--
-- State and effects. A static variable is a field of its part's state, a pointer is an address, and
-- memory is a function from addresses to bytes. A function that touches a device runs in `Io` and
-- adds its events to a trace, the last one first; what a device answers is a function of the trace.
-- A call of `log` is an event with its arguments; what it writes is in Log. Numbers are natural
-- numbers, and the wrap-around of an unsigned type is written out; an `int` is its 32 bits.
--
-- Fuel. A loop whose end depends on memory or on a device takes a fuel argument and returns `none`
-- when it runs out; so does the recursion of `map_page`. The results say which fuel is enough: the
-- length of a string or of the chain of blocks and one more, the bytes up to the end of a walk over
-- the MADT and one more, and for `map_page` the free frames and four more. `dec2str` and `hex2str`
-- fix theirs: 11 and 9 rounds for the digits of 32 bits, and 128 swaps for an index of 8 bits.
--
-- Not modelled: the build and the linker script, the boot loader, and its protocol header but for
-- the tags, the memory map and the tags the kernel asks for. The endless loops that halt the
-- processor run for a given number of rounds. A pointer never wraps round the end of the address
-- space, and writes to page tables take effect as memory only: the code reaches tables and blocks
-- by their physical addresses. The walk of the processor ends at a large page. A panic stops the
-- processor for good: nothing is done behind it. No timer interrupt comes but in a sleep.
pub mod Base
pub mod Machine
pub mod Pmm
pub mod Text
pub mod Pci
pub mod Vmm
pub mod Panic
pub mod Kheap
pub mod Acpi
pub mod Lapic
pub mod Ioapic
pub mod Gdt
pub mod Idt
pub mod Exceptions
pub mod Timer
pub mod Boot
pub mod Log
