-- ===== src/Lib.antt =====
-- A verification library for the kernel of osdev-course, a small operating system for the i686.
-- Paths are from the repository's root.
--
-- The memory manager (src/kernel/arch/i686/mmu.c) keeps the free frames and the page tables. The
-- kernel's memory comes from a bump allocator (src/kernel/heap.c) whose pages it maps; kmalloc and
-- kfree (src/kernel/kmalloc.c) keep four lists of free nodes above that. The scheduler
-- (src/kernel/scheduler.c, src/kernel/arch/i686/scheduler.s) keeps threads in queues by priority, a list
-- of sleepers and a list of zombies, whose memory goes back through kfree. Drivers and file systems
-- are tables of functions over these. The loader (src/kernel/ld.cpp) reads a program from a file
-- system into a buffer of kmalloc and copies its segments to pages that it maps.
--
--   Common      shared notation, words of 32 and 64 bits, lists, runs that may fault or lack fuel
--   Heap        src/kernel/heap.c, heap.h, vma_alloc.c. `Heap` is struct HEAP. `heap_alloc` returns
--               the address, the heap and the memory manager's state, which `mmap` (mmu_mmap) changes.
--   Kmalloc     src/kernel/kmalloc.c. `Kmalloc` holds the heads of the four lists and the words `next`
--               and `size` of the nodes in memory, as functions of the address. `kmalloc` and `kfree`
--               are the calls; `Free` (Kmalloc.Lists) is the abstract view, four lists of addresses.
--   Scheduler   src/kernel/scheduler.c, scheduler.h and the calls of scheduler.s. `Scheduler` holds the
--               TCBs' fields as functions of the address, and g_scheduler. `scheduler_pick` is `retire`
--               (lines 54 to 75), `awake` (77 to 90), `take_target` (91 to 100) and `start` (101 to
--               104). `Lists` (Scheduler.Lists) is the abstract view, six lists of addresses.
--   Kstring     src/kernel/kstring.c, on memory as a function from addresses to bytes. `IsString`
--               (Kstring.Text) is the abstract view, a list of bytes.
--   Kdebug      src/kernel/kdebug.c: digits, and formatted output on a serial line that is a parameter.
--   Ramdisk     src/drivers/ramdisk/ramdisk.c: a disk in memory, over kmalloc and kmemcpy.
--   Pci         src/drivers/pci/pci.c: the configuration space behind two ports. Pci.Config has a bus on
--               which the theorems run the driver.
--   Uart        src/drivers/uart/uart.c: the serial ports, on a line that is a parameter.
--   Tarfs       src/drivers/tarfs/tarfs.c: the search for a file in a tar archive, fstat and read, on a
--               disk that is a parameter. `Archive` and `lookup` (Tarfs.Search) are the abstract view.
--   Vfs         src/kernel/vfs.cpp: the mounted file systems and the calls that go to them.
--   Mmu         src/kernel/arch/i686/mmu.c, mmu.h, kaddr.h and multiboot.h. `Mmu` holds the entries of the
--               page tables, the pool of free frames and g_mmu. `int_0e` is the page fault handler.
--               `IsOwned` (Mmu.Owner) says who owns each frame.
--   Thread      src/kernel/arch/i686/tcb.c, tcb.h and the registers in scheduler.s: the stack of a new
--               thread, and what a switch saves and loads. `Threads` holds the contexts and the stacks.
--   Syscall     src/kernel/syscall_service.c and arch/i686/syscall.s: the services that programs ask for,
--               over the scheduler and the heaps of the processes.
--   Bga         src/drivers/bga/bga.c and display.h: the modes and the frame buffer of the Bochs display,
--               over vma_alloc and the memory manager. The ports are parameters.
--   Loader      src/kernel/ld.cpp, ld.h and elf.h: headers, segments, symbols and relocations of an ELF
--               file, over kmalloc, kstring and mmu_mmap. The file system's answers are parameters.
--
-- Words wrap around where they do in C; the modulus is written out. Addresses are numbers and 0 is
-- NULL. A loop along a list in memory is recursion on fuel. The theorems take more fuel than the list
-- has nodes, and say that the loop then ends. The loops of the memory manager take a step for each
-- page, those of the loader for each header and each symbol; their theorems take more fuel than that.
--
-- Interrupts are off while kmalloc and the scheduler change their lists, so each call is one step.
-- Not modelled: the cache of translations, the creation of processes and the way into ring 3, the
-- interrupt handlers, kvector, the enumeration of hardware, the boot code and the user programs. These
-- are entry points, wrappers of single instructions, or glue between the parts above.
pub mod Common
pub mod Heap
pub mod Kmalloc
pub mod Kstring
pub mod Kdebug
pub mod Scheduler
pub mod Ramdisk
pub mod Pci
pub mod Uart
pub mod Tarfs
pub mod Vfs
pub mod Mmu
pub mod Bga
pub mod Loader
pub mod Thread
pub mod Syscall
