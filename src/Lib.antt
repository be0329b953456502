-- ===== src/Lib.antt =====
-- Verification of the Bethany kernel.
--
-- Bethany is a small kernel for x86-64. The boot loader hands it a memory map; the physical page
-- allocator (pmm) gives out pages of its usable regions, the virtual memory manager (vmm) maps them,
-- and the kernel heap grows over mapped pages. Tasks stand on one linked list that the scheduler goes
-- round; mutexes, semaphores, events and the blocking queue suspend tasks on lists of waiters. The
-- timer and the keyboard interrupt the running task.
--
-- The C code is translated function by function. The static variables of a file, or a struct, are a
-- record, and a function that changes them returns the new record. Numbers are natural numbers with
-- the wrap-around of the machine's words written out (wrap8, wrap16, wrap32, wrap64), a null pointer
-- is 0, an array or a piece of memory is a function of the index or address, and a C function keeps
-- its name. A loop of a function is a definition of its own (alloc_loop, grow, next_loop and so on).
--
--   * Memory/Regions: kernel/src/memory/memory.c, the memory map.
--   * Memory/Pmm: kernel/src/memory/pmm.c. The record Pmm holds the static variables; the bitmap is a
--     function from the byte's index to the byte.
--   * Memory/Vmm: kernel/src/memory/vmm.c over a memory of 64-bit words. The record Vmm contains the
--     page allocator, since building a table takes a page of it.
--   * Memory/Heap: kernel/src/memory/heap.c over the interface PageMapper, which stands for
--     vmm_alloc_page. Memory/Backing puts the heap over the page tables and these over the allocator.
--     Memory/Report is what both memory.c and vmm.c print.
--   * Boot: the part of kernel/src/main.c that starts the memory managers and the heap.
--   * Tasks: the task control block of kernel/src/scheduler/task.h and the state of the scheduler. A
--     task is a number, its address, and Kernel.task is the memory of the task structures.
--     Tasks/Create: the creation of tasks in kernel/src/scheduler/task.c and scheduler_init.
--     Tasks/Context: kernel/src/scheduler/context.asm, over the registers and a memory of words.
--   * Scheduler: kernel/src/scheduler/scheduler.c. scheduler_schedule returns the two tasks between
--     which context_switch would switch, if it is reached.
--   * Sync: kernel/src/sync/mutex.c, semaphore.c and event.c, with the waiting functions of
--     kernel/src/scheduler/task.c; Sync/Queue: kernel/src/sync/queue.c.
--   * Keyboard: kernel/src/drivers/keyboard/keyboard_handler.c and the handler of keyboard.c. The
--     handler gets the bytes that the controller delivers and returns the calls of the terminal.
--   * Devices/Pci: kernel/src/drivers/pci/pci.c; Devices/Ps2: kernel/src/drivers/keyboard/ps2.c, whose
--     waits take rounds; Devices/Interrupts: idt.c, pic.c and irq.c of
--     kernel/src/interruptions, and kernel/src/timer/pit.c. The port instructions of
--     kernel/src/io/io.c are the parameter Ports; what a theorem needs of the device behind them is a
--     record of laws.
--   * Text: kernel/src/print_and_stuff/print.c; what is printed is a list of characters.
--     Text/Strings: kernel/src/string/string.c over the bytes of memory.
--   * Filesystem: kernel/src/filesystem/ramfs/ramfs.c, whose nodes get their memory from the heap. The
--     children of a directory are a linked list, as the run list is: Tasks/Ends has the lemmas on both.
--   * Video: kernel/src/video/graphics.c and kernel/src/video/terminal.c, over a memory of pixels; the
--     signed numbers of the terminal are the integers of Video/Integers, cut to 64 bits after each sum
--     and product: C leaves an overflow undefined, the machine wraps.
--   * Storage/Nvme: kernel/src/storage/nvme/nvme.c over the parameter Device, what lies behind the
--     registers and the queues in shared memory. Storage/Disk: kernel/src/storage/storage.c and
--     kernel/src/storage/block/block.c.
--   * Prelude: shared names, lists, machine words and bit operations.
--
-- Loops over the run list, over lists of waiters and over page numbers take a number of rounds. The
-- loops of pmm take exactly the number of pages; for those over linked lists the theorems ask for more
-- rounds than the list has tasks, and kmalloc for enough rounds to map the pages that it needs. A page
-- table has 512 entries, and clearing it takes 512 rounds. Waiting for the disk takes rounds too, and a
-- function of the driver returns none if it still waits when they are used up.
--
-- The moments at which interrupts arrive, the processor's cache of translations, the assembly of the
-- interrupt stubs and the port instructions, the table of glyphs and the calls of
-- kernel/src/main.c that do not touch memory are not modelled.
pub mod Boot
pub mod Devices
pub mod Filesystem
pub mod Keyboard
pub mod Memory
pub mod Prelude
pub mod Scheduler
pub mod Storage
pub mod Sync
pub mod Tasks
pub mod Text
pub mod Video
