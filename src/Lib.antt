-- ===== src/Lib.antt =====
-- Models and proofs for the kernel in source/kernel, the loader in source/loader and the library of system
-- calls in source/applib: scheduler, mutex and semaphore, memory management, descriptor tables, interrupts
-- and the log, the bitmap, list, memory and string routines that they stand on, and the way from the BIOS
-- to the first task.
--
-- The parts, bottom up, and the files that model them:
--
--   Base          words of 32 bits, single bits of a byte, byte memory, Boolean tests
--   Cpu/Instr     source/comm/cpu_instr.h: ports, their status registers, the operands of lgdt and lidt
--   Tools/Klib    source/kernel/tools/klib.c and include/tools/klib.h: up2, down2, kernel_memset,
--                 kernel_memcpy, kernel_memcmp, over memory as a function from addresses to bytes
--   Tools/Klib/Text  the string routines of klib.c, over the same memory; Tools/Klib/Format
--                 kernel_itoa and kernel_vsprintf; Format/ReadBack reads a number's text again, Format/
--                 Reference is a formatter on lists of characters, which Format/Rendering compares
--   Tools/Bitmap  source/kernel/tools/bitmap.c, over the same memory
--   Tools/LinkedList  source/kernel/tools/list.c: `list_t` as a record, its nodes in a heap that has
--                 one at every address; Links says what a proper list is
--   Tools/Log     source/kernel/tools/log.c: text on the serial port; Log/Sending on plain texts,
--                 Log/Formats on formats with directives
--   Core/Sched    source/kernel/core/task.c: the ready and sleep lists of `task_manager`, the current
--                 task, the time slice; each function takes the state and returns the new one
--   Core/Mmu      source/kernel/include/cpu/mmu.h: entries of page tables as words
--   Core/Memory   source/kernel/core/memory.c: the allocator of pages, page tables, memory_get_paddr;
--                 Memory/Uvm the address spaces, Memory/Heap sys_sbrk, Memory/Setup memory_init; the
--                 other children prove: Pages and Reuse on the allocator, Tables and Maps on page tables,
--                 Keeps and Growth on the heap, Copies and Contents on memory_copy_uvm_data, Widths on the
--                 widths of words and bytes, Faults on what fails
--   Core/Task     source/kernel/core/task.c: tss_init, task_init, task_first_init, task_manager_init, on
--                 the machine of Core/Memory and the table of Cpu/Gdt
--   Core/Init     source/kernel/init/init.c: the order of the set-up, and the entry of the first task
--   Cpu/Gdt       source/kernel/cpu/cpu.c: descriptors and their table, which Slots proves an allocator
--   Cpu/Irq       source/kernel/cpu/irq.c and source/kernel/dev/time.c: gates, masks, the timer;
--                 Irq/Handlers the handlers of exceptions, as what they log and whether they come back
--   Ipc/Wait      the lines that mutex.c and sem.c share: blocking on a wait list, waking its first task;
--                 Wait/Turns yields while tasks wait
--   Ipc/Mutex     source/kernel/ipc/mutex.c; Mutex/History the calls of many tasks in any order
--   Ipc/Sem       source/kernel/ipc/sem.c; Sem/History likewise
--   Loader        source/loader/loader_32.c: reload_elf_file, over byte memory; Loader/Disk read_disk and
--                 Loader/Kernel load_kernel; Loader/Real source/loader/loader_16.c
--   Applib        source/applib: the stubs of the system calls, and cstart
--   Tests         the theorems at concrete inputs
--
-- How they interact: a task is the address of its `task_t`, and its list nodes lie at fixed offsets in
-- it, so that the scheduler's lists and the wait lists are lists of addresses in one heap. A proper list
-- `IsList h l xs` is the interface between list.c and its users: each operation of list.c is proved once
-- against it, with the nodes that it may write, and the scheduler, the mutex and the semaphore are proved
-- from these contracts alone. Ipc.Wait.Layout states what they need of the places of the tasks: objects
-- of 200 bytes do not overlap. The histories of Ipc are proved from the contracts of single calls: a step
-- is a call, or a yield, of the task that runs, and the invariant of Sound or Balanced holds after it.
--
-- The allocator of pages and the table of segments each hold a mutex. Ipc/Mutex/Idle shows that taking
-- and giving up a free one changes nothing, and their theorems are about such runs, which do not wait.
-- Page tables, bitmap and pages lie in one byte memory, addressed physically, and a theorem on tables says
-- which words must lie apart. Where the kernel reads through the tables of a task, the paging unit is a
-- parameter, `translate`. A failed ASSERT, which halts, is `none`.
--
-- What the hardware and foreign code answer are parameters: the statuses of a register and the words of
-- the disk are sequences, the BIOS is a function of the continuation and the buffer, the handlers' entries
-- in start.S are addresses, and the call gate, malloc and free of a program are functions on a world. A
-- theorem says what it needs of them, such as that a port becomes ready often enough.
--
-- Conventions. A pointer is a number and 0 is null; nothing faults, since the kernel maps the low memory.
-- A C int that counts is its 32-bit pattern, wrapped as the source wraps it, and a theorem that needs the
-- value to be small says so. A function that runs between irq_enter_protection and irq_leave_protection is
-- one step. A switch to another task is recorded, and the caller's remaining code counts as run when the
-- task comes back: only task_time_tick has any, and it says how it ended. The search of
-- bitmap_alloc_nbits runs on bit_count + 1 rounds of fuel, and each round goes on by a bit; the loop over
-- the sleep list runs on fuel greater than the length of the list, each round for one sleeper. The loop of
-- memory_copy_uvm_data runs on a round more than bytes are left, and each round copies one byte or more;
-- kernel_itoa has a round for each unit of the number, which every digit makes smaller; the loops over
-- strings run on fuel that the caller gives. The loop of detect_memory has the ten rounds of the source.
--
-- Not modelled: the texts that memory.c logs but for the list of regions, the boot sector, which jumps to
-- the loader, the assembly of start.S, and the loop of the first task. Single instructions such as cli or
-- the moves to control registers are written where they are used, as changes of a register.
pub mod Base
pub mod Tools
pub mod Core
pub mod Cpu
pub mod Ipc
pub mod Loader
pub mod Applib
mod Tests
