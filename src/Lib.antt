-- ===== src/Lib.antt =====
-- A model of the mirros kernel, a small operating system for the ARM S3C2440.
--
-- The parts of the program, and the files of this library:
-- * include/os/list.h, the circular lists that every other part links its structures with, is
--   Link.antt. A memory of `next` and `pre` by address (`Links`) stands for the `list_head` fields
--   of one name; Link/Ring, Walk, Frame and Twice say what each operation makes of the sequence of
--   nodes that a head stands for (`Ring`).
-- * kernel/bitops.c and include/os/bitops.h, bit maps in words of 32 bits, are Bitops.antt, with
--   its laws in Bitops/Laws.
-- * kernel/sched.c, the scheduler, is Sched.antt and its children. `Sched` holds the globals of
--   the file and the fields of tasks; Sched/Change is the table of state changes with
--   set_task_state, Sched/Switch the choice of a task, sched, the tick, suspend, wake-up,
--   priorities and removal, Sched/Pid the process ids. Sched/Lists, Rings and Refine state the
--   abstract scheduler, a list of tasks per priority and state, and the invariant that ties the
--   links, the counters and the states of tasks to it; Keeps, Turn, Round, Pick, Tick, Suspend,
--   Effects, Prio and Remove show what each operation does to it. Sched/Init and Start are the
--   set-up of the globals, of a task and, from kernel/task.c, of the idle task; Sched/Steps is the relation of the steps that the kernel
--   takes, with the invariant of every state that is reached and the wake-up of sleeping tasks;
--   Sched/Steps/Boot shows that the start in init/main.c gives such a state.
-- * kernel/string.c, numbers as text and strings, is Text.antt, over a memory of bytes by address;
--   Text/Digits, Number and Signed are about numbers, Text/Strings and Copy about strings and ranges.
-- * mm/mm.c, the allocator of pages, is Pages.antt (state and addresses) and Pages/Alloc, over the
--   bit maps of Bitops.antt; Pages/Find is about the search, Pages/Given about giving out and
--   freeing a page, Pages/Aligned about a page at a given offset. The set-up of the zones at boot is
--   not modelled.
-- * mm/slab.c, kmalloc and kfree, is Slab.antt, over Pages; Slab/Get, Put, Block and Kmalloc follow a
--   block from the current page to its owner and back, Slab/Cache the list of free blocks.
-- * kernel/mmu.c, with the descriptors of arch/arm/machine/arm920t_c.c, is Mmu.antt: the translation
--   table and page tables as words of memory. Mmu/Fill, Sections and Tables.
-- * kernel/interrupt.c, with the handler table of arch/arm/machine/arm920t_c.c and the masks of
--   arch/arm/machine/s3c2440_c.c, is Interrupt.antt; Interrupt/Dispatch.
-- * kernel/syscall.c, the table of system calls, is Syscall.antt; Syscall/Install.
-- * kernel/printk.c, formatted output, is Printk.antt, over Text; Printk/Numbers is about the numbers
--   it writes, Printk/Format the pieces of a format and what they show, Rounds and Loop the loop.
-- * kernel/elf.c, the loader of programs, is Elf.antt, over RamDisk and Text; Elf/Held and Blocks are
--   about the blocks it takes, Elf/Sections about the sections it finds.
-- * kernel/mutex.c, locking, is Mutex.antt, over the scheduler; Mutex/Lock and Mutex/Unlock.
-- * kernel/ramdisk.c, the files of the ram disk, is RamDisk.antt, over the memory and strcmp of Text;
--   RamDisk/Files.
--
-- Components meet in the state. A task, a page and a mutex are their addresses, and Link's memory of
-- links is shared by all lists that one field of a structure is linked into: the 64 lists of
-- priorities share one, and Sched/Lists keeps them apart. Mutex calls suspend_task_timeout and
-- wakeup_task of the scheduler; Pages calls set_bit and clear_bit of the bit maps; Slab calls
-- get_free_pages and the mutex; the timer interrupt calls the tick of the scheduler, and the end of an
-- interrupt its switch of tasks; Printk prints numbers with itoa and its like; Elf reads through
-- ramdisk_read and ramdisk_seek. Base holds what they share: words, masks and bits, lists, integers.
--
-- Bounds and fuel: numbers are natural numbers, with the reduction to 32 or 8 bits written out
-- wherever the source computes with words. A loop whose end depends on links, on memory or on a
-- bit map takes fuel, and the theorems that run it say how much is enough: more than the nodes of
-- the list, more than the bytes of the string, two more than the pages of the zone, 4096 megabytes
-- of a section, more than the tasks for a timer interrupt, more than the blocks in use for the list of a slab page, more rounds
-- than the pieces of a format, and 31 rounds for the digits of a number.
--
-- Not modelled: debug output, the masking of interrupts in critical sections, the saved registers
-- and stacks of tasks, device registers and assembly, and the parts of the kernel that this list
-- does not name: signals (kernel/signal.c), fork, exec and kill (kernel/task.c), and the set-up of
-- the memory zones at boot (mm/mm.c). The model of the ELF loader ends without a result at a section
-- name that does not fit its 32 bytes, and priorities are not negative: what the source then writes
-- outside of its structures is not followed.
pub mod Base
pub mod Bitops
pub mod Elf
pub mod Interrupt
pub mod Link
pub mod Mmu
pub mod Mutex
pub mod Pages
pub mod Printk
pub mod RamDisk
pub mod Sched
pub mod Slab
pub mod Syscall
pub mod Text
