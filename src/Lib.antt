-- ===== src/Lib.antt =====
-- A verification library for the MCSOS kernel.
--
-- The kernel is a teaching kernel in C. The parts that are modelled:
--
-- Bitmap.antt, Bitmap/: the three bitmap functions that src/pmm.c and fs/mcsfs1/mcsfs1.c each have, over a
--   list of bytes; kernel/fs/mcsfs1j/m16_mcsfs_journal.c has two of them, to set and to test a bit.
-- Pmm.antt, Pmm/: src/pmm.c and include/pmm.h, the allocator of physical page frames. `PmmState` is
--   struct pmm_state; each function takes the state and returns it. It uses Bitmap.
-- Sched.antt, Sched/: kernel/mcsos_thread.c and include/mcsos_thread.h, the threads and the scheduler.
--   Threads stand in a store that pointers index, and the ready queue is the linked list in it.
-- Sync.antt, Sync/: kernel/sync/ and include/mcs_sync.h. `Lockdep` is the lock-order checker on its
--   state; `Mutex` and `Spinlock` are given twice, as functions of one thread and as steps on a shared
--   lock, one atomic access to a step, which any number of threads interleave (`System`).
-- Elf.antt, Elf/: kernel/user/m11_elf_loader.c and include/mcsos/user/m11_elf_loader.h, the check of
--   an ELF image and the plan of its segments. The structs are read from the bytes of the image.
-- Journal.antt, Journal/: the block device, the transaction and the redo journal of
--   kernel/fs/mcsfs1j/m16_mcsfs_journal.c. A call is a function on the device that returns a value or
--   an error code and the device as it leaves it, in a do block where the source returns at the first
--   error. A crash is the source's own fault injection: from some write on every write fails.
-- Vfs.antt, Vfs/: include/mcs_vfs.h, kernel/vfs/ramfs.c (`Ramfs`) and kernel/vfs/fd.c (`Files`), the
--   RAM file system and the table of open files. A call is a function on the table and the file system
--   that returns a value or an error code and the state as it leaves it.
-- Block.antt, Block/: include/mcsos/block.h, kernel/block/block.c and kernel/block/ramblk.c (`Ramblk`),
--   the table of block devices, the buffer cache and the RAM disk. The layer takes any driver; what is
--   asked of one is the record `Serves`, and the RAM disk fills it.
-- Vmm.antt, Vmm/: src/vmm.c and include/vmm.h, the page tables of four levels, over any allocator of
--   frames and any translation of physical addresses that keeps tables apart.
-- Kmem.antt, Kmem/: kernel/mm/kmem.c and include/mcsos/kmem.h, the kernel heap. Its state is
--   the memory, with the headers in it by their addresses; a list of sizes and flags (`Cell`) says what a heap in order holds.
-- Flatfs.antt, Flatfs/: fs/mcsfs1/mcsfs1.c and mcsfs1.h, the flat file system over any block device. A
--   call is a function on the state of the device; the structs are read from the bytes of the blocks.
--   What is asked of a device is the record `Serves`.
-- Common.antt, Common/: numbers, Boolean tests, arrays as lists, sums that wrap, signed numbers, and the
--   results of calls that may fail.
--
-- A number is a natural number; where the source's type is narrower, the remainder is written out. A
-- loop is recursion on the list it walks or on the number of rounds that its bounds give it. The loops
-- that walk a path have fuel for as many rounds as the path has bytes; each round takes a byte or more.
-- The loops over the blocks of the heap have one round more than headers fit between its ends; those of
-- the flat file system have the rounds of their bounds.
-- A struct that is written to a block is its bytes, little-endian. A pointer argument is a value, and
-- the tests for NULL are left out.
--
-- Not modelled: memory reordering weaker than sequential consistency; a block write that is torn in
-- the middle; the file layer over the journal, the system calls, the accesses to ports and control
-- registers, and the rest of the kernel.
pub mod Bitmap
pub mod Block
pub mod Common
pub mod Elf
pub mod Flatfs
pub mod Journal
pub mod Kmem
pub mod Pmm
pub mod Sched
pub mod Sync
pub mod Vfs
pub mod Vmm
