-- ===== src/Lib.antt =====
-- SYSU OS 2026, a teaching operating system for the i386: a kernel with paging, processes, a
-- FAT12 file system and a shell. This library models the parts of the kernel that keep its data
-- structures, and proves what the rest of the kernel relies on.
--
-- The parts and how they meet. The file system reads and writes clusters through a cache of 64
-- buffers, keeps the chains of clusters in the allocation table and the root directory in a
-- table of entries. The address pools and the reverse map of the pages mark what is taken in a
-- bitmap; the ready lists, the list of all processes and the waiting lists are intrusive linked
-- lists, whose items stand inside the PCBs; `schedule`, `exit` and `waitpid` move a PCB between
-- these lists and states. The keyboard interrupt fills a circular buffer, from which the system
-- call `read` builds a line; the shell parses that line, keeps its jobs in a table and prints
-- with the formatter of the C library.
--
--   AddressPool  src/kernel/address_pool.cpp: `VAddressPool` with `allocate`, `release` and
--               `getVPageFlag`, over Bitmap.
--   Base        tests on the native numbers, lists, and the names that all files share.
--   Bitmap      src/kernel/bitmap.cpp, with `ceil` of src/libc/stdlib.cpp: `BitMap` with `get`,
--               `set`, `initialize`, `allocate` in both directions and `release`. Memory is a
--               function from addresses to bytes.
--   Buddy       src/kernel/buddy.cpp: `allocate`, `release`, `allocateBlock` and `releaseBlock` on
--               the free lists by order, with `log2` and `count2order`.
--   ClusterCache  src/kernel/fileSys/fat12_fs.cpp: the buffers of clusters with `read_cluster`,
--               `write_cluster`, `find_cache`, `get_cache`, `release_cache`, `flush_cache` and
--               `flush_all_cache`, over the disk of FatTable.
--   FatTable    src/kernel/fileSys/fat12_fs.cpp: `read_fat_table`, `flush_fat_table`,
--               `allocate_cluster` and `free_cluster`. The disk controller is a record of its
--               sectors and of those that it answers for.
--   DirEntry    src/kernel/fileSys/fat12_entry.cpp: `read` and `write` of `fat12_entry_buf` on the
--               bytes of an entry, with `to_lower` and `to_upper` of include/libc/stdlib.h.
--   FileAppend  src/kernel/fileSys/fat12_fs.cpp: `append`, over ClusterCache, FatTable, RootDir and
--               DirEntry.
--   FileData    src/kernel/fileSys/fat12_fs.cpp: `read`, with `memcpy` of src/libc/stdlib.cpp as a
--               copy of bytes.
--   FileWrite   src/kernel/fileSys/fat12_fs.cpp: `write`.
--   Keyboard    src/kernel/keyboard.cpp: `push`, `pop`, `decode`, `handleScancode` and `read`.
--   LinkedList  src/kernel/list.cpp: all of `List`, over one store of links. A list item is its
--               address, and 0 is the null pointer.
--   PathName    src/kernel/fileSys/file_manager.cpp: `normalizePath` and `splitPath` with the
--               functions on paths that they call. A C string is a list of bytes.
--   Printf      src/libc/vsprintf.cpp: `vsprintf_callback` with `analyse_format`,
--               `varg_to_callback`, `sign_decify`, `unsign_decify` and `hexify`, as compiled for
--               32 bits. What goes through the callback is a list of bytes.
--   Process     src/kernel/schduler.cpp and, of src/kernel/program.cpp, `schedule`, `MESA_WakeUp`,
--               `exit`, `waitpid`, `allocatePCB` and `releasePCB`.
--   ReverseMap  src/kernel/rmap.cpp: `attach` and `detach`, with the reference count of
--               src/kernel/pageinfo.cpp.
--   RootDir     src/kernel/fileSys/fat12_fs.cpp: `init_root_dir` and `flush_root_dir`.
--   Semaphore   src/kernel/sync.cpp: `SpinLock` and `Semaphore` with `P` by its rounds and `V`,
--               over Process.
--   Shell       src/bin/osh.cpp: the table of jobs, `parse_line`, `join_path`, `exec_command` and
--               `parse_job_arg`. `execve` is a parameter.
--   Victim      src/kernel/address_pool.cpp: `PAddressPool::findVictim`, with `isAlloc` of
--               src/kernel/buddy.cpp. The page table entries are words by address.
--
-- Bounds and fuel. A loop of the code whose length is not a structural argument runs on fuel.
-- The loops of `allocate` take the length of the map plus one, those over a list any number
-- above the number of its items, `read` one more than the characters in the buffer, since every
-- round passes one of them, `allocateBlock` and `releaseBlock` the orders that are left, the
-- loops of the file system's `read` and `write` the offset and the size plus one, the
-- walk of `append` the number of clusters and its loop the bytes that are left plus one, and the
-- formatter the length of the format plus one for the same reason; the first round takes a free
-- spin lock. Spent fuel is a result of its own.
-- Indices and addresses are natural numbers, bytes and ticks wrap around as in the code.
--
-- Not modelled: page tables and the set-up of address pools, which are steps of a kernel that
-- changes its own address space; the directories, inodes and mounts of the file system above the
-- entries; program loading, the interrupt tables, the screen, the rest of the C library, the
-- built-in commands of the shell and the other user programs. Assembly (context switch, port input
-- and output) has no model; where an operation ends in a context switch, the model ends there.
-- Interrupts between the steps of an operation are left out.
pub mod AddressPool
pub mod Base
pub mod Bitmap
pub mod Buddy
pub mod Keyboard
pub mod LinkedList
pub mod Process
pub mod PathName
pub mod FatTable
pub mod ClusterCache
pub mod FileData
pub mod FileWrite
pub mod FileAppend
pub mod DirEntry
pub mod RootDir
pub mod Semaphore
pub mod ReverseMap
pub mod Printf
pub mod Shell
pub mod Victim
