-- ===== src/Lib.antt =====
-- The kernel of a small RISC-V operating system: xv6 with signals.
--
-- Parts, each with the file that models it and the code it is about:
-- Log       kernel/log.c: the redo log that makes a file-system operation atomic. It writes blocks
--           through the buffer cache (Log/Device.antt) to a disk that may lose power at any write.
-- Proc      kernel/proc.h: the fields of a process that the other modules use, and its lock.
-- Signal    kernel/proc.c: kill, sigprocmask, sigaction, sigret, and signalhandler with the entry
--           of user handlers. signalhandler runs on the way back to user space.
-- Life      kernel/proc.c: the process table and the life of its processes (allocpid, sleep,
--           wakeup, reparent, exit from the point on where the files are closed, wait, freeproc).
--           wait gives the memory of a child back through Vm and Kalloc.
-- Pipe      kernel/pipe.c: the ring of 512 bytes between a writer and a reader.
-- Files     kernel/file.c: the table of open files with its reference counts; Files/PipeAlloc.antt
--           is pipealloc of kernel/pipe.c, which takes two files and a page.
-- Bio       kernel/bio.c: the cache of disk blocks, a ring of buffers in the order of use.
-- Fs        kernel/fs.c and kernel/fs.h: the blocks of the file system and their free map.
-- Inode     kernel/fs.c: inodes in memory and on the disk, and the blocks of a file (iupdate, bmap,
--           itrunc). It allocates and frees blocks through Fs.
-- Itable    kernel/fs.c: the table of inodes in memory (ialloc, iget, idup, ilock, iunlock, iput).
--           Its slots hold what Inode reads and writes.
-- Contents  kernel/fs.c: reads and writes of a file (stati, readi, writei), through bmap of Inode; and
--           either_copyout and either_copyin of kernel/proc.c.
-- PathName  kernel/fs.c: skipelem, which takes a path name apart.
-- Kalloc    kernel/kalloc.c: the page allocator, whose free list runs through the free pages.
-- Vm        kernel/vm.c: three-level page tables in the RAM of Kalloc (walk, walkaddr, mappages,
--           kvmmap, uvmcreate, uvmunmap), and in Vm/Space.antt the growth, the copy and the freeing
--           of an address space (uvmalloc, uvmdealloc, freewalk, uvmfree, uvmcopy, uvmclear). View
--           reads a table as a map from pages to entries. Grow, Step and Reach are about the tables
--           that walk adds, Store and Leaf about a store to an entry, and Extend, Back and Restore
--           about the pages that uvmalloc adds.
-- Spinlock  kernel/spinlock.c: acquire, release, push_off and pop_off of kernel locks, on any number
--           of CPUs.
-- Sleeplock kernel/sleeplock.c: the locks whose waiters sleep.
-- String    kernel/string.c: the memory and string functions.
-- Grep      user/grep.c: the matcher (match, matchhere, matchstar), on strings as lists of characters.
-- Base holds lists, machine words, runs that may panic, and arrays as functions.
--
-- A function of the code has a definition of its name, and a loop of it one that ends in _loop or
-- says in its comment which loop it is. Words are natural numbers, with their wrap-around written
-- out; -1 is 2 ^ 32 - 1. A panic, a loss of power, a failed call and a process that sleeps for ever
-- are results.
--
-- What runs under a spin lock is one step; in Spinlock, where the lock itself is modelled, a
-- step is one access to it, but for the two reads of holding and the store of lk->cpu in
-- release, which belong to a neighbouring step. end_op of Log runs its commit without log.lock;
-- in Log/Reserve.antt it is one step all the same, since begin_op waits while the committing
-- flag is set. A process that sleeps or yields takes a list of functions, one for each time:
-- what the others do until it runs again. The list's end means that it is never woken, and the
-- result is `none`.
--
-- Fs, Inode, Itable and Contents stand on a store of blocks, which lists the blocks that
-- log_write was called for; the buffer cache and the log below are taken at their word: a block
-- that is read is what was last written. A pointer to an inode is its index in the table. ilock
-- by a process that holds the lock would sleep for ever, which counts as a panic.
--
-- Bounds and fuel: free_loop of Kalloc has a round for each page below pa_end and one for the
-- last test; strlen has fuel, and more than the length is enough; the loops of bget have a round
-- for each buffer and one more; balloc_loop has a round for each block of the free map and one
-- more; ialloc_loop has one for each inode; readi_loop and writei_loop have one for each byte,
-- and a last test; map_loop of Vm has one for each page below MAXVA and one more, unmap_loop,
-- grow_loop and copy_loop have one for each page and a last test; freewalk goes down three
-- levels, all that a table has; every other loop counts down.
--
-- Assumptions: the disk writes a block whole or not at all; the compiler and the fences keep the
-- order of the accesses to a lock; pointers in string.c do not wrap around; the driver of the
-- disk is a parameter of Bio. copyin and copyout are parameters in Pipe, Contents and Life, and
-- succeed in Signal, where the code does not look at their results. In Pipe copyout takes the
-- user's memory and gives the new one. In Contents the memory of the kernel and that of the
-- process are one parameter. The int that strlen counts in has no bound.
--
-- Not modelled: directories and the walk along a path, filestat, fileread and filewrite, readsb,
-- fsinit and iinit, allocproc, fork, the scheduler, the kernel's own page table, uvminit,
-- copyin, copyout and copyinstr, system calls, exec, console, traps, devices, user programs but
-- for the matcher of grep, assembly, and what the functions print.
pub mod Base
pub mod Log
pub mod Proc
pub mod Signal
pub mod Pipe
pub mod Kalloc
pub mod Vm
pub mod Spinlock
pub mod String
pub mod Files
pub mod Sleeplock
pub mod Bio
pub mod Fs
pub mod Inode
pub mod Itable
pub mod Contents
pub mod PathName
pub mod Life
pub mod Grep
