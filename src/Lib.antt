-- ===== src/Lib.antt =====
-- The kernel of the CS333 variant of xv6: its process table with state lists.
--
-- The process code (proc.c, proc.h) keeps NPROC processes in a table. In the build that is modelled
-- first, with CS333_P3P4 defined (make CS333_PROJECT=3 or 4), each process is on one singly linked
-- list, the list of its state; ready processes are on one list for each priority. System calls, the
-- timer and the scheduler move processes between the lists, with ptable.lock held (spinlock.c).
--
-- Spinlock models spinlock.c as one CPU sees it: Cpu has the interrupt flag and the fields ncli and
-- intena of struct cpu, Held adds whether the CPU holds the lock. Another CPU that holds the lock
-- only delays acquire.
--
-- Proc.Table has the data. A pointer to entry i of ptable.proc is i + 1 and null is 0; Kern is
-- the process table, the list pointers and the few globals of the process code. What other parts
-- of the kernel are asked to do is logged as a Call; what they return is an argument (kalloc in
-- allocproc). A uint is a number below 2 ^ 32 with its wrap-around written out; budget is the bit
-- pattern of the int. Reading through null, or outside of the array of ready lists, is a fault.
-- Proc.StateList has stateListAdd and stateListRemove. Its children prove that they append and
-- erase. Proc.Lists has the invariant of the table (Moves.Inv: each process is on the list of its
-- state, and on no other) and the rule for the remove, add and assert that operations make.
-- Proc.Init is initProcessLists, initFreeList and userinit; Proc.Alloc is allocproc; Proc.Sched
-- is sched, yield, sleep and one dispatch of scheduler, where the effect of all that happens
-- between the two ends of a swtch is an argument; Proc.Scan has the search loops; Proc.Wait,
-- Proc.Exit and Proc.Fork are wait, exit and fork, where kalloc and copyuvm are arguments;
-- Proc.Wakeup, Proc.Kill and Proc.Priority are wakeup1, wakeup, kill, setpriority and promoteAll.
-- Proc.Sample is a table on which the theorems are tried. Proc.Whole has wakeup1, kill, exit,
-- wait and the pass of scheduler in the build without CS333_P3P4, where they go through the whole
-- table.
--
-- Bytes models string.c, over a memory that is a function from addresses to bytes: memmove,
-- memcpy, memset with stosb and stosl of x86.h, memcmp, strncmp, strncpy and safestrcpy. Its
-- children compare each with what it is to leave behind or return.
--
-- Files models the table of open files (file.c): filealloc, filedup and fileclose, with the calls
-- of pipe.c, fs.c and log.c logged.
--
-- Files.Transfer has filestat, fileread and filewrite on one open file, with one round of fuel
-- for each byte that filewrite is to write. Files.Pipes adds pipealloc of pipe.c; Pipe models the
-- rest of pipe.c on one pipe, whose ring buffer is compared with a queue of bytes.
--
-- Bio models bio.c over the disk in memory of memide.c: the list of buffers, linked both ways,
-- and the data of the buffers and of the disk. bget has fuel for the rounds from its label on,
-- and so have the loops of pipewrite and piperead that wait; what other processes do in the
-- sleeps is an argument.
--
-- Kalloc models kalloc.c over the bytes of memory, in which the free pages are linked; Kalloc.Chain
-- compares the links with a list of pages. freerange has one round of fuel more than pages below its end.
--
-- Vm models the page tables of vm.c over this memory, where an entry is a word: walkpgdir, mappages and
-- setupkvm; Vm.User is inituvm, loaduvm, allocuvm, deallocuvm, freevm, clearpteu, copyuvm and copyout. Its
-- loops have two rounds of fuel more than pages, copyout one more than bytes, and mappages as many as
-- pages. Vm.Translate has the page table as a function from addresses to entries.
--
-- Log models log.c on one device: recovery, commit, begin_op, end_op and log_write. A disk is a
-- function from block numbers to contents, and the state keeps every disk that a write has left, so
-- that a crash after any write can be spoken of. begin_op has fuel for its rounds, and what other
-- processes do while it sleeps is an argument.
--
-- Fs models the allocation of blocks in fs.c: bzero, balloc and bfree over the bitmap. The loops of
-- balloc have the rounds that the size of the disk gives them.
--
-- Inode models the rest of fs.c over these blocks, in the build without CS333_P5. FileSystem has the
-- table icache with its lock, the data of the blocks and what the superblock says of inodes; entry i of
-- the table is at the pointer i + 1. Inode is iget, idup and iunlock; Inode.Dinode the inodes on the
-- disk as bytes, with iupdate and ialloc; Inode.Lock is ilock, where what other processes do in the
-- sleeps is an argument; Inode.Blocks is bmap and itrunc, Inode.Put iput and iunlockput, Inode.Content
-- stati, readi and writei, where the functions of devsw are an argument; Inode.Directory is dirlookup and
-- dirlink, and Inode.Path skipelem and namex. readi and writei have one round of fuel more than bytes,
-- dirlookup and dirlink two more than entries, and namex one more than bytes of the path.
--
-- Syscall models the functions of syscall.c that fetch arguments from the memory of a process, and
-- Syscall.Process those system calls of sysproc.c that use only these and the process code.
--
-- A loop over a state list has NPROC + 1 rounds of fuel, one more than the processes that a list of
-- distinct processes can have; the theorems show that it does not run out.
--
-- Not modelled: sys_sleep, sys_sbrk, sys_getprocs and the table of system calls; the system calls on
-- files, exec, the IDE driver, devices, traps and user programs; the loading of the processor's registers
-- in vm.c; the debugging call stack of a lock; the endless loop of scheduler.
pub mod Prelude
pub mod Spinlock
pub mod Bytes
pub mod Proc
pub mod Files
pub mod Kalloc
pub mod Log
pub mod Pipe
pub mod Bio
pub mod Syscall
pub mod Fs
pub mod Inode
pub mod Vm
