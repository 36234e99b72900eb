-- ===== src/Lib.antt =====
-- A verification library for the Weenix kernel.
--
-- The program. Weenix is a teaching kernel for 32-bit x86. Its repository holds the parts that a
-- course implements; the headers, the allocators, the drivers and the machine-dependent code are not
-- in it. The parts that this library models are these.
--
--   Vm: the address space of a process (kernel/vm, kernel/api/access.c).
--     Vm/Area         `vmarea_t`, its valid lists, and the abstract view: a partial function from
--                     virtual pages to pages of memory objects
--     Vm/Paging       the page macros of the headers, a parameter with laws
--     Vm/Vmmap        vmmap.c: vmmap_insert, vmmap_lookup, vmmap_is_range_empty, vmmap_find_range,
--                     vmmap_clone, vmmap_destroy and vmmap_remove; its children relate each to
--                     the view, to the order of the list and to the reference counts
--     Vm/Map          vmmap_map of vmmap.c
--     Vm/Mmap         mmap.c: do_mmap and do_munmap with their checks
--     Vm/Brk          brk.c: do_brk
--     Vm/PageFault    pagefault.c: handle_pagefault
--     Vm/Access       api/access.c: addr_perm and range_perm
--     Vm/UserMem      vmmap_read and vmmap_write of vmmap.c, copy_from_user and copy_to_user of
--                     access.c; Vm/UserMem/Bytes has what they ask of a lookup of a page, and
--                     Vm/UserMem/Anon that the lookups of anonymous objects keep it
--     Vm/Fork         handle_memory_object of proc/fork.c and the loop of do_fork over the areas
--   Proc: threads (kernel/proc).
--     Proc/Fifo       lists that are used as queues
--     Proc/Sched      sched.c and sched_helper.c: the wait queues, the run queue, sleep, wake-up,
--                     broadcast, cancellation and the switch; Proc/Sched/Reach has the steps of the
--                     running thread and the states that they reach
--     Proc/Kmutex     kmutex.c: kmutex_init, the two locks and kmutex_unlock
--                     Proc/Kmutex/Owner and Proc/Kmutex/Steps have the invariant of a mutex and the
--                     threads that use it as a system of steps
--     Proc/Table      proc.c: the table of processes, _proc_getid, proc_lookup, proc_create
--                     and do_waitpid
--     Proc/Exit       proc.c and kthread.c: proc_cleanup, do_exit, proc_kill, proc_kill_all,
--                     kthread_exit and kthread_cancel over the scheduler and the table
--     Proc/Kthread    kthread.c: kthread_create, kthread_clone and kthread_destroy
--     Proc/Fork       fork.c: do_fork and copy_parent_files
--   Fs: files (kernel/fs).
--     Fs/State        descriptors, open files and the operations of vnodes, which are a parameter
--     Fs/File         vfs_syscall.c: the calls on descriptors, and get_empty_fd of open.c;
--                     Fs/File/Refs counts the references to files against the descriptors, and
--                     Fs/File/Session has the states that sequences of calls reach
--     Fs/Namev        namev.c: lookup, dir_namev and open_namev; Fs/Namev/Words relates the loop to
--                     the list of the words of a path, Fs/Namev/Refs counts the references to vnodes
--     Fs/Path         vfs_syscall.c and open.c: the calls on path names and do_open
--   Mm: resident pages and memory objects (kernel/mm/pframe.c, kernel/vm/anon.c and shadow.c).
--     Mm/State        page frames, memory objects, and the lists and counters of pframe.c
--     Mm/Pframe       pframe.c over the operations of memory objects, which are a parameter;
--                     Mm/Pframe/Valid has the invariant of the lists, Mm/Pframe/Free the laws that
--                     the operations of memory objects have to keep
--     Mm/Anon         anon.c: anonymous memory objects; Mm/Anon/Zero has the first lookup of a page
--     Mm/Shadow       shadow.c: the chain of shadow objects, the lookups and the fill
--   Api: the entry of system calls (kernel/api/syscall.c).
--     Api/Syscall     the calls that copy arguments from user memory and call a function of the kernel,
--                     user_strdup of access.c and syscall_dispatch; the functions of the kernel are
--                     an interface (`Kern`), of which nothing is assumed: they may stop the kernel.
--                     Api/Syscall/Laws and Api/Syscall/Paths go through the copies once for all
--                     calls, Api/Syscall/Dispatch has the dispatch
--     Api/Syscall/Io  sys_read, sys_write and syscall_handler; Api/Syscall/Getdents has sys_getdents
--   Prelude: the names and helpers that the others share. The Tests of each part run the
--   operations on small concrete states.
--
-- How the state is modelled. `vmm_list` is the list of its areas in order. A function that changes it
-- returns the new list together with its effects on other parts of the kernel, in order (`Effect`):
-- references taken and given back, objects created, areas freed, the TLB and the page table. A failed
-- KASSERT or a use of a NULL pointer is `panics`, an error code is `fails`. Page numbers are 32-bit:
-- each sum and difference of the code that can wrap is `add32` or `sub32`. The scheduler is a record
-- of queues and threads by number, and `curthr`. A function that calls `sched_switch` is modelled up
-- to that call, and the switch is an operation of its own. References to files and vnodes that are
-- taken and given back are logged in order (`Call`), and a descriptor or an offset is the bit pattern
-- of an `int`; a process id is an option, with `none` for -1. What a page table holds is not modelled:
-- the calls that change it are logged. The memory of page frames and objects is one record (`Mem`); a
-- sleep on a busy page ends the round of pframe_get, which after the sleep starts again. A system call
-- has `kt_errno` and the number of blocks of kernel memory that it holds (`Sys`) beside the state of
-- the kernel.
--
-- Bounds and fuel. The loop of vmmap_remove adds areas to the list that it walks. It runs on fuel
-- of twice the number of areas plus one: each area can be split once, and the upper part starts at
-- the end of the range, so it is not split again. The loop of sched_broadcast_on gets one round for
-- each thread on the queue, of which each takes one off. The loop of _proc_getid gets one for each
-- id: it stops when it is back where it started. The loop of dir_namev gets one for each character
-- of the directory part and one more: each round takes at least one character. anon_put and
-- pframe_free call each other: fuel bounds how deep these calls nest, and two is enough. The loop
-- of pframe_clean_all gets one round for each page of the list and one more, and the loops of
-- shadow.c one for each object of the chain and one more. The loops of vmmap_read and vmmap_write get
-- one for each byte and one more: each round copies at least a byte, and so does the
-- loop of sys_getdents. A valid address space ends below page 2^31, and the offsets of its areas do
-- not wrap.
--
-- Not modelled: printing and debugging, the allocators, the context switch, stacks and the interrupt
-- level (a change of the run queue is one step), the copies of vectors of strings from user memory, the
-- registers of a new thread, the pageout daemon, the start of the page frames and the walk that removes
-- a page from page tables, the operations of the file systems and of the devices (vn_special.c), the
-- system calls execve, pipe, uname, halt, debug, kshell and those for mounting, and the boot sequence.
pub mod Prelude
pub mod Vm
pub mod Proc
pub mod Api
pub mod Fs
pub mod Mm
