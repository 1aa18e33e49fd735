-- ===== src/Lib.antt =====
-- AlexOS, a RISC-V kernel with Sv39 paging, preemptive scheduling and user processes: a model of
-- its core, and what holds of it.
--
-- The parts, and how they interact. Physical frames come from the buddy allocator; page tables,
-- the kernel heap and the regions of an address space take them from it. The loader builds an
-- address space from a program image, the process code puts arguments on its stack and moves its
-- break. The scheduler runs tasks on each hart through an idle context; traps and the timer call
-- into it, and so do the wait queues. System calls copy from and to user memory through the page
-- tables.
--
--   Base         numbers, lists, 64-bit words, boolean tests, shared by all
--   Mm/Addr      kernel/src/mm/addr.rs, kernel/src/config.rs: addresses and page numbers
--   Mm/Frame     kernel/src/mm/frame.rs: BuddyAllocator; Mm/Frame/Owned has the zeroed and owned frames
--   Mm/PageTable kernel/src/mm/page_table.rs: entries, walks, map, unmap, protect, translate, and the
--                frame source, which Mm/PageTable/Buddy fills with the allocator
--   Mm/Heap      kernel/src/mm/heap.rs: the size-class heap
--   Mm/Space     kernel/src/mm/space.rs: regions, copies from and to user memory; Mm/Space/Build has
--                write_data, unmap_from, duplicate, the drop and init_kernel_space
--   Drivers/Uart kernel/src/drivers/uart.rs: the receive ring and its interrupt handler
--   Drivers/Plic kernel/src/drivers/plic.rs: the registers that init writes, the claim and complete loop
--   Task         kernel/src/task/mod.rs: task records
--   Task/Scheduler kernel/src/task/scheduler.rs: feedback queue, wakeups, the idle loop
--   Task/Process kernel/src/task/process.rs: program break, argument layout; Task/Process/Image
--                has new_user, fork_from and exec_current
--   Task/Exit    kernel/src/task/scheduler.rs and process.rs: exit_current and on_exit
--   Task/Stack   kernel/src/task/context.rs: contexts and kernel stacks
--   Loader       kernel/src/loader.rs: the ELF loader
--   Trap         kernel/src/trap/mod.rs, kernel/src/trap/context.rs, kernel/src/timer.rs, and the bits
--                of sstatus of kernel/src/arch.rs; Trap/Handlers has the handlers of both modes
--   Sync/Spin    kernel/src/sync/spin.rs: the spin lock as steps of the harts
--   Sync/Wait    kernel/src/sync/wait.rs: wait queues, mutex, semaphore; Sync/Parking has the mutex as
--                steps of the tasks
--   Syscall      kernel/src/syscall/mod.rs, abi/syscall.rs: the call table and its checks, read,
--                write, fork, exec, waitpid, sbrk
--   User/Line    user/src/lib.rs: read_line
--   User/Args    user/src/lib.rs: the argument vector
--   User/Shell   user/src/bin/sh.rs: from a line to the command
--
-- Functions keep the names of the source; a method takes the state and returns it. `usize` is a
-- native number, and an operation that the build's overflow checks guard returns `Run`, whose
-- other value is a panic of the kernel; frame numbers, far below 2^64, are added plainly. A
-- pointer is its address, an `Arc` the name of the shared task, and memory a function from
-- places to contents: the nodes of free blocks, the raw entries of page tables, the links of
-- heap blocks. A switch of stacks ends one function and starts the next, so that the idle loop
-- is its round, `idle_turn`.
--
-- Loops over counters are structural recursion. `find_donor` and `coalesce` run for as many
-- rounds as there are orders left, `seed` for as many as there are frames, each of which
-- advances the index by a frame at least, and `bit_length` for the 64 digits of a word. The copies
-- from and to user memory and `write_data` run for as many rounds as there are bytes, each of which
-- moves one at least; `split` of the shell for one round more than the line has bytes, and its
-- `cstr_at` for one byte more than the buffer has.
--
-- Not modelled: control registers, firmware calls, assembly, devices beyond the bytes that they
-- receive and send, output, the rest of the user library (the stubs of the system calls, the
-- allocator, formatted output), the demonstration programs, and memory orderings weaker than
-- sequential consistency. The check of the stack canary at a switch, the panics of the space operations
-- that the process code calls, and the overflow of `to_virt` in the copies, for frames from 2^38 on, are
-- left out. The scheduler is that of one hart; the spin lock is that of all harts, and
-- the parking mutex that of tasks in any order.
pub mod Base
pub mod Mm
pub mod Drivers
pub mod Task
pub mod Loader
pub mod Trap
pub mod Sync
pub mod Syscall
pub mod User
