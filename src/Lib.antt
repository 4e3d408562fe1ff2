-- ===== src/Lib.antt =====
-- The scepter kernel: a verification library for the parts of it that keep their own state.
--
-- Arch models the address constants of arch/i386/include/arch/paging.h and
-- arch/x86_64/include/arch/paging.h; every definition that depends on them takes the
-- architecture as its first argument.
--
-- Mm.Bitmap and Mm.Buddy model mm/buddy.c. `Allocator` is `page_allocator_t`, and the functions
-- have the names of the code: `buddy_init`, `page_alloc_flags`, `page_free`.
--
-- Fs.Pipe models fs/pipe.c. `pipe_read` and `pipe_write` are loops that may sleep: `read_round`
-- and `write_round` are one turn of the loop, `read_run` and `write_run` the turns until the call
-- returns or sleeps. Interrupts are off in a system call, so nothing runs between two sleeps, and
-- an interleaving is a list of rounds (Fs.Pipe.Stream). The fuel of a run is the number of its
-- rounds; two are enough.
--
-- Fs.Locks models fs/locks.c: flock() in the module itself, fcntl() in Fs.Locks.Records. A call is
-- cut at its sleeps, into turns of its loop. What fstat of a file system says is a parameter.
--
-- Fs.Vfs models the core of fs/vfs.c. Fs.Vfs.Path is `resolve_path`: a string is a list of bytes,
-- what is written to `out` is kept with its last byte first, and the loop over the components has
-- a fuel of one more than the bytes of the path. Fs.Vfs.Mounts is the mount table, with the answers
-- of the drivers as parameters, Fs.Vfs.Cwd the working directory and the root of a task, and
-- Fs.Vfs.Files the descriptors of a task with the reference counts of the open files behind them.
-- A descriptor number is an int of 32 bits, kept as its pattern of bits.
-- The search for a free number has a fuel of one more than the descriptors. Reads, writes and the
-- calls that only hand a path to a driver are not modelled, nor is `fs_open`.
--
-- Kernel models the tasks of include/kernel/sched.h, and Kernel.Sched the choice of the next task
-- and the wait queues of kernel/sched.c. The list of tasks is a list in the order of `task_list`,
-- a pointer to a task is its pid, which is unique, and all wait queues are one list of entries,
-- each with its queue. A switch of stacks and page tables has no part in the model: `schedule`
-- ends when the next task has the CPU.
--
-- Kernel.Signal models kernel/signal.c: Action the calls that install handlers and change masks,
-- Send the sending of signals, Deliver `do_signal` and `sys_sigreturn`. A task is stopped and
-- resumed in the middle of `do_signal`: `do_signal` ends with a verdict, and `do_signal_resume` is
-- the rest of the call. Whether the user's stack can be written is a parameter.
--
-- Kernel.Kmsg models kernel/kmsg.c: the ring of log bytes, which `Kmsg.Ring.contents` reads as a
-- list. The loops over the ring have its size as fuel, which is one more than the bytes in it.
--
-- Kernel.Timer models `timer_tick` of kernel/sched.c: one `Timer` for each of the three kinds.
--
-- Net models net/: Net.Checksum and Net.Proto are net/proto.c, with a fuel of four for the loop
-- that folds a sum of 32 bits, and Net.Core is net/net.c, one interface with the packets of the
-- pool that are free; the queues of the others are a number. A reply of the protocol layer is a
-- result, which `net_rx` hands to `net_transmit`; the loopback interface, whose transmit comes back to
-- `net_rx`, is left out.
--
-- Driver.Cache models driver/block/cache.c. The device is a parameter that says which blocks it
-- accepts, and the disk the list of the writes that it accepted.
--
-- Mm.Vma models mm/vma.c. The search for a free region has fuel for each page of a 32-bit address
-- space, which is more than the candidates below the end of the mmap area.
--
-- Mm.Vmalloc models mm/vmalloc.c; `maps` says which pages can be mapped.
--
-- Base has the shared types and tactics, lists measured by native numbers, the bits of a word,
-- and signed integers. Tests has concrete runs.
--
-- Messages to the console, calls with a null pointer, and what only hardware sees are not
-- modelled.
pub mod Arch
pub mod Base
pub mod Driver
pub mod Fs
pub mod Kernel
pub mod Mm
pub mod Net
pub mod Tests
