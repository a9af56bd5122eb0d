-- ===== src/Lib.antt =====
-- A model of the instructional operating system Nachos as this repository has it (C++, under
-- "Project 2/code"), with theorems about its kernel.
--
-- The parts, and where they are modelled:
-- * userprog/bitmap.cc, an array of bits in 32-bit words: BitMap. `mark`, `clear`, `test`, `find` and
--   `num_clear` are Mark, Clear, Test, Find and NumClear; BitMap/Members sees the bits as a set.
-- * class Table of userprog/addrspace.cc, numbered slots over a bit map: Table, with its laws as a
--   finite map in Table/Laws.
-- * threads/list.cc, lists of elements that point to their successors: LinkedList, over a heap;
--   LinkedList/Chains says which sequence a list stands for. The other parts use sequences.
-- * threads/thread.cc and threads/scheduler.cc, the switch from thread to thread: Kernel. The record
--   `Kernel` holds the scheduler's ready list, the interrupt level, each thread's status and all
--   synchronisation objects; Kernel/Places counts where a thread stands.
-- * threads/synch.cc, semaphores, locks and condition variables: Synch and its children.
-- * the system calls of userprog/exception.cc on the tables of locks and condition variables:
--   Syscall and its children.
-- * machine/translate.cc, the memory of user programs behind a page table or a TLB: Memory. `translate`,
--   `read_mem` and `write_mem` are Translate, ReadMem and WriteMem; an exception is a result.
-- * machine/mipssim.cc, the processor: Decode is Instruction::Decode, Multiply is Mult, Alu holds what the
--   instructions compute, and Cpu with its children is OneInstruction. What the kernel does with an
--   exception is not part of an instruction; Cpu/Calls has the end of ExceptionHandler.
-- * machine/interrupt.cc, the pending interrupts and the clock: Interrupt, with machine/timer.cc in
--   Interrupt/Timer. `one_tick`, `check_if_due` and `schedule` are OneTick, CheckIfDue and Schedule.
-- * userprog/addrspace.cc, the page table and the program of a process: AddrSpace. `new_addr_space` is the
--   constructor, over BitMap, OpenFile and Memory.
-- * the system calls of userprog/exception.cc on processes: Process. `exec_process`, `fork_thread` and
--   `exit_thread` are Exec_Syscall, Fork_Syscall and Exit_Syscall.
-- * filesys/filehdr.cc, the header of a file over the map of free sectors: FileHeader. `allocate`,
--   `deallocate` and `byte_to_sector` are Allocate, Deallocate and ByteToSector.
-- * filesys/directory.cc, the table of file names: Directory. `find`, `add` and `remove` are Find, Add and
--   Remove; Directory/Laws sees the table as a finite map.
-- * filesys/openfile.cc, reads and writes of a file through whole sectors: OpenFile. `read_at` and `write_at`
--   are ReadAt and WriteAt.
-- * filesys/filesys.cc, files by name: FileSystem. `create`, `open_file` and `remove` are Create, Open and
--   Remove; FileSystem/Consistent says when a disk is in order.
-- * the system calls of userprog/exception.cc on files: FileCalls, over Memory, Table, FileSystem and OpenFile.
--   `copyin`, `copyout`, `open_call`, `write_call`, `read_call` and `close_call` are copyin, copyout,
--   Open_Syscall, Write_Syscall, Read_Syscall and Close_Syscall.
-- * machine/disk.cc, the time that a disk request takes: Disk. `compute_latency` is ComputeLatency, with the
--   times cut down to an int as there.
-- * threads/threadtest.cc, the simulation of an airport that runs on the kernel: Airport. Its functions are
--   what a passenger, liaison, check-in officer, cargo handler or manager does between two switches;
--   Airport/Day puts them in any order and has `end_of_day`, which is EndOfDay.
-- Prelude holds the shared names and lemmas on lists, counts, integers and bits, and the result type
-- `Outcome` for code that may end in a failed ASSERT or a bad pointer. Examples applies the theorems at
-- concrete states.
--
-- How the parts interact: a system call acquires the lock of its table, looks its entry up, calls the
-- lock or condition variable, and may sleep in the middle. A call that sleeps leaves the rest of its body
-- on the thread's kernel stack, a list of frames, and Scheduler::Run goes on with another thread. `step`
-- carries out one frame of the current thread, and Syscall/Run lets frames, new calls on locks and condition
-- variables, Yield and the ticks of the machine interleave in any order; a tick may switch threads after a
-- user instruction and, in the kernel, where interrupts are on. Interrupt handlers that wake a thread of an
-- idle machine are not part of these executions, and neither are the calls on processes and files. Each
-- operation of threads/synch.cc runs with interrupts off and is one step, up to its first sleep; the loop of
-- Broadcast takes a step for each test and each Signal.
--
-- Numbers: an `int` argument that may be negative is a ℤ, the words of a bit map are natural numbers of
-- which the digits below 32 are used, the machine words of Memory are their 32 bits as a natural number,
-- and the result -1 is `none`, or the ℤ -1 where Directory returns a sector. Counted loops recur on the
-- rounds left or on the table; the loop of Condition::Broadcast is a frame that pushes itself again, so no
-- fuel is involved. The loops of LinkedList and of Interrupt take the rounds allowed: as many as the list has
-- elements, or one more than events are due, are enough.
--
-- Not modelled: host stacks, the deletion of finished threads, the formatting of a disk and the bytes of a
-- header or directory on it, the devices besides the times of the disk, what is printed and the start-up,
-- which are calls of the host; the network with threads/synchlist.cc, which sends through host sockets; the
-- tools for object files under bin, which run on the host; the locks and condition variables of the airport,
-- most of its screening, and the test suites. The clock of Interrupt is not connected to the frames of the
-- kernel: in Syscall/Run any of the ticks that are possible may be the one at which the timer switches
-- threads.
pub mod Prelude
pub mod BitMap
pub mod Table
pub mod Kernel
pub mod Synch
pub mod Syscall
pub mod Memory
pub mod FileHeader
pub mod Directory
pub mod Disk
pub mod Interrupt
pub mod Multiply
pub mod Decode
pub mod Alu
pub mod Cpu
pub mod OpenFile
pub mod FileSystem
pub mod LinkedList
pub mod AddrSpace
pub mod Process
pub mod Airport
pub mod FileCalls
mod Examples
