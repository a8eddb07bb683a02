-- ===== src/Lib.antt =====
-- A model of the kernel in myLinuxOS/student-distrib, and what its parts do.
--
-- The kernel boots, fills its page tables and the interrupt controllers, and runs programs that call
-- it through a descriptor array: a descriptor leads to the terminal, to the real-time clock or to the
-- read-only file system. The parts, and the files that model them:
--
-- - Common: what the components share. Lists with C's bounds written out, memory as a function from
--   addresses to bytes (Memory), signed C integers (Int), Boolean tests (Tests), and a check of all
--   numbers below a bound (Table).
-- - Str: the string functions of lib.c. A buffer is the list of its bytes; a function reads or writes
--   past its end with the result `none`.
-- - Screen: the text screen of lib.c: `clear`, `scroll`, `putc`, `puts`, `backspace` and the cursor,
--   on the whole of memory. Screen/Cells has the view of it as 25 rows of 80 characters.
-- - Io: the port accesses of lib.h as a log, newest first, and the interrupt flag. What a device
--   answers is an argument of the function that reads it.
-- - Pic: i8259.c. Pic/Lines has the view of the controllers as sixteen lines that are let through or
--   masked, Pic/Chip the controller that the bytes written to its ports set up.
-- - Rtc: rtc.c, and `init_scheduler` of scheduler.c. Rtc/Frequency has the divider rates.
-- - Paging: paging.c. Paging/Translate is the processor's address translation, as the reference the
--   tables are read by: a 4 KB page through a table, a 4 MB page without one, the user bit in both.
-- - Pcb: the process control block of syscall.h.
-- - FileSys: filesys.c on an image in memory. FileSys/Data has the bytes of a file by their index,
--   FileSys/Names the entry that a name stands for.
-- - Descriptors: `syscall_open`, `syscall_close` and `syscall_getargs` of syscall.c, on a control block.
--   Opening looks a name up through FileSys, which compares through Str; closing calls the drivers.
-- - Terminal: terminal.c and the state of keyboard.c: writes and reads of lines, and the exchange of
--   the screen with the saved screens of the other terminals, through Screen. A swap to a terminal
--   that has no shell ends in the request to start one.
-- - Paging/Virtual: a store of the kernel through its page tables; Paging/Store what it leaves in memory.
-- - Keys: keyboard.c: the interrupt on the state that Terminal declares, by scancode: flags, the line
--   buffer, echo and backspace through Screen, and the switch of terminals.
-- - Input: `terminal_read` of terminal.c as a whole, with the keyboard's interrupts during its wait.
--   Input/Interrupts has single interrupts, Input/Typing a word that is typed during a read.
-- - Kernel: all globals as one record, and the calls of syscall.c that go through a descriptor of the
--   calling process: `syscall_read`, `syscall_write`, `syscall_vidmap`. Kernel/Dispatch reads an open
--   file, Kernel/Refusals the calls on descriptors that are closed or do not exist.
-- - Command: the command line in `syscall_execute`. Command/Words has command lines by their words.
-- - Process: `syscall_execute` and `syscall_halt`. `flush_tlb` has no effect in them, as addresses are
--   translated by the tables as they are. A context switch is a result: the entry of a program,
--   or the frame of a `syscall_execute` that goes on. Process/Claim has the process number and the
--   control block, Process/Image the program's file, Process/Load a start that succeeds, Process/Start
--   one that fails, Process/Leave a start and the end of the program.
-- - Printf: `printf` of lib.c, as a scan of the format with its arguments in a list. Printf/Pieces has
--   formats by their pieces, Printf/Numbers the numerals, Printf/Shown what a format shows.
-- - Exceptions: exceptions.c, through Printf and Process.
-- - Boot: `init_terminal` of terminal.c, which ends in the first call of `syscall_execute`.
-- - Segments: the segment descriptors that kernel.c constructs. Segments/Decode is the processor's
--   reading of one.
-- - Idt: idt.c with the table of x86_desc.h. Idt/Deliver is the processor's reading of a gate.
-- - Support: the functions of myLinuxOS/syscalls/ece391support.c, which programs link.
--   Support/Compare and Support/Number have them against the kernel's.
-- - Programs: programs of myLinuxOS/syscalls as clients of a record of the system calls, `System`.
--   Programs/OnKernel fills that record with the kernel's calls, with the wrappers of ece391syscall.S and
--   the dispatch of assembly_linkage.S in between; what the hardware does during a call, and the run of
--   a program that `ece391_execute` enters, are arguments. Programs/Syserr is ece391syserr.c, with Passes
--   on the kernel; Programs/Cat is ece391cat.c, with Copies on any system and OnKernel on the kernel;
--   Programs/Ls is ece391ls.c, on the kernel too; Programs/Shell is ece391shell.c, with Session as its
--   user's view of it on any system and OnKernel for the lines it reads from the keyboard;
--   Programs/Counter is ece391counter.c, Programs/Hello the two programs that greet, and
--   Programs/Grep ece391grep.c, with Matches on where a text stands in a line.
--   The rounds of a program's loop without a bound are an argument, and enough of them are given.
--
-- Integers: a natural number stands for an unsigned value, with `% 2 ^ 32` where the code can wrap; an
-- `int32_t` is an integer. A loop with a fixed bound is a recursion over the number of its rounds,
-- and `itoa` recurses along its buffer, where 33 bytes are enough for every 32-bit value. The wait in
-- `read_rtc` runs over a list of turns, each with or without an interrupt of the clock: it has no
-- bound of its own, and its result is `none` while it waits. `none` as a result of a call stands for
-- an access outside an array or a call of a null pointer.
--
-- In a start of a program, the file is read as a whole before it is stored in the page of the program,
-- which lies behind the kernel's own pages, where the file system image is. The bytes of uninitialised
-- buffers, the answers of devices and the keys that come in during a wait are arguments.
--
-- Not modelled: the rest of start-up in kernel.c and the tests of the kernel, its assembly files but for
-- the dispatch of the system calls, the programs ece391pingpong.c and ece391sigtest.c, and the
-- emulation of the calls on Linux (ece391emulate.c and fish).
pub mod Common
pub mod Str
pub mod Pcb
pub mod Io
pub mod Pic
pub mod Rtc
pub mod Paging
pub mod Screen
pub mod Descriptors
pub mod Terminal
pub mod Keys
pub mod Input
pub mod Kernel
pub mod Command
pub mod Printf
pub mod Boot
pub mod Support
pub mod Programs
pub mod Idt
pub mod Segments
pub mod Exceptions
pub mod Process
pub mod FileSys
