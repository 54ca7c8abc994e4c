-- ===== src/Lib.antt =====
-- A verification library of the kernel in student-distrib: a small operating system for the 80386 with
-- three terminals, preemptive scheduling, a read-only file system, and processes that start each
-- other. User programs call it through the functions of system_call.c; interrupts call the handlers of
-- the timer (pit.c), the keyboard (keyboard.c) and the clock (rtc.c); everything that is printed goes
-- through `putc` of lib.c, to the screen or to the page of a terminal in the background.
--
-- The files, from the bottom up:
--   Base: the names, tests, arrays, signed integers and bit masks that all the others share.
--   Pic: student-distrib/i8259.c. The two masks are the state; each function also returns the port
--     writes that it makes, in order.
--   Rtc: student-distrib/rtc.c. What `inb` reads is an argument; a wait reads a schedule of flags.
--   CString: `strlen`, `strncmp`, `strcpy`, `strncpy`, `strrev` and `itoa` of
--     student-distrib/lib.c.
--   Memory: `memset`, `memset_word`, `memset_dword`, `memcpy` and `memmove` of student-distrib/lib.c, from
--     their assembly text.
--   FileSys: student-distrib/file_sys.c and file_sys.h, on the bytes of the image.
--   Console: `putc`, `clear`, `delete` and the cursor of student-distrib/lib.c, `swap_vid_mem` and
--     `swap_kb_cursor` of keyboard.c, and `terminal_t` of pcb.h.
--   Kernel: the state that the rest shares, which is pcb.h and the globals of system_call.c, keyboard.c,
--     paging.c and pit.c. A pointer to a process control block is the number of its slot.
--   Process: `execute`, `halt`, `close`, `parse`, `isExe`, `init_pcb` and `find_pid` of
--     student-distrib/system_call.c.
--   Syscall: `open`, `read`, `write` and `getargs` of system_call.c, `terminal_read` and
--     `terminal_write` of keyboard.c.
--   Print: `puts` and `printf` of student-distrib/lib.c, as steps of the kernel.
--   Exception: student-distrib/exception_handler.c. A handler prints and calls `halt`.
--   Idt: student-distrib/idt.c, with the gates of x86_desc.h. The handlers' addresses are an argument.
--   Scheduler: student-distrib/pit.c and paging.c, `vidmap` of system_call.c, `terminal_switch` of
--     keyboard.c.
--   Keyboard: the handler, the key maps and the initialisation of student-distrib/keyboard.c.
--   Segments: the descriptors of the local table and of the task in student-distrib/x86_desc.h, and how
--     `entry` of kernel.c fills them.
--   Boot: the initialisers that `entry` of student-distrib/kernel.c calls.
--   System: all of these together. System/Runs lists what can happen after the boot, in any order but
--     one thing after the other, and the modules beside it follow the processes through it as three
--     stacks of callers, one for each terminal.
--   User: syscalls/ece391support.c, and the programs cat, grep, ls, hello, testprint, counter,
--     shell, syserr and pingpong of syscalls, over a record of the system calls. User/View is what
--     cat needs of an open file, User/KernelView the kernel's own calls as such a file, and
--     User/SysErr the tests that the calls come with, run on the kernel's own calls.
-- The modules below each of these hold its theorems; a module Tests holds runs at concrete inputs, and
-- a module Sample the data for them.
--
-- Conventions. Memory is a function from addresses to bytes, and an array a function from indices.
-- Machine words are natural numbers with their wrap-around written out; `int32_t` is an integer where it
-- can be negative. A NULL pointer is `none`, and so is a fault such as the use of a NULL process. Code
-- that does not return, such as the jump into a program, ends the model of the call with the state that
-- it has then: `execute` ends with `started`, `halt` with what `execute` returns to the parent.
--
-- Fuel. `strlen`, `strcpy`, `strrev`, `puts`, `printf` and the loops of `parse` run until a NUL, so
-- they take fuel; the length of the string and one more is enough. `itoa` needs as much as the
-- number has digits and one more, and the loop of cat at most as many rounds as it reads bytes and
-- one more. pingpong does not end, and its model runs a given number of rounds. The other loops
-- count down the rounds that the source allows them. `rtc_read` takes the flag as each test of it
-- sees it, and `read` takes the kernel's change while a handler waits for an interrupt.
--
-- Order. In System/Runs each call, exception, tick and key is handled to its end before the next
-- comes, but for a read that waits and for a write, which lets others come between its characters. The
-- source leaves interrupts on in `halt` and `open` too; runs with a tick inside them are not considered,
-- and neither are those with a fault.
--
-- Not modelled: what `read_data` prints at a block that the file system does not have, the pointer to
-- the argument in the frame of `execute` (the model keeps the argument), what kernel.c prints of the
-- boot information, boot.S, x86_desc.S and the assembly wrappers, which are data and register saving,
-- the kernel's own tests, the program sigtest of syscalls, and the demo in fish. The user programs
-- come with a second file of calls, ece391emulate.c, that runs them on Linux; it is not modelled
-- either.
pub mod Base
pub mod Idt
pub mod Pic
pub mod Rtc
pub mod CString
pub mod FileSys
pub mod Memory
pub mod Console
pub mod Kernel
pub mod Segments
pub mod Print
pub mod Process
pub mod Exception
pub mod Syscall
pub mod Boot
pub mod System
pub mod User
pub mod Scheduler
pub mod Keyboard
