-- ===== src/Lib.antt =====
-- The kernel of student-distrib/ and the programs of syscalls/ and fish/ that run on it: the state the
-- kernel keeps, its handlers and system calls, and what they guarantee. Paths are from the repository's
-- root.
--
-- Parts and files:
--   Prelude      numbers, lists, options and Boolean tests that the other modules share
--   Console      student-distrib/lib.c: `putc`, `putc2screen`, `puts`, `clear` on the three
--                terminals. `Console.Screen` is one screen, `Console.Output` picks the screen,
--                `Console.Printf` is `printf`
--   Strings      student-distrib/lib.c: `strlen`, `strncmp`, `strcpy`, `strncpy`, `strrev`, and
--                `itoa` in `Strings.Numbers`
--   FileSystem   student-distrib/filesystem.c: the read-only image in memory
--   Pic          student-distrib/i8259.c: the two interrupt controllers
--   Rtc          student-distrib/rtc.c: the clock and its rate
--   Keyboard     student-distrib/keyboard.c: key maps, buffer and keys
--   Terminal     student-distrib/terminal.c: reading lines and writing
--   Machine      student-distrib/syscall.h: the state that the parts share
--   Syscall      student-distrib/syscall.c: `read`, `write`, `open`, `close`, `getargs`
--   Process      student-distrib/syscall.c: `execute` and `halt`. `Process.Search`, `Process.Closing`
--                and `Process.Frames` have the lemmas on the process table, the descriptors and the
--                memory of the processes, `Process.Loading`, `Process.Arguments` and
--                `Process.Return` follow a program from its command line to its end
--   Idt          student-distrib/idt.c: the interrupt table, `add_irq`, the exception handlers,
--                and `init_syscall`
--   Paging       student-distrib/page.c and `vidmap`
--   Scheduling   student-distrib/pit.c, `switch_terminal`, and the keyboard handler as a whole
--   Invariant    what holds of the process table and the control blocks in every state that the
--                system calls and interrupts lead to
--   Boot         student-distrib/kernel.c: `entry`. `Boot.Segments` has the descriptors and the task
--                state segment of student-distrib/x86_desc.h, `Boot.Starts` the printing of the
--                Multiboot information, `Boot.Ready` what is initialised, `Boot.Shell` the whole way to the first process
--   User         syscalls/: the support functions, `cat`, `ls`, `shell`, `hello`, `testprint`,
--                `counter`, `grep`, `pingpong`, `sigtest` and `syserr`, over a record of system calls.
--                `User.Kernel` fills the record with the system calls of `Syscall`. `User.Emulate` is
--                syscalls/ece391emulate.c, the calls on Linux, which fish/ has a copy of
--   Fish         fish/fish.c
--   KernelTests  student-distrib/tests.c: the tests of the pages and of `terminal_write`
--   Tests        small concrete states on which the theorems are applied
--
-- How the parts meet: a system call works on a `Machine`, which holds the console, the file system,
-- the clock with the interrupt controller, the page directory and tables, the process table and
-- the process control blocks. The control block of the current process is found from the kernel
-- stack pointer, as in the source. A handler takes the state and returns the new one. Calls that
-- leave the kernel end in an `Outcome`: the call returns, a program is entered, or a parent is
-- resumed. A read that waits is a value `waits`; for the program that made the call it does not
-- come back. The programs do not know the machine: `User.Cat.Prints` and `User.Ls.Prints` say what
-- `cat` and `ls` ask of the calls, and `User.Cat.File` and `User.Ls.Entries` that the kernel gives it.
-- The same holds of `Session` of `User.Shell.Sessions`, which `User.Shell.Typed` fills, and
-- of `Output` of `User.Counter.Prints`. `User.Pingpong.Clock` fills `Animation` with the kernel's calls
-- while the clock ticks: a read of the clock then comes back behind the handler of one tick. The records of `User.Emulate` (Linux), `User.Sigtest` (signals)
-- and `Fish` (the animation) are parameters.
--
-- Faults: a result `none` is an access outside the object that is named, a call through NULL, or,
-- where fuel is passed, a loop that has not ended. Fuel: the loop of `powerOfTwo` ends within 32
-- rounds for every positive `int`; the search for the next terminal within 3 rounds; `strrev` gets
-- one round per byte, `itoa` 33 rounds, since a 32-bit value has at most 32
-- digits; `cat` needs one round more than the file has bytes, `ls` one more than the directory has
-- entries, the shell as many as lines are typed, a test of the pages as many as it reads; scans of
-- the 1026 bytes of a command line get 1026 rounds. The animation of pingpong does not end: its rounds
-- are counted. The loops of the other programs have no bound of their own, so their fuel is a parameter. The other loops are recursions on the
-- number of rounds left.
--
-- Integers are native natural numbers, with the wrap of 32-bit and 8-bit arithmetic written out
-- where the code can reach it; `int` values that may be negative are a sum type ℤ.
--
-- Not modelled: the assembly (boot, interrupt stubs, the switch of stacks in `execute`, `halt` and
-- `pit_handler`, with the stack pointers saved in a control block, the animation of fish/blink.S),
-- the loads of control, segment and task registers and the flush of the translation buffer,
-- `test_interrupts`, which nothing calls, and of student-distrib/tests.c the tests that raise an
-- exception, run assembly, or wait for a key or a tick. fish/ece391support.c and fish/ece391emulate.c
-- have the functions of the files in syscalls/. Local arrays whose contents are indeterminate hold
-- zeros. A program image of more than the 3.7 MB above 0x8048000 would be written past its page;
-- `execute` then faults in the model. A process number outside the table, which `halt` would mark behind
-- it, is none that `execute` gives out.
pub mod Prelude
pub mod Console
pub mod Strings
pub mod FileSystem
pub mod Pic
pub mod Keyboard
pub mod Terminal
pub mod Rtc
pub mod Machine
pub mod Syscall
pub mod Process
pub mod Idt
pub mod Paging
pub mod Scheduling
pub mod Tests
pub mod User
pub mod Boot
pub mod Invariant
pub mod KernelTests
pub mod Fish
