-- ===== src/Lib.antt =====
-- A verification library for a teaching kernel: its boot loader, its start, its string and formatting
-- libraries, its console, its monitor with the line editor, its debugging tables, and the page tables
-- and descriptors that the processor reads. All of it runs on a 32-bit x86.
--
-- The parts, and the files that model them:
--
-- - lib/string.c: Memory is memory as a function from addresses to bytes, and what it means that a
--   string stands in it. Strings has the routines that read and copy strings (strlen to memcmp,
--   memfind), Strings.Block the block routines memset, memmove and memcpy with the `rep` instructions
--   that they are made of, Strings.Block.Plain the two in C that the build leaves out, and
--   Strings.Strtol strtol. Under them: Strings.Lengths, Strings.Copying, Strings.Comparing,
--   Strings.Block.Fill, Strings.Block.Move, Strings.Block.Plain.Same and Strings.Strtol.Digits with the
--   proofs.
-- - lib/printfmt.c: Printfmt has the conversions' parts (printnum, getuint, getint, the flags, the
--   string conversion), Printfmt.Format vprintfmt and printfmt over any `putch`, Printfmt.Buffer the
--   `putch` of vsnprintf. Printfmt.Number and Printfmt.Digits are about numerals, Printfmt.Scanning,
--   Printfmt.Progress and Printfmt.Total about termination, Printfmt.Invariant about what every call of
--   `putch` keeps, Printfmt.Collecting about runs of printfmt on two callers' states, and
--   Printfmt.Buffer.Bounded about the buffer of vsnprintf. Printfmt.Pieces describes
--   formats as lists of pieces and what they stand for; Printfmt.Rendering, Printfmt.Rendering.Switch
--   and Printfmt.Rendering.Text are about printfmt on them, Printfmt.Buffer.Text about snprintf on them,
--   and Printfmt.Buffer.Decimal about a number that snprintf writes and strtol reads.
-- - kern/printf.c: Printf is cprintf, printfmt on the console; Printf.Text says what it writes and
--   returns.
-- - kern/console.c: Console has the state and the output (serial_putc, lpt_putc, cga_putc, cons_putc),
--   Console.Scancodes the tables, Console.Keyboard kbd_proc_data and serial_proc_data, Console.Ring the
--   input ring (cons_intr, cons_getc, getchar), Console.Init cga_init, cons_init and the console as the
--   interface that readline and the monitor print on. Console.Screen, Console.Ring.Queue, Console.Shift
--   and Console.Init.Cursor have the proofs. Console.Ring.Line says what it relies on of a serial line
--   on which characters wait, Console.Ring.Drain and Console.Ring.Getchar follow them through the ring
--   to getchar, and Console.Ring.Typing fills the interface of the line editor with the console.
--   The display's memory is a list in the console's state, apart from the memory of the rest, and is
--   taken from the world when the console starts.
-- - kern/kdebug.c: Kdebug is stab_binsearch. Kdebug.Scan is about its downward scans, Kdebug.Step about
--   one round of its loop, Kdebug.Ways about each way through a round, Kdebug.Looping about the loop,
--   Kdebug.Correct about all of it. Kdebug.Debuginfo is debuginfo_eip; Kdebug.Debuginfo.Loops and
--   Kdebug.Debuginfo.Parts are about its parts, Kdebug.Debuginfo.Entries about what it tells of a stab,
--   and Kdebug.Debuginfo.Outcome about the whole.
-- - lib/readline.c: Readline, with Readline.Editing for the line that the keys leave and what it asks of
--   a terminal. Its record Terminal is the console as readline, the monitor and kern/init.c see it.
-- - kern/monitor.c: Monitor has the splitting of the line, the command table, the commands and the loop.
--   Monitor.Words says what the words of a line are, Monitor.Stepping, Monitor.Rounds and
--   Monitor.Splitting are about the splitting, Monitor.Dispatch about the command that runs,
--   Monitor.Forever about the loop; Monitor.Typed and Monitor.Session follow a line that is typed
--   through one round of it, and Monitor.Serial one that comes over the serial port.
-- - kern/init.c: Init is i386_init, test_backtrace, _panic and _warn, Init.Order what they print. The
--   console's statics are a record of their own, and clearing the BSS clears them beside the memory.
-- - boot/main.c and inc/elf.h: Boot is the loader from waitdisk to bootmain. Boot.Disk says what it
--   relies on of the drive and is about one sector, Boot.Segment about readseg, Boot.Kernel about
--   bootmain.
-- - inc/x86.h: X86 has its functions, on a processor whose instructions are a parameter. X86.Transfer is
--   about what insl and its like put into memory, X86.Loading about the boot loader on these functions.
-- - inc/types.h: Types is ROUNDDOWN and ROUNDUP.
-- - inc/mmu.h, the descriptors: Segments has SEG, SEG16, SETGATE, SETCALLGATE and their packed bytes,
--   Segments.Hardware what the processor reads from them. Segments.Assembly has the macros for assembly
--   files.
-- - kern/entrypgdir.c and the address macros of inc/mmu.h: Paging, with Paging.Table for the 1024
--   addresses of entry_pgtable and Paging.Walk for what the page tables map.
--
-- Prelude and its children have what all share: tests, lists on native numbers, 32-bit words, bits,
-- and the result type Run of code that may fault. cprintf calls vprintfmt with a `putch` that calls
-- cons_putc; vsnprintf calls it with one that writes memory; kbd_proc_data calls cprintf. i386_init
-- and _panic end in monitor, which calls readline for a line and runs it; debuginfo_eip calls
-- stab_binsearch and strfind.
--
-- How the code is read. An `int` is its 32-bit pattern, and additions and subtractions that may wrap
-- are written with the wrap-around. Addresses are numbers, and objects do not wrap round the address
-- space. A routine that writes returns the new memory or the new state. What lies behind a port is a
-- parameter: `inb` answers a byte from the world and may change it, `outb` changes it. The variable
-- arguments of a format are the list of their 32-bit words, and the string at an address that a %s
-- takes is a parameter.
--
-- Fuel. A loop that only a terminator stops takes fuel, and has no result when it runs out: the
-- theorems about it ask for more fuel than the string has bytes. vprintfmt takes the length of the
-- format plus ten, which leaves room for the two formats that %e hands on. The scans of stab_binsearch
-- take the number of stabs plus two, and its loop twice that number plus four, since each round but
-- one shrinks the region. A tab calls cons_putc for spaces, which call nothing more, so that two
-- levels of cons_putc are all there are. The loops that wait for a device to have data (cons_intr,
-- getchar) take fuel from the caller; 512 is enough for the 511 characters that the ring holds. The
-- memset without ASM takes its size plus one. waitdisk takes fuel from the caller, more than the polls
-- for which the drive is busy; readseg has a round for each sector of its count and two more. readline
-- takes more fuel than the keys up to Enter, runcmd more than the line has bytes. The loops of
-- debuginfo_eip take the number of stabs plus two. test_backtrace takes more fuel than its depth. The
-- loops of monitor and of the calls of it do not end, and take fuel from the caller.
--
-- Not modelled: the assembly files; the instructions behind inc/x86.h, which are parameters;
-- interrupts, and with them the cli of _panic; the task state of inc/mmu.h and the parts of
-- inc/memlayout.h that this kernel does not use. The line search of debuginfo_eip and the backtrace
-- are empty in the source, and so in the model.
pub mod Boot
pub mod Console
pub mod Init
pub mod Kdebug
pub mod Memory
pub mod Monitor
pub mod Paging
pub mod Prelude
pub mod Printf
pub mod Printfmt
pub mod Readline
pub mod Segments
pub mod Strings
pub mod Types
pub mod X86
