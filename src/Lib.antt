-- ===== src/Lib.antt =====
-- A model of the JOS kernel's core (an educational x86 kernel in C) and of the library that the
-- kernel and the user programs share.
--
-- The parts and how they interact. The boot loader reads the kernel from the disk and enters it. At boot the kernel reads the size of memory from the CMOS
-- registers, takes memory from a bump allocator and builds the list of free physical pages; then the
-- page allocator hands pages out and takes them back, and the page tables, which live in such pages,
-- map virtual addresses to them and count the references. Console input comes from the keyboard and
-- the serial port through one circular buffer; output goes to the serial port, the printer port and
-- the text screen. Formatted printing stands on top: one formatter with three clients. An environment (a user process) owns a
-- page directory; a trap from user mode saves its registers and, as no handler exists, destroys it: its pages go back to the
-- page allocator and the monitor runs. The monitor reads a line, splits it and calls a command; backtrace follows the
-- frame pointers and asks the debug information for the place of each.
--
-- The files:
-- - Mmu: the macros of inc/mmu.h and inc/types.h and the layout of inc/memlayout.h; `Mmu.Segments` the segment and gate descriptors.
-- - Pmap: kern/pmap.c and kern/pmap.h. `Pmap.Kernel` is the state (page structs, free list, words
--   of memory, invalidated translations) with a monad whose errors are the code's panics;
--   `Pmap.Boot` is i386_detect_memory, boot_alloc, page_init, check_page_free_list; `Pmap.Alloc`
--   is page_alloc, page_free, page_decref, check_page_alloc and the sorting of the free list;
--   `Pmap.Table` is pgdir_walk, boot_map_region, page_lookup, page_remove, page_insert, check_va2pa
--   (`Pmap.Table.Region` is what is proved of boot_map_region); `Pmap.Start` is mem_init with check_kern_pgdir, check_page and
--   check_page_installed_pgdir. A `struct PageInfo *` is the page's index; other pointers are addresses.
-- - Console: kern/console.c. `Console.Input` is cons_intr and cons_getc, `Console.Keyboard` the code
--   tables and kbd_proc_data, `Console.Screen` cga_putc and cons_putc, `Console.Setup` cons_init.
-- - Printf: lib/printfmt.c (`Printf.Number` is printnum, `Printf.Format` is vprintfmt,
--   `Printf.Sprint` is vsnprintf), kern/printf.c and lib/printf.c (`Printf.Cprintf`). A call of cprintf
--   with a fixed format, whose text is not asked for, is a `Printf.Message.PrintCall`.
-- - Base: tests on numbers, arrays as lists, `|` and `&`, signed numbers.
-- - Strings: lib/string.c. `Strings.Scan` are the functions that only read, `Strings.Copy` those that copy strings,
--   `Strings.Block` memset and memmove, `Strings.Number` strtol.
-- - Entry: kern/entrypgdir.c, the page tables that the kernel starts on.
-- - Readline: lib/readline.c.
-- - Monitor: kern/monitor.c: runcmd, mon_backtrace (`Monitor.Backtrace`), monitor and the other commands (`Monitor.Loop`).
-- - Boot: boot/main.c. The disk is an argument; which sector its controller takes from the ports that readsect writes is the
--   documented behaviour of the hardware.
-- - Trap: trapname of kern/trap.c; `Trap.Percpu` is gdt, env_init_percpu and trap_init_percpu, `Trap.Print` print_trapframe.
-- - Clock: kern/kclock.c. Init: kern/init.c, the start of the kernel and its panics.
-- - User: the stubs of lib/syscall.c, lib/console.c, lib/libmain.c, lib/exit.c, lib/panic.c.
-- - Kdebug: kern/kdebug.c. `Kdebug.Search` is stab_binsearch, `Kdebug.Info` debuginfo_eip, which the monitor's
--   mon_backtrace calls for every frame (`Monitor.Backtrace`).
-- - Env: kern/env.c, the dispatch of kern/trap.c and the calls of kern/syscall.c. `Env.State` is what the kernel keeps beside its
--   pages, with a monad over that of Pmap: a run returns, stops, or goes to the monitor. `Env.Alloc` is envid2env and env_alloc,
--   `Env.Pages` and `Env.Free` are env_free and env_destroy, `Env.Trap` is trap, page_fault_handler and the system calls.
--
-- Conventions. Machine words are natural numbers, with the wrap-around of C written out where a sum
-- or a product can leave its width. What hardware or the linker gives (CMOS registers, the symbol
-- `end`, port input, the bytes on the stack) is an argument. An assertion or panic of the code is a
-- value of its result, so that theorems say when it does not happen.
--
-- Fuel. printnum recurses on 64 rounds: a 64-bit number has no more digits in a base of at least 2.
-- vprintfmt recurses on one round more than its format is long: every round takes a character of it.
-- readseg recurses on one round more than there can be sectors, the splitting of a command line on one more
-- than its length. All other loops are structural.
--
-- stab_binsearch runs two rounds for each index and two more, which is enough for every table. The walk of mon_backtrace and
-- the loops of the checks over the free list take their fuel as an argument: the theorems ask for more than the length of the chain.
--
-- Not modelled: what is empty in this tree (the body of env_init, region_alloc, load_icode, env_create) and env_pop_tf, which is
-- assembly; the instructions of inc/x86.h, the assembly files, and the user programs, which only
-- call the parts above. i386_init clears all data of the kernel: only the variables of kern/pmap.c are in its model.
pub mod Base
pub mod Mmu
pub mod Pmap
pub mod Console
pub mod Printf
pub mod Strings
pub mod Entry
pub mod Readline
pub mod Monitor
pub mod Trap
pub mod Boot
pub mod Kdebug
pub mod Env
pub mod Clock
pub mod Init
pub mod User
