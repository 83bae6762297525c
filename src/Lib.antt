-- ===== src/Lib.antt =====
-- os_lab: a model of the teaching kernel of this repository, with theorems about it.
--
-- The kernel's parts stand on one another as follows. Pages of physical memory come from the
-- first-fit allocator (kern/mm/default_pmm.c), whose free list is a circular list of libs/list.h
-- threaded through the page array. Address spaces (kern/mm/vmm.c) and processes
-- (kern/process/proc.c) keep their members in lists of the same kind, processes in a hash table
-- besides. The scheduler (kern/schedule/sched.c) walks the list of processes and hands the
-- processor over.
--
-- Links models libs/list.h over a store of `prev` and `next` pointers; Links.Chain says what it is
-- for pointers to form a list, and Links.Ring is what the other parts use of it: the effect of
-- each operation on the sequence of entries. Atomic models the bit operations of libs/atomic.h.
-- Pmm models the allocator: Pmm.Blocks is its abstract view, a sequence of blocks, and Pmm.Safety
-- is about any sequence of its calls. Vmm models the virtual memory areas. Paging models the page
-- tables (kern/mm/pmm.c, pmm.h, mmu.h): Paging.Address the macros, Paging.Walk get_pte,
-- Paging.Insert the mapping of pages, Paging.Items the runs of entries; it calls the allocator of
-- Pmm. Boot models the start of memory management in kern/mm/pmm.c: page_init, which asks Dtb for
-- the memory and hands what is free to Pmm, and boot_map_segment. Dtb models the reader of the
-- device tree (kern/driver/dtb.c) over a memory of bytes: Dtb.Words the byte order, Dtb.Tree the
-- tree as a sequence of tokens. Slob models kmalloc and kfree (kern/mm/kmalloc.c): Slob.Circle
-- says what it is for blocks to form its free list, Slob.Release is about slob_free, Slob.Alloc
-- about slob_alloc, Slob.Order the sizes and Slob.Big the big blocks. CString models libs/string.c
-- over a memory of bytes, CString.Number its strtol. Print models libs/printfmt.c: Print.Escape
-- reads the flags of a conversion, Print.Digits is about printnum, Print.Buffer about vsnprintf,
-- Print.RoundTrip joins it with strtol. Proc models processes: Proc.Pid the allocator of process
-- numbers, Proc.Hash the table, Proc.Fork do_fork (Proc.Fork.Enter its end), Proc.Init proc_init, Proc.Switch the scheduler
-- and the switch, Proc.Switch.Turns repeated calls of the scheduler. Trap models the dispatch of
-- traps and the clock (kern/trap/trap.c, kern/driver/clock.c). Readline models the line editor
-- (kern/libs/readline.c), Monitor the parser of command lines (kern/debug/kmonitor.c). Tests holds
-- each theorem at a concrete state.
--
-- A function keeps its name. A function that can panic, by `assert` or otherwise, or that loops,
-- returns a `Run`: a result, a panic, `spin` where the fuel of a loop is used up, or `fault` where
-- an `int` of vprintfmt overflows. Every theorem
-- that a loop returns states how much fuel is enough: more rounds than the list has entries, and
-- for the retries of get_pid twice MAX_PID, for a text its characters, for a device tree its
-- tokens and the characters of the names. Numbers are natural numbers; 32-bit and 64-bit
-- arithmetic that can wrap is written with `% 2 ^ w`. A pointer is a number. The buffer of
-- vsnprintf lies apart from what vprintfmt reads. The answers of
-- kmalloc and alloc_pages are arguments of the functions that call them, except that Paging and
-- Boot call Pmm.
--
-- Not modelled: device registers, the commands of the monitor and the built-in checks (check_vmm,
-- default_check and the like). Assembly is modelled only as far as switch_to moves the
-- callee-saved registers. Processors and interrupts: one processor, and an interrupt handler is
-- not interleaved with the code.
pub mod Atomic
pub mod Base
pub mod Boot
pub mod CString
pub mod Dtb
pub mod Links
pub mod Monitor
pub mod Paging
pub mod Pmm
pub mod Print
pub mod Proc
pub mod Readline
pub mod Slob
mod Tests
pub mod Trap
pub mod Vmm
