-- ===== src/Lib.antt =====
-- A verification library for LISP-DOS, a hobby operating system for x86-64 written in C.
--
-- The parts, how they interact, and the files that model them:
--
-- Pmm (src/kernel/pmm.c) keeps a bitmap of physical pages. Its state is the record Pmm of the static
-- variables; alloc_page, alloc_pages and free_page are pmm_alloc_page, pmm_alloc_pages and
-- pmm_free_page as functions from the state to the answer and the next state. Pmm/Init is pmm_init,
-- from the memory map that the boot loader gives.
--
-- Vmm (src/kernel/vmm.c) walks and extends the page tables, which take their pages from Pmm. The
-- checks vmm_check_user_ptr and vmm_check_user_string guard the system calls. Vmm/Space makes and
-- frees address spaces.
--
-- Heap (src/kernel/heap.c) cuts pages from Pmm into blocks.
--
-- Syscall (src/kernel/syscall.c) is the dispatcher: its state is that of the parts it calls, and its
-- answer says whether it returns, waits for a key or leaves the process.
--
-- Tables (src/hal/gdt.c, src/hal/idt.c) encodes the descriptors; Strings (src/kernel/string.c) is the
-- small C library.
--
-- Ata (src/hal/ata.c) transfers sectors. A disk is a function from sector numbers to sectors.
--
-- Fat16 (src/kernel/fat16.c) is the file system on that disk: Fat16/Volume holds the boot sector and
-- the allocation table, Fat16/Names the conversion of file names, Fat16/Directory the search of the
-- root directory, its listing and deletion, Fat16/Read reading and Fat16/Write writing.
--
-- TarFs (src/kernel/tarfs.c) is the read-only file system in memory that programs are loaded from.
--
-- Keyboard (src/hal/keyboard.c) decodes scan codes into a ring of characters, which the shell and the
-- editor take out.
--
-- Shell (src/kernel/main.c) edits a command line and splits it into a name and arguments;
-- Shell/Commands has what each command calls, on the state of all the parts that commands change,
-- -- up to the jump to a program.
--
-- Process (src/kernel/process.c, src/kernel/elf.h) starts a program: Process/Elf reads the headers,
-- Process/Segments maps and fills the pages of the segments, and Process/Exec is process_exec, which
-- reads the file through Fat16 or TarFs into pages from Pmm and builds an address space with Vmm. Its
-- answer is the return with a message or the jump to the program, or the end of the fuel, which is that
-- of the loops of the file systems.
--
-- User (src/tools/syscalls.h) has the wrappers of the system calls by the registers that they fill,
-- which Syscall takes.
--
-- Pci (src/hal/pci.c) scans the bus for USB controllers; the bus is a parameter.
--
-- Acpi (src/hal/acpi.c) finds the sleep type and the ports for power-off in the tables in memory.
--
-- Editor (src/tools/editor.c) is the text editor: Editor/Session is its start, with the two system calls
-- on files as a parameter, and the loop, Editor/Draw its drawing; Editor itself has what each key does to the buffer, the cursor and
-- the mode.
--
-- Lisp (src/tools/lisp.c) is the interpreter. Lisp/Machine has its nodes, the record of its static
-- variables and the monad of its functions: a call returns, ends the program by sys_exit, or makes an
-- access that C leaves undefined. Lisp/Number is the arithmetic of int (where a result
-- -- overflows, which C leaves undefined, it gives what the processor does) and print_int, Lisp/Reader the
-- parser, Lisp/Environment the tables of names, Lisp/Evaluator eval, and Lisp/Program _start, with the
-- two system calls on files as a parameter. The reader has enough fuel with twice the characters of
-- the text and one more. A program can recur for ever, so the evaluator has no such bound; arithmetic
-- expressions need as much as their depth.
--
-- Vga (src/hal/vga.c) is the terminal: the cursor and the pixels that a character sets.
--
-- Base holds what all of them share: memory as a function from addresses, integers of C with their
-- wrap-around, the Boolean tests, and the lemmas on lists.
--
-- Conventions. C memory behind a pointer is a function on offsets (Memory). Static variables are a
-- record that the functions take and return. A loop with a bound known on entry is recursion on the
-- rounds that are left; a loop that follows data (a chain of clusters, the headers of an archive,
-- the pages of a string, the characters of a string) is recursion on fuel and answers none where it
-- runs out, and its theorem gives the fuel that is enough: more than the clusters of the chain,
-- than the headers that fit the archive, than the pages below the user limit.
--
-- Not modelled: port I/O, assembly, the fixed messages where the state does not
-- depend on them, and the data of the font, which is a parameter of Vga; the start-up sequence of
-- main.c.
pub mod Base
pub mod Pmm
pub mod Vmm
pub mod Ata
pub mod Fat16
pub mod Keyboard
pub mod Lisp
pub mod Editor
pub mod Vga
pub mod TarFs
pub mod Strings
pub mod Tables
pub mod Shell
pub mod Syscall
pub mod Pci
pub mod Process
pub mod Acpi
pub mod User
pub mod Heap
