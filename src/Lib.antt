-- ===== src/Lib.antt =====
-- The MOS teaching kernel with its shell: what keeps its memory, its environments, its messages and its
-- file system right.
--
-- The program is a small exokernel for MIPS (kern/), a file server that runs as an environment of it
-- (fs/), a user library and programs with a shell (user/). Environments ask the kernel by system calls;
-- the file server is asked by messages. The development models the code below as functions on explicit
-- states and proves theorems about them.
--
--   Base        error codes and outcomes (include/error.h), bit operations, lists and the tests on numbers
--   Memory      kern/pmap.c, include/pmap.h, include/mmu.h: pages, their counts, and page tables. The
--               words of physical memory are a function of page and place, a `struct Page *` is a page's
--               number, and a page table is read from those words as the code does it. Memory/View is the
--               reading of a table, the specification of the walk; Memory/Free is the free list,
--               Memory/Table the entries, Memory/Insert what is mapped, Memory/Ends the checks on
--               the way, Memory/Counts the reference counts.
--   Kernel      include/env.h: environments and the kernel's global variables, as one record
--   Process     kern/env.c and kern/sched.c: identifiers, the life of an environment, and the scheduler.
--               Process/Queues is the invariant of env_sched_list, Process/Turns the round robin,
--               Process/Ids the numbers, Process/Destroy the end of an environment.
--   Jobs        kern/env.c: the table of the shell's jobs
--   Syscall     kern/syscall_all.c: the calls on memory, environments and messages. Syscall/Queues is the
--               invariant, Syscall/Messages what is delivered, Syscall/Waiting what a receiver does,
--               Syscall/Waking what a changed status does. Syscall/Devices is sys_write_dev and sys_read_dev,
--               Syscall/Accesses what they reach.
--   Fs          fs/fs.c: the cache of blocks and the bitmap of free blocks. Fs/Blocks is the search for a
--               free block, Fs/Cache is alloc_block and free_block, Fs/Load is read_block.
--   Files       fs/fs.c: the blocks of a file. A `struct File *` is the place of the entry's first word in
--               a cached block. Files/Walk is file_map_block and file_clear_block, Files/Truncate is
--               file_truncate.
--   Strings     lib/string.c: memcpy (Strings/Copy), memset (Strings/Fill), strcmp (Strings/Order)
--   Pipe        user/lib/pipe.c: the ring buffer. Pipe/Order is one byte, Pipe/Traffic the calls and how
--               they take turns.
--   Mount       fs/fs.c: read_super, check_write_block, read_bitmap and fs_init; Mount/Bits is read_bitmap
--   Paths       fs/fs.c: directories and paths, from dir_lookup to file_remove. Paths/Elements is walk_path,
--               Paths/Lookup is dir_lookup, Paths/Names is the name of an entry.
--   Serve       fs/serv.c: the table of open files and the requests. Serve/Opens is open_alloc, Serve/Kept
--               what serve_open leaves alone, Serve/Answers the loop, Serve/Descriptor what is handed out.
--   Fd          user/lib/fd.c: file descriptors. Fd/Numbers is their numbers and addresses, Fd/Sharing is
--               dup, Fd/Reading is readn.
--   Shell       user/sh.c: the lexer on the bytes of its buffer (Shell/Scan and Shell/Tokens its loops,
--               Shell/Bounds its bounds, Shell/Words its words), and readline (Shell/Lines)
--   Fork        user/lib/fork.c: fork and the handler of copy-on-write pages. Fork/Entries is duppage on
--               one page, Fork/Pages what the loops leave in the page tables, Fork/Isolation who can write
--               what.
--   Print       lib/print.c: vprintfmt and its helpers. Print/Digits is the loop that stores the digits,
--               Print/Numbers is print_num, Print/Formats the loop over the format.
--   Elf         lib/elfloader.c with load_icode_mapper of kern/env.c. Elf/Segment is the pages that are
--               put in place, Elf/Loading the loops of elf_load_seg.
--   Tests       the theorems on small machines
--
-- A function that can fail with a code returns a `Result`; one that can halt the machine (panic, assert)
-- or run into undefined behaviour (a null pointer, a list operation on an element that is not in the list, or is in it already) is an
-- `Exec`, a function from a state to an `Outcome`. `Returns` says that the code comes to such a stop on no
-- path and what then holds of result and state; `Holds` says it of the runs that do not stop.
--
-- Numbers are natural numbers; where the code relies on the width of a word, the reduction is written
-- out (page2pa, mkenvid, the 16-bit reference count, the counters of the scheduler, the end of a range of
-- addresses). Bits of a word are read by division. Loops are recursion on the number of rounds that the
-- code's bound leaves: 1024 entries of a table, 509 of the directory below UTOP, 256 address space
-- identifiers, the blocks from 3 to the size of the disk; so no fuel can run out.
--
-- Not modelled: assembly and the devices behind their ports; the boot code; the TLB, apart from the record
-- of what was invalidated; the links inside the lists. The queues are lists of places in `envs`; where the
-- code links what is queued already or unlinks what is not queued, and goes on with broken links, the model
-- stops, with `tangle`. System calls run with a current environment, and the model stops where they read it
-- and there is none. In the file server the system calls on its own pages are short definitions over the
-- pages that are left (`room`), a request without a page is read as zeros, and the disk is a function from
-- blocks to their words. PROJECT.json lists the rest.
pub mod Base
pub mod Memory
pub mod Kernel
pub mod Process
pub mod Jobs
pub mod Syscall
pub mod Elf
pub mod Fs
pub mod Files
pub mod Mount
pub mod Paths
pub mod Serve
pub mod Fd
pub mod Fork
pub mod Shell
pub mod Print
pub mod Strings
pub mod Pipe
pub mod Tests
