-- ===== src/Lib.antt =====
-- A model of the Night kernel, an x86 kernel in C, with the theorems that its parts satisfy.
--
-- The parts and where they are modelled:
--   Base         numbers, words and their digits, lists, tests; no code of the kernel
--   Libk         lib/libk/src/memory.c (memcpy, memset, memcmp, divide_up) and string.c: strtok
--                (Strtok, StrtokLaws), skip_atoi and number (Format, FormatLaws), vsprintf (Vsprintf, with
--                VsprintfTotal on its termination and VsprintfLaws on the text), and strlen, ssplit,
--                sprintf and strdup (Strings, StringsLaws)
--   Pmm          kernel/src/mm/pmm.c: State holds the bitmap and mmap_set, mmap_unset; Find the two
--                searches; Regions the loops over runs of blocks; Alloc the allocating and freeing
--                operations; Boot init_pmm. Blocks gives the abstract view, whether block n is used,
--                and FirstFree, RunState, FirstRun, PageLaws, RunLaws, RegionLaws, Counts, RunCounts, Holders
--                and BootLaws have the laws. Hooks is lib/liballoc/src/hooks.c. Spec is the allocator as a set of
--                blocks and a count, SpecLaws is about its searches, Client is a client of the code,
--                and Refine relates the two.
--   Paging       kernel/src/mm/paging.c: Access is the processor's walk through directory and table,
--                Entries the words of a table, Pages the operations. Reach says what the addresses
--                of the recursive directory entry lead to; MapLaws, RangeLaws, NewTable, CreateLaws
--                and TranslateLaws have the laws, stated on what the walk answers for every page.
--                BackLaws, TakeLaws and AllocLaws are about paging_alloc_pages, with the page
--                allocator behind it.
--   Drivers      kernel/src/drivers/scrn.c: the text screen and its cursor (Screen, ScreenLaws).
--                Typewriter is what a text should look like, a page without an end; TypeLaws shows
--                that the screen is a window on it, BoundLaws what is written at all.
--   Console      lib/libk/src/printf.c (Printf, PrintfLaws) and panic.c (Panic)
--   Cpu          kernel/src/cpu/gdt.c (Gdt, GdtLaws) and idt.c (Idt, IdtLaws), with the gates of
--                isr.c and irq.c
--   Interrupts   kernel/src/cpu/irq.c with the handlers of drivers/timer.c and drivers/kb.c (Machine,
--                Irq), the waiting loops of timer.c (Sleep, SleepLaws), and fault_handler of
--                cpu/isr.c with pg_handle of mm/paging.c (Faults, FaultLaws)
--   Fs           kernel/src/fs/fs.c (Nodes) and fs/tar/tar.c (Tar). Lists and DirLaws have the laws of
--                a directory's list, FrameLaws what its operations leave alone, TarLaws the numbers of
--                a header, MkfileLaws one file of an archive, ParseLaws and ArchiveLaws all of
--                it, and MountLaws its place in the tree. Forest is a tree of files with lookup, which
--                LookupLaws compares with get_file. TouchLaws, FileLaws and ParsedFiles follow the
--                node of each file of an archive through parse, TreeLaws, BootLaws and BootTree find
--                the tree after the start, and ReadyLaws and ReadLaws go from a path to the bytes.
--   Kernel       kernel/src/kernel/kernel.c: Main has kmain, with load_mods and terminal, over the
--                state of all parts, and Files the calls of fs_read and fs_write, which may print;
--                InstallLaws is about the tables and drivers, MemoryLaws about the memory, TextLaws
--                about the first printed line, SetupLaws about all of kmain up to its call of init_fs, and
--                StarvedLaws about that call
--   Tests        the laws at concrete states
--
-- kmain fills the descriptor tables, installs the handlers of the timer and the keyboard, which write
-- to the screen and the ports, sets up paging and the page allocator from the boot information, mounts
-- the archive in the tree of files, waits two seconds and shows the prompt. That is the program of
-- Kernel/Main, whose heap gets its pages from the page allocator; Kernel/StarvedLaws is about that heap
-- after init_pmm. What kmain does behind its call of init_fs is modelled, but the files, the waiting and
-- the screen have their theorems in their own parts, on a heap that has memory where they need one.
--
-- The static variables of a file are the fields of a record, which operations take and return. A
-- fault, such as a null pointer that is followed or an index out of range of an array, is `none` of an
-- Option. A word of 32 bits is a natural number with its wrap-around written out (u32, sub32, u16,
-- u8). Loops with a counter are recursion on the rounds left, whose number is that of the source.
-- Walks over linked nodes and the search for headers take fuel: the length of the list is enough for
-- add_dir, the number of files for get_file, and a round more than there are files for an archive, as
-- their theorems say. The rounds of
-- vsprintf are one more than the length of the format. A waiting loop runs over a list of events, its
-- own tests and the interrupts that come between them. Port writes are kept in order in a list.
--
-- What the kernel does not contain is a parameter: kmalloc of the third-party lib/liballoc is a
-- function from the number of the call to an address, with a function for what the new memory holds,
-- and in Kernel/Main it depends on the states of the heap and of the page allocator as well;
-- the addresses of the assembly stubs and of the linker's symbols are arguments, as are the words
-- that va_arg takes from the stack and the texts at the addresses among them. printf asks the heap by
-- the size of its buffer. Not modelled: the cache of translations (calls of invlpg are recorded), so
-- that the theorems of Paging are about the tables; within Paging, what printf and kpanic do on the
-- error paths of mapping, that is for an address that is not aligned and for a page that is mapped already
-- (the calls are kept in a list with their arguments, and Kernel/Main carries them out when init_paging is
-- done; the theorems of Paging leave out what they do to the screen and the heap, and a fault for want of
-- a buffer); kpanic of the page allocator on the screen, but for that of init_pmm in kmain; the heap
-- lib/liballoc/src/liballoc.c, which is third-party code, and assembly.
pub mod Base
pub mod Libk
pub mod Pmm
pub mod Paging
pub mod Drivers
pub mod Console
pub mod Cpu
pub mod Interrupts
pub mod Fs
pub mod Kernel
mod Tests
