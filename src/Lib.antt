-- ===== src/Lib.antt =====
-- ArchaOS: the memory managers, the system call table, the interrupt table, the drawing, the
-- terminal, the formatted output, the file system and the string functions of the kernel.
--
-- ArchaOS is a small 64-bit kernel with its own UEFI boot loader. The boot loader hands over the
-- memory map of the firmware. The physical memory manager (kernel/arch/x86_64/mm/pmm.c) builds a
-- bitmap of pages from it and gives out single pages. The virtual memory manager maps such pages
-- into ranges, and the kernel heap (kernel/lib/kmalloc.c) asks it for more pages when no free
-- chunk is large enough. Files live in memory (kernel/fs/fs.c), in nodes and strings from the
-- heap. Text goes through print (kernel/lib/stdio.c) to Putchar of the terminal
-- (kernel/graphics/terminal.c), which sets the pixels of the framebuffer
-- (kernel/graphics/graphics.c). Programs reach the kernel through a table of system calls
-- (kernel/arch/x86_64/syscalls/syscalls.c).
--
-- Mm.Pmm is the physical memory manager: the globals of pmm.c are the record Pmm, the bitmap is
-- the function of its index, and the functions have their names. Its loops are recursion on the
-- rounds that are left, each with the bound of the source: the bytes of the bitmap, the eight
-- bits of a byte, the entries of the map, the pages of a region. kernel_panic does not return and
-- is the result panic of init_pmm.
--
-- Mm.Vmm is the virtual memory manager (kernel/arch/x86_64/mm/vmm.c) without init_vmm: its state
-- holds that of the physical memory manager, memory as 64-bit words by the pointer that the code
-- uses (for a page table that of page_table_ptr, with its wrap-around for pages at 2 GiB and
-- above), next_virt and CR3. Two pointers to one page are two pages of words, except that the
-- memset of vallocs is seen through both. Pages says what the operations keep; Entries, Walks,
-- Grown, Descend, Enough and Mapped follow map_page and unmap_page. Its loops have the rounds of
-- the source; that of map_range is for sizes up to 2^64 - 0x1000.
--
-- Kmalloc is the kernel heap. The headers of the chunks are kept by address; what a caller writes
-- behind a header is not modelled, and two headers are taken not to overlap. vallocs and vfrees
-- are fields of the record Vm, over a state of its own; Kernel fills it with those of Mm.Vmm, and
-- shows what the heap relies on from what vallocs gives. A panic of vallocs ends kmalloc too
-- (some panic), and none would be a walk along next that does not end. Each walk along next gets
-- as many rounds as the heap has bytes and one more. On a heap that is a list of blocks each
-- block takes at least 32 bytes, so the rounds do not run out. Kmalloc.Blocks says when the
-- headers describe a list of blocks; Take, Search, Grow, Alloc, Extend and Serve follow kmalloc,
-- and Free, Release, Merge and Returned follow kfree.
--
-- Syscalls is the table of system calls. A function pointer is its address, and what a call of it
-- does is the parameter invoke of syscall_dispatch. A read at or past the end of the table is the
-- result out_of_bounds. The model specific registers are a function of the number; that the
-- processor has them is an argument.
--
-- Interrupts is the interrupt descriptor table (kernel/arch/x86_64/interrupts/idt.c) and the two
-- 8259 controllers (kernel/arch/x86_64/interrupts/pic.c). A port is the byte that a read of it
-- gives.
--
-- Strings is the memory and string functions (kernel/lib/string.c) over the bytes of memory by
-- address. memcpy is the C body, with fuel of as many rounds as it has bytes. A walk to the end
-- of a string has fuel, and the theorems ask for one round for each byte and one for the end.
--
-- Graphics is the drawing of pixels and rectangles (kernel/graphics/graphics.c); its loops have
-- the rounds that the source gives them, and lines are not modelled.
--
-- Stdio is the formatted output (kernel/lib/stdio.c). print and what it calls take Putchar as the
-- argument put, over a state of its own; the terminal is one such state. The bytes of a format
-- are a list, the variable arguments another, and a run that leaves what C defines is a result of
-- its own: past_end is a read behind the NUL of the format, bad_argument an argument that is
-- missing or of the other kind. The loops have a round for each byte of the format and one more,
-- ten rounds for a number of 32 bits and twenty for one of 64. Decimal says what the usual text
-- of a number is; Numbers and Hex that the loops put it out; Walks, Print and Buffer follow print
-- and format.
--
-- Terminal is Putchar and scrolling (kernel/graphics/terminal.c), on the state of Graphics with
-- the cursor. Pixels are moved by whole words, and the framebuffer has less than 2^64 bytes.
-- Scroll says what scrolling leaves, Cursor where the cursor stands.
--
-- Fs is the file system (kernel/fs/fs.c): files by address, strings by pointer as the bytes
-- before their NUL, contents as the bytes of memory, with memcpy of Strings. Files has
-- create_file, delete_file and what they are called by; the heap is the interface Allocator, and
-- what a theorem asks of it (pointers that are not NULL and not in use) is a hypothesis of that
-- theorem. Walks along siblings have fuel, and the theorems ask for one step for each sibling
-- passed and one for the end, or take the fuel with which the walk before came to an end; the
-- walk along a path has a round for each byte. Paths and Split say which names a path has,
-- Siblings and Unlink how lists of children change, Found and Grown what a walk finds in another
-- state, and Made and Created follow create_file.
--
-- Cpio is the extraction of the ramdisk (kernel/fs/drivers/initramfs.c) and init_fs. The disk is
-- a range of memory, and the loop has a round for each of its bytes and one more, which is more
-- than it needs, since a header has 110. Hex8 reads what the hexadecimal output writes; Rounds
-- says that the loop stays in the disk and comes to an end.
--
-- Grs is the registry of named values (kernel/grs/grs.c): the registers by index, and strings by
-- pointer. Lookup is about finding a register, Create about the numbers that new ones get. The
-- local variable that the lookup returns is a parameter, since it has no first value. The lookup
-- has fuel for one round, which is enough since its loop never runs.
--
-- Base has the names that every part uses: tests, lists, bits, and counting.
--
-- Numbers are natural numbers, and a word of 64 bits has its wrap-around written out.
--
-- Not modelled: what other parts write through print, which changes no state of theirs; the boot
-- loader, lines, the segment descriptors, the local interrupt controller, destroy_register,
-- timers and threads; assembly.

pub mod Base
pub mod Cpio
pub mod Fs
pub mod Graphics
pub mod Grs
pub mod Interrupts
pub mod Kmalloc
pub mod Mm
pub mod Stdio
pub mod Strings
pub mod Syscalls
pub mod Terminal
