-- ===== src/Lib.antt =====
-- A model of the JamesM kernel (the C files of src/ in the repository) and what has been proved of it.
--
-- The parts of the program and the files that model them:
--
--   Base           Boolean tests, words of 8, 16 and 32 bits, lists, and `Run`, the outcome of a run: a
--                  result, the endless loop of `_panic`, a null pointer followed or a write past the end of
--                  a variable, or fuel used up.
--   Bits           laws of `&`, `|` and `~` for the masks and single bits that the kernel uses.
--   Memory         src/common.c: the byte memory, words in it, memset, bzero, memcpy, strlen, strcmp.
--   SortedArray    src/sorted_array.c: the array of pointers that indexes the holes of the heap.
--   Kernel         the variables that src/kmalloc.c, src/heap.c and src/paging.c share.
--   Paging         src/paging.c: the bitset of frames, the frame of a page, the page directory;
--                  Grants has calls of alloc_frame in a row as a step relation, Tables get_page.
--   Kmalloc        src/kmalloc.c: the placement allocator and the way to the heap.
--   Heap           src/heap.c: Heap.antt has the layout, the search for a hole and init_heap, Resize
--                  expand and contract, Alloc and Free the two operations. Segments, Holes and
--                  Invariant see the memory as a row of blocks and holes; Serve and Recycle show
--                  what alloc and free are on such rows, Cycle both with the
--                  caller's writes between, Create where the first one comes from.
--   Descriptors    src/descriptor_tables.c: the GDT, the IDT and the remapping of the controllers, which
--                  Controllers reads back as the two chips do.
--   Interrupts     src/isr.c and src/timer.c: the table of handlers, its dispatch, the timer.
--   Monitor        src/monitor.c: the text screen.
--   Printf         src/freebsd/printf.c: the formatted output.
--   Tar            src/tar.c: the archive that the boot loader hands over.
--   Files          src/vfs.c and src/initrd.c: the dispatch to a file system, and the one on the archive.
--   Setup          init_paging and page_fault_handler of src/paging.c, and the functions of src/heap.c and
--                  src/sorted_array.c that make a heap or an array from kmalloc; Faults has what a page
--                  fault shows, Tables the page table of the heap.
--   Listing        src/main.c: vfs_print_content, which lists the file system on the screen.
--   Boot           src/main.c: kern_main, with src/include/multiboot.h.
--
-- How they interact. kmalloc takes memory after the kernel's end until `kernel_heap` is set, and then
-- from the heap's alloc; alloc may grow the heap, which maps pages (get_page, alloc_frame), and
-- get_page takes a new page table from kmalloc. This circle is cut by an argument: Kmalloc takes the
-- heap's alloc, Heap ties the knot, on fuel. The heap keeps its holes in a sorted array that stands
-- in the same memory. Tar takes the nodes of its queue from kmalloc, and Files makes a file system of
-- what it finds. What these two rely on is the interface Kmalloc.Supply, which the placement
-- allocator fills before paging and Heap.Source fills behind it. printf writes to Monitor, and the
-- interrupt handlers print through printf. Boot runs the set-up of all parts in the order of
-- kern_main, and then the listing.
--
-- Choices. The machine is a 32-bit one: uint32_t, unsigned long and pointers have 32 bits, `u32` writes
-- the wrap-around of their arithmetic out. An address that the code follows is not reduced, since C
-- leaves that overflow undefined. Memory is one function from addresses to bytes; a word is four
-- bytes, the lowest first. A pointer to a structure in memory is its address; a local structure, and the
-- structure of the heap, is a record. Bytes that go to a port, and loads of processor registers, are
-- events in a list or fields of a record. A loop over a known range recurs on the rounds left. Other
-- loops take fuel: expand and contract one more than the pages to do, strlen and strcmp what the
-- theorems ask for (more than the text's length), alloc one for each time that it calls itself,
-- vprintf one for each piece of its format, tar_parse_mem one for each file and one more, the listing
-- one for each entry of the root directory and one more. A message with a literal format and a name has
-- the fuel for 2000 characters of the name.
--
-- Not modelled: the assembly files, which the C code only calls (the stubs' addresses and the loads
-- of tables are parameters and events); outb, inb and inw, which are single instructions; the text of
-- the messages of panics; the copies of other projects
-- (linux-0.01, and FreeBSD's queue.h, stdarg.h and cdefs.h).
pub mod Base
pub mod Bits
pub mod Memory
pub mod SortedArray
pub mod Kernel
pub mod Paging
pub mod Kmalloc
pub mod Heap
pub mod Descriptors
pub mod Monitor
pub mod Printf
pub mod Interrupts
pub mod Tar
pub mod Files
pub mod Setup
pub mod Listing
pub mod Boot
