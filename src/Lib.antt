-- ===== src/Lib.antt =====
-- munt3os, a small x86-64 kernel: models of its data structures, allocators,
-- page tables, scheduler, sockets, paths, archive, command line and string routines.
--
-- The page allocator (krnl/mem/pmm.c) hands out frames from a bitmap; the ring buffer
-- (krnl/util/ring_buffer.c) and the heap (krnl/mem/kheap.c) take their storage from it, and so do the
-- slabs (krnl/mem/kslab.c); the hash map (krnl/util/hashmap.c) takes its table from the heap and its
-- entries from a slab cache, and compares keys by `strcmp` of krnl/cstdlib.c. The buddy allocator
-- (krnl/mem/kbuddy.c) serves the sizes above those of the slabs, and `kmalloc` (krnl/mm.c) chooses between
-- the two. The page tables (krnl/mem/vmm.c) are made of frames. The sockets (krnl/net/socket.c) pass their
-- bytes through ring buffers and find each other by the paths that `strcmp` compares. The paths of
-- krnl/fs/vfs.c are built by the string routines. A pointer is a number, NULL is 0; a C array
-- is a list with explicit reads and writes; machine words keep their wrap-around written out; a
-- function that changes an object returns the new object. What the hardware or the bootloader
-- provides is an argument. Logging is left out.
--
-- - Base: the shared names, Boolean tests, lists as arrays, machine words.
-- - Bitmap: BITMAP_SET, BITMAP_CLEAR and BITMAP_TEST of krnl/mem/pmm.c on bytes.
-- - Pmm: krnl/mem/pmm.c. Pmm.Boot has `pmm_init`, Pmm.Calls the sequences of calls
--   behind it. The loop of `pmm_alloc` runs `total_pages` rounds, as in the code, and the other loops recur
--   on their number of rounds, so no fuel is chosen.
-- - RingBuffer: krnl/util/ring_buffer.c. The guards against a null `rb` or `data` are not modelled:
--   the record and the list stand for valid objects.
-- - Memory: the block routines of krnl/cstdlib.c on a memory that is a function from addresses to
--   bytes. The loops recur on their number of rounds.
-- - Strings: the string routines of krnl/cstdlib.c. A string is the list of the bytes from its
--   pointer on; a list that ends without a 0 is read as if a 0 followed.
-- - HashMap: krnl/util/hashmap.c. Whether an allocation succeeds is an argument.
-- - Sched: krnl/task/sched.c and the inline functions of krnl/task/sched.h. The circular list of
--   threads is the list that starts at `thread_queue`; one round of `sched_waitpid` is one step, and
--   calls and ticks in any order are sequences of steps.
-- - Heap: krnl/mem/kheap.c. The blocks are a list in the order of their links, with their addresses;
--   the contents of the payloads are left out, but for the word before each, which leads to its block. A call
--   that follows such a word to something else than a block of the list, and reads it as one, has no result.
-- - Buddy: krnl/mem/kbuddy.c. The loops over the orders have as many rounds as there are orders, and the
--   outer loop of `kmem_buddy_init` one for each 64 bytes, which is the least that a round takes.
--   Buddy.Valid is the state between the steps of a call, Buddy.Moves, Shapes and Halves are these steps, and
--   Buddy.Calls has the sequences of calls.
--   What callers write in their blocks is a step between the calls.
-- - LinkedList: krnl/util/list.c. The nodes lie in a store, a function from addresses; a freed node
--   holds anything. The loops over the nodes have the size of the list as fuel, and a valid list has
--   that many nodes. `list_destroy` and the two foreach functions are left out.
-- - Vfs: krnl/fs/vfs.c, the paths, the permissions and the walk of `kopen`, `uopen` and `uopendir`. The
--   file systems are the argument `finddir`; mounting, the calls through `ops` and the closing of a node
--   that may not be opened are left out.
-- - Sha256: krnl/util/sha256.c, executable on lists of bytes.
-- - Kmalloc: krnl/mm.c, over the Slab and the Buddy. The copies of `krealloc` and the zeros of `kcalloc` and
--   `kcfree` are left out.
-- - Tarfs: krnl/fs/tarfs.c, over an archive that is read by an argument. Its loop over the archive has as
--   fuel a bound on the number of entries.
-- - Vmm: krnl/mem/vmm.c. The page tables are a store from the addresses of tables, and what `pmm_alloc` gives
--   is a list of pages. Physical addresses are read and written where they are; the tables are cut off at
--   level 4, as deep as the source goes.
-- - Socket: krnl/net/socket.c. A call that waits by `sched_yield` is cut into the rounds of its loop, so
--   the calls of several threads come in any order of rounds; a thread that is interrupted inside a round
--   is not modelled.
-- - Slab: krnl/mem/kslab.c. The lists of slabs and the chains of free objects are lists. The loop that
--   doubles the pages of a slab has fuel 4, which takes it from one page to its limit of 16.
--   `kmem_cache_free` has no result where it writes to an address that is no slab, or frees an object twice.
-- - Numbers: reverse_str and the conversions to text of krnl/cstdlib.c. A 64-bit number has at most 64
--   digits, so the loop has fuel 64.
-- - Cmdline: krnl/util/cmdline.c, from the keys to the arguments of the commands; the commands themselves
--   are left out.
-- - Moscfg: krnl/util/moscfg.c. The loop over the text has two rounds for each byte as fuel: a round that takes
--   none stands before the end of a comment.
-- - Devices: the read and write functions of krnl/dev/null.c, zero.c, random.c and ramdisk.c.
--
-- Not modelled: assembly and hardware registers, the drivers of krnl/hw, the frame buffer, the keyboard and
-- the terminal (krnl/tty.c), whose work is device I/O; krnl/printf.c and the log, which print; krnl/fs/ext2.c,
-- which is reads and writes of the disk throughout, krnl/fs/devfs.c and krnl/fs/procfs.c, tables of function
-- pointers and printed text; krnl/api/syscall.c and krnl/task/exec.c, which pass the pointers of user programs,
-- translated by the hardware, to the other parts. krnl/kernel.c calls the parts in order.
pub mod Base
pub mod Bitmap
pub mod Buddy
pub mod Cmdline
pub mod Devices
pub mod HashMap
pub mod Heap
pub mod Kmalloc
pub mod LinkedList
pub mod Memory
pub mod Moscfg
pub mod Numbers
pub mod Pmm
pub mod RingBuffer
pub mod Sched
pub mod Sha256
pub mod Slab
pub mod Socket
pub mod Strings
pub mod Tarfs
pub mod Vfs
pub mod Vmm
