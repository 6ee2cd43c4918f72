-- ===== src/Lib.antt =====
-- A model of the core of the pastoral kernel, with the theorems that its parts rely on.
--
-- The program. pastoral is a kernel for x86-64. Its parts share a few data structures: bitmaps that
-- hand out numbers (descriptors, process and thread ids), hash tables that lead from a number to a
-- structure, and the page allocator that everything gets its memory from. On them stand the scheduler
-- with its signals, events and credentials, and the open files of a task with their permissions and
-- pipes. A system call runs to its end before the next step of the model: where the code holds a lock
-- for the whole of a call, the call is one step. Waiting and waking are modelled as steps of their own.
--
-- Files, and the code that each models.
--   Base: names of the libraries passed on; lists as arrays, bits of machine words, signed values, and
--     the Option monad, in which none is an access outside an allocation or through a null pointer.
--   Bitmap: kernel/lib/bitmap.c, the bit macros of kernel/lib/string.h, and realloc of
--     kernel/mm/slab.c as a copy with zeroes behind it.
--   Text: comparisons and formatted output of kernel/lib/string.c.
--   Hash: kernel/lib/hash.c. A key is the list of the bytes behind its pointer; the probing does not
--     wrap, as in the code.
--   Pmm: kernel/mm/pmm.c. A module is its bitmap with the address of its first page; a list of modules
--     is the chain of their next pointers.
--   Slab: kernel/mm/slab.c, on top of Pmm; the three lists of a cache are lists of slabs.
--   Mmap: the tree of regions of kernel/mm/mmap.c with the insertion of kernel/lib/bst.h, and anonymous
--     mappings at an address that mmap chooses.
--   Vmm: the page tables of kernel/mm/vmm.c. The physical memory is a function from addresses to words,
--     which the tables lie in; Vmm/Range has the loops over pages and the first table of an address
--     space, Vmm/Fault the page faults and the objects behind pointers, Vmm/Fork the copy of a table.
--     Vmm/View is what the processor finds for an address: the theorems about mapping, unmapping and
--     demand paging say how it changes.
--   Process: the records of kernel/sched/sched.h and kernel/sched/signal.h. Process/Cred are the
--     set*id calls of kernel/sched/sched.c; Process/Signals is kernel/sched/signal.c with the delivery
--     at the end of reschedule; Process/Sched is the choice of task and thread, the switch, and the
--     queueing; Process/Event is event_wait and event_fire as a step relation.
--   Fd: kernel/fs/fd.c and kernel/fs/fd.h. Fd/Handles are the calls on descriptors, Fd/Io reading,
--     writing and seeking, Fd/Pipe the two ends of a pipe, Fd/Access the permissions. The operations
--     of an asset are functions that the asset holds, as in the code; its theorems hold for any.
--   Vfs: the tree of files of kernel/fs/vfs.c, on a heap of nodes. Vfs/Subpaths is the splitting of a
--     path, which vfs.c and fd.c repeat; Vfs/Create the making of nodes, mounts and absolute paths;
--     Vfs/Calls the calls of kernel/fs/fd.c that resolve a path, with fd_openat and ramfs_create of
--     kernel/fs/ramfs.c in Vfs/Calls/Open, and those on stats, links and entries in Vfs/Calls/Entries.
--   Ramfs: ramfs_read, ramfs_write and ramfs_resize of kernel/fs/ramfs.c, on the bytes of the buffers.
-- In each directory the file of a component holds its definitions, its children the proofs, named
-- for what they are about, and Tests small runs and the theorems at concrete states.
--
-- Numbers. Machine words are natural numbers with their wrap-around written out: 64 bits for sizes,
-- counters, addresses and positions, 32 bits for ids, modes, descriptors and flags. A negative result
-- is either a constructor of Reply or the word that holds it. A signed comparison is written out.
--
-- Fuel. bitmap_alloc calls itself at most once, after it has grown its map, so two calls are enough,
-- and the theorem about it says that it returns. hash_table_push calls itself through an expanded
-- table; the theorem states how many calls it needs. The outer loop of pmm_module_alloc moves by at
-- least one page in each round, so as many rounds as the module has pages, and one more, are enough;
-- that it returns is part of its theorem. The loop of mmap that looks for a base leaves a region
-- behind in each round but the last, so more rounds than there are regions above the base are enough, as
-- its theorem says. The loops with a counter take the number of rounds left.
--
-- The table of pages is pushed to with 64 calls, which is more than a table of an address space can
-- need, since each doubles it; its theorem asks for one.
--
-- The splitting of a path takes at most as many rounds as the path has bytes, which its theorem shows.
-- A search takes the number of links that it may follow one inside the other; a cycle of links, on
-- which the code runs out of stack, uses up any number. An absolute path takes the number of nodes on
-- its way up.
--
-- Left out. Locks, timestamps, debug output, the fields of structures that no modelled
-- call reads, and the inter-processor interrupts and assembly around the scheduler. Memory for
-- structures is taken to be there: alloc does not fail. The pages that a hash table takes from the
-- page allocator when it grows are not taken from the modules, and the table of descriptors is an
-- association list, which agrees with the hash table while its keys are distinct. Not modelled are
-- munmap and the mappings of files, creation and exit of processes, loading of programs, start-up,
-- drivers, interrupts and firmware tables, and the user programs.
pub mod Base
pub mod Bitmap
pub mod Text
pub mod Hash
pub mod Pmm
pub mod Slab
pub mod Fd
pub mod Vfs
pub mod Mmap
pub mod Vmm
pub mod Ramfs
pub mod Process
