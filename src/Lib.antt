-- ===== src/Lib.antt =====
-- Verification of spr, a portable run-time library in C: memory pools, locks, strings, lists,
-- files, sockets.
--
-- The program. A pool (lib/memory/spr_pool.c) hands out blocks that are given back together. It
-- holds up to twenty slots of memory nodes, each a run of pages got from lib/memory/spr_memory.c,
-- a list of cleanup handlers, a reserve of cleanup nodes and a tree of child pools. Every operation
-- of a pool takes the recursive mutex of lib/thread/spr_mutex.c, which the root pool makes and the
-- children share. The other parts of the library take their memory from a pool.
--
-- Which file models what.
--   Base, Base/*       helpers: Booleans, lists, the 64-bit word (Word), bit masks (Bits), int (Int)
--   Sys                the world outside the source: a log of events (memory handed out and given
--                      back, handlers called, calls of pthread answered), the system that answers as
--                      a function of that log, and a program as a function from worlds to runs; a
--                      run ends with a value, with a fault (a write or read out of bounds, or through
--                      memory given back) or out of fuel
--   Memory             lib/memory/spr_memory.c: spr_malloc, spr_calloc, spr_free, spr_get_page_size
--   Memory/Live        the live memory a log describes, and what malloc promises (IsAllocator)
--   Mutex, Mutex/*     lib/thread/spr_mutex.c; Held counts how often a mutex is held
--   Pool               the structures of lib/memory/spr_pool.c and its constants
--   Pool/Size          spr_align_allocation, spr_get_npages; Bounds: their arithmetic
--   Pool/Blocks        which addresses the nodes of a pool own and have in use, and when a pool is in
--                      order
--   Pool/Alloc         spr_memnode_allocate, spr_palloc, spr_pcalloc, spr_pool_cleanup_add1
--   Pool/Cleanup       spr_pool_cleanup_run1, _remove1, _run_all
--   Pool/Client        a client that calls these and spr_palloc, spr_pcalloc in any order; Kept and
--                      Added: each request keeps the pool in order; Runs: any sequence of them
--   Pool/Create        spr_pool_create1
--   Pool/Measure       spr_pool_get_size, _get_free_size, _get_total_size; Sums: what they add up
--   Pool/Tree          spr_pool_add_child, spr_pool_clear, spr_pool_destroy on a tree of pools
--   Str                lib/spr_string.c; a string is the list of the bytes from its address on
--   Str/Number         spr_atoi, spr_atosz; Str/Length: spr_strlen, spr_strnlen
--   Str/Compare        spr_strcasecmp, spr_strncasecmp; Str/Search: spr_strchr, spr_strrchr
--   Str/Copy           spr_pstrdup, spr_pstrndup, spr_pstrcat1 on the pools of Pool
--   Errno, Errno/*     lib/spr_errno.c and spr_dlerror of lib/spr_dso.c; what strerror and dlerror of
--                      the C library point at is a parameter; Errno/Windows: spr_strerror for
--                      Windows; Errno/Trimmed: what it shows of a message of the system
--   Dso                include/spr_dso.h, and spr_dlerror for Windows
--   LinkedList         lib/spr_list.c on a heap of nodes: Push (create, push, reserve), Remove (remove,
--                      clear), Chain (what a walk of the list meets), Lost (where it goes wrong)
--   LinkedList/Inv     when a list is in order, by the segments of Seg; KeepPush, KeepRemove/*, Walk
--                      and Take: what pushes and removals leave of it
--   LinkedList/Spec    the list as a sequence of items; Refine: what a client sees of it
--   Array              lib/spr_array.c; Overwritten: what its push leaves
--   Host               a system as steps from state to state, for the wrappers of lib/spr_filesys.c,
--                      lib/network and lib/thread on Windows
--   Filesys            spr_file_write of lib/spr_filesys.c; Written: when and how its loop ends;
--                      Written/Contents: what the file holds then and what a read gives
--   Filesys/File, Stat the other functions on files for POSIX, types and access of a file
--   Filesys/Dir, Glob  directories and patterns for POSIX; Glob/Reads: a client that reads all paths
--   Filesys/Path       spr_file_full_path, spr_check_absolute_path, spr_is_path_has_wildcard
--   Filesys/Utf8       spr_utf8_decode; Filesys/WidePath: spr_path_to_wchar and its callers
--   Filesys/Windows    files for Windows; Windows/Find: directories and patterns
--   Network/Socket     lib/network/spr_socket.c; Network/Options: spr_sockopt.c; Network/Address:
--                      spr_sockaddr.c
--   Time, CpuInfo, Version   lib/spr_time.c, lib/spr_cpuinfo.c, lib/spr_version.c
--   Semaphore, Thread  lib/thread/spr_semaphore.c and lib/thread/spr_thread.c for POSIX;
--                      Semaphore/Count: the value that a log tells; Thread/Attributes: what is
--                      left of the attributes, and Attributes/Calls: which calls are made; Thread/Identity: which thread is running, on each system;
--                      Semaphore/Dispatch for Grand Central Dispatch; Mutex/Windows,
--                      Semaphore/Windows and Thread/Windows for Windows
--   Memory/Contents    the bytes in memory that a log describes
--   Example, */Tests   a bump allocator and a pool, and the theorems applied at them
--
-- Configuration. Linux on x86-64 with pthread: SPR_POOL_THREAD_SAFETY is set, mmap is not used, a
-- page has 4096 bytes, the headers of a pool, a memory node, a cleanup node and a mutex have the
-- sizes the compiler gives them (216, 48, 24 and 40 bytes). A size_t is a natural number
-- below 2 ^ 64 and its sums and products are taken modulo 2 ^ 64.
--
-- Bounds and fuel. spr_palloc calls spr_pool_cleanup_add1 for a request too large for the slots,
-- and that calls spr_palloc for a cleanup node. The recursion runs on a number of rounds; two are
-- given, since a cleanup node is small. The walks of spr_list.c follow pointers, so they run on a
-- fuel that the caller gives. The loop of spr_file_write has one round for each byte and one more,
-- which is proved to be enough. All other loops are structural on the list they walk.
--
-- Assumptions. The system calls are parameters: malloc answers with NULL or with aligned memory that
-- is not in use (IsAllocator), and a recursive mutex can be taken by the thread that owns it
-- (IsRecursive). Where a theorem needs one of these it is a hypothesis of it.
--
-- The calls below the files, the sockets and the code for Windows are records of steps on a state of
-- any type, so that nothing is assumed of them but what a theorem says.
--
-- Not modelled. The macros of include/spr_filesys.h and include/spr_time.h that stand for a call of
-- the system (spr_file_rename, spr_msleep and so on), spr_gettimeofday where it passes a call on, and
-- the declarations and constants that no function of the library uses.
pub mod Base
pub mod Sys
pub mod Memory
pub mod Mutex
pub mod Pool
pub mod Str
pub mod Dso
pub mod Errno
pub mod LinkedList
pub mod Array
pub mod Host
pub mod Filesys
pub mod Network
pub mod Time
pub mod CpuInfo
pub mod Version
pub mod Semaphore
pub mod Thread
pub mod Example
