-- ===== src/Pool.antt =====
-- lib/memory/spr_pool.c: the region allocator. The sizes are those of x86-64 Linux in the default
-- build: thread-safe pools over `malloc`, eight-byte pointers and pages of 4096 bytes.
pub mod Size
pub mod Alloc
pub mod Blocks
pub mod Cleanup
pub mod Client
pub mod Create
pub mod Measure
pub mod Tree
mod Tests
use spr.Base.{ℕ, List, Bool, true, false, ◌==◌, ◌*◌}

-- SPR_ALIGN_SIZE, SPR_MIN_ALLOC and SPR_MAX_POOL_SLOT
abbrev pub align_size : ℕ
align_size = 8

abbrev pub min_alloc : ℕ
min_alloc = align_size * 2

abbrev pub max_pool_slot : ℕ
max_pool_slot = 20

-- The aligned sizes of the structures that live inside a block.
abbrev pub sizeof_memnode : ℕ
sizeof_memnode = 48

abbrev pub sizeof_mempool : ℕ
sizeof_mempool = 216

abbrev pub sizeof_mutex : ℕ
sizeof_mutex = 40

abbrev pub sizeof_cleanup_node : ℕ
sizeof_cleanup_node = 24

-- `spr_memnode_t` at its address; the field `next` is the order of the list that it stands in.
pub record MemNode : Type 0 where
  pub addr : ℕ
  pub begin : ℕ
  pub first_avail : ℕ
  pub size : ℕ
  pub size_avail : ℕ
  pub dealloc_size : ℕ

-- `spr_cleanup_handler_t`: the library's own `spr_free`, or a function of the client
pub data Handler : Type 0 where
  spr_free : Handler
  client : ℕ → Handler

abbrev pub handler_eq : Handler → Handler → Bool
handler_eq spr_free spr_free = true
handler_eq (client f) (client g) = f == g
handler_eq spr_free (client g) = false
handler_eq (client f) spr_free = false

-- `spr_cleanup_node_t` at its address
pub record CleanupNode : Type 0 where
  pub addr : ℕ
  pub argument : ℕ
  pub handler : Handler

-- `spr_pool_s` at its address; `child` and `brother` are the shape of the tree in Pool/Tree.
pub record Pool : Type 0 where
  pub addr : ℕ
  pub nodes : List (List MemNode)
  pub parent : ℕ
  pub cleanups : List CleanupNode
  pub free_cleanups : List CleanupNode
  pub mutex : ℕ
  pub owner : ℕ
