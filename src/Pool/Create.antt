-- ===== src/Pool/Create.antt =====
-- `spr_pool_create1`, `spr_pool_create` and `spr_pool_add_child` of lib/memory/spr_pool.c.
pub mod Safe
use spr.Base.{ℕ, ◌-◌, Option, none, some, List, [], ltb, replicate, ◌==◌, if◌then◌else◌}
use spr.Base.Int.{ℤ, negsuc, eq_ℤ}
use spr.Base.Word
use spr.Memory
use spr.Memory.{page_size}
use spr.Mutex
use spr.Mutex.{success}
use spr.Sys.{System, Cmd, pure, fault_cmd, ◌>>=◌, ◌>>◌}
use spr.Pool.{max_pool_slot, sizeof_mempool, sizeof_mutex, MemNode, Pool}
use spr.Pool.Size.{align_allocation, get_npages}
use spr.Pool.Alloc.{register, memnode_allocate}

-- The outcome of `spr_pool_create1`: an error code, or the pool.
pub data Created : Type 0 where
  failed : ℤ → Created
  created : Pool → Created

-- `SPR_FAILED`
abbrev pub failure : ℤ
failure = negsuc 0

-- `node->begin += n; node->size -= n;`
unfoldable pub set_aside : ℕ → MemNode → MemNode
unfolding Word.add Word.sub
set_aside n node = record node { begin = Word.add node.begin n; size = Word.sub node.size n }

-- `node->first_avail = node->begin; node->size_avail = node->size;`
unfoldable pub reset_node : MemNode → MemNode
reset_node node = record node { first_avail = node.begin; size_avail = node.size }

-- The pool as `spr_memset` leaves it, with the fields that are set behind it.
unfoldable pub new_pool : (addr parent mutex owner : ℕ) → List (List MemNode) → Pool
new_pool addr parent mutex owner nodes = record {
  addr = addr;
  nodes = nodes;
  parent = parent;
  cleanups = [];
  free_cleanups = [];
  mutex = mutex;
  owner = owner;
}

-- The node is registered in the pool that lies in it, and the pool in its parent.
unfoldable pub install : (addr parent mutex owner index : ℕ) → MemNode → Cmd Created
unfolding reset_node new_pool
install addr parent mutex owner index node =
    elim (register index (reset_node node) (replicate max_pool_slot [])) [
      | none ↦ fault_cmd
      | some nodes ↦ pure (created (new_pool addr parent mutex owner nodes))
    ]

module _ (sys : System) where
  -- The mutex is the parent's, or a new one that lies behind the pool; the node given is past the
  -- pool's own structure, `addr` is where that structure lies.
  unfoldable pub create_in : Option Pool → (addr index : ℕ) → MemNode → Cmd Created
  unfolding set_aside install
  create_in (some parent) addr index node =
      install addr parent.addr parent.mutex sys.self index node
  create_in none addr index node = do
    err ← Mutex.init sys node.begin 0x5
    if eq_ℤ err success
        then install addr 0 node.begin sys.self index (set_aside sizeof_mutex node)
        else Memory.free node.addr >> pure (failed err)

  -- Without a node, errno; else the structure of the pool is set aside and cleared.
  unfoldable pub create_node : Option Pool → (index : ℕ) → Option MemNode → Cmd Created
  unfolding set_aside create_in Memory.memzero
  create_node parent index none = do err ← Mutex.get_errno sys; pure (failed err)
  create_node parent index (some node) = do
    Memory.memzero node.begin sizeof_mempool
    create_in parent node.begin index (set_aside sizeof_mempool node)

  -- `spr_pool_create1`; that the pool becomes a child of its parent is `add_child` of Pool/Tree
  unfoldable pub create : ℕ → Option Pool → Cmd Created
  unfolding Word.add Word.mul create_node
  create size parent =
      let aligned = align_allocation size in
      let total = Word.add aligned sizeof_mempool in
      let npages = get_npages total in
      let index = npages - 1 in
      if aligned == 0
      then pure (failed failure)
      else if ltb max_pool_slot index
      then pure (failed failure)
      else do node ← memnode_allocate sys (Word.mul npages page_size); create_node parent index node

  -- `spr_pool_create`; `none` is NULL
  unfoldable pub pool_create : ℕ → Option Pool → Cmd (Option Pool)
  unfolding create
  pool_create size parent = do
    r ← create size parent
    pure (elim r [ failed err ↦ none | created pool ↦ some pool ])
