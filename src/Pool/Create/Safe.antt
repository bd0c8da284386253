-- ===== src/Pool/Create/Safe.antt =====
-- What `spr_pool_create1` makes: a pool in order that lies in its first node.
use spr.Base.{ℕ, ◌+◌, ◌-◌, ◌*◌, ◌≤◌, ◌≡◌, ◌⊎◌, Option, none, some, List, [], false, replicate}
use spr.Base.Int.{eq_ℤ}
use spr.Base.Word
use spr.Memory
use spr.Memory.{page_size}
use spr.Mutex.{success}
use spr.Sys.{Event, World}
use spr.Pool.{MemNode, Pool, max_pool_slot, sizeof_memnode, sizeof_mempool, sizeof_mutex}
use spr.Pool.Size.{align_allocation, get_npages}
use spr.Pool.Alloc.{register, new_node}
use spr.Pool.Alloc.Outcome.{Owns}
use spr.Pool.Blocks.{users, IsPool}
use spr.Pool.Create.{Created, failed, created, set_aside}

abbrev empty_slots : List (List MemNode)
empty_slots = replicate max_pool_slot []

-- The pool has one node, in slot `index`, with room for `n` bytes, of which none is in use, and lies
-- in that node behind the header.
pub record IsNew (n index : ℕ) (log : List Event) (p : Pool) : Type 0 where
  pub valid : IsPool p
  pub owns : Owns p log
  pub unused : (a : ℕ) → users a p.nodes ≡ 0
  pub node : MemNode
  pub only : register index node empty_slots ≡ some p.nodes
  pub room : n ≤ node.size_avail
  pub home : p.addr ≡ node.addr + sizeof_memnode
  pub sized : node.dealloc_size ≡ (index + 1) * page_size

-- The parent's mutex is shared; a root has its own, which takes forty bytes of the node.
abbrev pub slack : Option Pool → ℕ
slack (some q) = 0
slack none = sizeof_mutex

abbrev pub address_of : Option Pool → ℕ
address_of (some q) = q.addr
address_of none = 0

-- A new pool with room for `n` bytes less the slack; or a failure, if the system had no memory, or if
-- the mutex of a root could not be made.
abbrev pub Creates : ℕ → ℕ → Option Pool → Type 0 → Created → World → Type 0
Creates n index parent NoMemory (failed e) w' =
    NoMemory ⊎ ((parent ≡ none) × (eq_ℤ e success ≡ false))
Creates n index parent NoMemory (created p) w' =
    IsNew (n - slack parent) index w'.log p × (p.parent ≡ address_of parent)

-- The sizes of a node that holds the pool's structure, and the mutex of a root.
abbrev pub bytes_of : ℕ → ℕ
bytes_of index = (index + 1) * page_size

abbrev pool_node : (mem index : ℕ) → MemNode
pool_node mem index = set_aside sizeof_mempool (new_node mem (bytes_of index))

-- The largest first request of a pool that twenty slots serve.
abbrev pub create_limit : ℕ
create_limit = 81648

-- What is asked of the system for it: the slot of the node, and its bytes.
abbrev pub create_index : ℕ → ℕ
create_index size = get_npages (Word.add (align_allocation size) sizeof_mempool) - 1
