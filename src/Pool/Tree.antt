-- ===== src/Pool/Tree.antt =====
-- Pools with their children: `spr_pool_add_child`, `spr_pool_clear` and `spr_pool_destroy` of
-- lib/memory/spr_pool.c. The pointers `child` and `brother` are the list of children, first to last.
pub mod Reset
pub mod Clear
pub mod Destroy
use spr.Base.{ℕ, ◌+◌, Bool, false, ◌&&◌, ◌||◌, leb, ltb, List, [], ◌∷◌, map, ◌==◌, if◌then◌else◌}
use spr.Sys.{System, Cmd, pure, fault_cmd, ◌>>=◌, ◌>>◌}
use spr.Memory
use spr.Mutex
use spr.Pool.{MemNode, Pool}
use spr.Pool.Cleanup.{cleanup_run_all}
use spr.Pool.Create.{reset_node}

mutual
  pub data Tree : Type 0 where
    node : Pool → Forest → Tree

  pub data Forest : Type 0 where
    nil : Forest
    cons : Tree → Forest → Forest

-- `spr_pool_add_child`: the new child is the first, and knows its parent
unfoldable pub add_child : Tree → Tree → Tree
add_child (node parent children) (node child grandchildren) =
    node parent (cons (node (record child { parent = parent.addr }) grandchildren) children)

-- Every node of every slot is empty again.
unfoldable pub reset_slots : Pool → Pool
reset_slots pool = record pool { nodes = map (map reset_node) pool.nodes }

module _ (sys : System) where
  unfoldable mutual
    unfolding reset_slots

    -- `spr_pool_clear`: only the owner's thread does anything
    pub clear : Tree → Cmd Tree
    clear (node pool children) =
        let body = do
          Mutex.lock sys pool.mutex
          pool' ← cleanup_run_all pool
          children' ← clear_children children
          Mutex.unlock sys pool.mutex
          pure (node (reset_slots pool') children')
        in if pool.owner == sys.self then body else pure (node pool children)

    pub clear_children : Forest → Cmd Forest
    clear_children nil = pure nil
    clear_children (cons t ts) = do t' ← clear t; ts' ← clear_children ts; pure (cons t' ts')

-- Whether the address lies in the node's memory.
abbrev pub holds : ℕ → MemNode → Bool
holds a n = leb n.addr a && ltb a (n.addr + n.dealloc_size)

-- One slot of `spr_pool_destroy`: each node is given back; whether the pool itself lay in one.
unfoldable pub free_slot : ℕ → List MemNode → Cmd Bool
unfolding Memory.free
free_slot home [] = pure false
free_slot home (n ∷ ns) = do
  Memory.free n.addr
  gone ← free_slot home ns
  pure (holds home n || gone)

-- The loop over the slots reads `pool->nodes` anew for each, which is a fault once the pool's own
-- memory has been given back.
unfoldable pub free_slots : ℕ → Bool → List (List MemNode) → Cmd (Unit {0})
free_slots home gone [] = pure tt
free_slots home gone (ch ∷ rest) =
    if gone then fault_cmd else do g ← free_slot home ch; free_slots home g rest

module _ (sys : System) where
  unfoldable mutual
    unfolding free_slots cleanup_run_all

    -- `spr_pool_destroy`: only the owner's thread does anything
    pub destroy : Tree → Cmd (Unit {0})
    destroy (node pool children) =
        let body = do
          pool' ← cleanup_run_all pool
          destroy_children children
          free_slots pool'.addr false pool'.nodes
        in if pool.owner == sys.self then body else pure tt

    pub destroy_children : Forest → Cmd (Unit {0})
    destroy_children nil = pure tt
    destroy_children (cons t ts) = destroy t >> destroy_children ts
