-- ===== src/Pool/Alloc.antt =====
-- The blocks of a pool: `spr_memnode_allocate`, `spr_palloc`, `spr_pcalloc` and
-- `spr_pool_cleanup_add1`, which call one another, of lib/memory/spr_pool.c.
pub mod Outcome
pub mod Safe
pub mod Sequence
pub mod Rounds
pub mod Edge
use mathlib.Core.Option
use spr.Base.{
  ℕ, zero, suc, ◌+◌, ◌-◌, Option, none, some, List, [], ◌∷◌, leb, ltb, ◌==◌, if◌then◌else◌,
}
use spr.Base.Word
use spr.Sys.{System, Cmd, out_of_fuel, fault_cmd, pure, ◌>>=◌, ◌>>◌}
use spr.Memory
use spr.Memory.{page_size}
use spr.Mutex
use spr.Pool.{
  max_pool_slot, sizeof_memnode, sizeof_cleanup_node, MemNode, Handler, spr_free, CleanupNode, Pool,
}
use spr.Pool.Size.{align_allocation, get_npages}

-- `node->size_avail -= size; node->first_avail += size;`
unfoldable pub carve : ℕ → MemNode → MemNode
unfolding Word.add Word.sub
carve size n = record n {
  first_avail = Word.add n.first_avail size;
  size_avail = Word.sub n.size_avail size;
}

-- The inner loop of the search: the first node of a slot with room, its block, and the slot after.
unfoldable pub first_fit : ℕ → List MemNode → Option (ℕ × List MemNode)
first_fit size [] = none
first_fit size (n ∷ ns) =
    if leb size n.size_avail
    then some (n.first_avail, carve size n ∷ ns)
    else Option.map (λ (mem, rest). (mem, n ∷ rest)) (first_fit size ns)

-- The outer loop, from slot `index` on.
unfoldable pub search_slots : ℕ → ℕ → List (List MemNode) → Option (ℕ × List (List MemNode))
search_slots index size [] = none
search_slots (suc index) size (ch ∷ rest) =
    Option.map (λ (mem, rest'). (mem, ch ∷ rest')) (search_slots index size rest)
search_slots zero size (ch ∷ rest) = elim (first_fit size ch) [
  | some (mem, ch') ↦ some (mem, ch' ∷ rest)
  | none ↦ Option.map (λ (mem, rest'). (mem, ch ∷ rest')) (search_slots zero size rest)
]

-- `temp = nodes[index]; nodes[index] = node; node->next = temp;`, `none` out of bounds
unfoldable pub register : ℕ → MemNode → List (List MemNode) → Option (List (List MemNode))
register index n [] = none
register zero n (ch ∷ rest) = some ((n ∷ ch) ∷ rest)
register (suc index) n (ch ∷ rest) = Option.map (λ rest'. ch ∷ rest') (register index n rest)

-- `&node->begin`, and the fields that `spr_memnode_allocate` sets
unfoldable pub new_node : ℕ → ℕ → MemNode
unfolding Word.add Word.sub
new_node mem size = record {
  addr = mem;
  begin = Word.add mem sizeof_memnode;
  first_avail = Word.add mem sizeof_memnode;
  size = Word.sub size sizeof_memnode;
  size_avail = Word.sub size sizeof_memnode;
  dealloc_size = size;
}

-- Registration in slot `index`, a fault if there is no such slot, and the first block of the node.
unfoldable pub register_node : Pool → (size index : ℕ) → Option MemNode → Cmd (ℕ × Pool)
register_node pool size index none = pure (0, pool)
register_node pool size index (some n) = elim (register index (carve size n) pool.nodes) [
  | none ↦ fault_cmd
  | some nodes ↦ pure (n.first_avail, record pool { nodes = nodes })
]

module _ (sys : System) where
  unfoldable pub memnode_allocate : ℕ → Cmd (Option MemNode)
  memnode_allocate size = do
    mem ← Memory.malloc sys size
    pure (if mem == 0 then none else some (new_node mem size))

  -- A node of `npages` pages in slot `index`, with the first block carved.
  unfoldable pub grow : Pool → (size npages index : ℕ) → Cmd (ℕ × Pool)
  unfolding Word.mul
  grow pool size npages index = do
    node ← memnode_allocate (Word.mul npages page_size)
    register_node pool size index node

  -- What `spr_palloc` does under the lock.
  unfoldable pub palloc_node : Pool → (size npages index : ℕ) → Cmd (ℕ × Pool)
  palloc_node pool size npages index = elim (search_slots index size pool.nodes) [
    | some (mem, nodes) ↦ pure (mem, record pool { nodes = nodes })
    | none ↦ grow pool size npages index
  ]

  -- the node that `spr_pool_cleanup_add1` takes, from the reserve or from `palloc`
  unfoldable pub take_cleanup : (Pool → ℕ → Cmd (ℕ × Pool)) → Pool → Cmd (ℕ × Pool)
  take_cleanup palloc pool = elim (pool.free_cleanups) [
    | [] ↦ palloc pool sizeof_cleanup_node
    | node ∷ rest ↦ pure (node.addr, record pool { free_cleanups = rest })
  ]

  -- `spr_pool_cleanup_add1`, given `spr_palloc`; a NULL node is written through
  unfoldable pub cleanup_add_by : (Pool → ℕ → Cmd (ℕ × Pool)) → Pool → ℕ → Handler → Cmd Pool
  cleanup_add_by palloc pool argument handler = do
    Mutex.lock sys pool.mutex
    (node, pool') ← take_cleanup palloc pool
    if node == 0 then fault_cmd else do
      let entry : CleanupNode = record { addr = node; argument = argument; handler = handler }
      Mutex.unlock sys pool.mutex
      pure (record pool' { cleanups = entry ∷ pool'.cleanups })

  -- The request that no slot can hold goes to `spr_malloc`, and is noted for `spr_free`.
  unfoldable pub palloc_large : (Pool → ℕ → Cmd (ℕ × Pool)) → Pool → ℕ → Cmd (ℕ × Pool)
  palloc_large palloc pool size = do
    mem ← Memory.malloc sys size
    if mem == 0
        then pure (0, pool)
        else do pool' ← cleanup_add_by palloc pool mem spr_free; pure (mem, pool')

  -- The labels `done` and `failed`: unlock, and return.
  unfoldable pub unlock_return : ℕ × Pool → Cmd (ℕ × Pool)
  unlock_return (mem, pool) = Mutex.unlock sys pool.mutex >> pure (mem, pool)

  -- `spr_palloc` by rounds of its recursion through `spr_pool_cleanup_add1`.
  unfoldable pub palloc_rounds : ℕ → Pool → ℕ → Cmd (ℕ × Pool)
  palloc_rounds zero pool size = λ _. out_of_fuel
  palloc_rounds (suc k) pool size =
      let again = palloc_rounds k in
      let aligned = align_allocation size in
      let npages = get_npages aligned in
      let index = npages - 1 in
      if aligned == 0
      then unlock_return (0, pool)
      else if ltb max_pool_slot index
      then palloc_large again pool aligned >>= unlock_return
      else (Mutex.lock sys pool.mutex >> palloc_node pool aligned npages index) >>= unlock_return

  -- Two rounds are enough: a cleanup node is small.
  unfoldable pub palloc : Pool → ℕ → Cmd (ℕ × Pool)
  palloc = palloc_rounds 2

  unfoldable pub pcalloc : Pool → ℕ → Cmd (ℕ × Pool)
  pcalloc pool size = do
    (mem, pool') ← palloc pool size
    if mem == 0 then pure (0, pool') else do Memory.memzero mem size; pure (mem, pool')

  -- `spr_pool_cleanup_add1`
  unfoldable pub cleanup_add : Pool → ℕ → Handler → Cmd Pool
  cleanup_add = cleanup_add_by palloc
