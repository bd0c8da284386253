-- ===== src/Pool/Alloc/Safe.antt =====
-- `spr_palloc` hands out a fresh block or NULL, and keeps the pool in order.
use spr.Base.{
  ℕ, ◌+◌, ◌-◌, ◌*◌, ◌%◌, ◌≤◌, ◌<◌, ◌≡◌, ◌≢◌, refl, sym, subst, inl, inr, true, false, Option, none,
  some, List, ◌∷◌, ◌==◌, arith, ltb, Bool-cases,
}
use spr.Base.Word
use spr.Base.Word.{word}
use spr.Memory
use spr.Memory.{page_size}
use spr.Memory.Live.{within, live, IsAllocator}
use spr.Mutex.Effect.{Quiet, lock-Quiet, unlock-Quiet}
use spr.Sys.{Event, allocated, World, System, ok, Returns, returns, Returns-bind}
use spr.Pool.{MemNode, Pool, sizeof_memnode, max_pool_slot}
use spr.Pool.Size.{align_allocation, get_npages}
use spr.Pool.Size.Bounds.{align_allocation_fits, get_npages_fits}
use spr.Pool.Alloc.{
  carve, new_node, register, search_slots, memnode_allocate, register_node, grow, palloc_node,
  unlock_return, palloc_rounds, palloc,
}
use spr.Pool.Alloc.Outcome.{Owns, Allocated, carved-Allocated, null-Allocated, grown-Allocated}
use spr.Pool.Blocks.{IsPool}
use spr.Pool.Blocks.Carve.{Search, search_slots-Search}
use spr.Pool.Blocks.Register.{Registered, register-Registered, fresh_node}

-- The block handed out is that of the node before it was carved.
new_node_block :
    (mem size : ℕ)
    → mem + sizeof_memnode < word
    → (new_node mem size).first_avail ≡ mem + sizeof_memnode
unfolding new_node Word.add
new_node_block mem size h = omega arith

module _ (sys : System) (size : ℕ) (w : World) where
  abbrev pub after : List Event
  after = allocated size (sys.malloc w.log size) ∷ w.log

  pub memnode_allocate-none :
      (sys.malloc w.log size == 0) ≡ true
      → memnode_allocate sys size w ≡ ok none (record w { log = after })
  unfolding memnode_allocate Memory.malloc
  memnode_allocate-none z = rw z

  pub memnode_allocate-some :
      (sys.malloc w.log size == 0) ≡ false
      → memnode_allocate sys size w
        ≡ ok
            (some (new_node (sys.malloc w.log size) size))
            (record { log = after; counter = Word.add w.counter size })
  unfolding memnode_allocate Memory.malloc
  memnode_allocate-some nz = rw (nz, nz)

-- `n` bytes of the pool were handed out, or NULL.
abbrev pub HandsOut : ℕ → Pool → ℕ × Pool → World → Type 0
HandsOut n p r w' = Allocated p n r.0 r.1 w'.log

module _ (sys : System) (lawful : IsAllocator sys) (n : ℕ) (aligned : n % 8 ≡ 0) (p : Pool)
    (w : World) (is : IsPool p) (own : Owns p w.log) where
  -- The node that was got takes slot `index`.
  register_node-Allocated :
      (mem index counter : ℕ) {ns : List (List MemNode)}
      → let bytes = (index + 1) * page_size in
        mem ≢ 0
        → mem % 16 ≡ 0
        → mem + bytes < word
        → n + sizeof_memnode ≤ bytes
        → ((a : ℕ) → within a mem bytes ≡ 1 → live a w.log ≡ 0)
        → register index (carve n (new_node mem bytes)) p.nodes ≡ some ns
        → Registered 0 index (fresh_node mem n index) p.nodes ns
        → Returns (HandsOut n p) (
            register_node p n index
              (some (new_node mem bytes))
              (record { log = allocated bytes mem ∷ w.log; counter = counter }))
  unfolding register_node
  register_node-Allocated mem index counter {ns} ne on bounded room fresh e reg =
      rw (e, register_node)
        (returns (
          subst
            (λ b.
              Allocated p n b (record p { nodes = ns })
                (allocated ((index + 1) * page_size) mem ∷ w.log))
            (sym (new_node_block mem ((index + 1) * page_size) (omega arith)))
            (grown-Allocated aligned is own mem index (omega arith) on bounded room fresh reg)))

  grow-Allocated :
      (npages index : ℕ)
      → npages ≡ index + 1
      → index < max_pool_slot
      → n + sizeof_memnode ≤ npages * page_size
      → Returns (HandsOut n p) (grow sys p n npages index w)
  unfolding grow register_node
  grow-Allocated npages index e h room =
      let bytes : Word.mul npages page_size ≡ size =
        rw e (Word.mul-fits (index + 1) page_size (omega arith)) in
      rw bytes (elim (Bool-cases (mem == 0)) [
        | inl z ↦
            rw (memnode_allocate-none sys size w z)
              (returns (null-Allocated aligned is λ a. ground (arith, own a)))
        | inr nz ↦
            let (ns, e', reg) =
              register-Registered index (fresh_node mem n index) p.nodes
                (omega (arith, is.count)) in
            rw (memnode_allocate-some sys size w nz) (
              register_node-Allocated mem index (Word.add w.counter size) (ground arith)
                (lawful.aligned w.log size) (lawful.bounded w.log size (ground arith)) (omega arith)
                (λ a. lawful.fresh w.log size a (ground arith)) e' reg)
      ])
    where
      size : ℕ
      size = (index + 1) * page_size

      mem : ℕ
      mem = sys.malloc w.log size

  pub palloc_node-Allocated :
      (npages index : ℕ)
      → npages ≡ index + 1
      → index < max_pool_slot
      → n + sizeof_memnode ≤ npages * page_size
      → Returns (HandsOut n p) (palloc_node sys p n npages index w)
  unfolding palloc_node
  palloc_node-Allocated npages index e h room =
      go (search_slots index n p.nodes) refl (search_slots-Search n index p.nodes)
    where
      go :
          (r : Option (ℕ × List (List MemNode)))
          → search_slots index n p.nodes ≡ r
          → Search n index p.nodes r
          → Returns (HandsOut n p) (palloc_node sys p n npages index w)
      go none e' full = rw (e', palloc_node) (grow-Allocated npages index e h room)
      go (some (mem, ns)) e' found =
          rw (e', palloc_node) (returns (carved-Allocated aligned is own found))

-- The largest request that twenty slots serve.
abbrev pub slot_limit : ℕ
slot_limit = 81864

-- The slot of such a request is there, and its pages hold the block.
pub slot_of_small :
    (size : ℕ)
    → size ≤ slot_limit
    → let n = align_allocation size in
      let npages = get_npages n in
      (0 < n)
      × (n % 8 ≡ 0)
      × (npages ≡ npages - 1 + 1)
      × (npages - 1 < max_pool_slot)
      × (n + sizeof_memnode ≤ npages * page_size)
slot_of_small size h = omega (
  arith,
  align_allocation_fits size (omega arith),
  get_npages_fits (align_allocation size) (omega (arith, align_allocation_fits size (omega arith))),
)

-- A quiet step keeps what a pool owns, and what was handed out.
pub Owns-Quiet : (p : Pool) {w w' : World} → Quiet w w' → Owns p w.log → Owns p w'.log
Owns-Quiet p q own a = omega (arith, own a, q.live_kept a)

pub unlock_return-HandsOut :
    (sys : System) {p : Pool} {n : ℕ} (r : ℕ × Pool) (w : World)
    → HandsOut n p r w
    → Returns (HandsOut n p) (unlock_return sys r w)
unfolding unlock_return
unlock_return-HandsOut sys r w al = Returns-bind (unlock-Quiet sys r.1.mutex w) λ _ w' q.
    returns (record {
      valid = al.valid;
      owns = Owns-Quiet r.1 q al.owns;
      block = al.block;
      used = al.used;
      rest = al.rest;
    })

-- `spr_palloc` of up to 81864 bytes, on a pool in order whose nodes are live: the run ends without
-- fault, with NULL or a block of the rounded size, aligned and inside the address space; the
-- addresses in use grow by exactly that block, and the pool stays in order.
pub palloc-Allocated :
    (sys : System)
    → IsAllocator sys
    → (size : ℕ) → size ≤ slot_limit
    → (p : Pool) (w : World) → IsPool p
    → Owns p w.log
    → Returns (HandsOut (align_allocation size) p) (palloc sys p size w)
unfolding palloc palloc_rounds
palloc-Allocated sys lawful size h p w is own =
    let (ne, aligned, e, slot, room) = slot_of_small size h in
    let nz : (align_allocation size == 0) ≡ false = ground arith in
    let small : ltb max_pool_slot (get_npages (align_allocation size) - 1) ≡ false = ground arith in
    rw (nz, small)
      (Returns-bind
        (Returns-bind (lock-Quiet sys p.mutex w) λ _ w' q.
          palloc_node-Allocated sys lawful (align_allocation size) aligned p w' is
            (Owns-Quiet p q own) (get_npages (align_allocation size)) _ e slot room)
        λ r w' al. unlock_return-HandsOut sys r w' al)
