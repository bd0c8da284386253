-- ===== src/Pool/Alloc/Edge.antt =====
-- `spr_palloc` outside the range that its slots serve: the requests that it refuses, that go to
-- `malloc`, that index past the slots, and whose size wraps around.
use spr.Base.{
  ℕ, zero, suc, ◌+◌, ◌*◌, ◌≤◌, ◌<◌, ◌≡◌, ◌≢◌, refl, ap, false, none, some, List, [], ◌∷◌, ◌==◌,
  ==_ne, arith, length,
}
use spr.Base.Word
use spr.Base.Word.{word}
use spr.Memory.{page_size}
use spr.Mutex
use spr.Mutex.Effect.{unlock-Quiet}
use spr.Sys.{World, System, Run, fault, Returns, returns, Returns-bind, Returns-eq, and_then}
use spr.Pool.{MemNode, Pool, max_pool_slot}
use spr.Pool.Size.{align_allocation, get_npages}
use spr.Pool.Size.Bounds.{align_allocation_fits, align_allocation_wraps}
use spr.Pool.Alloc.{
  carve, register, search_slots, register_node, grow, palloc_node, unlock_return, palloc_rounds,
  palloc,
}
use spr.Pool.Alloc.Safe.{slot_limit, memnode_allocate-some}

-- Past the last slot the search finds nothing, and there is no slot to register a node in.
search_slots-past :
    (index n : ℕ) (ns : List (List MemNode)) → length ns ≤ index → search_slots index n ns ≡ none
unfolding search_slots
search_slots-past index n [] h = refl
search_slots-past zero n (ch ∷ rest) h = absurd (omega arith)
search_slots-past (suc index) n (ch ∷ rest) h = rw (search_slots-past index n rest (omega arith))

register-past :
    (index : ℕ) (m : MemNode) (ns : List (List MemNode))
    → length ns ≤ index
    → register index m ns ≡ none
unfolding register
register-past index m [] h = refl
register-past zero m (ch ∷ rest) h = absurd (omega arith)
register-past (suc index) m (ch ∷ rest) h = rw (register-past index m rest (omega arith))

register_node-past :
    (p : Pool) (n index : ℕ) (m : MemNode) (w : World)
    → length p.nodes ≤ index
    → register_node p n index (some m) w ≡ fault
unfolding register_node
register_node-past p n index m w h = rw (register-past index (carve n m) p.nodes h, register_node)

palloc_node-past :
    (sys : System) (p : Pool) (n npages index : ℕ) (w : World)
    → length p.nodes ≤ index
    → (sys.malloc w.log (Word.mul npages page_size) == 0) ≡ false
    → palloc_node sys p n npages index w ≡ fault
unfolding palloc_node grow
palloc_node-past sys p n npages index w h nz =
    rw (search_slots-past index n p.nodes h, palloc_node)
      (rw (memnode_allocate-some sys (Word.mul npages page_size) w nz)
        (register_node-past p n index _ _ h))

-- A request of 81865 to 85960 bytes reaches slot 20 of an array of twenty: where the system has
-- memory for it once the lock is taken, `spr_palloc` writes past `nodes`.
pub palloc-slot_twenty :
    (sys : System) (size : ℕ)
    → slot_limit < size
    → size ≤ slot_limit + page_size
    → (p : Pool) (w : World) → length p.nodes ≡ max_pool_slot
    → Returns (λ _ w'. sys.malloc w'.log (21 * page_size) ≢ 0) (Mutex.lock sys p.mutex w)
    → palloc sys p size w ≡ fault
unfolding palloc palloc_rounds get_npages Word.add Word.mul
palloc-slot_twenty sys size lo hi p w count gives =
    let fits = align_allocation_fits size (omega arith) in
    let nz : (align_allocation size == 0) ≡ false = ground arith in
    let pages : get_npages (align_allocation size) ≡ 21 = ground arith in
    rw (nz, pages)
      (ap (λ (r : Run (ℕ × Pool)). and_then r (unlock_return sys))
        (Returns-eq {b = fault} gives λ _ w' ne.
          palloc_node-past sys p (align_allocation size) 21 20 w' (omega arith) (==_ne _ 0 ne)))

-- The block is the whole rest of the address space, and more.
abbrev Overruns : ℕ → ℕ × Pool → World → Type 0
Overruns size r w' = (r.0 ≢ 0) × (word ≤ r.0 + size)

-- A request within seven bytes of the address space is refused: NULL, and the pool as it was.
pub palloc-refuses :
    (sys : System) (size : ℕ) (p : Pool) (w : World)
    → size < word
    → word ≤ size + 7
    → Returns (λ r w'. (r.0 ≡ 0) × (r.1 ≡ p)) (palloc sys p size w)
unfolding palloc palloc_rounds unlock_return
palloc-refuses sys size p w h wraps =
    rw (align_allocation_wraps size h wraps)
      (Returns-bind (unlock-Quiet sys p.mutex w) λ _ w' q. returns (refl, refl))
