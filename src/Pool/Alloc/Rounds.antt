-- ===== src/Pool/Alloc/Rounds.antt =====
-- The recursion of `spr_palloc` through `spr_pool_cleanup_add1` ends after two rounds.
use spr.Base.{
  ℕ, suc, ◌-◌, ◌≡◌, refl, List, [], ◌∷◌, Bool, true, false, Bool-cases, inl, inr, Option, none,
  some, ◌==◌, ltb, if◌then◌else◌,
}
use spr.Memory
use spr.Memory.{page_size}
use spr.Mutex
use spr.Mutex.Effect.{lock-Quiet, unlock-Quiet}
use spr.Sys.{System, World, Run, Cmd, ok, fault, and_then, ◌>>=◌, ◌>>◌, Returns, returns}
use spr.Pool.{Handler, spr_free, MemNode, Pool, CleanupNode, sizeof_cleanup_node, max_pool_slot}
use spr.Pool.Size.{align_default, align_allocation, get_npages}
use spr.Base.Word
use spr.Pool.Alloc.{
  take_cleanup, cleanup_add_by, palloc_large, palloc_rounds, palloc, register, carve, search_slots,
  memnode_allocate, register_node, grow, palloc_node, unlock_return,
}

-- A cleanup node is small, so its allocation does not come back here.
palloc_rounds-cleanup :
    (sys : System) (k : ℕ) (p : Pool)
    → palloc_rounds sys (suc k) p sizeof_cleanup_node ≡ palloc_rounds sys 1 p sizeof_cleanup_node
unfolding palloc_rounds align_allocation align_default get_npages Word.add
palloc_rounds-cleanup sys k p = refl

take_cleanup-rounds :
    (sys : System) (k : ℕ) (p : Pool)
    → take_cleanup sys (palloc_rounds sys (suc k)) p ≡ take_cleanup sys (palloc_rounds sys 1) p
unfolding take_cleanup
take_cleanup-rounds sys k p = go (p.free_cleanups) refl
  where
    go :
        (f : List CleanupNode)
        → p.free_cleanups ≡ f
        → take_cleanup sys (palloc_rounds sys (suc k)) p ≡ take_cleanup sys (palloc_rounds sys 1) p
    go [] e = rw (e, take_cleanup) (palloc_rounds-cleanup sys k p)
    go (n ∷ ns) e = rw (e, take_cleanup)

palloc_large-rounds :
    (sys : System) (k : ℕ) (p : Pool) (n : ℕ)
    → palloc_large sys (palloc_rounds sys (suc k)) p n ≡ palloc_large sys (palloc_rounds sys 1) p n
unfolding palloc_large cleanup_add_by
palloc_large-rounds sys k p n = simp (take_cleanup-rounds sys k)

-- The run ends, with a value or in undefined behaviour.
pub data Halts {A : Type 0} : Run A → Type 0 where
  returned : {a : A} {w : World} → Halts (ok a w)
  faulted : Halts fault

Halts-bind :
    {A B : Type 0} {r : Run A} {k : A → Cmd B}
    → Halts r
    → ((a : A) (w : World) → Halts (k a w))
    → Halts (and_then r k)
Halts-bind returned h = h _ _
Halts-bind faulted h = faulted

Returns-Halts : {A : Type 0} {P : A → World → Type 0} {r : Run A} → Returns P r → Halts r
Returns-Halts (returns p) = returned

module _ (sys : System) where
  if-Halts :
      {A : Type 0} (b : Bool) (c d : Cmd A) (w : World)
      → Halts (c w)
      → Halts (d w)
      → Halts ((if b then c else d) w)
  if-Halts true c d w h k = h
  if-Halts false c d w h k = k

  unlock_return-Halts : (r : ℕ × Pool) (w : World) → Halts (unlock_return sys r w)
  unfolding unlock_return
  unlock_return-Halts r w =
      Halts-bind (Returns-Halts (unlock-Quiet sys r.1.mutex w)) λ _ w'. returned

  register_node-Halts :
      (p : Pool) (size index : ℕ) (node : Option MemNode) (w : World)
      → Halts (register_node p size index node w)
  unfolding register_node
  register_node-Halts p size index none w = returned
  register_node-Halts p size index (some n) w = go (register index (carve size n) p.nodes) refl
    where
      go :
          (r : Option (List (List MemNode)))
          → register index (carve size n) p.nodes ≡ r
          → Halts (register_node p size index (some n) w)
      go none e = rw (e, register_node) faulted
      go (some ns) e = rw (e, register_node) returned

  malloc-Halts : (size : ℕ) (w : World) → Halts (Memory.malloc sys size w)
  unfolding Memory.malloc
  malloc-Halts size w = elim (Bool-cases (sys.malloc w.log size == 0)) [
    | inl e ↦ rw (e) returned
    | inr e ↦ rw (e) returned
  ]

  grow-Halts :
      (p : Pool) (size npages index : ℕ) (w : World) → Halts (grow sys p size npages index w)
  unfolding grow memnode_allocate
  grow-Halts p size npages index w =
      Halts-bind (Halts-bind (malloc-Halts (Word.mul npages page_size) w) λ mem w'. returned)
        λ node w'. register_node-Halts p size index node w'

  palloc_node-Halts :
      (p : Pool) (size npages index : ℕ) (w : World) → Halts (palloc_node sys p size npages index w)
  unfolding palloc_node
  palloc_node-Halts p size npages index w = go (search_slots index size p.nodes) refl
    where
      go :
          (r : Option (ℕ × List (List MemNode)))
          → search_slots index size p.nodes ≡ r
          → Halts (palloc_node sys p size npages index w)
      go none e = rw (e, palloc_node) (grow-Halts p size npages index w)
      go (some x) e = rw (e, palloc_node) returned

  -- What a slot holds is found, or got, under the lock.
  locked-Halts :
      (p : Pool) (size npages index : ℕ) (w : World)
      → Halts (
          ((Mutex.lock sys p.mutex >> palloc_node sys p size npages index) >>= unlock_return sys) w)
  locked-Halts p size npages index w =
      Halts-bind
        (Halts-bind (Returns-Halts (lock-Quiet sys p.mutex w))
          λ _ w'. palloc_node-Halts p size npages index w')
        unlock_return-Halts

  node-Halts : (p : Pool) (w : World) → Halts (palloc_rounds sys 1 p sizeof_cleanup_node w)
  unfolding palloc_rounds align_allocation align_default get_npages Word.add
  node-Halts p w = locked-Halts p 24 1 0 w

  take_cleanup-Halts : (p : Pool) (w : World) → Halts (take_cleanup sys (palloc_rounds sys 1) p w)
  unfolding take_cleanup
  take_cleanup-Halts p w = go (p.free_cleanups) refl
    where
      go :
          (f : List CleanupNode)
          → p.free_cleanups ≡ f
          → Halts (take_cleanup sys (palloc_rounds sys 1) p w)
      go [] e = rw (e, take_cleanup) (node-Halts p w)
      go (n ∷ ns) e = rw (e, take_cleanup) returned

  cleanup_add-Halts :
      (p : Pool) (argument : ℕ) (handler : Handler) (w : World)
      → Halts (cleanup_add_by sys (palloc_rounds sys 1) p argument handler w)
  unfolding cleanup_add_by
  cleanup_add-Halts p argument handler w =
      Halts-bind (Returns-Halts (lock-Quiet sys p.mutex w)) λ _ w'.
        Halts-bind (take_cleanup-Halts p w') λ r w''.
          if-Halts (r.0 == 0) _ _ w'' faulted
            (Halts-bind (Returns-Halts (unlock-Quiet sys p.mutex w'')) λ _ v. returned)

  palloc_large-Halts :
      (p : Pool) (size : ℕ) (w : World) → Halts (palloc_large sys (palloc_rounds sys 1) p size w)
  unfolding palloc_large
  palloc_large-Halts p size w = Halts-bind (malloc-Halts size w) λ mem w'.
      if-Halts (mem == 0) _ _ w' returned
        (Halts-bind (cleanup_add-Halts p mem spr_free w') λ p' w''. returned)

  palloc-Halts : (p : Pool) (size : ℕ) (w : World) → Halts (palloc sys p size w)
  unfolding palloc palloc_rounds
  palloc-Halts p size w =
      let n = align_allocation size in
      let index = get_npages n - 1 in
      if-Halts (n == 0) _ _ w (unlock_return-Halts (0, p) w) (
        if-Halts (ltb max_pool_slot index) _ _ w
          (Halts-bind (palloc_large-Halts p n w) unlock_return-Halts)
          (locked-Halts p n (get_npages n) index w))

-- Two rounds of the recursion are enough for `spr_palloc`, on any pool, of any size and with any
-- answers of the system: with them the run ends, with an address or NULL or in undefined behaviour, and
-- with more of them it is the same run.
pub palloc-rounds :
    (sys : System) (k : ℕ) (p : Pool) (size : ℕ) (w : World)
    → Halts (palloc sys p size w) × (palloc_rounds sys (suc (suc k)) p size ≡ palloc sys p size)
unfolding palloc palloc_rounds
palloc-rounds sys k p size w =
    (palloc-Halts sys p size w, rw (palloc_large-rounds sys k p (align_allocation size)) refl)
