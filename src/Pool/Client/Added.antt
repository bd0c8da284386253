-- ===== src/Pool/Client/Added.antt =====
-- Blocks and new cleanups keep a pool in order: each takes memory that nothing else uses.
use spr.Base.{
  ℕ, ◌+◌, ◌≤◌, ◌≡◌, ◌≢◌, refl, sym, subst, ap, ◌∙◌, false, List, [], ◌∷◌, All, arith, ◌==◌,
  if◌then◌else◌, Bool-cases, inl, inr,
}
use spr.Base.Int.{ℤ}
use spr.Memory
use spr.Memory.Live.{within, IsAllocator}
use spr.Mutex
use spr.Mutex.Effect.{Quiet, lock-Quiet, unlock-Quiet}
use spr.Sys.{
  World, System, Cmd, Run, ok, fault, pure, ◌>>◌, ◌>>=◌, Returns, returns, Returns-bind,
  Returns-mono, Returns-Ends, fault_cmd,
}
use spr.Pool.{Handler, client, CleanupNode, Pool, sizeof_cleanup_node}
use spr.Pool.Size.{align_allocation}
use spr.Pool.Alloc.{palloc, pcalloc, cleanup_add, cleanup_add_by, take_cleanup}
use spr.Pool.Alloc.Outcome.{Allocated}
use spr.Pool.Alloc.Safe.{slot_limit, palloc-Allocated}
use spr.Pool.Alloc.Sequence.{taken}
use spr.Pool.Blocks.{users}
use spr.Pool.Client.{nodes_at, IsEntry, InOrder, in_order, InOrder-Quiet, Refuses}

module _ (sys : System) (lawful : IsAllocator sys) {before : ℕ → ℕ} {p : Pool}
    {blocks : List (ℕ × ℕ)} {w : World} (o : InOrder before (p, blocks) w) where
  -- The block that was handed out is one more of the client.
  Allocated-InOrder :
      (n mem : ℕ) (p' : Pool) (w' : World)
      → Allocated p n mem p' w'.log
      → InOrder before (p', (mem, n) ∷ blocks) w'
  Allocated-InOrder n mem p' w' al =
      let cleanups : p'.cleanups ≡ p.cleanups = ap (λ q. q.cleanups) al.rest in
      let free : p'.free_cleanups ≡ p.free_cleanups = ap (λ q. q.free_cleanups) al.rest in
      in_order p' ((mem, n) ∷ blocks) w' al.valid al.owns
        (subst (All IsEntry) (sym cleanups) o.entries) (subst (All IsEntry) (sym free) o.reserved)
        λ a. omega (arith, al.used a, o.sums a, ap (nodes_at a) cleanups, ap (nodes_at a) free)

  pub palloc-InOrder :
      (size : ℕ)
      → size ≤ slot_limit
      → Returns
          (λ r w'. InOrder before (r.1, (r.0, align_allocation size) ∷ blocks) w')
          (palloc sys p size w)
  palloc-InOrder size h =
      Returns-mono (palloc-Allocated sys lawful size h p w o.valid o.owns)
        λ r w' al. Allocated-InOrder (align_allocation size) r.0 r.1 w' al

  pub pcalloc-InOrder :
      (size : ℕ)
      → size ≤ slot_limit
      → Returns
          (λ r w'. InOrder before (r.1, (r.0, align_allocation size) ∷ blocks) w')
          (pcalloc sys p size w)
  unfolding pcalloc Memory.memzero
  pcalloc-InOrder size h = Returns-bind (palloc-InOrder size h) λ (mem, p') w' i.
      elim (Bool-cases (mem == 0)) [
        | inl z ↦
            let null : mem ≡ 0 = ground (arith, z) in
            rw (z) (
              returns
                (subst (λ m. InOrder before (p', (m, align_allocation size) ∷ blocks) w') null i))
        | inr nz ↦
            rw (nz)
              (returns (InOrder-Quiet (record { live_kept = λ a. refl; counter_kept = refl }) i))
      ]

take_cleanup_new :
    (sys : System) (p : Pool) (w : World)
    → p.free_cleanups ≡ []
    → take_cleanup sys (palloc sys) p w ≡ palloc sys p sizeof_cleanup_node w
unfolding take_cleanup
take_cleanup_new sys p w e =
    ap
      (λ free.
        (elim free as (λ x. Cmd (ℕ × Pool)) [
          | [] ↦ palloc sys p sizeof_cleanup_node
          | node ∷ rest ↦ pure (node.addr, record p { free_cleanups = rest })
        ])
          w)
      e

take_cleanup_reused :
    (sys : System) (p : Pool) (n : CleanupNode) (rest : List CleanupNode) (w : World)
    → p.free_cleanups ≡ n ∷ rest
    → take_cleanup sys (palloc sys) p w ≡ ok (n.addr, record p { free_cleanups = rest }) w
unfolding take_cleanup
take_cleanup_reused sys p n rest w e =
    ap
      (λ free.
        (elim free as (λ x. Cmd (ℕ × Pool)) [
          | [] ↦ palloc sys p sizeof_cleanup_node
          | node ∷ rest ↦ pure (node.addr, record p { free_cleanups = rest })
        ])
          w)
      e

-- The size of a node is not rounded.
cleanup_node_fits : align_allocation sizeof_cleanup_node ≡ sizeof_cleanup_node
unfolding align_allocation spr.Pool.Size.align_default
cleanup_node_fits = refl

-- What `spr_pool_cleanup_add1` comes to: one more entry, or the write through NULL.
pub data Adds (sys : System) (before : ℕ → ℕ) (p : Pool) (blocks : List (ℕ × ℕ)) (w : World)
    : Run Pool → Type 0 where
  added :
      {p' : Pool} {w' : World}
      → InOrder before (p', blocks) w'
      → Adds sys before p blocks w (ok p' w')
  refused : Refuses sys p w → Adds sys before p blocks w fault

module _ (sys : System) (lawful : IsAllocator sys) {before : ℕ → ℕ} {p : Pool}
    {blocks : List (ℕ × ℕ)} {w : World} (o : InOrder before (p, blocks) w) (argument f : ℕ) where
  abbrev entry_at : ℕ → CleanupNode
  entry_at mem = record { addr = mem; argument = argument; handler = client f }

  -- The node at `mem` joins the list.
  abbrev join : ℕ → Pool → Cmd Pool
  join mem p' =
      if mem == 0
      then fault_cmd
      else do Mutex.unlock sys p.mutex; pure (record p' { cleanups = entry_at mem ∷ p'.cleanups })

  join-Adds :
      (mem : ℕ) (p' : Pool) (w' : World)
      → mem ≢ 0
      → InOrder before (record p' { cleanups = entry_at mem ∷ p'.cleanups }, blocks) w'
      → Adds sys before p blocks w (join mem p' w')
  join-Adds mem p' w' ne i =
      let nz : (mem == 0) ≡ false = ground (arith, ne) in
      let unlocked = Returns-Ends (unlock-Quiet sys p.mutex w') in
      rw (nz, unlocked.runs) (added (InOrder-Quiet unlocked.holds i))

  -- A node of the reserve changes its list.
  reused-InOrder :
      (n : CleanupNode) (rest : List CleanupNode)
      → p.free_cleanups ≡ n ∷ rest
      → InOrder before
          (record p { free_cleanups = rest; cleanups = entry_at n.addr ∷ p.cleanups }, blocks)
          w
  reused-InOrder n rest e =
      let reserved = subst (All IsEntry) e o.reserved in
      in_order (record p { free_cleanups = rest; cleanups = entry_at n.addr ∷ p.cleanups }) blocks w
        (record { slots = o.valid.slots; count = o.valid.count; apart = o.valid.apart }) o.owns
        ((reserved.0.0, refl), o.entries) reserved.1 λ a. omega (arith, o.sums a, ap (nodes_at a) e)

  -- A block of the pool becomes a node.
  noted-InOrder :
      (mem : ℕ) (p' : Pool) (w' : World)
      → mem ≢ 0
      → InOrder before (p', (mem, sizeof_cleanup_node) ∷ blocks) w'
      → InOrder before (record p' { cleanups = entry_at mem ∷ p'.cleanups }, blocks) w'
  noted-InOrder mem p' w' ne i =
      let nz : (mem == 0) ≡ false = ground (arith, ne) in
      let counted : (a : ℕ)
          → users a p'.nodes
            ≡ within a mem sizeof_cleanup_node
              + taken a blocks
              + (nodes_at a p'.cleanups + (nodes_at a p'.free_cleanups + before a)) =
        λ a. i.sums a ∙ rw (nz) refl in
      in_order (record p' { cleanups = entry_at mem ∷ p'.cleanups }) blocks w'
        (record { slots = i.valid.slots; count = i.valid.count; apart = i.valid.apart }) i.owns
        ((ne, refl), i.entries) i.reserved λ a. omega (arith, counted a)

  pub cleanup_add-Adds : Adds sys before p blocks w (cleanup_add sys p argument (client f) w)
  unfolding cleanup_add cleanup_add_by
  cleanup_add-Adds =
      let locked = Returns-Ends (lock-Quiet sys p.mutex w) in
      rw (cleanup_add, cleanup_add_by, locked.runs)
        (go locked.value locked.world locked.holds locked.runs (p.free_cleanups) refl)
    where
      go :
          (z : ℤ) (w1 : World)
          → Quiet w w1
          → Mutex.lock sys p.mutex w ≡ ok z w1
          → (free : List CleanupNode) → p.free_cleanups ≡ free
          → Adds sys before p blocks w ((take_cleanup sys (palloc sys) p >>= λ x. join x.0 x.1) w1)
      go z w1 q e (n ∷ rest) free =
          let ne = (subst (All IsEntry) free o.reserved).0.0 in
          rw (take_cleanup_reused sys p n rest w1 free) (
            join-Adds n.addr (record p { free_cleanups = rest }) w1 ne
              (InOrder-Quiet q (reused-InOrder n rest free)))
      go z w1 q e [] free =
          let got =
            Returns-Ends
              (palloc-InOrder sys lawful (InOrder-Quiet q o) sizeof_cleanup_node (omega arith)) in
          elim (Bool-cases (got.value.0 == 0)) [
            | inl null ↦
                let none_left : Refuses sys p w =
                  (free, rw (e, got.runs) (returns (ground (arith, null)))) in
                rw (take_cleanup_new sys p w1 free, got.runs, null) (refused none_left)
            | inr nn ↦
                let ne : got.value.0 ≢ 0 = ground (arith, nn) in
                rw (take_cleanup_new sys p w1 free, got.runs)
                  (join-Adds got.value.0 got.value.1 got.world ne (
                    noted-InOrder got.value.0 got.value.1 got.world ne (
                      subst (λ n. InOrder before (got.value.1, (got.value.0, n) ∷ blocks) got.world)
                        cleanup_node_fits got.holds)))
          ]
