-- ===== src/Pool/Client.antt =====
-- A client of a pool of lib/memory/spr_pool.c, which asks for blocks and registers, removes and runs
-- cleanups in any order.
pub mod Kept
pub mod Added
pub mod Runs
mod Tests
use spr.Base.{
  ℕ, ◌+◌, ◌≤◌, ◌≡◌, ◌≢◌, Bool, true, false, List, [], ◌∷◌, All, arith, Bool-cases, inl, inr,
}
use spr.Memory.Live.{within}
use spr.Mutex.Effect.{Quiet}
use spr.Mutex
use spr.Sys.{World, System, Cmd, pure, ◌>>=◌, ◌>>◌, Returns}
use spr.Pool.{Handler, spr_free, client, CleanupNode, Pool, sizeof_cleanup_node}
use spr.Pool.Size.{align_allocation}
use spr.Pool.Alloc.{palloc, pcalloc, cleanup_add}
use spr.Pool.Alloc.Outcome.{Owns}
use spr.Pool.Alloc.Sequence.{taken}
use spr.Pool.Blocks.{users, IsPool}
use spr.Pool.Blocks.Effect.{users-le-owners}
use spr.Pool.Cleanup.{cleanup_remove, cleanup_run, cleanup_run_all}

-- A cleanup is known by its argument and by the function of the client that is its handler.
pub data Request : Type 0 where
  block zeroed_block : (size : ℕ) → Request
  add remove fire : (argument f : ℕ) → Request
  fire_all : Request

-- The pool, and the blocks that were handed out.
abbrev pub State : Type 0
State = Pool × List (ℕ × ℕ)

unfoldable pub run_request : System → Request → State → Cmd State
run_request sys (block size) (p, blocks) = do
  (mem, p') ← palloc sys p size
  pure (p', (mem, align_allocation size) ∷ blocks)
run_request sys (zeroed_block size) (p, blocks) = do
  (mem, p') ← pcalloc sys p size
  pure (p', (mem, align_allocation size) ∷ blocks)
run_request sys (add argument f) (p, blocks) = do
  p' ← cleanup_add sys p argument (client f)
  pure (p', blocks)
run_request sys (remove argument f) (p, blocks) = do
  p' ← cleanup_remove sys p argument (client f)
  pure (p', blocks)
run_request sys (fire argument f) (p, blocks) = do
  p' ← cleanup_run sys p argument (client f)
  pure (p', blocks)
run_request sys fire_all (p, blocks) = do p' ← cleanup_run_all p; pure (p', blocks)

unfoldable pub run_requests : System → List Request → State → Cmd State
run_requests sys [] s = pure s
run_requests sys (r ∷ rs) s = do s' ← run_request sys r s; run_requests sys rs s'

-- In how many of the nodes the address lies.
abbrev pub nodes_at : ℕ → List CleanupNode → ℕ
nodes_at a [] = 0
nodes_at a (n ∷ ns) = within a n.addr sizeof_cleanup_node + nodes_at a ns

abbrev pub is_client : Handler → Bool
is_client spr_free = false
is_client (client f) = true

abbrev pub IsEntry : CleanupNode → Type 0
IsEntry n = (n.addr ≢ 0) × (is_client n.handler ≡ true)

-- A pool in order with its client: what of its nodes was handed out is each address of a block of the
-- client, of a node of a cleanup or of a node in the reserve, or was in use before; and no address is
-- two of these.
pub record InOrder (before : ℕ → ℕ) (s : State) (w : World) : Type 0 where
  pub valid : IsPool s.0
  pub owns : Owns s.0 w.log
  pub entries : All IsEntry s.0.cleanups
  pub reserved : All IsEntry s.0.free_cleanups
  pub sums :
      (a : ℕ)
      → users a s.0.nodes
        ≡ taken a s.1 + (nodes_at a s.0.cleanups + (nodes_at a s.0.free_cleanups + before a))
  pub apart :
      (a : ℕ)
      → taken a s.1 + (nodes_at a s.0.cleanups + (nodes_at a s.0.free_cleanups + before a)) ≤ 1

-- That nothing overlaps follows from the rest.
pub in_order :
    {before : ℕ → ℕ} (p : Pool) (blocks : List (ℕ × ℕ)) (w : World)
    → IsPool p
    → Owns p w.log
    → All IsEntry p.cleanups
    → All IsEntry p.free_cleanups
    → ((a : ℕ)
        → users a p.nodes
          ≡ taken a blocks + (nodes_at a p.cleanups + (nodes_at a p.free_cleanups + before a)))
    → InOrder before (p, blocks) w
in_order p blocks w is own entries reserved sums = record {
  valid = is;
  owns = own;
  entries = entries;
  reserved = reserved;
  sums = sums;
  apart = λ a. omega (arith, sums a, users-le-owners 0 a p.nodes is.slots, is.apart a);
}

-- There is no memory for the node of a cleanup: the reserve is empty, and `spr_palloc`, called under the
-- lock, returns NULL.
abbrev pub Refuses : System → Pool → World → Type 0
Refuses sys p w =
    (p.free_cleanups ≡ [])
    × Returns (λ r _. r.0 ≡ 0) ((Mutex.lock sys p.mutex >> palloc sys p sizeof_cleanup_node) w)

-- A quiet step keeps the order.
pub InOrder-Quiet :
    {before : ℕ → ℕ} {s : State} {w w' : World}
    → Quiet w w'
    → InOrder before s w
    → InOrder before s w'
InOrder-Quiet q o = record {
  valid = o.valid;
  owns = λ a. omega (arith, o.owns a, q.live_kept a);
  entries = o.entries;
  reserved = o.reserved;
  sums = o.sums;
  apart = o.apart;
}
