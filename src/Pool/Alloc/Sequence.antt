-- ===== src/Pool/Alloc/Sequence.antt =====
-- Calls of `spr_palloc` one after another: their blocks are disjoint.
use spr.Base.{ℕ, ◌+◌, ◌≤◌, ◌≡◌, List, [], ◌∷◌, All, ◌==◌, if◌then◌else◌, arith}
use spr.Memory.Live.{within, IsAllocator}
use spr.Sys.{World, System, Cmd, pure, ◌>>=◌, Returns, returns, Returns-bind, Returns-mono}
use spr.Pool.{Pool}
use spr.Pool.Size.{align_allocation}
use spr.Pool.Alloc.{palloc}
use spr.Pool.Alloc.Outcome.{Owns}
use spr.Pool.Alloc.Safe.{slot_limit, palloc-Allocated}
use spr.Pool.Blocks.{users, IsPool}
use spr.Pool.Blocks.Effect.{users-le-owners}

-- A client's requests in order; each answer is an address and the size behind it.
unfoldable pub palloc_all : System → Pool → List ℕ → Cmd (List (ℕ × ℕ) × Pool)
palloc_all sys p [] = pure ([], p)
palloc_all sys p (size ∷ sizes) = do
  (mem, p') ← palloc sys p size
  (blocks, p'') ← palloc_all sys p' sizes
  pure ((mem, align_allocation size) ∷ blocks, p'')

-- How many of the blocks hold the address; a NULL is no block.
abbrev pub taken : ℕ → List (ℕ × ℕ) → ℕ
taken a [] = 0
taken a ((mem, n) ∷ blocks) = (if mem == 0 then 0 else within a mem n) + taken a blocks

record Handed (p : Pool) (r : List (ℕ × ℕ) × Pool) (w' : World) : Type 0 where
  valid : IsPool r.1
  owns : Owns r.1 w'.log
  sums : (a : ℕ) → users a r.1.nodes ≡ taken a r.0 + users a p.nodes

palloc_all-Handed :
    (sys : System)
    → IsAllocator sys
    → (sizes : List ℕ) → All (λ size. size ≤ slot_limit) sizes
    → (p : Pool) (w : World) → IsPool p
    → Owns p w.log
    → Returns (Handed p) (palloc_all sys p sizes w)
unfolding palloc_all
palloc_all-Handed sys lawful [] small p w is own =
    returns (record { valid = is; owns = own; sums = λ a. omega arith })
palloc_all-Handed sys lawful (size ∷ sizes) (le, small) p w is own =
    Returns-bind (palloc-Allocated sys lawful size le p w is own) λ (mem, p') w' al.
      Returns-bind (palloc_all-Handed sys lawful sizes small p' w' al.valid al.owns)
        λ (blocks, p'') w'' h. returns (record {
          valid = h.valid;
          owns = h.owns;
          sums = λ a. omega (arith, h.sums a, al.used a);
        })

-- Any sequence of requests of up to 81864 bytes each ends without fault, and no address lies in two
-- of the blocks, nor in a block and in memory that was in use before.
pub palloc_all-disjoint :
    (sys : System)
    → IsAllocator sys
    → (sizes : List ℕ) → All (λ size. size ≤ slot_limit) sizes
    → (p : Pool) (w : World) → IsPool p
    → Owns p w.log
    → Returns (λ r w'. (a : ℕ) → taken a r.0 + users a p.nodes ≤ 1) (palloc_all sys p sizes w)
palloc_all-disjoint sys lawful sizes small p w is own =
    Returns-mono (palloc_all-Handed sys lawful sizes small p w is own) λ r w' h a.
      omega (arith, h.sums a, users-le-owners 0 a r.1.nodes h.valid.slots, h.valid.apart a)
