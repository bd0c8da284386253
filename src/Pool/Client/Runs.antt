-- ===== src/Pool/Client/Runs.antt =====
-- A client of a pool of lib/memory/spr_pool.c in any sequence of requests.
use spr.Base.{ℕ, ◌≤◌, ◌≡◌, refl, ap, ◌∙◌, List, [], ◌∷◌, ◌++◌, All}
use spr.Memory.Live.{IsAllocator}
use spr.Sys.{World, System, Run, ok, fault, and_then, Returns, returns, Returns-bind, Returns-Ends}
use spr.Pool.{client, Pool}
use spr.Pool.Alloc.Safe.{slot_limit}
use spr.Pool.Client.{
  Request, block, zeroed_block, add, remove, fire, fire_all, State, run_request, run_requests,
  InOrder, Refuses,
}
use spr.Pool.Client.Kept.{cleanup_remove-InOrder, cleanup_run-InOrder, cleanup_run_all-InOrder}
use spr.Pool.Client.Added.{palloc-InOrder, pcalloc-InOrder, Adds, added, refused, cleanup_add-Adds}
use spr.Pool.Alloc.{cleanup_add}

-- The largest request of a client that twenty slots serve.
abbrev pub IsSmall : Request → Type 0
IsSmall (block size) = size ≤ slot_limit
IsSmall (zeroed_block size) = size ≤ slot_limit
IsSmall (add argument f) = Unit {0}
IsSmall (remove argument f) = Unit {0}
IsSmall (fire argument f) = Unit {0}
IsSmall fire_all = Unit {0}

-- The requests are served and the pool stays in order, or they were up to one for a cleanup, for the node
-- of which there is no memory.
pub data Serves (sys : System) (before : ℕ → ℕ) (rs : List Request) (s : State) (w : World)
    : Run State → Type 0 where
  served : {s' : State} {w' : World} → InOrder before s' w' → Serves sys before rs s w (ok s' w')
  out_of_memory :
      (done rest : List Request) (argument f : ℕ) (q : State) (v : World)
      → rs ≡ done ++ (add argument f ∷ rest)
      → run_requests sys done s w ≡ ok q v
      → InOrder before q v
      → Refuses sys q.0 v
      → Serves sys before rs s w fault

module _ (sys : System) (lawful : IsAllocator sys) {before : ℕ → ℕ} where
  -- Behind a request that was served.
  Serves-later :
      (r : Request) (rs : List Request) (s s' : State) (w w' : World) (run : Run State)
      → run_request sys r s w ≡ ok s' w'
      → Serves sys before rs s' w' run
      → Serves sys before (r ∷ rs) s w run
  unfolding run_requests
  Serves-later r rs s s' w w' run e (served o) = served o
  Serves-later r rs s s' w w' run e (out_of_memory done rest argument f q v listed runs o refusal) =
      out_of_memory (r ∷ done) rest argument f q v (ap (λ l. r ∷ l) listed)
        (ap (λ x. and_then x (run_requests sys done)) e ∙ runs) o refusal

  -- A request that is always served.
  Serves-next :
      (r : Request) (rs : List Request) (s : State) (w : World)
      → Returns (InOrder before) (run_request sys r s w)
      → ((s' : State) (w' : World)
          → InOrder before s' w'
          → Serves sys before rs s' w' (run_requests sys rs s' w'))
      → Serves sys before (r ∷ rs) s w (run_requests sys (r ∷ rs) s w)
  unfolding run_requests
  Serves-next r rs s w h next =
      let e = Returns-Ends h in
      rw (run_requests, e.runs)
        (Serves-later r rs s e.value w e.world _ e.runs (next e.value e.world e.holds))

  Serves-add :
      (argument f : ℕ) (rs : List Request) (p : Pool) (blocks : List (ℕ × ℕ)) (w : World)
      → InOrder before (p, blocks) w
      → ((s' : State) (w' : World)
          → InOrder before s' w'
          → Serves sys before rs s' w' (run_requests sys rs s' w'))
      → Serves sys before
          (add argument f ∷ rs)
          (p, blocks)
          w
          (run_requests sys (add argument f ∷ rs) (p, blocks) w)
  unfolding run_request run_requests
  Serves-add argument f rs p blocks w o next =
      go (cleanup_add sys p argument (client f) w) refl (cleanup_add-Adds sys lawful o argument f)
    where
      go :
          (run : Run Pool)
          → cleanup_add sys p argument (client f) w ≡ run
          → Adds sys before p blocks w run
          → Serves sys before
              (add argument f ∷ rs)
              (p, blocks)
              w
              (run_requests sys (add argument f ∷ rs) (p, blocks) w)
      go run e (added {p' = p'} {w' = w'} o') =
          let r : run_request sys (add argument f) (p, blocks) w ≡ ok (p', blocks) w' =
            rw (run_request, e) refl in
          rw (run_requests, r)
            (Serves-later (add argument f) rs (p, blocks) (p', blocks) w w' _ r
              (next (p', blocks) w' o'))
      go run e (refused no_memory) =
          let r : run_request sys (add argument f) (p, blocks) w ≡ fault =
            rw (run_request, e) refl in
          rw (run_requests, r) (out_of_memory [] rs argument f (p, blocks) w refl refl o no_memory)

-- A pool in order, whose cleanups have handlers of the client, serves any sequence of its requests:
-- blocks of up to 81864 bytes, and registering, removing and running cleanups with such handlers. The
-- run ends without fault and the pool is in order again: the blocks handed out, the nodes of the
-- cleanups, those in the reserve and what was in use before do not overlap. Or the requests came to a
-- new cleanup for whose node there is no memory: all before it were served with the pool in order, the
-- reserve is empty and `spr_palloc` of the node, called under the lock, returns NULL, through which
-- the code writes.
pub run_requests-Serves :
    (sys : System)
    → IsAllocator sys
    → (before : ℕ → ℕ) (rs : List Request) → All IsSmall rs
    → (p : Pool) (blocks : List (ℕ × ℕ)) (w : World) → InOrder before (p, blocks) w
    → Serves sys before rs (p, blocks) w (run_requests sys rs (p, blocks) w)
unfolding run_request run_requests
run_requests-Serves sys lawful before [] small p blocks w o = served o
run_requests-Serves sys lawful before (block size ∷ rs) small p blocks w o =
    Serves-next sys lawful (block size) rs (p, blocks) w
      (Returns-bind (palloc-InOrder sys lawful o size small.0) λ r w' o'. returns o')
      λ s' w' o'. run_requests-Serves sys lawful before rs small.1 s'.0 s'.1 w' o'
run_requests-Serves sys lawful before (zeroed_block size ∷ rs) small p blocks w o =
    Serves-next sys lawful (zeroed_block size) rs (p, blocks) w
      (Returns-bind (pcalloc-InOrder sys lawful o size small.0) λ r w' o'. returns o')
      λ s' w' o'. run_requests-Serves sys lawful before rs small.1 s'.0 s'.1 w' o'
run_requests-Serves sys lawful before (add argument f ∷ rs) small p blocks w o =
    Serves-add sys lawful argument f rs p blocks w o
      λ s' w' o'. run_requests-Serves sys lawful before rs small.1 s'.0 s'.1 w' o'
run_requests-Serves sys lawful before (remove argument f ∷ rs) small p blocks w o =
    Serves-next sys lawful (remove argument f) rs (p, blocks) w
      (Returns-bind (cleanup_remove-InOrder sys argument (client f) o) λ p' w' o'. returns o')
      λ s' w' o'. run_requests-Serves sys lawful before rs small.1 s'.0 s'.1 w' o'
run_requests-Serves sys lawful before (fire argument f ∷ rs) small p blocks w o =
    Serves-next sys lawful (fire argument f) rs (p, blocks) w
      (Returns-bind (cleanup_run-InOrder sys argument (client f) o) λ p' w' o'. returns o')
      λ s' w' o'. run_requests-Serves sys lawful before rs small.1 s'.0 s'.1 w' o'
run_requests-Serves sys lawful before (fire_all ∷ rs) small p blocks w o =
    Serves-next sys lawful fire_all rs (p, blocks) w
      (Returns-bind (cleanup_run_all-InOrder o) λ p' w' o'. returns o')
      λ s' w' o'. run_requests-Serves sys lawful before rs small.1 s'.0 s'.1 w' o'
