-- ===== src/Pool/Client/Tests.antt =====
-- The theorem on requests at the pool of Example, with one request of each kind.
use spr.Base.{ℕ, refl, List, [], ◌∷◌, arith}
use spr.Example.{rising, world, pool, rising-IsAllocator, pool-IsPool, pool-Owns}
use spr.Pool.Client.{
  Request, block, zeroed_block, add, remove, fire, fire_all, run_requests, InOrder, in_order,
}
use spr.Pool.Client.Runs.{Serves, run_requests-Serves}

abbrev requests : List Request
requests =
    block 100
    ∷ remove 6 1
    ∷ add 7 2
    ∷ zeroed_block 5000
    ∷ add 8 1
    ∷ fire 5 1
    ∷ fire_all
    ∷ add 9 2
    ∷ []

abbrev nothing_else : ℕ → ℕ
nothing_else a = 0

pool-InOrder : InOrder nothing_else (pool, []) world
pool-InOrder =
    in_order pool [] world pool-IsPool pool-Owns ((omega arith, refl), ((omega arith, refl), tt)) tt
      λ a. ground arith

run_requests-Serves_example :
    Serves rising nothing_else requests
      (pool, [])
      world
      (run_requests rising requests (pool, []) world)
run_requests-Serves_example =
    run_requests-Serves rising rising-IsAllocator nothing_else requests (omega arith) pool [] world
      pool-InOrder
