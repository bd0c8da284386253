-- ===== src/Pool/Tests.antt =====
-- The theorems on pools at the pool and the system of Example.
use mathlib.Core.List.{reverse_aux}
use spr.Base.{ℕ, ◌+◌, ◌-◌, ◌%◌, ◌≤◌, ◌≡◌, ◌≢◌, ◌⊎◌, refl, [], ◌∷◌, arith}
use spr.Base.Word.{word}
use spr.Sys.{handled, ok, fault, Returns, returns}
use spr.Mutex
use spr.Mutex.Effect.{handlers}
use spr.Mutex.Held.{held}
use spr.Pool.Size.{align_allocation}
use spr.Pool.Size.Bounds.{align_allocation_fits}
use spr.Pool.Alloc.{palloc_rounds, palloc}
use spr.Pool.Alloc.Safe.{HandsOut, palloc-Allocated}
use spr.Pool.Alloc.Rounds.{Halts, palloc-rounds}
use spr.Pool.Alloc.Edge.{palloc-slot_twenty}
use spr.Pool.Blocks.{users}
use spr.Pool.Measure.{get_size, get_free_size, get_total_size}
use spr.Pool.Measure.Sums.{sum_slots, in_use, owned, get_size-in_use}
use spr.Pool.Cleanup.{cleanup_remove, cleanup_run, cleanup_run_all}
use spr.Pool.Cleanup.Laws.{event_of, cleanup_run_all_lem}
use spr.Pool.Cleanup.Lock.{Removal, missing, Fired, cleanup_remove-held, cleanup_run-Fired}
use spr.Pool.Tree.{node, nil, clear, destroy}
use spr.Pool.Tree.Clear.{AllCleared, due, root, clear-AllCleared, clear-reserve}
use spr.Pool.Tree.Destroy.{destroy-fault}
use spr.Pool.{client}
use spr.Example.{
  rising, world, entry, pool, rising-IsAllocator, pool-IsPool, pool-Owns, rising-IsRecursive,
}

align_allocation_fits_example :
    (5 ≤ align_allocation 5)
    × (16 ≤ align_allocation 5)
    × (align_allocation 5 % 8 ≡ 0)
    × ((align_allocation 5 ≤ 12) ⊎ (align_allocation 5 ≡ 16))
    × (align_allocation 5 ≤ word - 8)
align_allocation_fits_example = align_allocation_fits 5 (omega arith)

palloc-Allocated_example :
    Returns (HandsOut (align_allocation 100) pool) (palloc rising pool 100 world)
palloc-Allocated_example =
    palloc-Allocated rising rising-IsAllocator 100 (omega arith) pool world pool-IsPool pool-Owns

palloc-rounds_example :
    Halts (palloc rising pool 100000 world)
    × (palloc_rounds rising 7 pool 100000 ≡ palloc rising pool 100000)
palloc-rounds_example = palloc-rounds rising 5 pool 100000 world

palloc-slot_twenty_example : palloc rising pool 82000 world ≡ fault
unfolding Mutex.lock
palloc-slot_twenty_example =
    palloc-slot_twenty rising 82000 (omega arith) (omega arith) pool world refl
      (returns (omega arith))

cleanup_run_all_lem_example :
    cleanup_run_all pool world
    ≡ ok
        (record pool { cleanups = []; free_cleanups = entry 4424 6 ∷ entry 4400 5 ∷ [] })
        (record world { log = handled 1 6 ∷ handled 1 5 ∷ world.log })
unfolding event_of
cleanup_run_all_lem_example = cleanup_run_all_lem pool world

cleanup_remove-held_example :
    Returns
      (Removal pool 6
        (client 1)
        (λ found w'. held 4360 w'.log ≡ held 4360 world.log + missing found))
      (cleanup_remove rising pool 6 (client 1) world)
cleanup_remove-held_example =
    cleanup_remove-held rising pool (rising-IsRecursive 4360) 6 (client 1) world

cleanup_run-Fired_example :
    Returns
      (Removal pool 6 (client 1) (Fired rising pool (rising-IsRecursive 4360) 6 (client 1) world))
      (cleanup_run rising pool 6 (client 1) world)
cleanup_run-Fired_example =
    cleanup_run-Fired rising pool (rising-IsRecursive 4360) 6 (client 1) world

clear-AllCleared_example :
    let t = node pool nil in
    Returns
      (λ t' w'. AllCleared t t' × (handlers w'.log ≡ reverse_aux (due t) []))
      (clear rising t world)
clear-AllCleared_example = clear-AllCleared rising (node pool nil) world (pool-IsPool, refl, tt)

clear-reserve_example :
    Returns
      (λ t' w'. ((a : ℕ) → users a (root t').nodes ≡ 0) × ((root t').free_cleanups ≢ []))
      (clear rising (node pool nil) world)
clear-reserve_example = clear-reserve rising pool nil world (pool-IsPool, refl, tt) (λ e. cc)

destroy-fault_example : destroy rising (node pool nil) world ≡ fault
destroy-fault_example = destroy-fault rising pool nil world refl refl

get_size-in_use_example :
    (get_total_size pool ≡ owned pool)
    × (get_size pool + sum_slots (λ i n. n.begin - n.addr) 0 pool.nodes ≡ owned pool)
    × (get_free_size pool + in_use pool ≡ get_size pool)
get_size-in_use_example = get_size-in_use pool pool-IsPool (omega arith)
