-- ===== src/Pool/Measure.antt =====
-- `spr_pool_get_size`, `spr_pool_get_free_size` and `spr_pool_get_total_size` of
-- lib/memory/spr_pool.c.
pub mod Sums
use spr.Base.{ℕ, suc, ◌+◌, List, [], ◌∷◌}
use spr.Base.Word
use spr.Memory.{page_size}
use spr.Pool.{MemNode, Pool}

-- The loop over one slot, which adds up what `measure` says of each node, in `size_t`.
unfoldable pub measure_slot : (MemNode → ℕ) → ℕ → List MemNode → ℕ
unfolding Word.add
measure_slot measure acc [] = acc
measure_slot measure acc (n ∷ ns) = measure_slot measure (Word.add acc (measure n)) ns

-- The loop over the slots, from slot `i` on.
unfoldable pub measure_slots : (ℕ → MemNode → ℕ) → ℕ → ℕ → List (List MemNode) → ℕ
measure_slots measure i acc [] = acc
measure_slots measure i acc (ch ∷ rest) =
    measure_slots measure (suc i) (measure_slot (measure i) acc ch) rest

unfoldable pub get_size : Pool → ℕ
unfolding measure_slot measure_slots
get_size pool = measure_slots (λ _ n. n.size) 0 0 pool.nodes

unfoldable pub get_free_size : Pool → ℕ
unfolding measure_slot measure_slots
get_free_size pool = measure_slots (λ _ n. n.size_avail) 0 0 pool.nodes

unfoldable pub get_total_size : Pool → ℕ
unfolding measure_slot measure_slots Word.mul
get_total_size pool = measure_slots (λ i _. Word.mul page_size (i + 1)) 0 0 pool.nodes
