-- ===== src/Pool/Measure/Sums.antt =====
-- What the three sizes of a pool in lib/memory/spr_pool.c add up, and how they are related.
use spr.Base.{ℕ, suc, ◌+◌, ◌-◌, ◌<◌, ◌≡◌, refl, ap, ◌∙◌, List, [], ◌∷◌, All, arith}
use spr.Base.Word
use spr.Base.Word.{word, add-fits, mul-fits}
use spr.Memory.{page_size}
use spr.Pool.{MemNode, Pool}
use spr.Pool.Blocks.{IsNode, AreSlots, IsPool}
use spr.Pool.Measure.{measure_slot, measure_slots, get_size, get_free_size, get_total_size}

-- The sums without wrap-around, of what `measure` says of the nodes of slot `i` and behind.
abbrev sum_slot : (MemNode → ℕ) → List MemNode → ℕ
sum_slot measure [] = 0
sum_slot measure (n ∷ ns) = measure n + sum_slot measure ns

abbrev pub sum_slots : (ℕ → MemNode → ℕ) → ℕ → List (List MemNode) → ℕ
sum_slots measure i [] = 0
sum_slots measure i (ch ∷ rest) = sum_slot (measure i) ch + sum_slots measure (suc i) rest

measure_slot_lem :
    (measure : MemNode → ℕ) (acc : ℕ) (ns : List MemNode)
    → acc + sum_slot measure ns < word
    → measure_slot measure acc ns ≡ acc + sum_slot measure ns
unfolding measure_slot
measure_slot_lem measure acc [] h = omega arith
measure_slot_lem measure acc (n ∷ ns) h =
    let e = add-fits acc (measure n) (omega (arith, h)) in
    ap (λ m. measure_slot measure m ns) e
    ∙ measure_slot_lem measure (acc + measure n) ns (omega (arith, h))
    ∙ omega arith

measure_slots_lem :
    (measure : ℕ → MemNode → ℕ) (i acc : ℕ) (nodes : List (List MemNode))
    → acc + sum_slots measure i nodes < word
    → measure_slots measure i acc nodes ≡ acc + sum_slots measure i nodes
unfolding measure_slots
measure_slots_lem measure i acc [] h = omega arith
measure_slots_lem measure i acc (ch ∷ rest) h =
    let e = measure_slot_lem (measure i) acc ch (omega (arith, h)) in
    ap (λ m. measure_slots measure (suc i) m rest) e
    ∙ measure_slots_lem measure (suc i) (acc + sum_slot (measure i) ch) rest (omega (arith, h))
    ∙ omega arith

-- The bytes that were handed out, the bytes of all headers, and those of all nodes.
abbrev pub in_use : Pool → ℕ
in_use p = sum_slots (λ i n. n.first_avail - n.begin) 0 p.nodes

abbrev pub owned : Pool → ℕ
owned p = sum_slots (λ i n. n.dealloc_size) 0 p.nodes

-- A relation of the measures of a node in order is one of their sums.
module _ (f g k : ℕ → MemNode → ℕ)
    (node : (i : ℕ) (n : MemNode) → IsNode i n → f i n + g i n ≡ k i n) where
  sum_slot-add :
      (i : ℕ) (ns : List MemNode)
      → All (IsNode i) ns
      → sum_slot (f i) ns + sum_slot (g i) ns ≡ sum_slot (k i) ns
  sum_slot-add i [] h = omega arith
  sum_slot-add i (n ∷ ns) h = omega (arith, node i n h.0, sum_slot-add i ns h.1)

  sum_slots-add :
      (i : ℕ) (nodes : List (List MemNode))
      → AreSlots i nodes
      → sum_slots f i nodes + sum_slots g i nodes ≡ sum_slots k i nodes
  sum_slots-add i [] h = omega arith
  sum_slots-add i (ch ∷ rest) h =
      omega (arith, sum_slot-add i ch h.0, sum_slots-add (suc i) rest h.1)

sum_slot_zero : (ns : List MemNode) → sum_slot (λ n. 0) ns ≡ 0
sum_slot_zero [] = refl
sum_slot_zero (n ∷ ns) = omega (arith, sum_slot_zero ns)

sum_zero : (i : ℕ) (nodes : List (List MemNode)) → sum_slots (λ i n. 0) i nodes ≡ 0
sum_zero i [] = refl
sum_zero i (ch ∷ rest) = omega (arith, sum_slot_zero ch, sum_zero (suc i) rest)

-- What a pool in order with less than 2 ^ 64 bytes in its nodes tells of its sizes is exact:
-- `spr_pool_get_total_size` is all that its nodes own; `spr_pool_get_size` is that without what stands
-- before the usable part of each node; and `spr_pool_get_free_size` is what of the usable part was not
-- handed out.
pub get_size-in_use :
    (p : Pool)
    → IsPool p
    → owned p < word
    → (get_total_size p ≡ owned p)
      × (get_size p + sum_slots (λ i n. n.begin - n.addr) 0 p.nodes ≡ owned p)
      × (get_free_size p + in_use p ≡ get_size p)
unfolding get_size get_free_size get_total_size
get_size-in_use p is small =
    let before =
      sum_slots-add (λ i n. n.size) (λ i n. n.begin - n.addr) (λ i n. n.dealloc_size)
        (λ i n h. omega arith) 0 p.nodes is.slots in
    let split =
      sum_slots-add (λ i n. n.size_avail) (λ i n. n.first_avail - n.begin) (λ i n. n.size)
        (λ i n h. omega arith) 0 p.nodes is.slots in
    let pages =
      sum_slots-add (λ i n. Word.mul page_size (i + 1)) (λ i n. 0) (λ i n. n.dealloc_size)
        (λ i n h. omega (arith, mul-fits page_size (i + 1) (omega arith))) 0 p.nodes is.slots in
    let zeros = sum_zero 0 p.nodes in
    let total : sum_slots (λ i n. Word.mul page_size (i + 1)) 0 p.nodes ≡ owned p =
      omega (arith, pages, zeros) in
    let t =
      measure_slots_lem (λ i n. Word.mul page_size (i + 1)) 0 0 p.nodes
        (omega (arith, total, small)) in
    let s = measure_slots_lem (λ i n. n.size) 0 0 p.nodes (omega (arith, before, small)) in
    let f =
      measure_slots_lem (λ i n. n.size_avail) 0 0 p.nodes (omega (arith, split, before, small)) in
    (omega (arith, t, total), omega (arith, s, before), omega (arith, f, s, split))
