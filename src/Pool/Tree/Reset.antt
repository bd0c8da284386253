-- ===== src/Pool/Tree/Reset.antt =====
-- What resetting the nodes does to one pool, for `spr_pool_clear`.
use mathlib.Core.List.{reverse_aux}
use spr.Base.{ℕ, suc, ◌≡◌, refl, ap, List, [], ◌∷◌, All, map, length, arith}
use spr.Pool.{MemNode, Pool}
use spr.Pool.Blocks.{owners_slot, owners, users_slot, users, IsNode, AreSlots, IsPool}
use spr.Pool.Create.{reset_node}
use spr.Pool.Tree.{reset_slots}

-- Resetting the nodes of a pool in order.
reset_node-IsNode : {i : ℕ} {n : MemNode} → IsNode i n → IsNode i (reset_node n)
unfolding reset_node
reset_node-IsNode is = omega arith

reset-All : (i : ℕ) (ns : List MemNode) → All (IsNode i) ns → All (IsNode i) (map reset_node ns)
reset-All i [] are = tt
reset-All i (n ∷ ns) (is, rest) = (reset_node-IsNode is, reset-All i ns rest)

reset-AreSlots :
    (i : ℕ) (ns : List (List MemNode)) → AreSlots i ns → AreSlots i (map (map reset_node) ns)
reset-AreSlots i [] are = tt
reset-AreSlots i (ch ∷ rest) (are, more) = (reset-All i ch are, reset-AreSlots (suc i) rest more)

reset-owners_slot :
    (a : ℕ) (ns : List MemNode) → owners_slot a (map reset_node ns) ≡ owners_slot a ns
unfolding reset_node
reset-owners_slot a [] = refl
reset-owners_slot a (n ∷ ns) = omega (arith, reset-owners_slot a ns)

reset-owners : (a : ℕ) (ns : List (List MemNode)) → owners a (map (map reset_node) ns) ≡ owners a ns
reset-owners a [] = refl
reset-owners a (ch ∷ rest) = omega (arith, reset-owners_slot a ch, reset-owners a rest)

reset-users_slot : (a : ℕ) (ns : List MemNode) → users_slot a (map reset_node ns) ≡ 0
unfolding reset_node
reset-users_slot a [] = refl
reset-users_slot a (n ∷ ns) = ground (arith, reset-users_slot a ns)

reset-users : (a : ℕ) (ns : List (List MemNode)) → users a (map (map reset_node) ns) ≡ 0
reset-users a [] = refl
reset-users a (ch ∷ rest) = omega (arith, reset-users_slot a ch, reset-users a rest)

reset-length : (ns : List (List MemNode)) → length (map (map reset_node) ns) ≡ length ns
reset-length [] = refl
reset-length (ch ∷ rest) = ap suc (reset-length rest)

-- A pool after it was cleared: in order, with the memory that it had and none of it in use, no
-- cleanup left, and the nodes of its cleanups in the reserve.
pub record Cleared (p p' : Pool) : Type 0 where
  pub valid : IsPool p'
  pub kept : (a : ℕ) → owners a p'.nodes ≡ owners a p.nodes
  pub unused : (a : ℕ) → users a p'.nodes ≡ 0
  pub no_cleanups : p'.cleanups ≡ []
  pub reserved : p'.free_cleanups ≡ reverse_aux p.cleanups p.free_cleanups
  pub same_mutex : p'.mutex ≡ p.mutex

pub reset_slots-Cleared :
    (p : Pool)
    → IsPool p
    → Cleared p (
        reset_slots
          (record p { cleanups = []; free_cleanups = reverse_aux p.cleanups p.free_cleanups }))
unfolding reset_slots
reset_slots-Cleared p is = record {
  valid = record {
    slots = reset-AreSlots 0 p.nodes is.slots;
    count = omega (arith, reset-length p.nodes, is.count);
    apart = λ a. omega (arith, reset-owners a p.nodes, is.apart a);
  };
  kept = λ a. reset-owners a p.nodes;
  unused = λ a. reset-users a p.nodes;
  no_cleanups = refl;
  reserved = refl;
  same_mutex = refl;
}
