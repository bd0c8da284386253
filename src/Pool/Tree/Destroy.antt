-- ===== src/Pool/Tree/Destroy.antt =====
-- `spr_pool_destroy` reads the pool's slots after it has given back the node that the pool lies in.
use spr.Base.{
  ℕ, ◌≡◌, refl, ◌∙◌, Bool-cases, inl, inr, true, false, Bool, ◌||◌, List, [], ◌∷◌, ◌==◌, ==_iff,
}
use spr.Memory
use spr.Sys.{
  World, System, Run, Cmd, ok, fault, and_then, Returns, returns, Returns-bind, Returns-eq,
}
use spr.Pool.{MemNode, Pool}
use spr.Pool.Cleanup.Laws.{cleanup_run_all_lem}
use spr.Pool.Tree.{
  Tree, node, Forest, nil, cons, holds, free_slot, free_slots, destroy, destroy_children,
}

-- A node of the slot holds the address.
abbrev pub slot_holds : ℕ → List MemNode → Bool
slot_holds home [] = false
slot_holds home (n ∷ ns) = holds home n || slot_holds home ns

-- A slot before the last one holds it.
abbrev pub holds_before_last : ℕ → List (List MemNode) → Bool
holds_before_last home [] = false
holds_before_last home (ch ∷ []) = false
holds_before_last home (ch ∷ next ∷ rest) =
    slot_holds home ch || holds_before_last home (next ∷ rest)

free_slot-holds :
    (home : ℕ) (ns : List MemNode) (w : World)
    → Returns (λ gone w'. gone ≡ slot_holds home ns) (free_slot home ns w)
unfolding free_slot Memory.free
free_slot-holds home [] w = returns refl
free_slot-holds home (n ∷ ns) w =
    Returns-bind (free_slot-holds home ns _) λ gone w' e. returns (rw e)

free_slots-fault :
    (home : ℕ) (ns : List (List MemNode)) (w : World)
    → holds_before_last home ns ≡ true
    → free_slots home false ns w ≡ fault
unfolding free_slots
free_slots-fault home [] w h = cc
free_slots-fault home (ch ∷ []) w h = cc
free_slots-fault home (ch ∷ next ∷ rest) w h = Returns-eq (free_slot-holds home ch w) λ gone w' e.
    elim (Bool-cases (slot_holds home ch)) [
      | inl hit ↦ rw (e ∙ hit)
      | inr miss ↦ rw (e ∙ miss) (free_slots-fault home (next ∷ rest) w' (rw miss at h))
    ]

-- A run that faults or returns, and so does not run out of fuel.
data Stops {A : Type 0} : Run A → Type 0 where
  faults : Stops fault
  stops : {a : A} {w : World} → Stops (ok a w)

Stops-bind :
    {A B : Type 0} {r : Run A} {k : A → Cmd B}
    → Stops r
    → ((a : A) (w : World) → Stops (k a w))
    → Stops (and_then r k)
Stops-bind faults next = faults
Stops-bind (stops {a} {w}) next = next a w

Stops-fault :
    {A B : Type 0} {r : Run A} {k : A → Cmd B}
    → Stops r
    → ((a : A) (w : World) → k a w ≡ fault)
    → and_then r k ≡ fault
Stops-fault faults next = refl
Stops-fault (stops {a} {w}) next = next a w

free_slot-Stops : (home : ℕ) (ns : List MemNode) (w : World) → Stops (free_slot home ns w)
unfolding free_slot Memory.free
free_slot-Stops home [] w = stops
free_slot-Stops home (n ∷ ns) w = Stops-bind (free_slot-Stops home ns _) λ _ _. stops

free_slots-Stops :
    (home : ℕ) (gone : Bool) (ns : List (List MemNode)) (w : World)
    → Stops (free_slots home gone ns w)
unfolding free_slots
free_slots-Stops home gone [] w = stops
free_slots-Stops home true (ch ∷ rest) w = faults
free_slots-Stops home false (ch ∷ rest) w =
    Stops-bind (free_slot-Stops home ch w) λ gone w'. free_slots-Stops home gone rest w'

module _ (sys : System) where
  mutual
    unfolding destroy destroy_children

    destroy-Stops : (t : Tree) (w : World) → Stops (destroy sys t w)
    destroy-Stops (node p children) w = elim (Bool-cases (p.owner == sys.self)) [
      | inl own ↦ rw own (
          rw (cleanup_run_all_lem p w) (
            Stops-bind (destroy_children-Stops children _)
              λ _ w'. free_slots-Stops p.addr false p.nodes w'))
      | inr other ↦ rw other (stops)
    ]

    destroy_children-Stops : (ts : Forest) (w : World) → Stops (destroy_children sys ts w)
    destroy_children-Stops nil w = stops
    destroy_children-Stops (cons t ts) w =
        Stops-bind (destroy-Stops t w) λ _ w'. destroy_children-Stops ts w'

-- `spr_pool_destroy`, called by the owner on a pool whose own structure lies in a node of a slot
-- before the last, as `spr_pool_create1` puts it, reads that structure after giving the node back.
pub destroy-fault :
    (sys : System) (p : Pool) (children : Forest) (w : World)
    → p.owner ≡ sys.self
    → holds_before_last p.addr p.nodes ≡ true
    → destroy sys (node p children) w ≡ fault
unfolding destroy
destroy-fault sys p children w own home = rw ((==_iff p.owner sys.self).1 own) (
    rw (cleanup_run_all_lem p w) (
      Stops-fault (destroy_children-Stops sys children _)
        λ _ w'. free_slots-fault p.addr p.nodes w' home))
