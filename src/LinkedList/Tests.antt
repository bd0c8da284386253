-- ===== src/LinkedList/Tests.antt =====
-- The theorems on lists at lists with one node, and with an empty one.
use spr.Base.{◌≡◌, refl, [], ◌∷◌, All, ◌==◌, if◌then◌else◌, arith}
use spr.Mutex.{success}
use spr.Sys.{fault, Returns, ◌>>=◌}
use spr.Example.{rising, world, pool}
use spr.LinkedList.{SprList}
use spr.LinkedList.Node.{Heap}
use spr.LinkedList.Push.{push_back, push_front}
use spr.LinkedList.Remove.{remove1, list_clear}
use spr.LinkedList.Spec.{add_back, add_front, take}
use spr.LinkedList.Inv.{IsList}
use spr.LinkedList.Take.{Taken, take_out-IsList}
use spr.LinkedList.Remove.{remove}
use spr.LinkedList.Refine.{Represents, run_all, run_all-apply_all}
use spr.LinkedList.Lost.{IsSingle, push_front-stale, remove1-push_back, list_clear-fault}

-- The node at 5000 holds 41; those at 5024 and 5048 are the reserve.
abbrev heap : Heap
heap a =
    if a == 5000
    then record { next = 0; prev = 0; item = 41 }
    else if a == 5024
    then record { next = 5048; prev = 0; item = 0 }
    else record { next = 0; prev = 0; item = 0 }

abbrev single : SprList
single = record { pool = pool; head = 5000; tail = 5000; free_nodes = 5024; size = 1; capacity = 2 }

abbrev empty : SprList
empty = record { pool = pool; head = 0; tail = 0; free_nodes = 5024; size = 0; capacity = 2 }

single-IsSingle : IsSingle single heap
single-IsSingle = record { not_null = omega arith; tail = refl; ends = refl }

push_front-stale_example :
    Returns
      (λ r w'.
        (r.1.head ≡ 5024) × ((r.2 r.1.head).item ≡ 7) × ((r.2 r.1.head).next ≡ r.1.free_nodes))
      (push_front rising empty heap 7 world)
push_front-stale_example = push_front-stale rising empty heap world refl (omega arith) 7

remove1-push_back_example :
    Returns
      (λ r w'. (r.0 ≡ success) × (r.1.head ≡ 0) × (r.1.tail ≡ 5000) × (r.1.free_nodes ≡ 5000))
      (remove1 9 single heap 5000 world)
    × Returns
        (λ r w'.
          (r.0 ≡ success)
          × (r.1.head ≡ 0)
          × (r.1.tail ≡ 5000)
          × ((r.2 5000).item ≡ 7)
          × ((r.2 5000).next ≡ 5000))
        ((remove1 9 single heap 5000 >>= λ r. push_back rising r.1 r.2 7) world)
remove1-push_back_example = remove1-push_back rising single heap world single-IsSingle 9 7

list_clear-fault_example : list_clear 10 single heap world ≡ fault
list_clear-fault_example = list_clear-fault single heap world single-IsSingle (omega arith) 9

single-Represents : Represents heap single (41 ∷ [], 2)
single-Represents = record {
  cells = (5000, 41) ∷ [];
  reserve = 5024 ∷ 5048 ∷ [];
  in_order = record {
    before = 0;
    chain = (refl, omega arith, refl, refl, refl);
    tail = refl;
    reserve = (refl, omega arith, (refl, omega arith, refl));
    apart = λ a. ground arith;
    size = refl;
    capacity = refl;
    room = omega arith;
  };
  items = refl;
}

run_all-apply_all_example :
    Returns
      (λ r w'. All (λ c. c ≡ success) r.0 × Represents r.2 r.1 (8 ∷ 7 ∷ [], 1))
      (run_all rising 3 (add_back 7 ∷ add_front 8 ∷ take 41 ∷ []) single heap world)
run_all-apply_all_example =
    run_all-apply_all rising 3 (add_back 7 ∷ add_front 8 ∷ take 41 ∷ []) single heap world
      (41 ∷ [], 2) (8 ∷ 7 ∷ [], 1) single-Represents (omega arith) refl

-- The nodes at 5000 and 5024 hold 41 and 7; that at 5048 is the reserve.
abbrev heap_two : Heap
heap_two a =
    if a == 5000
    then record { next = 5024; prev = 0; item = 41 }
    else if a == 5024
    then record { next = 0; prev = 5000; item = 7 }
    else record { next = 0; prev = 0; item = 0 }

abbrev two : SprList
two = record { pool = pool; head = 5000; tail = 5024; free_nodes = 5048; size = 2; capacity = 1 }

two-IsList : IsList heap_two two ((5000, 41) ∷ (5024, 7) ∷ []) (5048 ∷ [])
two-IsList = record {
  before = 0;
  chain = (refl, omega arith, refl, refl, (refl, omega arith, refl, refl, refl));
  tail = refl;
  reserve = (refl, omega arith, refl);
  apart = λ a. ground arith;
  size = refl;
  capacity = refl;
  room = omega arith;
}

take_out-IsList_example :
    Returns (λ r w'. Taken ((5000, 41) ∷ []) (5048 ∷ []) r) (remove 2 two heap_two 7 world)
take_out-IsList_example =
    take_out-IsList two heap_two world 2 7 ((5000, 41) ∷ (5024, 7) ∷ []) (5048 ∷ []) two-IsList
      (omega arith) ((5000, 41) ∷ []) refl
