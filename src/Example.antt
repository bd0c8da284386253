-- ===== src/Example.antt =====
-- A system whose `malloc` hands out rising addresses, and a root pool in its first page, at which
-- the theorems are applied.

use spr.Base.{
  ℕ, ◌+◌, ◌-◌, ◌%◌, ◌≤◌, ◌≡◌, refl, List, [], ◌∷◌, replicate, leb, ltb, if◌then◌else◌, arith,
}
use spr.Base.Int.{pos}
use spr.Base.Word.{word}
use spr.Memory.Live.{live, IsAllocator}
use spr.Sys.{Event, allocated, released, handled, zeroed, stored, answered, World, System}
use spr.Mutex.Held.{IsRecursive}
use spr.Pool.Alloc.Outcome.{Owns}
use spr.Pool.Blocks.{IsPool}
use spr.Pool.{MemNode, Pool, CleanupNode, client}

-- Behind the last byte that was ever handed out, on a boundary of sixteen.
abbrev frontier : List Event → ℕ
frontier [] = 4096
frontier (allocated size mem ∷ log) =
    if leb (frontier log) (mem + size) then mem + size + (16 - (mem + size) % 16) else frontier log
frontier (released _ ∷ log) = frontier log
frontier (handled _ _ ∷ log) = frontier log
frontier (zeroed _ _ ∷ log) = frontier log
frontier (stored _ _ ∷ log) = frontier log
frontier (answered _ _ ∷ log) = frontier log

abbrev bump : List Event → ℕ → ℕ
bump log size = if ltb (frontier log + size) word then frontier log else 0

-- Every call succeeds.
abbrev pub rising : System
rising = record { malloc = bump; call = λ log c. pos 0; self = 7 }

frontier-aligned : (log : List Event) → frontier log % 16 ≡ 0
frontier-aligned [] = refl
frontier-aligned (allocated size mem ∷ log) = ground (arith, frontier-aligned log)
frontier-aligned (released _ ∷ log) = frontier-aligned log
frontier-aligned (handled _ _ ∷ log) = frontier-aligned log
frontier-aligned (zeroed _ _ ∷ log) = frontier-aligned log
frontier-aligned (stored _ _ ∷ log) = frontier-aligned log
frontier-aligned (answered _ _ ∷ log) = frontier-aligned log

live-frontier : (a : ℕ) (log : List Event) → frontier log ≤ a → live a log ≡ 0
live-frontier a [] h = refl
live-frontier a (allocated size mem ∷ log) h = ground (arith, live-frontier a log)
live-frontier a (released mem ∷ log) h = ground (arith, live-frontier a log h)
live-frontier a (handled _ _ ∷ log) h = live-frontier a log h
live-frontier a (zeroed _ _ ∷ log) h = live-frontier a log h
live-frontier a (stored _ _ ∷ log) h = live-frontier a log h
live-frontier a (answered _ _ ∷ log) h = live-frontier a log h

pub rising-IsAllocator : IsAllocator rising
rising-IsAllocator = record {
  bounded = λ log size ne. ground arith;
  aligned = λ log size. ground (arith, frontier-aligned log);
  fresh = λ log size a ne h. ground (arith, live-frontier a log);
}

abbrev pub world : World
world = record { log = allocated 4096 4096 ∷ []; counter = 4096 }

abbrev pub home_node : MemNode
home_node = record {
  addr = 4096;
  begin = 4400;
  first_avail = 4448;
  size = 3792;
  size_avail = 3744;
  dealloc_size = 4096;
}

-- A root pool as `spr_pool_create1` makes it in the first page, with two cleanups.
abbrev pub entry : ℕ → ℕ → CleanupNode
entry addr argument = record { addr = addr; argument = argument; handler = client 1 }

abbrev pub pool : Pool
pool = record {
  addr = 4144;
  nodes = (home_node ∷ []) ∷ replicate 19 [];
  parent = 0;
  cleanups = entry 4400 5 ∷ entry 4424 6 ∷ [];
  free_cleanups = [];
  mutex = 4360;
  owner = 7;
}

pub pool-IsPool : IsPool pool
pool-IsPool = record { slots = omega arith; count = refl; apart = λ a. ground arith }

pub pool-Owns : Owns pool world.log
pool-Owns = λ a. ground arith

pub rising-IsRecursive : (m : ℕ) → IsRecursive rising m
rising-IsRecursive m = record { locks = λ log. refl; unlocks = λ log h. refl }
