-- ===== src/LinkedList.antt =====
-- lib/spr_list.c: the doubly linked list with its reserve of nodes. The nodes are cells of a heap at
-- their addresses; NULL is 0, and to read or write through it is a fault.
pub mod Node
pub mod Push
pub mod Remove
pub mod Chain
pub mod Seg
pub mod Inv
pub mod KeepPush
pub mod KeepRemove
pub mod Spec
pub mod Walk
pub mod Take
pub mod Refine
pub mod Lost
mod Tests
use spr.Base.{ℕ}
use spr.Pool.{Pool}

-- `spr_list_s`; the list carries the state of its pool
pub record SprList : Type 0 where
  pub pool : Pool
  pub head : ℕ
  pub tail : ℕ
  pub free_nodes : ℕ
  pub size : ℕ
  pub capacity : ℕ
