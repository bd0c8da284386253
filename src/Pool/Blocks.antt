-- ===== src/Pool/Blocks.antt =====
-- The memory of a pool as sets of addresses: which addresses its nodes own, which of those are in
-- use, and when the node lists of a pool are in order.
pub mod Carve
pub mod Effect
pub mod Register
use spr.Base.{
  ℕ, suc, ◌+◌, ◌-◌, ◌*◌, ◌%◌, ◌≤◌, ◌<◌, ◌≡◌, ◌≢◌, ◌&&◌, List, [], ◌∷◌, All, length, leb, ltb,
  if◌then◌else◌,
}
use spr.Base.Word.{word}
use spr.Memory.{page_size}
use spr.Memory.Live.{within}
use spr.Pool.{MemNode, Pool, sizeof_memnode, max_pool_slot}

-- How many of the nodes own the address, and in how many of them it has been handed out.
abbrev pub owners_slot : ℕ → List MemNode → ℕ
owners_slot a [] = 0
owners_slot a (n ∷ ns) = within a n.addr n.dealloc_size + owners_slot a ns

abbrev pub owners : ℕ → List (List MemNode) → ℕ
owners a [] = 0
owners a (ch ∷ rest) = owners_slot a ch + owners a rest

abbrev pub users_slot : ℕ → List MemNode → ℕ
users_slot a [] = 0
users_slot a (n ∷ ns) = within a n.begin (n.first_avail - n.begin) + users_slot a ns

abbrev pub users : ℕ → List (List MemNode) → ℕ
users a [] = 0
users a (ch ∷ rest) = users_slot a ch + users a rest

-- A node in order: its usable part lies behind the header in its `i + 1` pages, the part handed out
-- and the part available make it up, and blocks stay aligned.
pub record IsNode (i : ℕ) (n : MemNode) : Type 0 where
  pub header : n.addr + sizeof_memnode ≤ n.begin
  pub ends : n.begin + n.size ≡ n.addr + n.dealloc_size
  pub split : n.first_avail + n.size_avail ≡ n.begin + n.size
  pub started : n.begin ≤ n.first_avail
  pub pages : n.dealloc_size ≡ (i + 1) * page_size
  pub bounded : n.addr + n.dealloc_size < word
  pub not_null : 0 < n.addr
  pub aligned : n.first_avail % 8 ≡ 0
  pub begin_aligned : n.begin % 8 ≡ 0

-- The nodes of slot `i` have `i + 1` pages each.
abbrev pub AreSlots : ℕ → List (List MemNode) → Type 0
AreSlots i [] = Unit {0}
AreSlots i (ch ∷ rest) = All (IsNode i) ch × AreSlots (suc i) rest

-- The invariant of a pool: twenty slots of nodes in order, and no address in two nodes.
pub record IsPool (p : Pool) : Type 0 where
  pub slots : AreSlots 0 p.nodes
  pub count : length p.nodes ≡ max_pool_slot
  pub apart : (a : ℕ) → owners a p.nodes ≤ 1
