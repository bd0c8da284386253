-- ===== src/Pool/Alloc/Outcome.antt =====
-- What `spr_palloc` returns, and what it does to the pool that it is called on.
use spr.Base.{ℕ, ◌+◌, ◌*◌, ◌%◌, ◌≤◌, ◌<◌, ◌≡◌, ◌≢◌, refl, List, ◌∷◌, ◌==◌, if◌then◌else◌, arith}
use spr.Base.Word.{word}
use spr.Memory.{page_size}
use spr.Memory.Live.{within, live}
use spr.Sys.{Event, allocated}
use spr.Pool.{MemNode, Pool, sizeof_memnode}
use spr.Pool.Blocks.{owners, users, IsPool}
use spr.Pool.Blocks.Carve.{CarvedSlots}
use spr.Pool.Blocks.Effect.{
  IsBlock, CarvedSlots-IsBlock, CarvedSlots-AreSlots, CarvedSlots-owners, CarvedSlots-users,
  CarvedSlots-length, users-le-owners,
}
use spr.Pool.Blocks.Register.{Registered, fresh_node, fresh_node-IsNode, fresh_node_fields}

-- The memory that the pool owns is live.
abbrev pub Owns : Pool → List Event → Type 0
Owns p log = (a : ℕ) → owners a p.nodes ≤ live a log

-- The pool after a call that handed out `n` bytes at `mem`, or nothing at NULL.
pub record Allocated (p : Pool) (n mem : ℕ) (p' : Pool) (log' : List Event) : Type 0 where
  pub valid : IsPool p'
  pub owns : Owns p' log'
  pub block : mem ≢ 0 → IsBlock mem n
  pub used : (a : ℕ) → users a p'.nodes ≡ (if mem == 0 then 0 else within a mem n) + users a p.nodes
  pub rest : p' ≡ record p { nodes = p'.nodes }

module _ {n : ℕ} (aligned : n % 8 ≡ 0) {p : Pool} {log : List Event} (is : IsPool p)
    (own : Owns p log) where
  -- A block of a node that the pool has.
  pub carved-Allocated :
      {mem : ℕ} {ns : List (List MemNode)}
      → CarvedSlots n p.nodes mem ns
      → Allocated p n mem (record p { nodes = ns }) log
  carved-Allocated c =
      let b = CarvedSlots-IsBlock aligned 0 c is.slots in
      record {
        valid = record {
          slots = CarvedSlots-AreSlots aligned 0 c is.slots;
          count = omega (arith, CarvedSlots-length c, is.count);
          apart = λ a. omega (arith, CarvedSlots-owners aligned a c, is.apart a);
        };
        owns = λ a. omega (arith, CarvedSlots-owners aligned a c, own a);
        block = λ _. b;
        used = λ a. ground (arith, CarvedSlots-users aligned 0 a c is.slots, b.some_address);
        rest = refl;
      }

  pub null-Allocated : Allocated p n 0 p log
  null-Allocated = record {
    valid = is;
    owns = own;
    block = λ h. absurd (h refl);
    used = λ a. omega arith;
    rest = refl;
  }

  -- A block of a node that was just got and registered.
  pub grown-Allocated :
      (mem index : ℕ) {ns : List (List MemNode)}
      → 0 < mem
      → mem % 16 ≡ 0
      → mem + (index + 1) * page_size < word
      → n + sizeof_memnode ≤ (index + 1) * page_size
      → ((a : ℕ) → within a mem ((index + 1) * page_size) ≡ 1 → live a log ≡ 0)
      → Registered 0 index (fresh_node mem n index) p.nodes ns
      → Allocated p n
          (mem + sizeof_memnode)
          (record p { nodes = ns })
          (allocated ((index + 1) * page_size) mem ∷ log)
  grown-Allocated mem index pos16 on bounded room fresh r =
      let f = fresh_node_fields mem n index pos16 on bounded aligned room in
      let node = fresh_node-IsNode mem n index pos16 on bounded aligned room in
      record {
        valid = record {
          slots = r.valid node is.slots;
          count = omega (arith, r.same_length, is.count);
          apart = λ a. ground (arith, r.owned a, is.apart a, own a, fresh a, f);
        };
        owns = λ a. ground (arith, r.owned a, own a, fresh a, f);
        block = λ _. omega arith;
        used = λ a. ground (arith, r.used a, f);
        rest = refl;
      }

-- A block that was handed out overlaps none that was in use before.
pub Allocated-fresh :
    {p p' : Pool} {n mem : ℕ} {log' : List Event}
    → Allocated p n mem p' log'
    → mem ≢ 0
    → (a : ℕ) → within a mem n + users a p.nodes ≤ 1
Allocated-fresh {p'} al ne a =
    ground (arith, al.used a, users-le-owners 0 a p'.nodes al.valid.slots, al.valid.apart a)
