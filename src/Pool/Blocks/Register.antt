-- ===== src/Pool/Blocks/Register.antt =====
-- A node that `spr_palloc` gets from the system and registers in its slot.
use mathlib.Core.Option
use spr.Base.{
  ℕ, zero, suc, ◌+◌, ◌-◌, ◌*◌, ◌%◌, ◌≤◌, ◌<◌, ◌≡◌, refl, ap, subst, Option, none, some, List, [],
  ◌∷◌, length, arith,
}
use spr.Base.Word
use spr.Base.Word.{word}
use spr.Memory.{page_size}
use spr.Memory.Live.{within}
use spr.Pool.{MemNode, sizeof_memnode}
use spr.Pool.Alloc.{carve, register, new_node}
use spr.Pool.Blocks.{owners, users, IsNode, AreSlots}

-- The slots after a node has been put in front of one of them; the slots number from `i` on.
pub record Registered (i j : ℕ) (n : MemNode) (ns ns' : List (List MemNode)) : Type 0 where
  pub same_length : length ns' ≡ length ns
  pub owned : (a : ℕ) → owners a ns' ≡ within a n.addr n.dealloc_size + owners a ns
  pub used : (a : ℕ) → users a ns' ≡ within a n.begin (n.first_avail - n.begin) + users a ns
  pub valid : IsNode j n → AreSlots i ns → AreSlots i ns'

abbrev pub Registers :
    (i j index : ℕ) → MemNode → List (List MemNode) → Option (List (List MemNode)) → Type 0
Registers i j index n ns none = length ns ≤ index
Registers i j index n ns (some ns') = Registered i j n ns ns'

Registers-suc :
    (i j index : ℕ) (n : MemNode) (ch : List MemNode) (ns : List (List MemNode))
    (r : Option (List (List MemNode)))
    → Registers (suc i) j index n ns r
    → Registers i j (suc index) n (ch ∷ ns) (Option.map (λ rest'. ch ∷ rest') r)
Registers-suc i j index n ch ns none h = omega arith
Registers-suc i j index n ch ns (some ns') h = record {
  same_length = ap suc h.same_length;
  owned = λ a. omega (arith, h.owned a);
  used = λ a. omega (arith, h.used a);
  valid = λ is are. (are.0, h.valid is are.1);
}

pub register-Registers :
    (i j index : ℕ) (n : MemNode) (ns : List (List MemNode))
    → j ≡ i + index
    → Registers i j index n ns (register index n ns)
unfolding register
register-Registers i j index n [] e = omega arith
register-Registers i j zero n (ch ∷ rest) e = record {
  same_length = refl;
  owned = λ a. omega arith;
  used = λ a. omega arith;
  valid = λ is are. ((subst (λ k. IsNode k n) (omega arith) is, are.0), are.1);
}
register-Registers i j (suc index) n (ch ∷ rest) e =
    Registers-suc i j index n ch rest _ (register-Registers (suc i) j index n rest (omega arith))

-- A slot that is there takes the node.
pub register-Registered :
    (index : ℕ) (n : MemNode) (ns : List (List MemNode))
    → index < length ns
    → (ns' : List (List MemNode)) × (register index n ns ≡ some ns') × Registered 0 index n ns ns'
register-Registered index n ns h =
    go (register index n ns) refl (register-Registers 0 index index n ns (omega arith))
  where
    go :
        (r : Option (List (List MemNode)))
        → register index n ns ≡ r
        → Registers 0 index index n ns r
        → (ns' : List (List MemNode)) × (register index n ns ≡ some ns')
          × Registered 0 index n ns ns'
    go none e f = absurd (omega arith)
    go (some ns') e f = (ns', e, f)

-- The new node, with its first block carved.
abbrev pub fresh_node : (mem size index : ℕ) → MemNode
fresh_node mem size index = carve size (new_node mem ((index + 1) * page_size))

module _ (mem size index : ℕ) (some_address : 0 < mem) (on_boundary : mem % 16 ≡ 0)
    (bounded : mem + (index + 1) * page_size < word) (aligned : size % 8 ≡ 0)
    (room : size + sizeof_memnode ≤ (index + 1) * page_size) where
  pub fresh_node-IsNode : IsNode index (fresh_node mem size index)
  unfolding carve new_node Word.add Word.sub
  fresh_node-IsNode = omega arith

  pub fresh_node_fields :
      let n = fresh_node mem size index in
      (n.addr ≡ mem)
      × (n.dealloc_size ≡ (index + 1) * page_size)
      × (n.begin ≡ mem + sizeof_memnode)
      × (n.first_avail ≡ mem + sizeof_memnode + size)
  unfolding carve new_node Word.add Word.sub
  fresh_node_fields = omega arith
