-- ===== src/Pool/Blocks/Carve.antt =====
-- The search of `spr_palloc` over the nodes: what it finds, and what it does to the node.
use mathlib.Core.Option
use spr.Base.{
  ℕ, zero, suc, ◌≤◌, ◌<◌, inl, inr, Option, none, some, List, [], ◌∷◌, All, leb, leb→le,
  leb_false→lt, Bool-cases,
}
use spr.Pool.{MemNode}
use spr.Pool.Alloc.{carve, first_fit, search_slots}

-- One node of a slot was carved, and the rest stays.
pub data Carved (size : ℕ) : List MemNode → ℕ → List MemNode → Type 0 where
  here :
      {n : MemNode} {ns : List MemNode}
      → size ≤ n.size_avail
      → Carved size (n ∷ ns) n.first_avail (carve size n ∷ ns)
  there :
      {n : MemNode} {ns ns' : List MemNode} {mem : ℕ}
      → Carved size ns mem ns'
      → Carved size (n ∷ ns) mem (n ∷ ns')

pub data CarvedSlots (size : ℕ) : List (List MemNode) → ℕ → List (List MemNode) → Type 0 where
  slot :
      {ch ch' : List MemNode} {rest : List (List MemNode)} {mem : ℕ}
      → Carved size ch mem ch'
      → CarvedSlots size (ch ∷ rest) mem (ch' ∷ rest)
  later :
      {ch : List MemNode} {rest rest' : List (List MemNode)} {mem : ℕ}
      → CarvedSlots size rest mem rest'
      → CarvedSlots size (ch ∷ rest) mem (ch ∷ rest')

-- What a search came to: a carved node, or no node with room.
abbrev pub FirstFit : ℕ → List MemNode → Option (ℕ × List MemNode) → Type 0
FirstFit size ns none = All (λ n. n.size_avail < size) ns
FirstFit size ns (some (mem, ns')) = Carved size ns mem ns'

FirstFit-cons :
    (size : ℕ) (n : MemNode) (ns : List MemNode) (r : Option (ℕ × List MemNode))
    → n.size_avail < size
    → FirstFit size ns r
    → FirstFit size (n ∷ ns) (Option.map (λ (mem, rest). (mem, n ∷ rest)) r)
FirstFit-cons size n ns none h f = (h, f)
FirstFit-cons size n ns (some (mem, ns')) h f = there f

first_fit-FirstFit : (size : ℕ) (ns : List MemNode) → FirstFit size ns (first_fit size ns)
unfolding first_fit
first_fit-FirstFit size [] = tt
first_fit-FirstFit size (n ∷ ns) = elim (Bool-cases (leb size n.size_avail)) [
  | inl room ↦ rw room (here (leb→le _ _ room))
  | inr full ↦ rw full (
      FirstFit-cons size n ns (first_fit size ns) (leb_false→lt _ _ full)
        (first_fit-FirstFit size ns))
]

-- No node of the slots from `index` on has room.
abbrev pub IsFull : (size index : ℕ) → List (List MemNode) → Type 0
IsFull size index [] = Unit {0}
IsFull size zero (ch ∷ rest) = All (λ n. n.size_avail < size) ch × IsFull size zero rest
IsFull size (suc index) (ch ∷ rest) = IsFull size index rest

abbrev pub Search :
    (size index : ℕ) → List (List MemNode) → Option (ℕ × List (List MemNode)) → Type 0
Search size index ns none = IsFull size index ns
Search size index ns (some (mem, ns')) = CarvedSlots size ns mem ns'

Search-suc :
    (size index : ℕ) (ch : List MemNode) (rest : List (List MemNode))
    (r : Option (ℕ × List (List MemNode)))
    → Search size index rest r
    → Search size (suc index) (ch ∷ rest) (Option.map (λ (mem, rest'). (mem, ch ∷ rest')) r)
Search-suc size index ch rest none f = f
Search-suc size index ch rest (some (mem, rest')) f = later f

Search-zero :
    (size : ℕ) (ch : List MemNode) (rest : List (List MemNode))
    (r : Option (ℕ × List (List MemNode)))
    → All (λ n. n.size_avail < size) ch
    → Search size zero rest r
    → Search size zero (ch ∷ rest) (Option.map (λ (mem, rest'). (mem, ch ∷ rest')) r)
Search-zero size ch rest none full f = (full, f)
Search-zero size ch rest (some (mem, rest')) full f = later f

pub search_slots-Search :
    (size index : ℕ) (ns : List (List MemNode)) → Search size index ns (search_slots index size ns)
unfolding search_slots
search_slots-Search size index [] = tt
search_slots-Search size (suc index) (ch ∷ rest) =
    Search-suc size index ch rest _ (search_slots-Search size index rest)
search_slots-Search size zero (ch ∷ rest) =
    step (first_fit size ch) (first_fit-FirstFit size ch) (search_slots-Search size zero rest)
  where
    step :
        (r : Option (ℕ × List MemNode))
        → FirstFit size ch r
        → Search size zero rest (search_slots zero size rest)
        → Search size zero (ch ∷ rest) (elim r [
          | some (mem, ch') ↦ some (mem, ch' ∷ rest)
          | none ↦ Option.map (λ (mem, rest'). (mem, ch ∷ rest')) (search_slots zero size rest)
        ])
    step none full f = Search-zero size ch rest _ full f
    step (some (mem, ch')) found f = slot found
