-- ===== src/Pool/Blocks/Effect.antt =====
-- What a carved block does to the nodes: it is a block of a node in order that was free, and the
-- addresses in use grow by exactly it.
use spr.Base.{ℕ, suc, ◌+◌, ◌-◌, ◌%◌, ◌≤◌, ◌<◌, ◌≡◌, refl, ap, List, [], ◌∷◌, All, length, arith}
use spr.Base.Word
use spr.Base.Word.{word}
use spr.Memory.Live.{within}
use spr.Pool.{MemNode}
use spr.Pool.Alloc.{carve}
use spr.Pool.Blocks.{owners_slot, owners, users_slot, users, IsNode, AreSlots}
use spr.Pool.Blocks.Carve.{Carved, here, there, CarvedSlots, slot, later}

-- What carving does to one node in order, and to its addresses.
module _ {i size : ℕ} (aligned : size % 8 ≡ 0) {n : MemNode} (is : IsNode i n)
    (room : size ≤ n.size_avail) where
  carve-IsNode : IsNode i (carve size n)
  unfolding carve Word.add Word.sub
  carve-IsNode = omega arith

  carve-users :
      (a : ℕ)
      → within a n.begin ((carve size n).first_avail - n.begin)
        ≡ within a n.first_avail size + within a n.begin (n.first_avail - n.begin)
  unfolding carve Word.add Word.sub
  carve-users a = ground arith

-- A block inside the address space, on an eight-byte boundary and not NULL.
pub record IsBlock (mem size : ℕ) : Type 0 where
  pub some_address : 0 < mem
  pub on_boundary : mem % 8 ≡ 0
  pub inside : mem + size < word

module _ {size : ℕ} (aligned : size % 8 ≡ 0) where
  Carved-IsBlock :
      (i : ℕ) {mem : ℕ} {ns ns' : List MemNode}
      → Carved size ns mem ns'
      → All (IsNode i) ns
      → IsBlock mem size
  Carved-IsBlock i (here room) (is, rest) = omega arith
  Carved-IsBlock i (there c) (is, rest) = Carved-IsBlock i c rest

  Carved-IsNode :
      (i : ℕ) {mem : ℕ} {ns ns' : List MemNode}
      → Carved size ns mem ns'
      → All (IsNode i) ns
      → All (IsNode i) ns'
  Carved-IsNode i (here room) (is, rest) = (carve-IsNode aligned is room, rest)
  Carved-IsNode i (there c) (is, rest) = (is, Carved-IsNode i c rest)

  Carved-owners :
      {mem : ℕ} {ns ns' : List MemNode} (a : ℕ)
      → Carved size ns mem ns'
      → owners_slot a ns' ≡ owners_slot a ns
  unfolding carve
  Carved-owners a (here room) = refl
  Carved-owners a (there c) = omega (arith, Carved-owners a c)

  Carved-users :
      (i a : ℕ) {mem : ℕ} {ns ns' : List MemNode}
      → Carved size ns mem ns'
      → All (IsNode i) ns
      → users_slot a ns' ≡ within a mem size + users_slot a ns
  unfolding carve
  Carved-users i a (here room) (is, rest) = omega (arith, carve-users aligned is room a)
  Carved-users i a (there c) (is, rest) = omega (arith, Carved-users i a c rest)

  pub CarvedSlots-IsBlock :
      (i : ℕ) {mem : ℕ} {ns ns' : List (List MemNode)}
      → CarvedSlots size ns mem ns'
      → AreSlots i ns
      → IsBlock mem size
  CarvedSlots-IsBlock i (slot c) (are, rest) = Carved-IsBlock i c are
  CarvedSlots-IsBlock i (later c) (are, rest) = CarvedSlots-IsBlock (suc i) c rest

  pub CarvedSlots-AreSlots :
      (i : ℕ) {mem : ℕ} {ns ns' : List (List MemNode)}
      → CarvedSlots size ns mem ns'
      → AreSlots i ns
      → AreSlots i ns'
  CarvedSlots-AreSlots i (slot c) (are, rest) = (Carved-IsNode i c are, rest)
  CarvedSlots-AreSlots i (later c) (are, rest) = (are, CarvedSlots-AreSlots (suc i) c rest)

  pub CarvedSlots-owners :
      {mem : ℕ} {ns ns' : List (List MemNode)} (a : ℕ)
      → CarvedSlots size ns mem ns'
      → owners a ns' ≡ owners a ns
  CarvedSlots-owners a (slot c) = omega (arith, Carved-owners a c)
  CarvedSlots-owners a (later c) = omega (arith, CarvedSlots-owners a c)

  pub CarvedSlots-users :
      (i a : ℕ) {mem : ℕ} {ns ns' : List (List MemNode)}
      → CarvedSlots size ns mem ns'
      → AreSlots i ns
      → users a ns' ≡ within a mem size + users a ns
  CarvedSlots-users i a (slot c) (are, rest) = omega (arith, Carved-users i a c are)
  CarvedSlots-users i a (later c) (are, rest) = omega (arith, CarvedSlots-users (suc i) a c rest)

pub CarvedSlots-length :
    {size mem : ℕ} {ns ns' : List (List MemNode)}
    → CarvedSlots size ns mem ns'
    → length ns' ≡ length ns
CarvedSlots-length (slot c) = refl
CarvedSlots-length (later c) = ap suc (CarvedSlots-length c)

-- An address in use is owned.
users_slot-le-owners_slot :
    (i a : ℕ) (ns : List MemNode) → All (IsNode i) ns → users_slot a ns ≤ owners_slot a ns
users_slot-le-owners_slot i a [] are = omega arith
users_slot-le-owners_slot i a (n ∷ ns) (is, rest) =
    ground (arith, users_slot-le-owners_slot i a ns rest)

pub users-le-owners :
    (i a : ℕ) (ns : List (List MemNode)) → AreSlots i ns → users a ns ≤ owners a ns
users-le-owners i a [] are = omega arith
users-le-owners i a (ch ∷ rest) (are, more) =
    omega (arith, users_slot-le-owners_slot i a ch are, users-le-owners (suc i) a rest more)
