-- ===== src/LinkedList/Inv.antt =====
-- When a list of lib/spr_list.c is in order: its nodes are linked both ways, those of the reserve one
-- way, no node is in both or twice, and the counters tell how many there are.
use spr.Base.{
  ℕ, ◌+◌, ◌≤◌, ◌<◌, ◌≡◌, ◌≢◌, sym, ap, subst, List, [], ◌∷◌, length, ◌==◌, if◌then◌else◌, arith,
}
use spr.Base.Word.{word}
use spr.LinkedList.{SprList}
use spr.LinkedList.Node.{Heap}
use spr.LinkedList.Seg.{Cells, cells_at, last_addr, Seg}

-- How often an address is in the reserve.
abbrev pub free_at : ℕ → List ℕ → ℕ
free_at a [] = 0
free_at a (b ∷ fs) = (if a == b then 1 else 0) + free_at a fs

-- The reserve from the pointer `p` on.
abbrev pub Reserve : Heap → ℕ → List ℕ → Type 0
Reserve h p [] = p ≡ 0
Reserve h p (a ∷ fs) = (p ≡ a) × (a ≢ 0) × Reserve h (h a).next fs

pub record IsList (h : Heap) (l : SprList) (xs : Cells) (fs : List ℕ) : Type 0 where
  pub before : ℕ
  pub chain : Seg h before l.head xs 0
  pub tail : l.tail ≡ last_addr 0 xs
  pub reserve : Reserve h l.free_nodes fs
  pub apart : (a : ℕ) → cells_at a xs + free_at a fs ≤ 1
  pub size : l.size ≡ length xs
  pub capacity : l.capacity ≡ length fs
  pub room : length xs + length fs < word

pub Reserve-Agree :
    (h h' : Heap) (p : ℕ) (fs : List ℕ)
    → ((a : ℕ) → 0 < free_at a fs → h' a ≡ h a)
    → Reserve h p fs
    → Reserve h' p fs
Reserve-Agree h h' p [] same r = r
Reserve-Agree h h' p (a ∷ fs) same (r0, r1, r2) = (
  r0,
  r1,
  subst (λ n. Reserve h' n.next fs) (sym (same a (ground arith)))
      (Reserve-Agree h h' (h a).next fs (λ b k. same b (omega (arith, k))) r2),
)

-- Nodes that are apart have different addresses.
pub differ_free :
    (xs : Cells) (fs : List ℕ)
    → ((a : ℕ) → cells_at a xs + free_at a fs ≤ 1)
    → (a b : ℕ) → 0 < cells_at a xs
    → 0 < free_at b fs
    → a ≢ b
differ_free xs fs apart a b k l e = absurd (omega (arith, apart a, k, l, ap (λ c. free_at c fs) e))

pub free_at_self : (a : ℕ) (fs : List ℕ) → 0 < free_at a (a ∷ fs)
free_at_self a fs = ground arith

pub differ_first :
    (n : ℕ) (fs : List ℕ) → ((a : ℕ) → free_at a (n ∷ fs) ≤ 1) → (b : ℕ) → 0 < free_at b fs → b ≢ n
differ_first n fs apart b l e =
    absurd (omega (arith, apart n, l, ap (λ c. free_at c fs) e, free_at_self n []))
