-- ===== src/LinkedList/Seg.antt =====
-- Doubly linked segments on the heap of lib/spr_list.c, and how they change when a pointer at their
-- first or last node is written.
use spr.Base.{
  ℕ, ◌+◌, ◌≤◌, ◌<◌, ◌≡◌, ◌≢◌, refl, sym, ap, subst, ◌∙◌, List, [], ◌∷◌, ◌++◌, ◌==◌, if◌then◌else◌,
  arith,
}
use spr.LinkedList.Node.{Heap, with_next, with_prev}

-- Nodes by their address, with what they hold.
abbrev pub Cells : Type 0
Cells = List (ℕ × ℕ)

-- How many of the nodes have the address.
abbrev pub cells_at : ℕ → Cells → ℕ
cells_at a [] = 0
cells_at a ((b, item) ∷ xs) = (if a == b then 1 else 0) + cells_at a xs

-- The address of the last node, or `q` if there is none.
abbrev pub last_addr : ℕ → Cells → ℕ
last_addr q [] = q
last_addr q ((a, item) ∷ xs) = last_addr a xs

-- The nodes from `p` on up to the pointer `e`; the first points back at `q`.
abbrev pub Seg : Heap → (q p : ℕ) → Cells → (e : ℕ) → Type 0
Seg h q p [] e = p ≡ e
Seg h q p ((a, item) ∷ xs) e =
    (p ≡ a) × (a ≢ 0) × ((h a).item ≡ item) × ((h a).prev ≡ q) × Seg h a (h a).next xs e

-- Heaps that are the same at the nodes.
abbrev pub Agree : Heap → Heap → Cells → Type 0
Agree h h' xs = (a : ℕ) → 0 < cells_at a xs → h' a ≡ h a

pub cells_at-append :
    (a : ℕ) (xs ys : Cells) → cells_at a (xs ++ ys) ≡ cells_at a xs + cells_at a ys
cells_at-append a [] ys = omega arith
cells_at-append a ((b, item) ∷ xs) ys = omega (arith, cells_at-append a xs ys)

pub cells_at_self : (a item : ℕ) (xs : Cells) → 0 < cells_at a ((a, item) ∷ xs)
cells_at_self a item xs = ground arith

pub cells_at-last_addr : (a item : ℕ) (xs : Cells) → 0 < cells_at (last_addr a xs) ((a, item) ∷ xs)
cells_at-last_addr a item [] = cells_at_self a item []
cells_at-last_addr a item ((b, e) ∷ xs) = omega (arith, cells_at-last_addr b e xs)

pub last_addr-append : (q : ℕ) (xs : Cells) (a item : ℕ) → last_addr q (xs ++ (a, item) ∷ []) ≡ a
last_addr-append q [] a item = refl
last_addr-append q ((b, e) ∷ xs) a item = last_addr-append b xs a item

pub last_addr_behind :
    (q : ℕ) (xs : Cells) (c e : ℕ) (ys : Cells) → last_addr q (xs ++ (c, e) ∷ ys) ≡ last_addr c ys
last_addr_behind q [] c e ys = refl
last_addr_behind q ((b, i) ∷ xs) c e ys = last_addr_behind b xs c e ys

-- The rest of a segment is at the nodes of the rest.
Agree-tail : (h h' : Heap) (a item : ℕ) (xs : Cells) → Agree h h' ((a, item) ∷ xs) → Agree h h' xs
Agree-tail h h' a item xs same b k = same b (omega (arith, k))

pub Seg-Agree :
    (h h' : Heap) (e q p : ℕ) (xs : Cells) → Agree h h' xs → Seg h q p xs e → Seg h' q p xs e
Seg-Agree h h' e q p [] same s = s
Seg-Agree h h' e q p ((a, item) ∷ xs) same (s0, s1, s2, s3, s4) =
    let eq = same a (cells_at_self a item xs) in
    (
      s0,
      s1,
      ap (λ n. n.item) eq ∙ s2,
      ap (λ n. n.prev) eq ∙ s3,
      subst (λ n. Seg h' a n.next xs e) (sym eq)
          (Seg-Agree h h' e a (h a).next xs (Agree-tail h h' a item xs same) s4),
    )

pub Seg-append :
    (h : Heap) (m e q p : ℕ) (xs ys : Cells)
    → Seg h q p xs m
    → Seg h (last_addr q xs) m ys e
    → Seg h q p (xs ++ ys) e
Seg-append h m e q p [] ys s t = subst (λ n. Seg h q n ys e) (sym s) t
Seg-append h m e q p ((a, item) ∷ xs) ys (s0, s1, s2, s3, s4) t =
    (s0, s1, s2, s3, Seg-append h m e a (h a).next xs ys s4 t)

pub Seg-split :
    (h : Heap) (e q p : ℕ) (xs ys : Cells)
    → Seg h q p (xs ++ ys) e
    → (m : ℕ) × Seg h q p xs m × Seg h (last_addr q xs) m ys e
Seg-split h e q p [] ys s = (p, refl, s)
Seg-split h e q p ((a, item) ∷ xs) ys (s0, s1, s2, s3, s4) =
    let (m, l, r) = Seg-split h e a (h a).next xs ys s4 in (m, (s0, s1, s2, s3, l), r)

-- The `prev` of the first node is written.
pub Seg-first :
    (h h' : Heap) (e q q' p a item : ℕ) (xs : Cells)
    → Agree h h' xs
    → h' a ≡ with_prev q' (h a)
    → Seg h q p ((a, item) ∷ xs) e
    → Seg h' q' p ((a, item) ∷ xs) e
Seg-first h h' e q q' p a item xs same eq (s0, s1, s2, s3, s4) = (
  s0,
  s1,
  ap (λ n. n.item) eq ∙ s2,
  ap (λ n. n.prev) eq,
  subst (λ n. Seg h' a n.next xs e) (sym eq) (Seg-Agree h h' e a (h a).next xs same s4),
)

-- The `next` of the last node is written.
pub Seg-last :
    (h h' : Heap) (e n q p a item : ℕ) (xs : Cells)
    → ((b : ℕ) → cells_at b ((a, item) ∷ xs) ≤ 1)
    → ((b : ℕ) → 0 < cells_at b ((a, item) ∷ xs) → b ≢ last_addr a xs → h' b ≡ h b)
    → h' (last_addr a xs) ≡ with_next n (h (last_addr a xs))
    → Seg h q p ((a, item) ∷ xs) e
    → Seg h' q p ((a, item) ∷ xs) n
Seg-last h h' e n q p a item [] apart same eq (s0, s1, s2, s3, s4) =
    (s0, s1, ap (λ x. x.item) eq ∙ s2, ap (λ x. x.prev) eq ∙ s3, ap (λ x. x.next) eq)
Seg-last h h' e n q p a item ((b, i) ∷ xs) apart same eq (s0, s1, s2, s3, s4) =
    let k = cells_at-last_addr b i xs in
    let twice : last_addr b xs ≢ a = λ z.
      absurd (
        omega (arith, k, apart a, ap (λ c. cells_at c ((b, i) ∷ xs)) z, cells_at_self a item [])) in
    let here : h' a ≡ h a = same a (cells_at_self a item ((b, i) ∷ xs)) (λ z. twice (sym z)) in
    (
      s0,
      s1,
      ap (λ x. x.item) here ∙ s2,
      ap (λ x. x.prev) here ∙ s3,
      subst (λ x. Seg h' a x.next ((b, i) ∷ xs) n) (sym here)
          (Seg-last h h' e n a (h a).next b i xs (λ c. omega (arith, apart c))
            (λ c l ne. same c (omega (arith, l)) ne) eq s4),
    )

pub last_addr_not_null :
    (h : Heap) (e q p a item : ℕ) (xs : Cells) → Seg h q p ((a, item) ∷ xs) e → last_addr a xs ≢ 0
last_addr_not_null h e q p a item [] s = s.1
last_addr_not_null h e q p a item ((b, i) ∷ xs) s = last_addr_not_null h e a (h a).next b i xs s.4
