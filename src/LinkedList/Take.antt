-- ===== src/LinkedList/Take.antt =====
-- `spr_list_remove` on a list that is in order, whichever of its nodes has the item.
use mathlib.Core.Option.{some, some-injective, none-ne-some}
use spr.Base.{
  ℕ, ◌≤◌, ◌<◌, ◌≡◌, refl, sym, ap, subst, ◌∙◌, true, false, List, [], ◌∷◌, ◌++◌, length, ◌==◌,
  ==_iff, arith, Bool-cases, inl, inr,
}
use spr.Base.Int.{ℤ}
use spr.Mutex.{success}
use spr.Sys.{World, Returns, Returns-mono}
use spr.LinkedList.{SprList}
use spr.LinkedList.Node.{Heap, deref}
use spr.LinkedList.Remove.{remove, walk}
use spr.LinkedList.Seg.{Cells, last_addr, Seg, last_addr_not_null}
use spr.LinkedList.Inv.{IsList}
use spr.LinkedList.KeepRemove.{is_item}
use spr.LinkedList.KeepRemove.Head.{remove_head-IsList}
use spr.LinkedList.KeepRemove.Tail.{remove_tail-IsList}
use spr.LinkedList.KeepRemove.Inner.{remove_inner-IsList}
use spr.LinkedList.Spec.{last_of, init_of, erase_first, take_out, init_last, map-some}
use spr.LinkedList.Walk.{item_of, walk_finds}

-- A run that took a node out, which is now the first of the reserve.
abbrev pub Taken : Cells → List ℕ → ℤ × SprList × Heap → Type 0
Taken xs fs r = (r.0 ≡ success) × (p : ℕ) × IsList r.2 r.1 xs (p ∷ fs)

last_item :
    (h : Heap) (e q p a i : ℕ) (xs : Cells)
    → Seg h q p ((a, i) ∷ xs) e
    → (h (last_addr a xs)).item ≡ item_of (last_of (a, i) xs)
last_item h e q p a i [] s = s.2
last_item h e q p a i ((b, j) ∷ xs) s = last_item h e a (h a).next b j xs s.4

last_next :
    (h : Heap) (e q p a i : ℕ) (xs : Cells)
    → Seg h q p ((a, i) ∷ xs) e
    → (h (last_addr a xs)).next ≡ e
last_next h e q p a i [] s = s.4
last_next h e q p a i ((b, j) ∷ xs) s = last_next h e a (h a).next b j xs s.4

module _ (l : SprList) (h : Heap) (w : World) (fuel x a d b j : ℕ) (zs : Cells) (fs : List ℕ)
    (is : IsList h l ((a, d) ∷ (b, j) ∷ zs) fs) where
  take_first : (d == x) ≡ true → Returns (λ r w'. Taken ((b, j) ∷ zs) fs r) (remove fuel l h x w)
  take_first y =
      let is' : IsList h l ((a, x) ∷ (b, j) ∷ zs) fs =
        subst (λ k. IsList h l ((a, k) ∷ (b, j) ∷ zs) fs) ((==_iff d x).0 y) is in
      Returns-mono (remove_head-IsList l h w fuel x a b j zs fs is') (λ r w' t. (t.0, a, t.1))

  take_last :
      (d == x) ≡ false
      → (item_of (last_of (b, j) zs) == x) ≡ true
      → Returns (λ r w'. Taken ((a, d) ∷ init_of (b, j) zs) fs r) (remove fuel l h x w)
  take_last ne y =
      let front : Cells = (a, d) ∷ init_of (b, j) zs in
      let same : (a, d) ∷ (b, j) ∷ zs ≡ front ++ last_of (b, j) zs ∷ [] =
        ap (λ m. (a, d) ∷ m) (init_last (b, j) zs) in
      let e : last_of (b, j) zs ≡ ((last_of (b, j) zs).0, x) =
        ap (λ m. ((last_of (b, j) zs).0, m)) ((==_iff (item_of (last_of (b, j) zs)) x).0 y) in
      let is' = subst (λ m. IsList h l m fs) (same ∙ ap (λ m. front ++ m ∷ []) e) is in
      Returns-mono
        (remove_tail-IsList l h w fuel x a d (last_of (b, j) zs).0 (init_of (b, j) zs) fs is' ne)
        (λ r w' q. (q.0, (last_of (b, j) zs).0, q.1))

  take_inner :
      (d == x) ≡ false
      → (item_of (last_of (b, j) zs) == x) ≡ false
      → (ys : Cells) → erase_first item_of x ((b, j) ∷ zs) ≡ some ys
      → length zs < fuel
      → Returns (λ r w'. Taken ((a, d) ∷ ys) fs r) (remove fuel l h x w)
  take_inner ne last ys e enough =
      let (c0, c1, c2, c3, c4) = is.chain in
      let next : Seg h a (h a).next ((b, j) ∷ zs) 0 = c4 in
      let tail : l.tail ≡ last_addr b zs = is.tail in
      let clash : is_item h x l.tail ≡ false =
        ap (is_item h x) tail ∙ ap (λ m. m == x) (last_item h 0 a (h a).next b j zs next) ∙ last in
      let ends : (h l.tail).next ≡ 0 =
        ap (λ m. (h m).next) tail ∙ last_next h 0 a (h a).next b j zs next in
      let found =
        walk_finds h x l.tail a b j zs (refl, next.1, next.2, next.3, next.4) tail clash ends ys
          e in
      let walks =
        ap (λ m. walk fuel (λ q g. deref (λ n. n.item == x) q g) l.tail m h w) next.0
        ∙ found.walks fuel w (omega (arith, enough)) in
      let is' = subst (λ m. IsList h l ((a, d) ∷ m) fs) found.split is in
      let t =
        remove_inner-IsList l h w fuel x a d found.p found.c found.e found.front found.back fs is'
          ne clash (λ z. last_addr_not_null h 0 a (h a).next b j zs next (sym tail ∙ z)) walks in
      Returns-mono t (λ r w' q. (
        q.0,
        found.p,
        subst (λ m. IsList r.2 r.1 ((a, d) ∷ m) (found.p ∷ fs)) (sym found.rest) q.1,
      ))

-- `spr_list_remove` on a list that is in order, with two nodes or more of which one has the data, ends
-- without fault with SPR_OK, with as many steps of fuel as there are nodes: the list is in order again,
-- without the first node if that has the data, else without the last if that has it, else without the
-- first that has it, and the node stands in front of the reserve, which is otherwise as before.
pub take_out-IsList :
    (l : SprList) (h : Heap) (w : World) (fuel x : ℕ) (xs : Cells) (fs : List ℕ)
    → IsList h l xs fs
    → length xs ≤ fuel
    → (xs' : Cells) → take_out item_of x xs ≡ some xs'
    → Returns (λ r w'. Taken xs' fs r) (remove fuel l h x w)
take_out-IsList l h w fuel x [] fs is enough xs' e = absurd (none-ne-some xs' e)
take_out-IsList l h w fuel x ((a, d) ∷ []) fs is enough xs' e = absurd (none-ne-some xs' e)
take_out-IsList l h w fuel x ((a, d) ∷ (b, j) ∷ zs) fs is enough xs' e =
    let P = λ (m : Cells). Returns (λ r w'. Taken m fs r) (remove fuel l h x w) in
    elim (Bool-cases (d == x)) [
      | inl y ↦
          subst P (some-injective _ _ (rw (y) at e)) (take_first l h w fuel x a d b j zs fs is y)
      | inr n ↦ elim (Bool-cases (item_of (last_of (b, j) zs) == x)) [
        | inl y ↦
            subst P (some-injective _ _ (rw (n, y) at e))
              (take_last l h w fuel x a d b j zs fs is n y)
        | inr m ↦
            let (ys, f, g) =
              map-some (λ k. (a, d) ∷ k) (erase_first item_of x ((b, j) ∷ zs)) xs'
                (rw (n, m) at e) in
            subst P (sym g)
              (take_inner l h w fuel x a d b j zs fs is n m ys f (omega (arith, enough)))
      ]
    ]
