-- ===== src/LinkedList/KeepRemove/Head.antt =====
-- The removal of the first node of a list of lib/spr_list.c that is in order.
use spr.Base.{ℕ, ◌<◌, ◌≡◌, ◌≢◌, refl, sym, ap, subst, ◌∙◌, true, List, [], ◌∷◌, ==_ne, arith}
use spr.Base.Int.{ℤ}
use spr.Mutex.{success}
use spr.Sys.{World, ok, Returns, returns}
use spr.LinkedList.{SprList}
use spr.LinkedList.Node.{Heap, write, write_here, write_away, with_next, with_prev}
use spr.LinkedList.Remove.{remove}
use spr.LinkedList.Seg.{Cells, cells_at, Seg, Seg-first, cells_at_self}
use spr.LinkedList.Inv.{IsList}
use spr.LinkedList.KeepRemove.{without, without-IsList, is_item, elsewhere}

-- What the removal of a head `a` leaves, whose successor is `b`.
abbrev head_removed : SprList → Heap → (a b : ℕ) → ℤ × SprList × Heap
head_removed l h a b =
    let h1 = write b (with_prev 0 (h b)) h in
    (success, without l (h1 a).next l.tail a, write a (with_next l.free_nodes (h1 a)) h1)

remove_head_run :
    (l : SprList) (h : Heap) (w : World) (fuel x a b : ℕ)
    → l.head ≡ a
    → a ≢ 0
    → (h a).next ≡ b
    → b ≢ 0
    → is_item h x a ≡ true
    → remove fuel l h x w ≡ ok (head_removed l h a b) w
unfolding remove
remove_head_run l h w fuel x a b eh nz en bz t =
    let na = ==_ne a 0 nz in
    let nb = ==_ne (h a).next 0 (λ e. bz (sym en ∙ e)) in
    let run : remove fuel l h x w ≡ ok (head_removed l h a (h a).next) w =
      rw (eh, na, t, nb) refl in
    subst (λ c. remove fuel l h x w ≡ ok (head_removed l h a c) w) en run

pub remove_head-IsList :
    (l : SprList) (h : Heap) (w : World) (fuel x a b e : ℕ) (ys : Cells) (fs : List ℕ)
    → IsList h l ((a, x) ∷ (b, e) ∷ ys) fs
    → Returns
        (λ r w'. (r.0 ≡ success) × IsList r.2 r.1 ((b, e) ∷ ys) (a ∷ fs))
        (remove fuel l h x w)
remove_head-IsList l h w fuel x a b e ys fs is =
    let xs : Cells = (a, x) ∷ (b, e) ∷ ys in
    let (c0, c1, c2, c3, (s0, s1, s2, s3, s4)) = is.chain in
    let m1 = with_prev 0 (h b) in
    let h1 = write b m1 h in
    let m2 = with_next l.free_nodes (h1 a) in
    let h' = write a m2 h1 in
    let at_a : 0 < cells_at a xs = cells_at_self a x ((b, e) ∷ ys) in
    let at_b : 0 < cells_at b xs = omega (arith, cells_at_self b e ys) in
    let ab : a ≢ b =
      elsewhere b ((b, e) ∷ ys) a (cells_at_self b e ys)
        (omega (arith, is.apart a, cells_at_self a x [])) in
    let head' : (h1 a).next ≡ b = ap (λ n. n.next) (write_away b m1 h a ab) ∙ s0 in
    let others : (c : ℕ) → c ≢ a → c ≢ b → h' c ≡ h c =
      λ c ca cb. write_away a m2 h1 c ca ∙ write_away b m1 h c cb in
    let chain =
      Seg-first h h' 0 a 0 (h a).next b e ys
        (λ c k.
          others c
            (λ z. elsewhere c ys a k (omega (arith, is.apart a, cells_at_self a x [])) (sym z))
            (λ z. elsewhere c ys b k (omega (arith, is.apart b, cells_at_self b e [])) (sym z)))
        (write_away a m2 h1 b (λ z. ab (sym z)) ∙ write_here b m1 h) (s0, s1, s2, s3, s4) in
    rw (remove_head_run l h w fuel x a b c0 c1 s0 s1 (ground (arith, c2))) (
      returns (
        refl,
        without-IsList h h' l xs ((b, e) ∷ ys) fs a x is (λ c. refl) refl
            (λ c z. others c (elsewhere a xs c at_a z) (elsewhere b xs c at_b z))
            (ap (λ n. n.next) (write_here a m2 h1)) c1 0 (h1 a).next l.tail
            (subst (λ p. Seg h' 0 p ((b, e) ∷ ys) 0) (s0 ∙ sym head') chain) is.tail,
      ))
