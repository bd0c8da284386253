-- ===== src/LinkedList/KeepRemove/Tail.antt =====
-- The removal of the last node of a list of lib/spr_list.c that is in order.
use spr.Base.{
  ℕ, ◌<◌, ◌≡◌, ◌≢◌, refl, sym, ap, subst, ◌∙◌, true, false, List, [], ◌∷◌, ◌++◌, length-append,
  ◌==◌, ==_ne, arith,
}
use spr.Base.Int.{ℤ}
use spr.Mutex.{success}
use spr.Sys.{World, ok, Returns, returns}
use spr.LinkedList.{SprList}
use spr.LinkedList.Node.{Heap, write, write_here, write_away, with_next}
use spr.LinkedList.Remove.{remove}
use spr.LinkedList.Seg.{
  Cells, cells_at, last_addr, Seg-split, Seg-last, cells_at-append, cells_at-last_addr,
  last_addr-append, cells_at_self, last_addr_not_null,
}
use spr.LinkedList.Inv.{IsList}
use spr.LinkedList.KeepRemove.{without, without-IsList, is_item, elsewhere}

-- What the removal of a tail `t` leaves, whose predecessor is `b`.
abbrev tail_removed : SprList → Heap → (t b : ℕ) → ℤ × SprList × Heap
tail_removed l h t b =
    let h1 = write b (with_next 0 (h b)) h in
    (success, without l l.head (h1 t).prev t, write t (with_next l.free_nodes (h1 t)) h1)

remove_tail_run :
    (l : SprList) (h : Heap) (w : World) (fuel x a t b : ℕ)
    → l.head ≡ a
    → a ≢ 0
    → is_item h x a ≡ false
    → l.tail ≡ t
    → t ≢ 0
    → is_item h x t ≡ true
    → (h t).prev ≡ b
    → b ≢ 0
    → remove fuel l h x w ≡ ok (tail_removed l h t b) w
unfolding remove
remove_tail_run l h w fuel x a t b eh na fa et nt ft eb nb =
    let za = ==_ne a 0 na in
    let zt = ==_ne t 0 nt in
    let zb = ==_ne (h t).prev 0 (λ e. nb (sym eb ∙ e)) in
    let run : remove fuel l h x w ≡ ok (tail_removed l h t (h t).prev) w =
      rw (eh, za, fa, et, zt, ft, zb) refl in
    subst (λ c. remove fuel l h x w ≡ ok (tail_removed l h t c) w) eb run

pub remove_tail-IsList :
    (l : SprList) (h : Heap) (w : World) (fuel x a d t : ℕ) (front : Cells) (fs : List ℕ)
    → IsList h l (((a, d) ∷ front) ++ (t, x) ∷ []) fs
    → (d == x) ≡ false
    → Returns
        (λ r w'. (r.0 ≡ success) × IsList r.2 r.1 ((a, d) ∷ front) (t ∷ fs))
        (remove fuel l h x w)
remove_tail-IsList l h w fuel x a d t front fs is ne =
    let xs' : Cells = (a, d) ∷ front in
    let xs : Cells = xs' ++ (t, x) ∷ [] in
    let (m, f, (t0, t1, t2, t3, t4)) = Seg-split h 0 is.before l.head xs' ((t, x) ∷ []) is.chain in
    let (c0, c1, c2, c3, c4) = f in
    let b = last_addr a front in
    let m1 = with_next 0 (h b) in
    let h1 = write b m1 h in
    let m2 = with_next l.free_nodes (h1 t) in
    let h' = write t m2 h1 in
    let cells = λ (c : ℕ). cells_at-append c xs' ((t, x) ∷ []) in
    let at_b : 0 < cells_at b xs' = cells_at-last_addr a d front in
    let at_t : 0 < cells_at t ((t, x) ∷ []) = cells_at_self t x [] in
    let far : (c : ℕ) → 0 < cells_at c xs' → c ≢ t =
      λ c k z. elsewhere c xs' t k (omega (arith, is.apart t, cells t, at_t)) (sym z) in
    let others : (c : ℕ) → c ≢ t → c ≢ b → h' c ≡ h c =
      λ c ct cb. write_away t m2 h1 c ct ∙ write_away b m1 h c cb in
    let tb : t ≢ b = λ z. far b at_b (sym z) in
    let chain =
      Seg-last h h' m 0 is.before l.head a d front (λ c. omega (arith, is.apart c, cells c))
        (λ c k cb. others c (far c k) cb)
        (write_away t m2 h1 b (λ z. tb (sym z)) ∙ write_here b m1 h) f in
    let last : l.tail ≡ t = is.tail ∙ last_addr-append 0 xs' t x in
    rw
      (remove_tail_run l h w fuel x a t b c0 c1 (rw (c2) ne) last t1 (ground (arith, t2)) t3
        (last_addr_not_null h m is.before l.head a d front f))
      (returns (
        refl,
        without-IsList h h' l xs xs' fs t x is (λ c. omega (arith, cells c))
            (omega (arith, length-append xs' ((t, x) ∷ [])))
            (λ c z.
              others c (elsewhere t xs c (omega (arith, cells t, at_t)) z)
                (elsewhere b xs c (omega (arith, cells b, at_b)) z))
            (ap (λ n. n.next) (write_here t m2 h1)) t1 is.before l.head (h1 t).prev chain
            (ap (λ n. n.prev) (write_away b m1 h t tb) ∙ t3),
      ))
