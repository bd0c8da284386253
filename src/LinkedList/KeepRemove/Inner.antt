-- ===== src/LinkedList/KeepRemove/Inner.antt =====
-- The removal of a node of lib/spr_list.c that is neither the first nor the last, of a list in order.
use spr.Base.{
  ℕ, ◌<◌, ◌≡◌, ◌≢◌, refl, sym, ap, subst, ◌∙◌, false, some, List, [], ◌∷◌, ◌++◌, length-append,
  ◌==◌, ==_ne, arith,
}
use spr.Base.Int.{ℤ}
use spr.Base.Word
use spr.Base.Word.{word, add-fits, sub-fits}
use spr.Mutex.{success}
use spr.Sys.{World, ok, Returns, returns}
use spr.LinkedList.{SprList}
use spr.LinkedList.Node.{Heap, write, write_here, write_away, deref, with_next, with_prev}
use spr.LinkedList.Remove.{remove, remove_inner, walk}
use spr.LinkedList.Seg.{
  Cells, cells_at, last_addr, Seg-append, Seg-split, Seg-last, Seg-first, cells_at-append,
  cells_at-last_addr, last_addr_behind, cells_at_self, last_addr_not_null,
}
use spr.LinkedList.Inv.{IsList}
use spr.LinkedList.KeepRemove.{without, without-IsList, is_item, elsewhere}

unlinked : Heap → (p b c : ℕ) → Heap
unlinked h p b c = let h1 = write c (with_prev b (h c)) h in write b (with_next c (h1 b)) h1

remove_inner_step :
    (l : SprList) (h : Heap) (w : World) (p b c : ℕ)
    → p ≢ 0
    → (h p).prev ≡ b
    → b ≢ 0
    → (h p).next ≡ c
    → c ≢ 0
    → p ≢ c
    → remove_inner l p h w ≡ ok (record l { size = Word.sub l.size 1 }, unlinked h p b c) w
unfolding remove_inner unlinked
remove_inner_step l h w p b c np eb nb ec nc pc =
    let zp = ==_ne p 0 np in
    let zb = ==_ne (h p).prev 0 (λ e. nb (sym eb ∙ e)) in
    let zc = ==_ne (h p).next 0 (λ e. nc (sym ec ∙ e)) in
    let q = (h p).next in
    let same = write_away q (with_prev (h p).prev (h q)) h p (λ e. pc (e ∙ ec)) in
    let run : remove_inner l p h w
        ≡ ok (record l { size = Word.sub l.size 1 }, unlinked h p (h p).prev (h p).next) w =
      rw (zp, zc, same, zb) refl in
    subst
      (λ m. remove_inner l p h w ≡ ok (record l { size = Word.sub l.size 1 }, unlinked h p m c) w)
      eb
      (subst
        (λ m.
          remove_inner l p h w
          ≡ ok (record l { size = Word.sub l.size 1 }, unlinked h p (h p).prev m) w)
        ec run)

record Unlinked (h h' : Heap) (b c : ℕ) : Type 0 where
  others : (a : ℕ) → a ≢ b → a ≢ c → h' a ≡ h a
  left : h' b ≡ with_next c (h b)
  right : h' c ≡ with_prev b (h c)

unlinked-Unlinked : (h : Heap) (p b c : ℕ) → b ≢ c → Unlinked h (unlinked h p b c) b c
unfolding unlinked
unlinked-Unlinked h p b c bc =
    let m1 = with_prev b (h c) in
    let h1 = write c m1 h in
    let m2 = with_next c (h1 b) in
    record {
      others = λ a ab ac. write_away b m2 h1 a ab ∙ write_away c m1 h a ac;
      left = write_here b m2 h1 ∙ ap (with_next c) (write_away c m1 h b bc);
      right = write_away b m2 h1 c (λ z. bc (sym z)) ∙ write_here c m1 h;
    }

-- What the removal of a node `p` between `b` and `c` leaves.
abbrev inner_removed : SprList → Heap → (p b c : ℕ) → ℤ × SprList × Heap
inner_removed l h p b c =
    let h2 = unlinked h p b c in
    (success, without l l.head l.tail p, write p (with_next l.free_nodes (h2 p)) h2)

remove_inner_run :
    (l : SprList) (h : Heap) (w : World) (fuel x p b c : ℕ)
    → l.head ≢ 0
    → is_item h x l.head ≡ false
    → l.tail ≢ 0
    → is_item h x l.tail ≡ false
    → walk fuel (λ q g. deref (λ n. n.item == x) q g) l.tail (h l.head).next h w ≡ ok (some p) w
    → p ≢ 0
    → remove_inner l p h w ≡ ok (record l { size = Word.sub l.size 1 }, unlinked h p b c) w
    → remove fuel l h x w ≡ ok (inner_removed l h p b c) w
unfolding remove
remove_inner_run l h w fuel x p b c na fa nt ft found np step =
    rw (==_ne l.head 0 na, fa, ==_ne l.tail 0 nt, ft, found, step, ==_ne p 0 np) refl

pub remove_inner-IsList :
    (l : SprList) (h : Heap) (w : World) (fuel x a d p c e : ℕ) (front back : Cells) (fs : List ℕ)
    → IsList h l (((a, d) ∷ front) ++ (p, x) ∷ (c, e) ∷ back) fs
    → (d == x) ≡ false
    → is_item h x l.tail ≡ false
    → l.tail ≢ 0
    → walk fuel (λ q g. deref (λ n. n.item == x) q g) l.tail (h a).next h w ≡ ok (some p) w
    → Returns
        (λ r w'. (r.0 ≡ success) × IsList r.2 r.1 (((a, d) ∷ front) ++ (c, e) ∷ back) (p ∷ fs))
        (remove fuel l h x w)
remove_inner-IsList l h w fuel x a d p c e front back fs is ne last nt found =
    let left : Cells = (a, d) ∷ front in
    let right : Cells = (c, e) ∷ back in
    let xs : Cells = left ++ (p, x) ∷ right in
    let (m, f, (p0, p1, p2, p3, g)) =
      Seg-split h 0 is.before l.head left ((p, x) ∷ right) is.chain in
    let (c0, c1, c2, c3, c4) = f in
    let (g0, g1, g2, g3, g4) = g in
    let b = last_addr a front in
    let h2 = unlinked h p b c in
    let m3 = with_next l.free_nodes (h2 p) in
    let h' = write p m3 h2 in
    let cells = λ (q : ℕ). cells_at-append q left ((p, x) ∷ right) in
    let at_b : 0 < cells_at b left = cells_at-last_addr a d front in
    let at_c : 0 < cells_at c right = cells_at_self c e back in
    let at_p = cells_at_self p x [] in
    let far_p : (q : ℕ) → 0 < cells_at q left → q ≢ p =
      λ q k z. elsewhere q left p k (omega (arith, is.apart p, cells p, at_p)) (sym z) in
    let far_c : (q : ℕ) → 0 < cells_at q left → q ≢ c =
      λ q k z. elsewhere q left c k (omega (arith, is.apart c, cells c, at_c)) (sym z) in
    let pc : c ≢ p =
      λ z. elsewhere c right p at_c (omega (arith, is.apart p, cells p, at_p)) (sym z) in
    let v = unlinked-Unlinked h p b c (far_c b at_b) in
    let others : (q : ℕ) → q ≢ p → q ≢ b → q ≢ c → h' q ≡ h q =
      λ q qp qb qc. write_away p m3 h2 q qp ∙ v.others q qb qc in
    let chain_left =
      Seg-last h h' m c is.before l.head a d front (λ q. omega (arith, is.apart q, cells q))
        (λ q k qb. others q (far_p q k) qb (far_c q k))
        (write_away p m3 h2 b (far_p b at_b) ∙ v.left) f in
    let chain_right =
      Seg-first h h' 0 p b c c e back
        (λ q k.
          others q (λ z. elsewhere q back p k (omega (arith, is.apart p, cells p, at_p)) (sym z))
            (λ z. elsewhere q back b k (omega (arith, is.apart b, cells b, at_b)) (sym z))
            (λ z.
              elsewhere q back c k (omega (arith, is.apart c, cells c, cells_at_self c e []))
                (sym z)))
        (write_away p m3 h2 c pc ∙ v.right) (refl, g1, g2, g3, g4) in
    let step =
      remove_inner_step l h w p b c p1 p3 (last_addr_not_null h m is.before l.head a d front f) g0
        g1 (λ z. pc (sym z)) in
    let at_head = λ (P : ℕ → Type 0) (t : P a). subst P (sym c0) t in
    rw
      (remove_inner_run l h w fuel x p b c (at_head (λ q. q ≢ 0) c1)
        (at_head (λ q. is_item h x q ≡ false) (rw (c2) ne)) nt last
        (at_head
          (λ q.
            walk fuel (λ q g. deref (λ n. n.item == x) q g) l.tail (h q).next h w ≡ ok (some p) w)
          found)
        p1 step)
      (returns (
        refl,
        without-IsList h h' l xs (left ++ right) fs p x is
            (λ q. omega (arith, cells q, cells_at-append q left right))
            (omega (arith, length-append left ((p, x) ∷ right), length-append left right))
            (λ q z.
              others q (elsewhere p xs q (omega (arith, cells p, at_p)) z)
                (elsewhere b xs q (omega (arith, cells b, at_b)) z)
                (elsewhere c xs q (omega (arith, cells c, at_c)) z))
            (ap (λ n. n.next) (write_here p m3 h2)) p1 is.before l.head l.tail
            (Seg-append h' c 0 is.before l.head left right chain_left chain_right)
            (is.tail ∙ last_addr_behind 0 left p x right ∙ sym (last_addr_behind 0 left c e back)),
      ))
