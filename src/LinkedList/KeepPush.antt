-- ===== src/LinkedList/KeepPush.antt =====
-- Pushes on a list of lib/spr_list.c that is in order and not empty, with a node in the reserve.
use spr.Base.{
  ℕ, ◌<◌, ◌≡◌, ◌≢◌, refl, sym, ap, subst, ◌∙◌, List, [], ◌∷◌, ◌++◌, length-append, ==_ne, arith,
}
use spr.Base.Int.{ℤ}
use spr.Base.Word
use spr.Base.Word.{word, add-fits, sub-fits}
use spr.Mutex.{success}
use spr.Sys.{System, World, ok, Returns, returns}
use spr.LinkedList.{SprList}
use spr.LinkedList.Node.{Heap, write, write_here, write_away, with_next, with_prev, with_item}
use spr.LinkedList.Push.{push_back, push_front}
use spr.LinkedList.Chain.{linked, linked-Linked, linked_others, linked_last, push_back_run}
use spr.LinkedList.Seg.{
  Cells, cells_at, last_addr, Seg, Seg-append, Seg-last, Seg-first, cells_at-append,
  cells_at-last_addr, last_addr-append, cells_at_self, last_addr_not_null,
}
use spr.LinkedList.Inv.{free_at, IsList, Reserve-Agree, differ_free, differ_first, free_at_self}

-- The run reported success and left a list in order.
abbrev pub Kept : Cells → List ℕ → ℤ × SprList × Heap → Type 0
Kept xs fs r = (r.0 ≡ success) × IsList r.2 r.1 xs fs

module _ (sys : System) (h : Heap) (l : SprList) (w : World) (a d : ℕ) (xs : Cells) (n : ℕ)
    (fs : List ℕ) (is : IsList h l ((a, d) ∷ xs) (n ∷ fs)) where
  pub push_back-IsList :
      (item : ℕ)
      → Returns (λ r w'. Kept ((a, d) ∷ (xs ++ (n, item) ∷ [])) fs r) (push_back sys l h item w)
  push_back-IsList item =
      let t = last_addr a xs in
      let at = cells_at-last_addr a d xs in
      let tn : t ≢ n = differ_free ((a, d) ∷ xs) (n ∷ fs) is.apart t n at (free_at_self n fs) in
      let h' = linked h t n item in
      let (r0, r1, r2) = is.reserve in
      let v = linked-Linked h t n item tn in
      let front =
        Seg-last h h' 0 n is.before l.head a d xs (λ b. omega (arith, is.apart b))
          (λ b k ne.
            linked_others h t n item b tn ne
              (differ_free ((a, d) ∷ xs) (n ∷ fs) is.apart b n k (free_at_self n fs)))
          (linked_last h t n item tn) is.chain in
      let back : Seg h' t n ((n, item) ∷ []) 0 = (refl, r1, v.new_item, v.new_prev, v.new_next) in
      let frame : (b : ℕ) → 0 < free_at b fs → h' b ≡ h b = λ b k.
        linked_others h t n item b tn
          (λ e. differ_free ((a, d) ∷ xs) (n ∷ fs) is.apart t b at (omega (arith, k)) (sym e))
          (differ_first n fs (λ c. omega (arith, is.apart c)) b k) in
      let len = length-append xs ((n, item) ∷ []) in
      rw
        (push_back_run sys l h w item n t r0 is.tail r1
          (last_addr_not_null h 0 is.before l.head a d xs is.chain))
        (returns (
          refl,
          record {
            before = is.before;
            chain = Seg-append h' n 0 is.before l.head ((a, d) ∷ xs) ((n, item) ∷ []) front back;
            tail = sym (last_addr-append a xs n item);
            reserve = Reserve-Agree h h' (h n).next fs frame r2;
            apart = λ b. omega (arith, is.apart b, cells_at-append b xs ((n, item) ∷ []));
            size =
                add-fits l.size 1 (omega (arith, is.size, is.room)) ∙ omega (arith, is.size, len);
            capacity =
                sub-fits l.capacity 1 (omega (arith, is.capacity))
                  (omega (arith, is.capacity, is.room))
                ∙ omega (arith, is.capacity);
            room = omega (arith, is.room, len);
          },
        ))

-- What a push at the front writes before the head `t`.
abbrev fronted : Heap → (t n item : ℕ) → Heap
fronted h t n item =
    let h1 = write n (with_item item (with_prev 0 (h n))) h in
    let h2 = write t (with_prev n (h1 t)) h1 in write n (with_next t (h2 n)) h2

record Fronted (h h' : Heap) (t n item : ℕ) : Type 0 where
  others : (a : ℕ) → a ≢ t → a ≢ n → h' a ≡ h a
  old_first : h' t ≡ with_prev n (h t)
  new_first : h' n ≡ record { next = t; prev = 0; item = item }

fronted-Fronted : (h : Heap) (t n item : ℕ) → t ≢ n → Fronted h (fronted h t n item) t n item
fronted-Fronted h t n item ne =
    let m1 = with_item item (with_prev 0 (h n)) in
    let h1 = write n m1 h in
    let m2 = with_prev n (h1 t) in
    let h2 = write t m2 h1 in
    let m3 = with_next t (h2 n) in
    record {
      others =
          λ a at an. write_away n m3 h2 a an ∙ write_away t m2 h1 a at ∙ write_away n m1 h a an;
      old_first =
          write_away n m3 h2 t ne ∙ write_here t m2 h1 ∙ ap (with_prev n) (write_away n m1 h t ne);
      new_first =
          write_here n m3 h2
          ∙ ap (with_next t) (write_away t m2 h1 n (λ e. ne (sym e)) ∙ write_here n m1 h);
    }

push_front_run :
    (sys : System) (l : SprList) (h : Heap) (w : World) (item : ℕ) (n t : ℕ)
    → l.free_nodes ≡ n
    → l.head ≡ t
    → n ≢ 0
    → t ≢ 0
    → push_front sys l h item w
      ≡ ok
          (
            success,
            record l {
              head = n;
              free_nodes = (h n).next;
              size = Word.add l.size 1;
              capacity = Word.sub l.capacity 1;
            },
            fronted h t n item,
          )
          w
unfolding push_front
push_front_run sys l h w item n t en et nz tz =
    let node = ==_ne n 0 nz in let first = ==_ne t 0 tz in rw (en, et, node, first, node) refl

module _ (sys : System) (h : Heap) (l : SprList) (w : World) (a d : ℕ) (xs : Cells) (n : ℕ)
    (fs : List ℕ) (is : IsList h l ((a, d) ∷ xs) (n ∷ fs)) where
  pub push_front-IsList :
      (item : ℕ) → Returns (λ r w'. Kept ((n, item) ∷ (a, d) ∷ xs) fs r) (push_front sys l h item w)
  push_front-IsList item =
      let at = cells_at_self a d xs in
      let far = differ_free ((a, d) ∷ xs) (n ∷ fs) is.apart in
      let tn : a ≢ n = far a n at (free_at_self n fs) in
      let h' = fronted h a n item in
      let v = fronted-Fronted h a n item tn in
      let (r0, r1, r2) = is.reserve in
      let (c0, c1, c2, c3, c4) = is.chain in
      let rest =
        Seg-first h h' 0 is.before n l.head a d xs
          (λ b k.
            v.others b
              (λ e.
                absurd
                  (omega (arith, is.apart a, k, cells_at_self a d [], ap (λ c. cells_at c xs) e)))
              (far b n (omega (arith, k)) (free_at_self n fs)))
          v.old_first is.chain in
      let frame : (b : ℕ) → 0 < free_at b fs → h' b ≡ h b = λ b k.
        v.others b (λ e. far a b at (omega (arith, k)) (sym e))
          (differ_first n fs (λ c. omega (arith, is.apart c)) b k) in
      rw (push_front_run sys l h w item n a r0 c0 r1 c1) (
        returns (
          refl,
          record {
            before = 0;
            chain = (
              refl,
              r1,
              ap (λ x. x.item) v.new_first,
              ap (λ x. x.prev) v.new_first,
              subst (λ x. Seg h' n x.next ((a, d) ∷ xs) 0) (sym v.new_first)
                  (subst (λ p. Seg h' n p ((a, d) ∷ xs) 0) c0 rest),
            );
            tail = is.tail;
            reserve = Reserve-Agree h h' (h n).next fs frame r2;
            apart = λ b. omega (arith, is.apart b);
            size = add-fits l.size 1 (omega (arith, is.size, is.room)) ∙ omega (arith, is.size);
            capacity =
                sub-fits l.capacity 1 (omega (arith, is.capacity))
                  (omega (arith, is.capacity, is.room))
                ∙ omega (arith, is.capacity);
            room = omega (arith, is.room);
          },
        ))
