-- ===== src/LinkedList/Chain.antt =====
-- The list that a client of lib/spr_list.c walks along `next`, and what a push does to it.
use spr.Base.{ℕ, ◌≡◌, ◌≢◌, refl, sym, ap, subst, ◌∙◌, List, [], ◌∷◌, ◌++◌, All, ==_ne}
use spr.Base.Int.{ℤ}
use spr.Base.Word
use spr.Mutex.{success}
use spr.Sys.{System, World, ok, Returns, returns}
use spr.LinkedList.{SprList}
use spr.LinkedList.Node.{Heap, write, write_here, write_away, with_next, with_prev, with_item}
use spr.LinkedList.Push.{take_node, link_back, push_back}

-- The nodes from `p` on, each with its address and what it holds, up to the pointer `e`.
abbrev pub Chain : Heap → ℕ → List (ℕ × ℕ) → ℕ → Type 0
Chain h p [] e = p ≡ e
Chain h p ((a, item) ∷ xs) e = (p ≡ a) × (a ≢ 0) × ((h a).item ≡ item) × Chain h (h a).next xs e

-- A heap in which the last node `t` points at a new one, and all others are as they were.
pub record Linked (h h' : Heap) (t n item : ℕ) : Type 0 where
  pub others : (a : ℕ) → a ≢ t → a ≢ n → h' a ≡ h a
  pub last_next : (h' t).next ≡ n
  pub last_item : (h' t).item ≡ (h t).item
  pub new_next : (h' n).next ≡ 0
  pub new_prev : (h' n).prev ≡ t
  pub new_item : (h' n).item ≡ item

Chain-Linked :
    {h h' : Heap} {t n item : ℕ}
    → Linked h h' t n item
    → n ≢ 0
    → (p d : ℕ) (xs : List (ℕ × ℕ)) → All (λ x. (x.0 ≢ t) × (x.0 ≢ n)) xs
    → Chain h p (xs ++ (t, d) ∷ []) 0
    → Chain h' p (xs ++ (t, d) ∷ (n, item) ∷ []) 0
Chain-Linked v ne p d [] apart (e, nz, i, z) =
    (e, nz, v.last_item ∙ i, (v.last_next, ne, v.new_item, v.new_next))
Chain-Linked {h} {h'} {t} {n} {item} v ne p d ((a, b) ∷ xs) (away, apart) (e, nz, i, c) =
    let same = v.others a away.0 away.1 in
    (
      e,
      nz,
      ap (λ x. x.item) same ∙ i,
      subst (λ x. Chain h' x.next (xs ++ (t, d) ∷ (n, item) ∷ []) 0) (sym same)
          (Chain-Linked v ne (h a).next d xs apart c),
    )

-- What `link_back` writes.
abbrev pub linked : Heap → (t n item : ℕ) → Heap
linked h t n item =
    let h1 = write n (with_item item (with_next 0 (h n))) h in
    let h2 = write t (with_next n (h1 t)) h1 in write n (with_prev t (h2 n)) h2

pub linked-Linked : (h : Heap) (t n item : ℕ) → t ≢ n → Linked h (linked h t n item) t n item
linked-Linked h t n item ne =
    let m1 = with_item item (with_next 0 (h n)) in
    let h1 = write n m1 h in
    let m2 = with_next n (h1 t) in
    let h2 = write t m2 h1 in
    let m3 = with_prev t (h2 n) in
    let at_t : linked h t n item t ≡ m2 = write_away n m3 h2 t ne ∙ write_here t m2 h1 in
    let at_n : linked h t n item n ≡ with_prev t m1 =
      write_here n m3 h2
      ∙ ap (with_prev t) (write_away t m2 h1 n (λ e. ne (sym e)) ∙ write_here n m1 h) in
    record {
      others =
          λ a at an. write_away n m3 h2 a an ∙ write_away t m2 h1 a at ∙ write_away n m1 h a an;
      last_next = ap (λ x. x.next) at_t;
      last_item = ap (λ x. x.item) at_t ∙ ap (λ x. x.item) (write_away n m1 h t ne);
      new_next = ap (λ x. x.next) at_n;
      new_prev = ap (λ x. x.prev) at_n;
      new_item = ap (λ x. x.item) at_n;
    }

pub linked_others :
    (h : Heap) (t n item : ℕ) (a : ℕ) → t ≢ n → a ≢ t → a ≢ n → linked h t n item a ≡ h a
linked_others h t n item a ne = (linked-Linked h t n item ne).others a

pub linked_last : (h : Heap) (t n item : ℕ) → t ≢ n → linked h t n item t ≡ with_next n (h t)
linked_last h t n item ne =
    let m1 = with_item item (with_next 0 (h n)) in
    let h1 = write n m1 h in
    let h2 = write t (with_next n (h1 t)) h1 in
    write_away n (with_prev t (h2 n)) h2 t ne
    ∙ write_here t (with_next n (h1 t)) h1
    ∙ ap (with_next n) (write_away n m1 h t ne)

append_two : (xs : List (ℕ × ℕ)) (x y : ℕ × ℕ) → (xs ++ x ∷ []) ++ y ∷ [] ≡ xs ++ x ∷ y ∷ []
append_two [] x y = refl
append_two (z ∷ zs) x y = ap (λ l. z ∷ l) (append_two zs x y)

-- The result of a push at the back: what the list was, and the item behind it.
pub record Pushed (xs : List (ℕ × ℕ)) (t n item : ℕ) (l : SprList) (r : ℤ × SprList × Heap)
    (w' : World) : Type 0 where
  pub worked : r.0 ≡ success
  pub chain : Chain r.2 r.1.head (xs ++ (n, item) ∷ []) 0
  pub tail : r.1.tail ≡ n
  pub behind : (r.2 n).prev ≡ t
  pub size : r.1.size ≡ Word.add l.size 1

-- What a push at the back does, with a node `n` in the reserve and the tail `t`.
pub push_back_run :
    (sys : System) (l : SprList) (h : Heap) (w : World) (item : ℕ) (n t : ℕ)
    → l.free_nodes ≡ n
    → l.tail ≡ t
    → n ≢ 0
    → t ≢ 0
    → push_back sys l h item w
      ≡ ok
          (
            success,
            record l {
              tail = n;
              free_nodes = (h n).next;
              size = Word.add l.size 1;
              capacity = Word.sub l.capacity 1;
            },
            linked h t n item,
          )
          w
unfolding push_back take_node link_back
push_back_run sys l h w item n t en et nz tz =
    let node = ==_ne n 0 nz in let last = ==_ne t 0 tz in rw (en, et, node, last, node) refl

-- `spr_list_push_back` on a list that is not empty, with a node in the reserve that is none of the
-- list's, ends without fault with SPR_OK: a walk from the head along `next` meets the items of the
-- list, then the new one, and ends; the new node is the tail and points back at the old one; the size
-- grows by one.
pub push_back-Pushed :
    (sys : System) (l : SprList) (h : Heap) (w : World)
    → (xs : List (ℕ × ℕ)) (d : ℕ) → Chain h l.head (xs ++ (l.tail, d) ∷ []) 0
    → l.tail ≢ 0
    → l.free_nodes ≢ 0
    → l.tail ≢ l.free_nodes
    → All (λ x. (x.0 ≢ l.tail) × (x.0 ≢ l.free_nodes)) xs
    → (item : ℕ)
    → Returns
        (Pushed (xs ++ (l.tail, d) ∷ []) l.tail l.free_nodes item l)
        (push_back sys l h item w)
unfolding push_back take_node link_back
push_back-Pushed sys l h w xs d chain tz nz tn apart item =
    let n = l.free_nodes in
    let t = l.tail in
    let v = linked-Linked h t n item tn in
    rw (==_ne n 0 nz, ==_ne t 0 tz, ==_ne n 0 nz)
      (returns (record {
        worked = refl;
        chain =
            subst (λ ys. Chain (linked h t n item) l.head ys 0)
              (sym (append_two xs (t, d) (n, item))) (Chain-Linked v nz l.head d xs apart chain);
        tail = refl;
        behind = v.new_prev;
        size = refl;
      }))
