-- ===== src/LinkedList/Lost.antt =====
-- Where the list that lib/spr_list.c leaves is not the one that was meant.
use spr.Base.{ℕ, suc, ◌≡◌, ◌≢◌, refl, sym, ap, ◌∙◌, true, ◌==◌, ==_ne, arith}
use spr.Mutex.{success}
use spr.Sys.{System, World, fault, Returns, returns, ◌>>=◌}
use spr.LinkedList.{SprList}
use spr.LinkedList.Node.{Heap, write, write_here, with_prev, with_item}
use spr.LinkedList.Push.{push_back, push_front}
use spr.LinkedList.Remove.{remove1, list_clear}

-- `spr_list_push_front` on an empty list with a node in the reserve leaves the `next` of the only
-- element at the rest of the reserve, so a walk of the list runs on into free nodes.
pub push_front-stale :
    (sys : System) (l : SprList) (h : Heap) (w : World)
    → l.head ≡ 0
    → l.free_nodes ≢ 0
    → (item : ℕ)
    → Returns
        (λ r w'.
          (r.1.head ≡ l.free_nodes)
          × ((r.2 r.1.head).item ≡ item)
          × ((r.2 r.1.head).next ≡ r.1.free_nodes))
        (push_front sys l h item w)
unfolding push_front
push_front-stale sys l h w e nz item =
    let n = l.free_nodes in
    let m = with_item item (with_prev 0 (h n)) in
    let at = write_here n m h in
    let empty : (l.head == 0) ≡ true = ground (arith, e) in
    rw (==_ne n 0 nz, empty, ==_ne n 0 nz)
      (returns (refl, ap (λ x. x.item) at, ap (λ x. x.next) at))

-- A list of one element.
pub record IsSingle (l : SprList) (h : Heap) : Type 0 where
  pub not_null : l.head ≢ 0
  pub tail : l.tail ≡ l.head
  pub ends : (h l.head).next ≡ 0

-- `spr_list_remove1` of the only element succeeds and leaves the tail at the node that it gives to the
-- reserve. `spr_list_push_back` then takes that node again and links it behind itself: it succeeds and
-- stores the item, but the node is its own `next` and the head stays NULL, so that the item is not
-- reached from the head.
pub remove1-push_back :
    (sys : System) (l : SprList) (h : Heap) (w : World)
    → IsSingle l h
    → (fuel item : ℕ)
    → Returns
        (λ r w'. (r.0 ≡ success) × (r.1.head ≡ 0) × (r.1.tail ≡ l.head) × (r.1.free_nodes ≡ l.head))
        (remove1 fuel l h l.head w)
      × Returns
          (λ r w'.
            (r.0 ≡ success)
            × (r.1.head ≡ 0)
            × (r.1.tail ≡ l.head)
            × ((r.2 l.head).item ≡ item)
            × ((r.2 l.head).next ≡ l.head))
          ((remove1 fuel l h l.head >>= λ r. push_back sys r.1 r.2 item) w)
unfolding remove1 push_back write
remove1-push_back sys l h w single fuel item =
    let same : (l.head == l.head) ≡ true = ground arith in
    let nz = ==_ne l.head 0 single.not_null in
    let nzt = ==_ne l.tail 0 (λ e. single.not_null (sym single.tail ∙ e)) in
    (
      rw (same, nz, single.ends) (returns (refl, single.ends, single.tail, refl)),
      rw (same, nz, single.ends, nz, nz, nzt)
          (returns
            (refl, single.ends, refl, rw (single.tail, same) refl, rw (single.tail, same) refl)),
    )

-- `spr_list_clear` looks for the address of each node among the items: on a list of one element that
-- is not its own address, it follows NULL.
pub list_clear-fault :
    (l : SprList) (h : Heap) (w : World)
    → IsSingle l h
    → (h l.head).item ≢ l.head
    → (fuel : ℕ) → list_clear (suc fuel) l h w ≡ fault
unfolding list_clear
list_clear-fault l h w single ne fuel =
    let nz = ==_ne l.head 0 single.not_null in
    let other = ==_ne (h l.head).item l.head ne in
    rw (nz, other, single.tail, nz, other, single.ends) refl
