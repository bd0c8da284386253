-- ===== src/LinkedList/Node.antt =====
-- The nodes of lib/spr_list.c in a heap, and their fields read and written through pointers.
use spr.Base.{ℕ, ◌≡◌, ◌≢◌, refl, true, arith, ==_ne, ◌==◌, if◌then◌else◌}
use spr.Sys.{World, ok, Cmd, pure, fault_cmd}

-- `spr_list_node_s`
pub record ListNode : Type 0 where
  pub next : ℕ
  pub prev : ℕ
  pub item : ℕ

-- The bytes of a node.
abbrev pub sizeof_node : ℕ
sizeof_node = 24

-- What stands at each address, as it was last written.
abbrev pub Heap : Type 0
Heap = ℕ → ListNode

unfoldable pub write : ℕ → ListNode → Heap → Heap
write p n h a = if a == p then n else h a

pub write_here : (p : ℕ) (n : ListNode) (h : Heap) → write p n h p ≡ n
unfolding write
write_here p n h = let t : (p == p) ≡ true = ground arith in rw (t) refl

pub write_away : (p : ℕ) (n : ListNode) (h : Heap) (a : ℕ) → a ≢ p → write p n h a ≡ h a
unfolding write
write_away p n h a ne = rw (==_ne a p ne) refl

-- `p->next`, `p->prev` and `p->data`
unfoldable pub deref : {A : Type 0} → (ListNode → A) → ℕ → Heap → Cmd A
deref field p h = if p == 0 then fault_cmd else pure (field (h p))

pub deref_lem :
    {A : Type 0} (field : ListNode → A) (p : ℕ) (h : Heap) (w : World)
    → p ≢ 0
    → deref field p h w ≡ ok (field (h p)) w
unfolding deref
deref_lem field p h w ne = rw (==_ne p 0 ne) refl

-- A write to fields of `p`, with the heap behind it.
unfoldable pub update : (ListNode → ListNode) → ℕ → Heap → Cmd Heap
unfolding write
update change p h = if p == 0 then fault_cmd else pure (write p (change (h p)) h)

abbrev pub with_next : ℕ → ListNode → ListNode
with_next q n = record n { next = q }

abbrev pub with_prev : ℕ → ListNode → ListNode
with_prev q n = record n { prev = q }

abbrev pub with_item : ℕ → ListNode → ListNode
with_item d n = record n { item = d }

pub update_lem :
    (change : ListNode → ListNode) (p : ℕ) (h : Heap) (w : World)
    → p ≢ 0
    → update change p h w ≡ ok (write p (change (h p)) h) w
unfolding update
update_lem change p h w ne = rw (==_ne p 0 ne) refl
