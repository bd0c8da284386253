-- ===== src/LinkedList/Remove.antt =====
-- `spr_list_remove`, `spr_list_remove1` and `spr_list_clear` of lib/spr_list.c. The two removals are
-- one code for a test on the node: its data, or its address.
use spr.Base.{ℕ, zero, suc, Bool, Option, none, some, ◌==◌, if◌then◌else◌}
use spr.Base.Int.{ℤ, negsuc}
use spr.Base.Word
use spr.Mutex.{success}
use spr.Sys.{Cmd, pure, out_of_fuel, ◌>>=◌}
use spr.LinkedList.{SprList}
use spr.LinkedList.Node.{ListNode, Heap, update, deref, with_next, with_prev}

-- `SPR_NOT_FOUND`
abbrev pub not_found : ℤ
not_found = negsuc 5

-- `node->next->prev = q` or `node->prev->next = q`, where that neighbour is there
unfoldable pub update_if : (ListNode → ListNode) → ℕ → Heap → Cmd Heap
unfolding update
update_if change p h = if p == 0 then pure h else update change p h

unfoldable pub remove_head : SprList → Heap → Cmd (SprList × Heap)
unfolding update_if deref Word.sub
remove_head l h = do
  next ← deref (λ n. n.next) l.head h
  h1 ← update_if (with_prev 0) next h
  head' ← deref (λ n. n.next) l.head h1
  pure (record l { head = head'; size = Word.sub l.size 1 }, h1)

unfoldable pub remove_tail : SprList → Heap → Cmd (SprList × Heap)
unfolding update_if deref Word.sub
remove_tail l h = do
  prev ← deref (λ n. n.prev) l.tail h
  h1 ← update_if (with_next 0) prev h
  tail' ← deref (λ n. n.prev) l.tail h1
  pure (record l { tail = tail'; size = Word.sub l.size 1 }, h1)

-- A node is taken out from between its neighbours.
unfoldable pub remove_inner : SprList → ℕ → Heap → Cmd (SprList × Heap)
unfolding update deref Word.sub
remove_inner l p h = do
  next ← deref (λ n. n.next) p h
  prev ← deref (λ n. n.prev) p h
  h1 ← update (with_prev prev) next h
  next' ← deref (λ n. n.next) p h1
  prev' ← deref (λ n. n.prev) p h1
  h2 ← update (with_next next') prev' h1
  pure (record l { size = Word.sub l.size 1 }, h2)

-- The removed node goes to the reserve.
unfoldable pub put_back : ℕ → SprList × Heap → Cmd (ℤ × SprList × Heap)
unfolding update Word.add
put_back p (l, h) = do
  h' ← update (with_next l.free_nodes) p h
  pure (success, record l { free_nodes = p; capacity = Word.add l.capacity 1 }, h')

-- The loop `while (test fails) { temp1 = temp1->next; if (temp1 == list->tail) return … }`, on fuel;
-- `none` is the return.
unfoldable pub walk : ℕ → (ℕ → Heap → Cmd Bool) → (tail p : ℕ) → Heap → Cmd (Option ℕ)
unfolding deref
walk zero test tail p h = λ _. out_of_fuel
walk (suc k) test tail p h = do
  found ← test p h
  if found then pure (some p) else do
    next ← deref (λ n. n.next) p h
    if next == tail then pure none else walk k test tail next h

-- The search behind the first node, for one that is neither the first nor the last.
unfoldable pub remove_found : ℕ → (ℕ → Heap → Cmd Bool) → SprList → Heap → Cmd (ℤ × SprList × Heap)
unfolding remove_inner put_back walk deref
remove_found fuel test l h = do
  start ← deref (λ n. n.next) l.head h
  found ← walk fuel test l.tail start h
  elim found [ none ↦ pure (not_found, l, h) | some p ↦ do r ← remove_inner l p h; put_back p r ]

unfoldable pub remove_last : ℕ → (ℕ → Heap → Cmd Bool) → SprList → Heap → Cmd (ℤ × SprList × Heap)
unfolding remove_found remove_tail put_back
remove_last fuel test l h = do
  last ← test l.tail h
  if last then (do r ← remove_tail l h; put_back l.tail r) else remove_found fuel test l h

unfoldable pub remove_by : ℕ → (ℕ → Heap → Cmd Bool) → SprList → Heap → Cmd (ℤ × SprList × Heap)
unfolding remove_last remove_head put_back
remove_by fuel test l h = do
  first ← test l.head h
  if first then (do r ← remove_head l h; put_back l.head r) else remove_last fuel test l h

-- `spr_list_remove1`: the node itself is looked for
unfoldable pub remove1 : ℕ → SprList → Heap → ℕ → Cmd (ℤ × SprList × Heap)
unfolding remove_by
remove1 fuel l h node = remove_by fuel (λ p _. pure (p == node)) l h

-- `spr_list_remove`: the first node with the data; the data is read through each pointer
unfoldable pub remove : ℕ → SprList → Heap → ℕ → Cmd (ℤ × SprList × Heap)
unfolding remove_by deref
remove fuel l h item = remove_by fuel (λ p h'. deref (λ n. n.item == item) p h') l h

-- The loop of `spr_list_clear`, which passes the node where `spr_list_remove` expects its data.
unfoldable pub clear_from : (fuel k : ℕ) → ℕ → SprList → Heap → Cmd (SprList × Heap)
unfolding remove deref
clear_from fuel zero node l h = if node == 0 then pure (l, h) else λ _. out_of_fuel
clear_from fuel (suc k) node l h = if node == 0 then pure (l, h) else do
  temp ← deref (λ n. n.next) node h
  r ← remove fuel l h node
  clear_from fuel k temp r.1 r.2

unfoldable pub list_clear : ℕ → SprList → Heap → Cmd (SprList × Heap)
unfolding clear_from
list_clear fuel l h = clear_from fuel fuel l.head l h
