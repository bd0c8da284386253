-- ===== src/LinkedList/Push.antt =====
-- `spr_list_create1`, `spr_list_push_back`, `spr_list_push_front` and `spr_list_reserve` of
-- lib/spr_list.c.
use spr.Base.{ℕ, zero, suc, ◌-◌, ◌*◌, Option, none, some, ◌==◌, if◌then◌else◌}
use spr.Base.Int.{ℤ, eq_ℤ}
use spr.Base.Word
use spr.Mutex
use spr.Mutex.{success}
use spr.Pool.{Pool}
use spr.Pool.Alloc.{palloc, pcalloc}
use spr.Sys.{System, Cmd, pure, ◌>>=◌}
use spr.LinkedList.{SprList}
use spr.LinkedList.Node.{Heap, sizeof_node, update, deref, with_next, with_prev, with_item}

-- `SPR_LIST_INITIAL_SIZE`
abbrev pub initial_size : ℕ
initial_size = 10

-- `sizeof(spr_list_t)`
abbrev pub sizeof_list : ℕ
sizeof_list = 48

-- The loop that puts `k` nodes from `at` on in front of the reserve.
unfoldable pub put_free : (k at free : ℕ) → Heap → Cmd (ℕ × Heap)
unfolding update Word.add
put_free zero at free h = pure (free, h)
put_free (suc k) at free h = do
  h' ← update (with_next free) at h
  put_free k (Word.add at sizeof_node) at h'

module _ (sys : System) where
  -- The list as `spr_pcalloc` clears it, or errno; the pool is the one behind the call.
  unfoldable pub list_create1 : Pool → Cmd (ℤ × Option SprList × Pool)
  list_create1 pool = do
    (mem, pool') ← pcalloc sys pool sizeof_list
    if mem == 0
        then (do err ← Mutex.get_errno sys; pure (err, none, pool'))
        else pure (
          success,
          some
              (record { pool = pool'; head = 0; tail = 0; free_nodes = 0; size = 0; capacity = 0 }),
          pool',
        )

  -- `spr_list_create`, `none` for NULL
  unfoldable pub list_create : Pool → Cmd (Option SprList × Pool)
  list_create pool = do
    (err, list, pool') ← list_create1 pool
    pure ((if eq_ℤ err success then list else none), pool')

  -- Ten new nodes: the first is taken, the others are the reserve; NULL without memory.
  unfoldable pub more_nodes : SprList → Heap → Cmd (ℕ × SprList × Heap)
  unfolding put_free Word.add
  more_nodes l h = do
    (nodes, pool') ← palloc sys l.pool (sizeof_node * initial_size)
    if nodes == 0 then pure (0, record l { pool = pool' }, h) else do
      (free, h') ← put_free (initial_size - 1) (Word.add nodes sizeof_node) l.free_nodes h
      pure (nodes, record l { pool = pool'; free_nodes = free; capacity = initial_size - 1 }, h')

  -- The node that a push takes: the first of the reserve, or a new one.
  unfoldable pub take_node : SprList → Heap → Cmd (ℕ × SprList × Heap)
  unfolding more_nodes deref Word.sub
  take_node l h = if l.free_nodes == 0 then more_nodes l h else do
    next ← deref (λ n. n.next) l.free_nodes h
    pure (l.free_nodes, record l { free_nodes = next; capacity = Word.sub l.capacity 1 }, h)

  -- The node is linked behind the tail, or is all of the list; then its `prev` is left alone.
  unfoldable pub link_back : SprList → (node item : ℕ) → Heap → Cmd (SprList × Heap)
  unfolding update Word.add
  link_back l node item h = do
    h1 ← update (λ n. with_item item (with_next 0 n)) node h
    if l.tail == 0
        then pure (record l { head = node; tail = node; size = Word.add l.size 1 }, h1)
        else do
          h2 ← update (with_next node) l.tail h1
          h3 ← update (with_prev l.tail) node h2
          pure (record l { tail = node; size = Word.add l.size 1 }, h3)

  -- The node is linked before the head, or is all of the list; then its `next` is left alone.
  unfoldable pub link_front : SprList → (node item : ℕ) → Heap → Cmd (SprList × Heap)
  unfolding update Word.add
  link_front l node item h = do
    h1 ← update (λ n. with_item item (with_prev 0 n)) node h
    if l.head == 0
        then pure (record l { head = node; tail = node; size = Word.add l.size 1 }, h1)
        else do
          h2 ← update (with_prev node) l.head h1
          h3 ← update (with_next l.head) node h2
          pure (record l { head = node; size = Word.add l.size 1 }, h3)

  unfoldable pub push_back : SprList → Heap → ℕ → Cmd (ℤ × SprList × Heap)
  unfolding take_node link_back
  push_back l h item = do
    (node, l1, h1) ← take_node l h
    if node == 0
        then (do err ← Mutex.get_errno sys; pure (err, l1, h1))
        else do (l2, h2) ← link_back l1 node item h1; pure (success, l2, h2)

  unfoldable pub push_front : SprList → Heap → ℕ → Cmd (ℤ × SprList × Heap)
  unfolding take_node link_front
  push_front l h item = do
    (node, l1, h1) ← take_node l h
    if node == 0
        then (do err ← Mutex.get_errno sys; pure (err, l1, h1))
        else do (l2, h2) ← link_front l1 node item h1; pure (success, l2, h2)

  unfoldable pub list_reserve : SprList → Heap → ℕ → Cmd (ℤ × SprList × Heap)
  unfolding put_free Word.add Word.mul
  list_reserve l h n = do
    (nodes, pool') ← palloc sys l.pool (Word.mul sizeof_node n)
    if nodes == 0
        then (do err ← Mutex.get_errno sys; pure (err, record l { pool = pool' }, h))
        else do
          (free, h') ← put_free n nodes l.free_nodes h
          pure (
            success,
            record l { pool = pool'; free_nodes = free; capacity = Word.add l.capacity n },
            h',
          )
