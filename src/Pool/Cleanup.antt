-- ===== src/Pool/Cleanup.antt =====
-- The cleanup list of a pool: `spr_pool_cleanup_run1`, `spr_pool_cleanup_remove1` and
-- `spr_pool_cleanup_run_all` of lib/memory/spr_pool.c. `spr_pool_cleanup_add1` is in Pool/Alloc.
pub mod Laws
pub mod Lock
use mathlib.Core.Option
use spr.Base.{ℕ, ◌&&◌, Bool, Option, none, some, List, [], ◌∷◌, ◌==◌, if◌then◌else◌}
use spr.Sys.{handled, System, Cmd, ok, pure, ◌>>=◌, ◌>>◌, record_event}
use spr.Memory
use spr.Mutex
use spr.Pool.{Handler, spr_free, client, handler_eq, CleanupNode, Pool}

-- `node->handler(node->data)`
unfoldable pub run_handler : CleanupNode → Cmd (Unit {0})
unfolding Memory.free
run_handler n = elim (n.handler) [
  | spr_free ↦ Memory.free n.argument
  | client f ↦ λ w. ok tt (record_event (handled f n.argument) w)
]

-- `node->data == data && node->handler == handler`
abbrev pub same_entry : ℕ → Handler → CleanupNode → Bool
same_entry argument handler n = n.argument == argument && handler_eq n.handler handler

-- The walk to the first such node, and the list without it.
unfoldable pub unlink : ℕ → Handler → List CleanupNode → Option (CleanupNode × List CleanupNode)
unlink argument handler [] = none
unlink argument handler (n ∷ ns) =
    if same_entry argument handler n
    then some (n, ns)
    else Option.map (λ (m, rest). (m, n ∷ rest)) (unlink argument handler ns)

-- The node goes to the reserve.
abbrev pub reserve : Pool → CleanupNode → List CleanupNode → Pool
reserve pool n rest = record pool { cleanups = rest; free_cleanups = n ∷ pool.free_cleanups }

module _ (sys : System) where
  -- Without such a node the function returns with the mutex locked.
  unfoldable pub cleanup_remove : Pool → ℕ → Handler → Cmd Pool
  cleanup_remove pool argument handler = do
    let cleanups = pool.cleanups
    Mutex.lock sys pool.mutex
    elim (unlink argument handler cleanups) [
      | none ↦ pure pool
      | some (n, rest) ↦ do Mutex.unlock sys pool.mutex; pure (reserve pool n rest)
    ]

  unfoldable pub cleanup_run : Pool → ℕ → Handler → Cmd Pool
  cleanup_run pool argument handler = do
    let cleanups = pool.cleanups
    Mutex.lock sys pool.mutex
    elim (unlink argument handler cleanups) [
      | none ↦ pure pool
      | some (n, rest) ↦ do run_handler n; Mutex.unlock sys pool.mutex; pure (reserve pool n rest)
    ]

-- The loop of `spr_pool_cleanup_run_all`, over the list and the reserve.
unfoldable pub run_all : List CleanupNode → List CleanupNode → Cmd (List CleanupNode)
run_all [] free = pure free
run_all (n ∷ ns) free = do run_handler n; run_all ns (n ∷ free)

unfoldable pub cleanup_run_all : Pool → Cmd Pool
cleanup_run_all pool = do
  free ← run_all pool.cleanups pool.free_cleanups
  pure (record pool { cleanups = []; free_cleanups = free })
