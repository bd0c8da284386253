-- ===== src/Semaphore/Dispatch.antt =====
-- lib/thread/spr_semaphore.c on Grand Central Dispatch; the calls are a parameter.
use spr.Base.{ℕ, Bool, true, false, ◌==◌, if◌then◌else◌}
use spr.Base.Int.{ℤ, pos, eq_ℤ}
use spr.Host.{Step, pure, ◌>>=◌, get_errno}
use spr.Mutex.{success, busy}

-- The calls; a wait lasts forever or not at all.
pub record DispatchCalls (S : Type 0) : Type 0 where
  pub errno : S → ℤ
  pub create : (value : ℕ) → Step S ℕ
  pub wait : ℕ → (forever : Bool) → Step S ℤ
  pub signal : ℕ → Step S ℤ

module _ {S : Type 0} (os : DispatchCalls S) where
  -- What is returned, and the handle of the semaphore then.
  unfoldable pub dispatch_init : (old value params : ℕ) → Step S (ℤ × ℕ)
  dispatch_init old value params = do
    s ← os.create value
    if s == 0 then (do err ← get_errno os.errno; pure (err, old)) else pure (success, s)

  unfoldable pub dispatch_wait : ℕ → Step S ℤ
  dispatch_wait handle = do r ← os.wait handle true; pure success

  unfoldable pub dispatch_trywait : ℕ → Step S ℤ
  dispatch_trywait handle = do
    r ← os.wait handle false
    pure (if eq_ℤ r (pos 0) then success else busy)

  unfoldable pub dispatch_post : ℕ → Step S ℤ
  dispatch_post handle = do r ← os.signal handle; pure success

  unfoldable pub dispatch_fini : ℕ → Step S (Unit {0})
  dispatch_fini handle = pure tt
