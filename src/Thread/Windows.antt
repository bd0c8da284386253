-- ===== src/Thread/Windows.antt =====
-- lib/thread/spr_thread.c for Windows; the calls are a parameter.
use spr.Base.{ℕ, ◌==◌, if◌then◌else◌}
use spr.Base.Int.{ℤ}
use spr.Host.{Step, pure, ◌>>=◌, get_errno}
use spr.Mutex.{success}

-- The calls; `wait` is `WaitForSingleObject` with INFINITE, and 0 is WAIT_OBJECT_0.
pub record WinThreads (S : Type 0) : Type 0 where
  pub get_last_error : S → ℤ
  pub create : (stack_size start_routine argument : ℕ) → Step S ℕ
  pub set_priority : ℕ → ℤ → Step S ℕ
  pub wait : ℕ → Step S ℕ
  pub terminate : ℕ → Step S ℕ
  pub close_handle : ℕ → Step S ℕ
  pub current_id : Step S ℕ

module _ {S : Type 0} (os : WinThreads S) where
  -- What is returned, and the handle of the thread then: where the priority is refused, the thread
  -- runs and its handle is lost.
  unfoldable pub win_thread_init :
      (old params stack_size : ℕ) → ℤ → (start_routine argument : ℕ) → Step S (ℤ × ℕ)
  win_thread_init old params stack_size prio start_routine argument = do
    t ← os.create stack_size start_routine argument
    if t == 0 then (do err ← get_errno os.get_last_error; pure (err, old)) else (do
      r ← os.set_priority t prio
      if r == 0 then (do err ← get_errno os.get_last_error; pure (err, old)) else pure (success, t))

  unfoldable pub win_thread_join : ℕ → Step S ℤ
  win_thread_join handle = do
    r ← os.wait handle
    if r == 0 then pure success else get_errno os.get_last_error

  unfoldable pub win_thread_cancel : ℕ → Step S ℤ
  win_thread_cancel handle = do
    r ← os.terminate handle
    if r == 0 then get_errno os.get_last_error else pure success

  unfoldable pub win_thread_fini : ℕ → Step S (Unit {0})
  win_thread_fini handle = do r ← os.close_handle handle; pure tt

  unfoldable pub win_current_tid : Step S ℕ
  win_current_tid = os.current_id
