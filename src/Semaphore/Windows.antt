-- ===== src/Semaphore/Windows.antt =====
-- lib/thread/spr_semaphore.c for Windows; the calls are a parameter.
use spr.Base.{ℕ, Bool, true, false, ◌==◌, if◌then◌else◌}
use spr.Base.Int.{ℤ, to_int32}
use spr.Host.{Step, pure, ◌>>=◌, get_errno}
use spr.Mutex.{success, busy}

-- The calls; `wait` is `WaitForSingleObject`, forever or not at all, and 0 is WAIT_OBJECT_0.
pub record WinSemaphores (S : Type 0) : Type 0 where
  pub get_last_error : S → ℤ
  pub create : (inherit : ℕ) → (value maxval : ℤ) → Step S ℕ
  pub wait : ℕ → (forever : Bool) → Step S ℕ
  pub release : ℕ → (count : ℕ) → Step S ℕ
  pub close_handle : ℕ → Step S ℕ

module _ {S : Type 0} (os : WinSemaphores S) where
  -- What is returned, and the handle of the semaphore then; the flags are not looked
  -- at, and the numbers are passed as a `LONG` of 32 bits.
  unfoldable pub win_semaphore_init : (old value maxval params : ℕ) → Step S (ℤ × ℕ)
  win_semaphore_init old value maxval params = do
    s ← os.create 1 (to_int32 value) (to_int32 maxval)
    if s == 0 then (do err ← get_errno os.get_last_error; pure (err, old)) else pure (success, s)

  unfoldable pub win_semaphore_wait : ℕ → Step S ℤ
  win_semaphore_wait handle = do
    r ← os.wait handle true
    if r == 0 then pure success else get_errno os.get_last_error

  unfoldable pub win_semaphore_trywait : ℕ → Step S ℤ
  win_semaphore_trywait handle = do
    r ← os.wait handle false
    pure (if r == 0 then success else busy)

  unfoldable pub win_semaphore_post : ℕ → Step S ℤ
  win_semaphore_post handle = do
    r ← os.release handle 1
    if r == 0 then get_errno os.get_last_error else pure success

  unfoldable pub win_semaphore_fini : ℕ → Step S (Unit {0})
  win_semaphore_fini handle = do r ← os.close_handle handle; pure tt
