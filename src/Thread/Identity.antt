-- ===== src/Thread/Identity.antt =====
-- Which thread is running: `spr_thread_current_tid` of lib/thread/spr_thread.c on each POSIX system, and
-- the macros for threads of include/spr_thread.h. The calls are a parameter.
use spr.Base.{ℕ, Bool, Option, ◌%◌, ◌^◌, ◌==◌}
use spr.Base.Int.{ℤ}
use spr.Host.{Step, pure, ◌>>=◌}

-- The calls; `sys_gettid` is `syscall(SYS_gettid)`. `threadid_np` has its answer and, where it wrote
-- one, the number of the thread.
pub record Threads (S : Type 0) : Type 0 where
  pub sys_gettid : Step S ℤ
  pub getthreadid_np : Step S ℕ
  pub threadid_np : Step S (ℤ × Option ℕ)
  pub self : Step S ℕ
  pub equal : ℕ → ℕ → Step S ℤ

module _ {S : Type 0} (os : Threads S) where
  -- Linux
  unfoldable pub linux_current_tid : Step S ℤ
  linux_current_tid = os.sys_gettid

  -- FreeBSD, where a `spr_tid_t` has 32 bits
  unfoldable pub freebsd_current_tid : Step S ℕ
  freebsd_current_tid = do r ← os.getthreadid_np; pure (r % 2 ^ 32)

  -- Darwin: the answer of the call is not looked at. `none` is the value of `tid` before any was written.
  unfoldable pub darwin_current_tid : Step S (Option ℕ)
  darwin_current_tid = do r ← os.threadid_np; pure r.1

  -- `spr_thread_current_handle`
  unfoldable pub current_handle : Step S ℕ
  current_handle = os.self

  -- `spr_thread_equal`
  unfoldable pub thread_equal : ℕ → ℕ → Step S ℤ
  thread_equal a b = os.equal a b

-- `spr_thread_equal` of Windows, on handles
unfoldable pub win_thread_equal : ℕ → ℕ → Bool
win_thread_equal a b = a == b
