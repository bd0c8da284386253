-- ===== src/Dso.antt =====
-- Shared objects: the macros of include/spr_dso.h, and `spr_dlerror` of lib/spr_dso.c for Windows (that for
-- POSIX stands in Errno). The loader of the system is a parameter.
use spr.Base.{ℕ, List, if◌then◌else◌}
use spr.Base.Int.{ℤ, pos, eq_ℤ}
use spr.Host.{Step, pure, ◌>>=◌, failed}
use spr.Sys.{Cmd}
use spr.Errno.Windows.{win_strerror}

-- The calls; a path and the name of a symbol are the bytes at their addresses, and 0 is NULL.
pub record Loader (S : Type 0) : Type 0 where
  -- with the flags, and `RTLD_NOW|RTLD_GLOBAL`
  pub open_object : List ℕ → ℕ → Step S ℕ
  pub now_global : ℕ
  pub symbol : ℕ → List ℕ → Step S ℕ
  pub close_object : ℕ → Step S ℤ
  pub load_library : List ℕ → Step S ℕ
  pub get_proc_address : ℕ → List ℕ → Step S ℕ
  pub free_library : ℕ → Step S ℤ

module _ {S : Type 0} (os : Loader S) where
  unfoldable pub dlopen : List ℕ → Step S ℕ
  dlopen path = os.open_object path os.now_global

  unfoldable pub dlsym : ℕ → List ℕ → Step S ℕ
  dlsym handle name = os.symbol handle name

  unfoldable pub dlclose : ℕ → Step S ℤ
  dlclose handle = os.close_object handle

  unfoldable pub win_dlopen : List ℕ → Step S ℕ
  win_dlopen path = os.load_library path

  unfoldable pub win_dlsym : ℕ → List ℕ → Step S ℕ
  win_dlsym handle name = os.get_proc_address handle name

  -- `FreeLibrary` answers 0 where it failed, the caller is told -1.
  unfoldable pub win_dlclose : ℕ → Step S ℤ
  win_dlclose handle = do
    r ← os.free_library handle
    pure (if eq_ℤ r (pos 0) then failed else pos 0)

-- `spr_dlerror` (Windows), with the answer of `GetLastError`
unfoldable pub win_dlerror :
    (format_message : ℤ → (lang bufsize : ℕ) → ℕ × List ℕ) → ℤ → (buf bufsize : ℕ) → Cmd ℕ
unfolding win_strerror
win_dlerror format_message last_error buf bufsize =
    win_strerror format_message last_error buf bufsize
