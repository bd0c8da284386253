-- ===== src/Mutex.antt =====
-- lib/thread/spr_mutex.c (POSIX): a mutex is known by its address.
pub mod Effect
pub mod Held
pub mod Windows
use Prim.Native.Nat.{bit_and}
use spr.Base.{ℕ, Bool, not, if◌then◌else◌, ◌==◌}
use spr.Base.Int.{ℤ, pos, negsuc, eq_ℤ}
use spr.Sys.{
  Call, errno, mutexattr_init, mutexattr_destroy, mutexattr_setpshared_shared,
  mutexattr_setpshared_private, mutexattr_settype_recursive, mutex_init, mutex_lock, mutex_trylock,
  mutex_unlock, mutex_destroy, System, Cmd, pure, ◌>>=◌, ◌>>◌, perform,
}

abbrev pub shared : ℕ
shared = 0x1

abbrev pub private : ℕ
private = 0x2

abbrev pub recursive : ℕ
recursive = 0x4

-- `SPR_OK` and `SPR_BUSY` of include/spr_errno.h
abbrev pub success : ℤ
success = pos 0

abbrev pub busy : ℤ
busy = negsuc 1

-- `spr_bit_is_set`
abbrev pub bit_is_set : ℕ → ℕ → Bool
bit_is_set x bit = not (bit_and x bit == 0)

module _ (sys : System) where
  -- `if (call != 0) { undo; return spr_get_errno(); }`
  abbrev pub or_errno : Call → Cmd ℤ → Cmd ℤ → Cmd ℤ
  or_errno c undo next = do r ← perform sys c; if eq_ℤ r (pos 0) then next else undo

  abbrev pub get_errno : Cmd ℤ
  get_errno = perform sys errno

  -- destroy the attributes, then read errno
  destroy_attr : Cmd ℤ
  destroy_attr = perform sys mutexattr_destroy >> get_errno

  init_handle : ℕ → Cmd ℤ
  unfolding destroy_attr
  init_handle m =
      or_errno (mutex_init m) destroy_attr (perform sys mutexattr_destroy >> pure success)

  init_type : ℕ → ℕ → Cmd ℤ
  unfolding init_handle
  init_type m params =
      if bit_is_set params recursive
      then or_errno mutexattr_settype_recursive destroy_attr (init_handle m)
      else init_handle m

  -- `spr_mutex_init`
  unfoldable pub init : ℕ → ℕ → Cmd ℤ
  unfolding init_type
  init m params = or_errno mutexattr_init get_errno (
      if bit_is_set params shared
      then or_errno mutexattr_setpshared_shared destroy_attr (init_type m params)
      else if bit_is_set params private
      then or_errno mutexattr_setpshared_private destroy_attr (init_type m params)
      else init_type m params)

  -- `spr_mutex_lock`
  unfoldable pub lock : ℕ → Cmd ℤ
  lock m = or_errno (mutex_lock m) get_errno (pure success)

  -- `spr_mutex_trylock`
  unfoldable pub trylock : ℕ → Cmd ℤ
  trylock m = or_errno (mutex_trylock m) (pure busy) (pure success)

  -- `spr_mutex_unlock`
  unfoldable pub unlock : ℕ → Cmd ℤ
  unlock m = or_errno (mutex_unlock m) get_errno (pure success)

  -- `spr_mutex_fini`
  unfoldable pub fini : ℕ → Cmd ℤ
  fini m = perform sys (mutex_destroy m)
