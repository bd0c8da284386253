-- ===== src/Semaphore.antt =====
-- lib/thread/spr_semaphore.c (POSIX): a semaphore is known by its address.
pub mod Count
pub mod Dispatch
pub mod Windows
mod Tests
use spr.Base.{ℕ, ◌%◌, ◌^◌, if◌then◌else◌}
use spr.Base.Int.{ℤ, pos, negsuc, eq_ℤ}
use spr.Mutex.{success, busy, bit_is_set, or_errno, get_errno}
use spr.Sys.{
  Call, sem_init, sem_wait, sem_trywait, sem_post, sem_destroy, System, Cmd, pure, ◌>>=◌, perform,
}

-- `SPR_SEMAPHORE_PRIVATE` and `SPR_SEMAPHORE_SHARED`
abbrev pub semaphore_private : ℕ
semaphore_private = 0x1

abbrev pub semaphore_shared : ℕ
semaphore_shared = 0x2

module _ (sys : System) where
  -- `if (call != 0) return spr_get_errno(); return SPR_OK;`
  abbrev pub checked : Call → Cmd ℤ
  checked c = or_errno sys c (get_errno sys) (pure success)

  -- `spr_semaphore_init`: both flags at once are refused, and the
  -- value is passed as an `unsigned int`
  unfoldable pub semaphore_init : (semaphore value params : ℕ) → Cmd ℤ
  semaphore_init semaphore value params =
      if bit_is_set params semaphore_shared
      then if bit_is_set params semaphore_private
        then pure (negsuc 0)
        else checked (sem_init semaphore 1 (value % 2 ^ 32))
      else checked (sem_init semaphore 0 (value % 2 ^ 32))

  unfoldable pub semaphore_wait : ℕ → Cmd ℤ
  semaphore_wait semaphore = checked (sem_wait semaphore)

  -- Whatever the failure is, it is reported as busy.
  unfoldable pub semaphore_trywait : ℕ → Cmd ℤ
  semaphore_trywait semaphore = do
    r ← perform sys (sem_trywait semaphore)
    pure (if eq_ℤ r (pos 0) then success else busy)

  unfoldable pub semaphore_post : ℕ → Cmd ℤ
  semaphore_post semaphore = checked (sem_post semaphore)

  unfoldable pub semaphore_fini : ℕ → Cmd (Unit {0})
  semaphore_fini semaphore = do r ← perform sys (sem_destroy semaphore); pure tt
