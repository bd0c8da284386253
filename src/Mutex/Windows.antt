-- ===== src/Mutex/Windows.antt =====
-- lib/thread/spr_mutex.c for Windows: a critical section if the mutex is to be recursive, else a mutex
-- of the system. The calls are a parameter; a critical section is known by its address.
use spr.Base.{ℕ, Bool, true, false, ◌==◌, if◌then◌else◌}
use spr.Base.Int.{ℤ}
use spr.Host.{Step, pure, ◌>>=◌, get_errno}
use spr.Mutex.{success, busy, recursive, bit_is_set}

-- `spr_mutex_type_t`
pub data MutexType : Type 0 where
  critical_section mutex : MutexType

-- `spr_mutex_s` at an address
pub record WinMutex : Type 0 where
  pub section : ℕ
  pub handle : ℕ
  pub type_of : MutexType

-- The calls; `wait` is `WaitForSingleObject`, forever or not at all, and 0 is WAIT_OBJECT_0.
pub record Sections (S : Type 0) : Type 0 where
  pub get_last_error : S → ℤ
  pub initialize : ℕ → Step S (Unit {0})
  pub enter : ℕ → Step S (Unit {0})
  pub try_enter : ℕ → Step S ℕ
  pub leave : ℕ → Step S (Unit {0})
  pub delete : ℕ → Step S (Unit {0})
  pub create_mutex : Step S ℕ
  pub wait : ℕ → (forever : Bool) → Step S ℕ
  pub release_mutex : ℕ → Step S ℕ
  pub close_handle : ℕ → Step S ℕ

module _ {S : Type 0} (os : Sections S) where
  unfoldable pub win_init : WinMutex → ℕ → Step S (ℤ × WinMutex)
  win_init m params =
      if bit_is_set params recursive
      then (do
        r ← os.initialize m.section
        pure (success, record m { handle = 0; type_of = critical_section }))
      else (do
        handle ← os.create_mutex
        if handle == 0
            then (do err ← get_errno os.get_last_error; pure (err, m))
            else pure (success, record m { handle = handle; type_of = mutex }))

  unfoldable pub win_lock : WinMutex → Step S ℤ
  win_lock m = elim m.type_of [
    | critical_section ↦ do r ← os.enter m.section; pure success
    | mutex ↦ do
      r ← os.wait m.handle true
      if r == 0 then pure success else get_errno os.get_last_error
  ]

  unfoldable pub win_trylock : WinMutex → Step S ℤ
  win_trylock m = elim m.type_of [
    | critical_section ↦ do r ← os.try_enter m.section; pure (if r == 0 then busy else success)
    | mutex ↦ do r ← os.wait m.handle false; pure (if r == 0 then success else busy)
  ]

  unfoldable pub win_unlock : WinMutex → Step S ℤ
  win_unlock m = elim m.type_of [
    | critical_section ↦ do r ← os.leave m.section; pure success
    | mutex ↦ do
      r ← os.release_mutex m.handle
      if r == 0 then get_errno os.get_last_error else pure success
  ]

  unfoldable pub win_fini : WinMutex → Step S (Unit {0})
  win_fini m = elim m.type_of [
    | critical_section ↦ os.delete m.section
    | mutex ↦ do r ← os.close_handle m.handle; pure tt
  ]
