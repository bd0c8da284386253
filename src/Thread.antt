-- ===== src/Thread.antt =====
-- lib/thread/spr_thread.c (POSIX): a thread is known by the address of its handle.
pub mod Attributes
pub mod Identity
pub mod Windows
mod Tests
use spr.Base.{ℕ, ◌==◌, if◌then◌else◌}
use spr.Base.Int.{ℤ}
use spr.Mutex.{success, bit_is_set, or_errno, get_errno}
use spr.Semaphore.{checked}
use spr.Sys.{
  Call, attr_init, attr_destroy, attr_setscope_system, attr_setscope_process,
  attr_setdetachstate_detached, attr_setdetachstate_joinable, attr_setstacksize, thread_create,
  thread_join, thread_cancel, System, Cmd, pure, ◌>>=◌, perform,
}

abbrev pub scope_system : ℕ
scope_system = 0x1

abbrev pub scope_process : ℕ
scope_process = 0x2

abbrev pub create_detached : ℕ
create_detached = 0x4

abbrev pub create_joinable : ℕ
create_joinable = 0x8

module _ (sys : System) where
  -- `if (call != 0) return spr_get_errno();`, then the rest
  abbrev pub or_return : Call → Cmd ℤ → Cmd ℤ
  or_return c next = or_errno sys c (get_errno sys) next

  -- the scope, if a flag asks for one
  unfoldable pub set_scope : ℕ → Cmd ℤ → Cmd ℤ
  set_scope params next =
      if bit_is_set params scope_system
      then or_return attr_setscope_system next
      else if bit_is_set params scope_process
      then or_return attr_setscope_process next
      else next

  unfoldable pub set_detach_state : ℕ → Cmd ℤ → Cmd ℤ
  set_detach_state params next =
      if bit_is_set params create_detached
      then or_return attr_setdetachstate_detached next
      else if bit_is_set params create_joinable
      then or_return attr_setdetachstate_joinable next
      else next

  unfoldable pub set_stack_size : ℕ → Cmd ℤ → Cmd ℤ
  set_stack_size stack_size next =
      if stack_size == 0 then next else or_return (attr_setstacksize stack_size) next

  -- `spr_thread_init`: an error of `pthread_attr_destroy` is ignored, and after any other the
  -- attributes are not destroyed
  unfoldable pub thread_init : (thread params stack_size start_routine argument : ℕ) → Cmd ℤ
  unfolding set_scope set_detach_state set_stack_size
  thread_init thread params stack_size start_routine argument =
      let destroy : Cmd ℤ = (do r ← perform sys attr_destroy; pure success) in
      let create = or_return (thread_create thread start_routine argument) destroy in
      or_return attr_init
        (set_scope params (set_detach_state params (set_stack_size stack_size create)))

  unfoldable pub join : ℕ → Cmd ℤ
  join thread = checked sys (thread_join thread)

  unfoldable pub cancel : ℕ → Cmd ℤ
  cancel thread = checked sys (thread_cancel thread)

-- `spr_thread_current_tid` where there is no call for it but `pthread_self`
unfoldable pub current_tid : System → Cmd ℕ
current_tid sys = pure sys.self

-- `spr_thread_fini` does nothing.
unfoldable pub thread_fini : ℕ → Cmd (Unit {0})
thread_fini thread = pure tt
