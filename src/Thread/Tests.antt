-- ===== src/Thread/Tests.antt =====
-- The theorem on threads at a system in which the size of the stack is refused.
use spr.Base.{true, List}
use spr.Base.Int.{ℤ, pos}
use spr.Sys.{Call, errno, attr_setstacksize, Event, System, Returns}
use spr.Example.{world}
use spr.Thread.{thread_init}
use spr.Thread.Attributes.Calls.{Tried, Leaves, thread_calls, thread_init-MadeOrLeft}

abbrev answer : List Event → Call → ℤ
answer log (attr_setstacksize size) = pos 22
answer log errno = pos 0
answer log c = pos 0

abbrev refusing : System
refusing = record { malloc = λ log size. 0; call = answer; self = 7 }

thread_init-MadeOrLeft_example :
    Returns
      (λ r w'. Tried refusing (thread_calls 4096 5 100 8 9) world r w' × Leaves true 0 0 r w')
      (thread_init refusing 4096 5 100 8 9 world)
thread_init-MadeOrLeft_example = thread_init-MadeOrLeft refusing 4096 5 100 8 9 world
