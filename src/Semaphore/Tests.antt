-- ===== src/Semaphore/Tests.antt =====
-- The theorem on semaphores at a system in which a wait fails where the value is zero.
use spr.Base.{◌+◌, ◌%◌, ◌^◌, ◌≤◌, refl, List, [], ◌∷◌, ◌==◌, if◌then◌else◌, arith}
use spr.Base.Int.{ℤ, pos, negsuc}
use spr.Sys.{Call, errno, sem_wait, sem_trywait, Event, System, Returns}
use spr.Example.{world}
use spr.Semaphore.Count.{
  value_of, IsSemaphore, wait, trywait, post, use_semaphore, taken, posted, use_semaphore-taken,
}

abbrev answer : List Event → Call → ℤ
answer log (sem_wait s) = if value_of s log == 0 then negsuc 0 else pos 0
answer log (sem_trywait s) = if value_of s log == 0 then negsuc 0 else pos 0
answer log errno = pos 11
answer log c = pos 0

abbrev counting : System
counting = record { malloc = λ log size. 0; call = answer; self = 7 }

counting-IsSemaphore : IsSemaphore counting 5
counting-IsSemaphore = record {
  waits = λ log y. ground arith;
  trywaits = λ log y. ground arith;
  wait_errno = λ log r n. refl;
  post_errno = λ log r n. refl;
  init_errno = λ log shared value r n. refl;
}

use_semaphore-taken_example :
    Returns
      (λ rs w'. taken rs ≤ 1 % 2 ^ 32 + posted rs)
      (use_semaphore counting 5 1 0 (wait ∷ trywait ∷ post ∷ trywait ∷ []) world)
use_semaphore-taken_example =
    use_semaphore-taken counting 5 1 0 counting-IsSemaphore (wait ∷ trywait ∷ post ∷ trywait ∷ [])
      world
