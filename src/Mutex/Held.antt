-- ===== src/Mutex/Held.antt =====
-- How often a mutex is held, as the log tells, and what pthreads promise of a recursive mutex that
-- the calling thread may lock.
use spr.Base.{ℕ, ◌+◌, ◌-◌, ◌≡◌, ◌≢◌, refl, List, [], ◌∷◌, ◌&&◌, ◌==◌, ==_iff, if◌then◌else◌, arith}
use spr.Base.Int.{ℤ, pos, eq_ℤ}
use spr.Sys.{
  Call, mutex_lock, mutex_unlock, Event, allocated, released, handled, zeroed, stored, answered,
  World, System, Returns, returns,
}
use spr.Mutex

-- One call that succeeds on this mutex takes it once more, or gives it back once.
abbrev pub held_after : ℕ → Call → ℤ → ℕ → ℕ
held_after m (mutex_lock k) r n = if k == m && eq_ℤ r (pos 0) then n + 1 else n
held_after m (mutex_unlock k) r n = if k == m && eq_ℤ r (pos 0) then n - 1 else n
held_after m _ r n = n

abbrev pub held : ℕ → List Event → ℕ
held m [] = 0
held m (answered c r ∷ log) = held_after m c r (held m log)
held m (allocated _ _ ∷ log) = held m log
held m (released _ ∷ log) = held m log
held m (handled _ _ ∷ log) = held m log
held m (zeroed _ _ ∷ log) = held m log
held m (stored _ _ ∷ log) = held m log

-- Locking succeeds, and unlocking does where the mutex is held.
pub record IsRecursive (sys : System) (m : ℕ) : Type 0 where
  pub locks : (log : List Event) → sys.call log (mutex_lock m) ≡ pos 0
  pub unlocks : (log : List Event) → held m log ≢ 0 → sys.call log (mutex_unlock m) ≡ pos 0

module _ (sys : System) (m : ℕ) (rec : IsRecursive sys m) (w : World) where
  pub lock-held : Returns (λ _ w'. held m w'.log ≡ held m w.log + 1) (Mutex.lock sys m w)
  unfolding Mutex.lock
  lock-held = rw (rec.locks w.log) (returns (rw ((==_iff m m).1 refl)))

  pub unlock-held :
      held m w.log ≢ 0 → Returns (λ _ w'. held m w'.log + 1 ≡ held m w.log) (Mutex.unlock sys m w)
  unfolding Mutex.unlock
  unlock-held ne = rw (rec.unlocks w.log ne) (returns (rw ((==_iff m m).1 refl) (omega arith)))
